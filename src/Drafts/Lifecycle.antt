-- ===== src/Drafts/Lifecycle.antt =====
-- run-drafts.ts: the states that the operations on a draft lead to.
use miracle_agent.Prelude.{
  ℕ, ◌+◌, ◌≤◌, String, Bool, false, Option, none, some, get_or, List, ◌≡◌, refl, inl, inr, ok, ◌∙◌,
  arith, Bool-cases, ◌==◌, string_eq,
}
use miracle_agent.Prelude.Json.{Json, Fields}
use miracle_agent.Types.{ExecutionPolicy, WorkflowSpec}
use miracle_agent.Canonical.{Host, canonical_plan_hash}
use miracle_agent.Drafts.{
  RunDraft, RunDraftStatus, LaunchConfirmation, PlanSummary, DraftPatch, Change, Decision,
  is_terminal, is_confirmed, assert_mutable, is_live, confirms, new_confirmation, confirmed_draft,
  reopened, replaced_by, replace_confirmation, patch_changes, patched, create_run_draft,
  update_run_draft, refresh_run_draft_workflow_source, revise_run_draft, cancel_run_draft,
  confirm_run_draft,
}
use miracle_agent.Drafts.Confirmation.{confirm_run_draft-ok_iff}

-- One call of the core on a draft and its confirmation. A plan is any that the caller brings.
pub data Step (host : Host) (json : WorkflowSpec → Json) : Change → Change → Type 0 where
  update :
      {d : RunDraft} {c : Option LaunchConfirmation} {after : Change} (current : String)
      (patch : DraftPatch) (now : Option String)
      → update_run_draft host json current d c patch now ≡ ok after
      → Step host json (d, c) after
  refresh :
      {d : RunDraft} {c : Option LaunchConfirmation} (current : String) (workflow : WorkflowSpec)
      (now : Option String)
      → Step host json (d, c) (refresh_run_draft_workflow_source host json current d c workflow now)
  revise :
      {d : RunDraft} {c : Option LaunchConfirmation} {after : Change} (current : String)
      (now : Option String)
      → revise_run_draft current d c now ≡ ok after
      → Step host json (d, c) after
  cancel :
      {d : RunDraft} {c : Option LaunchConfirmation} {after : Change} (current : String)
      (now : Option String)
      → cancel_run_draft current d c now ≡ ok after
      → Step host json (d, c) after
  confirm :
      {d : RunDraft} {c : Option LaunchConfirmation} {after : Change} (current : String)
      (plan : PlanSummary) (actor : String) (acknowledgements : List String) (now : Option String)
      → confirm_run_draft current d plan c actor acknowledgements now ≡ ok after
      → Step host json (d, c) after

pub data Reachable (host : Host) (json : WorkflowSpec → Json) : Change → Type 0 where
  created :
      (draft_id current : String) (workflow : WorkflowSpec) (inputs : Option Fields)
      (paths : Option (List String)) (policy : Option ExecutionPolicy) (now : Option String)
      → Reachable host json
          (create_run_draft host json draft_id current workflow inputs paths policy now, none)
  stepped : {s t : Change} → Reachable host json s → Step host json s t → Reachable host json t

pub data Steps (host : Host) (json : WorkflowSpec → Json) : Change → Change → Type 0 where
  done : {s : Change} → Steps host json s s
  then : {s t u : Change} → Steps host json s t → Step host json t u → Steps host json s u

-- A confirmation belongs to the draft's latest plan, and the draft is confirmed.
pub record IsBacked (d : RunDraft) (c : LaunchConfirmation) : Type 0 where
  pub same_draft : c.draft_id ≡ d.draft_id
  pub named : d.confirmation_id ≡ some c.confirmation_id
  pub plan : d.latest_plan_id ≡ some c.draft_plan_id
  pub hash : d.latest_plan_hash ≡ some c.plan_hash
  pub status : d.status ≡ RunDraftStatus.confirmed

abbrev pub is_live_of : Option LaunchConfirmation → Bool
is_live_of none = false
is_live_of (some c) = is_live c.decision

pub data IsCoherent : Change → Type 0 where
  unconfirmed :
      {d : RunDraft} {c : Option LaunchConfirmation}
      → is_live_of c ≡ false
      → is_confirmed d.status ≡ false
      → IsCoherent (d, c)
  backed :
      {d : RunDraft} {c : LaunchConfirmation}
      → c.decision ≡ Decision.confirmed
      → IsBacked d c
      → IsCoherent (d, some c)

replaced_by-not_live :
    (decision : Decision) (revision : ℕ) (c : LaunchConfirmation)
    → is_live decision ≡ false
    → is_live (replaced_by decision revision c).decision ≡ false
replaced_by-not_live decision revision c h = elim (Bool-cases (is_live c.decision)) [
  | inl live ↦ rw live h
  | inr dead ↦ rw dead dead
]

replace_confirmation-not_live :
    (decision : Decision) (revision : ℕ) (c : Option LaunchConfirmation)
    → is_live decision ≡ false
    → is_live_of (replace_confirmation decision revision c) ≡ false
replace_confirmation-not_live decision revision none h = refl
replace_confirmation-not_live decision revision (some c) h =
    replaced_by-not_live decision revision c h

-- What a step does: nothing, or a new revision that no confirmation covers, or a confirmation.
data Effect : Change → Change → Type 0 where
  unchanged : {s : Change} → Effect s s
  replaced :
      {s : Change} (d : RunDraft) (decision : Decision)
      → is_live decision ≡ false
      → is_confirmed d.status ≡ false
      → d.revision ≡ s.0.revision + 1
      → Effect s (d, replace_confirmation decision (s.0.revision + 1) s.1)
  confirmed :
      {s : Change} (plan : PlanSummary) (actor at : String)
      → is_terminal s.0.status ≡ false
      → Effect s (confirmed_draft s.0 plan at, some (new_confirmation s.0 plan actor at))

effect-IsCoherent : {s t : Change} → Effect s t → IsCoherent s → IsCoherent t
effect-IsCoherent Effect.unchanged coherent = coherent
effect-IsCoherent (Effect.replaced {s} d decision dead plain next) coherent =
    IsCoherent.unconfirmed (replace_confirmation-not_live decision (s.0.revision + 1) s.1 dead)
      plain
effect-IsCoherent (Effect.confirmed {s} plan actor at changeable) coherent =
    IsCoherent.backed refl
      (record { same_draft = refl; named = refl; plan = refl; hash = refl; status = refl })

pub record IsSamePlanned (d e : RunDraft) : Type 0 where
  pub draft_id : d.draft_id ≡ e.draft_id
  pub workflow_source_hash : d.workflow_source_hash ≡ e.workflow_source_hash
  pub inputs : d.inputs ≡ e.inputs
  pub paths : d.enabled_optional_paths ≡ e.enabled_optional_paths
  pub policy : d.execution_policy ≡ e.execution_policy

effect-revision :
    {s t : Change}
    → Effect s t
    → (s.0.revision ≤ t.0.revision) × (s.0.revision ≡ t.0.revision → IsSamePlanned s.0 t.0)
effect-revision Effect.unchanged = (
  omega arith,
  λ e. record {
    draft_id = refl;
    workflow_source_hash = refl;
    inputs = refl;
    paths = refl;
    policy = refl;
  },
)
effect-revision (Effect.replaced {s} d decision dead plain next) =
    (omega arith, λ e. absurd (omega arith))
effect-revision (Effect.confirmed {s} plan actor at changeable) = (
  omega arith,
  λ e. record {
    draft_id = refl;
    workflow_source_hash = refl;
    inputs = refl;
    paths = refl;
    policy = refl;
  },
)

module _ {host : Host} {json : WorkflowSpec → Json} where
  step-Effect : {s t : Change} → Step host json s t → Effect s t
  unfolding update_run_draft refresh_run_draft_workflow_source revise_run_draft cancel_run_draft
      confirm_run_draft assert_mutable
  step-Effect (Step.update {d} {c} {after} current patch now h) =
      elim (Bool-cases (patch_changes host json patch d)) [
        | inl new ↦
            let same : after ≡ (
              reopened (patched host json patch d) (get_or now current),
              replace_confirmation Decision.superseded (d.revision + 1) c,
            ) =
              ground arith in
            rw same (Effect.replaced _ Decision.superseded refl refl refl)
        | inr old ↦ let same : after ≡ (d, c) = ground arith in rw same Effect.unchanged
      ]
  step-Effect (Step.refresh {d} {c} current workflow now) =
      elim (Bool-cases (canonical_plan_hash host (json workflow) == d.workflow_source_hash)) [
        | inl same ↦ rw same Effect.unchanged
        | inr new ↦ rw new (Effect.replaced _ Decision.superseded refl refl refl)
      ]
  step-Effect (Step.revise {d} {c} {after} current now h) =
      let same : after ≡ (
        reopened d (get_or now current),
        replace_confirmation Decision.superseded (d.revision + 1) c,
      ) =
        ground arith in
      rw same (Effect.replaced _ Decision.superseded refl refl refl)
  step-Effect (Step.cancel {d} {c} {after} current now h) =
      let same : after ≡ (
        record d {
          status = RunDraftStatus.cancelled;
          revision = d.revision + 1;
          updated_at = get_or now current;
        },
        replace_confirmation Decision.cancelled (d.revision + 1) c,
      ) =
        ground arith in
      rw same (Effect.replaced _ Decision.cancelled refl refl refl)
  step-Effect (Step.confirm {d} {c} {after} current plan actor acknowledgements now h) =
      elim (Bool-cases (confirms c plan)) [
        | inl live ↦ let same : after ≡ (d, c) = ground arith in rw same Effect.unchanged
        | inr fresh ↦
            let decided =
              confirm_run_draft-ok_iff current d plan c actor acknowledgements now after fresh in
            let (may, same) = decided.0 h in
            rw same (Effect.confirmed plan actor (get_or now current) may.changeable)
      ]

  -- In every state that the core's operations reach from a new draft, either the draft is not
  -- confirmed and no confirmation is live, or the draft is confirmed and its live confirmation
  -- names this draft, its latest plan and that plan's hash.
  pub reachable-IsCoherent : {s : Change} → Reachable host json s → IsCoherent s
  unfolding create_run_draft
  reachable-IsCoherent (Reachable.created draft_id current workflow inputs paths policy now) =
      IsCoherent.unconfirmed refl refl
  reachable-IsCoherent (Reachable.stepped r step) =
      effect-IsCoherent (step-Effect step) (reachable-IsCoherent r)

  revision_monotone :
      {s t : Change}
      → Steps host json s t
      → (s.0.revision ≤ t.0.revision) × (s.0.revision ≡ t.0.revision → IsSamePlanned s.0 t.0)
  revision_monotone Steps.done = (
    omega arith,
    λ e. record {
      draft_id = refl;
      workflow_source_hash = refl;
      inputs = refl;
      paths = refl;
      policy = refl;
    },
  )
  revision_monotone (Steps.then steps step) =
      let (before, same) = revision_monotone steps in
      let (after, last) = effect-revision (step-Effect step) in
      (
        omega arith,
        λ e.
            let p = same (omega arith) in
            let q = last (omega arith) in
            record {
              draft_id = p.draft_id ∙ q.draft_id;
              workflow_source_hash = p.workflow_source_hash ∙ q.workflow_source_hash;
              inputs = p.inputs ∙ q.inputs;
              paths = p.paths ∙ q.paths;
              policy = p.policy ∙ q.policy;
            },
      )

  -- Two states of a draft with the same revision, one reached from the other by the core's
  -- operations, agree on all that a plan is made from: the draft's identity, its workflow's hash,
  -- its inputs, its optional paths and its execution policy.
  pub same_revision-IsSamePlanned :
      {s t : Change} → Steps host json s t → s.0.revision ≡ t.0.revision → IsSamePlanned s.0 t.0
  same_revision-IsSamePlanned steps e = (revision_monotone steps).1 e
