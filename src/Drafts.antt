-- ===== src/Drafts.antt =====
-- packages/core/src/run-drafts.ts: the life of a run draft, from its creation to the confirmation
-- of its launch. Its types are in Types/Draft. `current` is what `new Date().toISOString()` returns at the call; a workflow and
-- the inputs of a draft are compared and hashed through their JSON values.
mod Confirmation
mod Lifecycle
mod Refusals
pub mod Plan
pub mod DryRun
mod Launch
mod Tests
use miracle_agent.Prelude.{
  ℕ, ◌+◌, String, Bool, true, false, not, ◌&&◌, ◌||◌, Option, none, some, get_or, List, [], ◌∷◌,
  filter, includes, unique, sort_by, ◌==◌, string_eq, is_nonempty, show, if◌then◌else◌, ◌+++◌,
  Result, ok, coded, guard, ◌>>◌,
}
use miracle_agent.Prelude.Json.{Json, object, array, Items, nil, cons, Fields, end, string}
use miracle_agent.Types.{ExecutionPolicy, WorkflowSpec}
pub use miracle_agent.Types.{
  RunDraftStatus, RunDraft, WorkflowSnapshotDraft, Decision, LaunchConfirmation, PlanSummary,
}
use miracle_agent.Canonical.{Host, canonical_json, canonical_plan_hash}

abbrev pub Change : Type 0
Change = RunDraft × Option LaunchConfirmation

-- The text of a status in a message.
unfoldable pub status_text : RunDraftStatus → String
status_text RunDraftStatus.draft = "draft"
status_text RunDraftStatus.ready_for_dry_run = "ready_for_dry_run"
status_text RunDraftStatus.ready_for_confirmation = "ready_for_confirmation"
status_text RunDraftStatus.confirmed = "confirmed"
status_text RunDraftStatus.launch_pending = "launch_pending"
status_text RunDraftStatus.converted = "converted"
status_text RunDraftStatus.cancelled = "cancelled"
status_text RunDraftStatus.expired = "expired"

abbrev pub is_terminal : RunDraftStatus → Bool
is_terminal RunDraftStatus.cancelled = true
is_terminal RunDraftStatus.converted = true
is_terminal RunDraftStatus.expired = true
is_terminal RunDraftStatus.launch_pending = true
is_terminal _ = false

abbrev pub is_confirmed : RunDraftStatus → Bool
is_confirmed RunDraftStatus.confirmed = true
is_confirmed _ = false

unfoldable pub assert_mutable : RunDraft → String → Result (Unit {0})
assert_mutable d action = guard (not (is_terminal d.status)) (
    coded "invalid_draft_transition"
      ("Cannot " +++ action +++ " RunDraft from terminal status " +++ status_text d.status +++ "."))

abbrev pub is_live : Decision → Bool
is_live Decision.confirmed = true
is_live _ = false

-- A confirmation that a new revision replaces, if it is live.
abbrev pub replaced_by : Decision → ℕ → LaunchConfirmation → LaunchConfirmation
replaced_by decision revision c =
    if is_live c.decision
    then record c { decision = decision; superseded_by_revision = some revision }
    else c

abbrev pub replace_confirmation :
    Decision → ℕ → Option LaunchConfirmation → Option LaunchConfirmation
replace_confirmation decision revision none = none
replace_confirmation decision revision (some c) = some (replaced_by decision revision c)

abbrev pub policy_eq : ExecutionPolicy → ExecutionPolicy → Bool
policy_eq ExecutionPolicy.auto ExecutionPolicy.auto = true
policy_eq ExecutionPolicy.manual ExecutionPolicy.manual = true
policy_eq ExecutionPolicy.hybrid ExecutionPolicy.hybrid = true
policy_eq _ _ = false

-- The draft after a change that its plan did not see: a new revision that must be planned again.
abbrev pub reopened : RunDraft → String → RunDraft
reopened d updated_at = record d {
  status = RunDraftStatus.ready_for_dry_run;
  latest_plan_id = none;
  latest_plan_hash = none;
  confirmation_id = none;
  revision = d.revision + 1;
  updated_at = updated_at;
}

pub record DraftPatch : Type 0 where
  pub inputs : Option Fields
  pub enabled_optional_paths : Option (List String)
  pub execution_policy : Option ExecutionPolicy

abbrev pub texts : List String → Items
texts [] = nil
texts (s ∷ rest) = cons (string s) (texts rest)

-- `state.draft.latest_plan_hash && … !== plan_hash`
abbrev pub stale_hash : Option String → String → Bool
stale_hash none hash = false
stale_hash (some latest) hash = is_nonempty latest && not (latest == hash)

module _ (host : Host) (workflow_json : WorkflowSpec → Json) where
  -- `[...new Set(paths)].sort()`
  unfoldable pub normal_paths : List String → List String
  normal_paths paths = sort_by host.key_order (unique paths)

  unfoldable pub create_run_draft :
      (draft_id current : String)
      → WorkflowSpec
      → (inputs : Option Fields) → (enabled_optional_paths : Option (List String))
      → Option ExecutionPolicy
      → (now : Option String) → RunDraft
  create_run_draft draft_id current workflow inputs paths policy now = record {
    draft_id = draft_id;
    workflow_id = workflow.id;
    workflow_source_hash = canonical_plan_hash host (workflow_json workflow);
    status = RunDraftStatus.draft;
    inputs = get_or inputs end;
    enabled_optional_paths = normal_paths (get_or paths []);
    execution_policy = get_or policy ExecutionPolicy.hybrid;
    latest_plan_id = none;
    latest_plan_hash = none;
    confirmation_id = none;
    converted_run_id = none;
    revision = 1;
    created_at = get_or now current;
    updated_at = get_or now current;
  }

  abbrev inputs_changed : Option Fields → Fields → Bool
  inputs_changed none old = false
  inputs_changed (some new) old =
      not (canonical_json host (object new) == canonical_json host (object old))

  abbrev paths_changed : Option (List String) → List String → Bool
  paths_changed none old = false
  paths_changed (some new) old = not (
      canonical_json host (array (texts (normal_paths new)))
      == canonical_json host (array (texts old)))

  abbrev policy_changed : Option ExecutionPolicy → ExecutionPolicy → Bool
  policy_changed none old = false
  policy_changed (some new) old = not (policy_eq new old)

  unfoldable pub patch_changes : DraftPatch → RunDraft → Bool
  patch_changes patch d =
      inputs_changed patch.inputs d.inputs
      || (paths_changed patch.enabled_optional_paths d.enabled_optional_paths
          || policy_changed patch.execution_policy d.execution_policy)

  abbrev patched_paths : Option (List String) → List String → List String
  patched_paths none old = old
  patched_paths (some new) old = normal_paths new

  abbrev pub patched : DraftPatch → RunDraft → RunDraft
  patched patch d = record d {
    inputs = get_or patch.inputs d.inputs;
    enabled_optional_paths = patched_paths patch.enabled_optional_paths d.enabled_optional_paths;
    execution_policy = get_or patch.execution_policy d.execution_policy;
  }

  unfoldable pub update_run_draft :
      (current : String)
      → RunDraft
      → Option LaunchConfirmation
      → DraftPatch
      → (now : Option String) → Result Change
  unfolding assert_mutable
  update_run_draft current d confirmation patch now = do
    assert_mutable d "update"
    if patch_changes patch d
        then ok (
          reopened (patched patch d) (get_or now current),
          replace_confirmation Decision.superseded (d.revision + 1) confirmation,
        )
        else ok (d, confirmation)

  unfoldable pub refresh_run_draft_workflow_source :
      (current : String)
      → RunDraft
      → Option LaunchConfirmation
      → WorkflowSpec
      → (now : Option String) → Change
  refresh_run_draft_workflow_source current d confirmation workflow now =
      let hash = canonical_plan_hash host (workflow_json workflow) in
      if hash == d.workflow_source_hash then (d, confirmation) else (
        record (reopened d (get_or now current)) { workflow_source_hash = hash },
        replace_confirmation Decision.superseded (d.revision + 1) confirmation,
      )

unfoldable pub revise_run_draft :
    (current : String)
    → RunDraft
    → Option LaunchConfirmation
    → (now : Option String) → Result Change
revise_run_draft current d confirmation now = do
  guard (is_confirmed d.status) (
      coded "invalid_draft_transition"
        ("Cannot revise RunDraft from " +++ status_text d.status +++ "."))
  ok (
    reopened d (get_or now current),
    replace_confirmation Decision.superseded (d.revision + 1) confirmation,
  )

unfoldable pub cancel_run_draft :
    (current : String)
    → RunDraft
    → Option LaunchConfirmation
    → (now : Option String) → Result Change
unfolding assert_mutable
cancel_run_draft current d confirmation now = do
  assert_mutable d "cancel"
  ok (
    record d {
      status = RunDraftStatus.cancelled;
      revision = d.revision + 1;
      updated_at = get_or now current;
    },
    replace_confirmation Decision.cancelled (d.revision + 1) confirmation,
  )

abbrev join_acks : List String → String
join_acks [] = ""
join_acks (a ∷ []) = a
join_acks (a ∷ b ∷ rest) = a +++ (", " +++ join_acks (b ∷ rest))

abbrev pub missing_acks : PlanSummary → List String → List String
missing_acks plan acknowledgements =
    filter (λ a. not (includes acknowledgements a)) plan.required_acknowledgements

abbrev pub is_nil {ℓ} : {A : Type ℓ} → List A → Bool
is_nil [] = true
is_nil (x ∷ xs) = false

-- A live confirmation of this very plan.
abbrev pub confirms : Option LaunchConfirmation → PlanSummary → Bool
confirms none plan = false
confirms (some c) plan = is_live c.decision && c.plan_hash == plan.plan_hash

abbrev pub new_confirmation :
    RunDraft → PlanSummary → (actor decided_at : String) → LaunchConfirmation
new_confirmation d plan actor decided_at = record {
  confirmation_id = "launch_confirm_" +++ d.draft_id +++ "_" +++ show d.revision;
  draft_id = d.draft_id;
  draft_plan_id = plan.draft_plan_id;
  plan_hash = plan.plan_hash;
  decision = Decision.confirmed;
  required_acknowledgements = plan.required_acknowledgements;
  actor = actor;
  decided_at = decided_at;
  superseded_by_revision = none;
}

abbrev pub confirmed_draft : RunDraft → PlanSummary → (decided_at : String) → RunDraft
confirmed_draft d plan decided_at = record d {
  status = RunDraftStatus.confirmed;
  latest_plan_id = some plan.draft_plan_id;
  latest_plan_hash = some plan.plan_hash;
  confirmation_id = some ("launch_confirm_" +++ d.draft_id +++ "_" +++ show d.revision);
  updated_at = decided_at;
}

unfoldable pub confirm_run_draft :
    (current : String)
    → RunDraft
    → PlanSummary
    → Option LaunchConfirmation
    → (actor : String) → (acknowledgements : List String) → (now : Option String) → Result Change
unfolding assert_mutable
confirm_run_draft current d plan existing actor acknowledgements now =
    let missing = missing_acks plan acknowledgements in
    let decided_at = get_or now current in
    if confirms existing plan then ok (d, existing) else do
      assert_mutable d "confirm"
      guard (plan.draft_id == d.draft_id && not (stale_hash d.latest_plan_hash plan.plan_hash)) (
          coded "plan_hash_mismatch"
            "The confirmation must reference the latest RunDraft plan hash.")
      guard plan.required_path_ready
          (coded "required_path_blocked" "The required path is blocked and cannot be confirmed.")
      guard (is_nil missing) (
          coded "missing_required_acknowledgements"
            ("Missing required acknowledgements: " +++ join_acks missing))
      ok (confirmed_draft d plan decided_at, some (new_confirmation d plan actor decided_at))
