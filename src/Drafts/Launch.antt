-- ===== src/Drafts/Launch.antt =====
-- run-drafts.ts with validation.ts: what a confirmed launch has been checked for.
use miracle_agent.Prelude.{
  ℕ, String, true, Option, none, some, get_or, List, [], ◌∷◌, ◌++◌, map, any, All, Memᴰ, ◌≡◌, refl,
  sym, subst, ◌+++◌, inl, inr, ◌⊎◌, ok, arith, includes, string_eq, includes→Memᴰ, Bool-cases,
  reverse, find-eq-some, any→Memᴰ, filter-Memᴰ, eq_iff, ◌==◌, not, false,
}
use mathlib.Core.List.{reverse-cons}
use miracle_agent.Prelude.Json.{Json}
use miracle_agent.Types.{WorkflowSpec, CredentialScope, BlockingScope, EdgeSpec}
use miracle_agent.Validation.{
  Parsed, parsed, validate_parsed, validate_workflow_spec, create_dry_run_plan,
}
use miracle_agent.Validation.WellFormed.{IsWellFormed}
use miracle_agent.Validation.Exact.{validate_parsed-valid_iff}
use miracle_agent.Canonical.{Host}
use miracle_agent.Drafts.{RunDraft, LaunchConfirmation, Change, confirms, confirm_run_draft}
use miracle_agent.Drafts.Confirmation.{confirm_run_draft-ok_iff}
use miracle_agent.Drafts.Plan.{
  RunDraftDryRunPlan, credential_scope, branch_edges, optional_branch_id, declared_scope,
  scope_or_required, is_optional_only, is_optional_scope, default_credential_scopes, check_of,
  blocks_required,
}
use miracle_agent.Drafts.DryRun.{
  gate_acknowledgements, plan_without_hash, create_run_draft_dry_run_plan, summary_of,
}

-- The workflow declares the credential for a branch that has an optional edge.
pub record IsForOptionalBranch (w : WorkflowSpec) (ref : String) : Type 0 where
  pub scope : CredentialScope
  pub declared : Memᴰ scope (get_or w.provider_policy.credential_scopes [])
  pub named : scope.credential_ref ≡ ref
  pub optional : scope.blocking_scope ≡ BlockingScope.optional_branch
  pub edge : EdgeSpec
  pub listed : Memᴰ edge w.edges
  pub not_required : edge.required ≡ false
  pub branch : optional_branch_id edge ≡ scope.required_for_branch

last-Memᴰ : {A : Type 0} {x : A} (xs : List A) (y : A) → Memᴰ x (xs ++ y ∷ []) → (x ≡ y) ⊎ Memᴰ x xs
last-Memᴰ [] y (Memᴰ.head e) = inl e
last-Memᴰ [] y (Memᴰ.tail m) = elim m [ ]
last-Memᴰ (z ∷ zs) y (Memᴰ.head e) = inr (Memᴰ.head e)
last-Memᴰ (z ∷ zs) y (Memᴰ.tail m) = elim (last-Memᴰ zs y m) [
  | inl e ↦ inl e
  | inr k ↦ inr (Memᴰ.tail k)
]

reverse-Memᴰ : {A : Type 0} {x : A} (xs : List A) → Memᴰ x (reverse xs) → Memᴰ x xs
reverse-Memᴰ [] m = elim m [ ]
reverse-Memᴰ (y ∷ ys) m = elim (last-Memᴰ (reverse ys) y (rw (reverse-cons y ys) at m)) [
  | inl e ↦ Memᴰ.head e
  | inr k ↦ Memᴰ.tail (reverse-Memᴰ ys k)
]

scope_or_required-optional :
    (w : WorkflowSpec) (ref : String) (declared : Option CredentialScope)
    → declared_scope w ref ≡ declared
    → is_optional_scope (scope_or_required w ref declared).blocking_scope ≡ true
    → IsForOptionalBranch w ref
scope_or_required-optional w ref none found h = cc h
scope_or_required-optional w ref (some scope) found h =
    elim (Bool-cases (is_optional_only w scope)) [
      | inr other ↦ cc (rw other at h)
      | inl only ↦
          let scopes = get_or w.provider_policy.credential_scopes [] in
          let (m, named) = find-eq-some (λ s. s.credential_ref == ref) (reverse scopes) found in
          let some_edge : any (λ e. not e.required) (branch_edges w scope) ≡ true = ground arith in
          let (edge, k, free) = any→Memᴰ (λ e. not e.required) (branch_edges w scope) some_edge in
          let (listed, branch) =
            filter-Memᴰ (λ e. optional_branch_id e == scope.required_for_branch) w.edges k in
          record {
            scope = scope;
            declared = reverse-Memᴰ scopes m;
            named = (eq_iff scope.credential_ref ref).0 named;
            optional = ground arith;
            edge = edge;
            listed = listed;
            not_required = ground arith;
            branch = (eq_iff (optional_branch_id edge) scope.required_for_branch).0 branch;
          }
    ]

-- A credential that is there, or that is declared for a branch with an optional edge.
abbrev pub Covered : WorkflowSpec → List String → String → Type 0
Covered w available ref = Memᴰ ref available ⊎ IsForOptionalBranch w ref

All-prefix {ℓ κ} : {A : Type ℓ} (P : A → Type κ) (xs ys : List A) → All P (xs ++ ys) → All P xs
All-prefix P [] ys h = tt
All-prefix P (x ∷ xs) ys (here, there) = (here, All-prefix P xs ys there)

All-unmap {ℓ κ} :
    {A : Type ℓ} {B : Type ℓ} (P : B → Type κ) (f : A → B) (xs : List A)
    → All P (map f xs)
    → All (λ x. P (f x)) xs
All-unmap P f [] h = tt
All-unmap P f (x ∷ xs) (here, there) = (here, All-unmap P f xs there)

scope-names :
    (w : WorkflowSpec) (ref : String) (declared : Option CredentialScope)
    → is_optional_scope (scope_or_required w ref declared).blocking_scope ≡ false
    → (scope_or_required w ref declared).credential_ref ≡ ref
scope-names w ref none h = refl
scope-names w ref (some scope) h = elim (Bool-cases (is_optional_only w scope)) [
  | inl only ↦ absurd (ground arith)
  | inr other ↦ rw other refl
]

all-Covered :
    (w : WorkflowSpec) (available refs : List String)
    → any blocks_required (map (check_of available) (map (credential_scope w) refs)) ≡ false
    → All (Covered w available) refs
unfolding credential_scope
all-Covered w available [] h = tt
all-Covered w available (ref ∷ refs) h =
    let rest = all-Covered w available refs (ground arith) in
    elim (Bool-cases (is_optional_scope (credential_scope w ref).blocking_scope)) [
      | inl optional ↦
          (inr (scope_or_required-optional w ref (declared_scope w ref) refl optional), rest)
      | inr required ↦
          let same = scope-names w ref (declared_scope w ref) required in
          let there : includes available (credential_scope w ref).credential_ref ≡ true =
            ground arith in
          (inl (includes→Memᴰ available ref (rw same at there)), rest)
    ]

module _ (host : Host) (workflow_json : WorkflowSpec → Json)
    (hash_json : RunDraft → RunDraftDryRunPlan → Json) (safe_parse : WorkflowSpec → Parsed)
    (current checked_at : String) (stamp : ℕ) (d : RunDraft) (w : WorkflowSpec)
    (available : Option (List String)) (now : Option String) where
  abbrev made_plan : RunDraftDryRunPlan
  made_plan =
      create_run_draft_dry_run_plan host workflow_json hash_json safe_parse current checked_at stamp
        d w available now

  ready-plan :
      safe_parse w ≡ parsed w
      → (summary_of made_plan).required_path_ready ≡ true
      → ((validate_parsed checked_at (parsed w)).valid ≡ true)
        × All (Covered w (get_or available [])) w.provider_policy.required_credentials
  unfolding create_run_draft_dry_run_plan plan_without_hash create_dry_run_plan
      validate_workflow_spec default_credential_scopes
  ready-plan accepted h = (
    ground (arith, accepted),
    all-Covered w (get_or available []) w.provider_policy.required_credentials (ground arith),
  )

  plan-gates :
      (P : String → Type 0)
      → All P made_plan.required_acknowledgements
      → All (λ g. P ("required_gate:" +++ g.id)) w.gates
  unfolding create_run_draft_dry_run_plan plan_without_hash
  plan-gates P h =
      All-unmap P (λ g. "required_gate:" +++ g.id) w.gates
        (All-prefix P (gate_acknowledgements w) _ h)

-- A draft whose plan was just made, and which no live confirmation covers yet, is confirmed only if
-- its workflow is well formed, each of its required credentials is available or declared for a
-- branch that has an optional edge, whether or not a required edge is of that branch too, and every
-- gate of the workflow is acknowledged. The schema accepts the workflow.
pub confirmed_launch :
    (host : Host) (workflow_json : WorkflowSpec → Json)
    (hash_json : RunDraft → RunDraftDryRunPlan → Json) (safe_parse : WorkflowSpec → Parsed)
    (current checked_at : String) (stamp : ℕ) (d : RunDraft) (w : WorkflowSpec)
    (available : Option (List String)) (now : Option String) (plan : RunDraftDryRunPlan)
    (later actor : String) (existing : Option LaunchConfirmation) (acknowledgements : List String)
    (now' : Option String) (after : Change)
    → safe_parse w ≡ parsed w
    → create_run_draft_dry_run_plan host workflow_json hash_json safe_parse current checked_at stamp
        d w available now
      ≡ plan
    → confirms existing (summary_of plan) ≡ false
    → confirm_run_draft later d (summary_of plan) existing actor acknowledgements now' ≡ ok after
    → IsWellFormed w
      × All (Covered w (get_or available [])) w.provider_policy.required_credentials
      × All (λ g. Memᴰ ("required_gate:" +++ g.id) acknowledgements) w.gates
confirmed_launch host workflow_json hash_json safe_parse current checked_at stamp d w available now
      plan later actor existing acknowledgements now' after accepted made fresh h =
    let decided =
      confirm_run_draft-ok_iff later d (summary_of plan) existing actor acknowledgements now' after
        fresh in
    let (may, _) = decided.0 h in
    let (valid, covered) =
      ready-plan host workflow_json hash_json safe_parse current checked_at stamp d w available now
        accepted (subst (λ p. (summary_of p).required_path_ready ≡ true) (sym made) may.ready) in
    let acknowledged =
      subst (λ p. All (λ a. Memᴰ a acknowledgements) p.required_acknowledgements) (sym made)
        may.acknowledged in
    (
      (validate_parsed-valid_iff checked_at w).0 valid,
      covered,
      plan-gates host workflow_json hash_json safe_parse current checked_at stamp d w available now
          (λ a. Memᴰ a acknowledgements) acknowledged,
    )
