-- ===== src/Validation/DryRun.antt =====
-- validation.ts: what the plan of a dry run says of a workflow.
use miracle_agent.Prelude.{
  ℕ, String, Bool, true, false, not, List, [], ◌∷◌, ◌++◌, map, filter, All, string_eq, ◌≡◌, refl,
  ◌≢◌, ◌↔◌, length, ltb, arith,
}
use miracle_agent.Types.{WorkflowSpec, ValidationIssue, Severity, Risk}
use miracle_agent.Validation.{
  Parsed, refused, parsed, validate_parsed, validate_workflow_spec, missing_credentials,
  create_dry_run_plan, is_empty, error_risk, credential_risk, gate_risk, branch_risk, when,
  schema_issue,
}

-- A risk that stops the launch.
abbrev pub Blocks : Risk → Type 0
Blocks r = r.severity ≡ Severity.p0

All-append_iff {ℓ κ} :
    {A : Type ℓ} (P : A → Type κ) (xs ys : List A) → All P (xs ++ ys) ↔ (All P xs × All P ys)
All-append_iff P [] ys = (λ h. (tt, h), λ h. h.1)
All-append_iff P (x ∷ xs) ys =
    let rest = All-append_iff P xs ys in
    (λ (p, h). let (a, b) = rest.0 h in ((p, a), b), λ ((p, a), b). (p, rest.1 (a, b)))

-- A list of risks that all block, of which none does, is empty.
blocking-nil_iff {ℓ} :
    {A : Type ℓ} (f : A → Risk)
    → ((x : A) → Blocks (f x))
    → (xs : List A) → All (λ r. ¬ Blocks r) (map f xs) ↔ (is_empty xs ≡ true)
blocking-nil_iff f b [] = (λ h. refl, λ h. tt)
blocking-nil_iff f b (x ∷ xs) = (λ (h, _). absurd (h (b x)), λ h. cc)

harmless : (b : Bool) (r : Risk) → ¬ Blocks r → All (λ x. ¬ Blocks x) (when b r)
harmless true r h = (h, tt)
harmless false r h = tt

gate-harmless : (n : ℕ) → ¬ Blocks (gate_risk n)
gate-harmless n e = cc

branch-harmless : (n : ℕ) → ¬ Blocks (branch_risk n)
branch-harmless n e = cc

branches-harmless :
    (gates optional : ℕ)
    → All
        (λ r. ¬ Blocks r)
        (when (ltb 0 gates) (gate_risk gates) ++ when (ltb 0 optional) (branch_risk optional))
branches-harmless gates optional =
    let both =
      All-append_iff (λ r. ¬ Blocks r) (when (ltb 0 gates) (gate_risk gates))
        (when (ltb 0 optional) (branch_risk optional)) in
    both.1 (
      harmless (ltb 0 gates) (gate_risk gates) (gate-harmless gates),
      harmless (ltb 0 optional) (branch_risk optional) (branch-harmless optional),
    )

-- Only the errors and the missing credentials block.
risks_iff :
    (errors : List ValidationIssue) (missing : List String) (gates optional : ℕ)
    → All
        (λ r. ¬ Blocks r)
        (map error_risk errors
          ++ (map credential_risk missing
              ++ (when (ltb 0 gates) (gate_risk gates)
                  ++ when (ltb 0 optional) (branch_risk optional))))
      ↔ ((is_empty errors ≡ true) × (is_empty missing ≡ true))
risks_iff errors missing gates optional =
    let P : Risk → Type 0 = λ r. ¬ Blocks r in
    let rest =
      when (ltb 0 gates) (gate_risk gates) ++ when (ltb 0 optional) (branch_risk optional) in
    let outer = All-append_iff P (map error_risk errors) (map credential_risk missing ++ rest) in
    let inner = All-append_iff P (map credential_risk missing) rest in
    let on_errors = blocking-nil_iff error_risk (λ e. refl) errors in
    let on_missing = blocking-nil_iff credential_risk (λ c. refl) missing in
    (
      λ h. let (a, h₁) = outer.0 h in (on_errors.0 a, on_missing.0 (inner.0 h₁).0),
      λ (a, b). outer.1 (on_errors.1 a, inner.1 (on_missing.1 b, branches-harmless gates optional)),
    )

schema_errors :
    (issues : List (String × String)) → issues ≢ [] → is_empty (map schema_issue issues) ≡ false
schema_errors [] h = absurd (h refl)
schema_errors (x ∷ xs) h = refl

validate_parsed-valid :
    (checked_at : String) (p : Parsed)
    → ((issues : List (String × String)) → p ≡ refused issues → issues ≢ [])
    → (validate_parsed checked_at p).valid ≡ is_empty (validate_parsed checked_at p).errors
unfolding validate_parsed
validate_parsed-valid checked_at (refused issues) h = rw (schema_errors issues (h issues refl))
validate_parsed-valid checked_at (parsed w) h = refl

validate-valid :
    (safe_parse : WorkflowSpec → Parsed) (checked_at : String) (w : WorkflowSpec)
    → ((issues : List (String × String)) → safe_parse w ≡ refused issues → issues ≢ [])
    → (validate_workflow_spec safe_parse checked_at w).valid
      ≡ is_empty (validate_workflow_spec safe_parse checked_at w).errors
unfolding validate_workflow_spec
validate-valid safe_parse checked_at w h = validate_parsed-valid checked_at (safe_parse w) h

-- A dry run is valid exactly when none of its risks is a P0. A schema that refuses a workflow gives
-- at least one issue.
pub create_dry_run_plan-valid_iff :
    (safe_parse : WorkflowSpec → Parsed) (checked_at : String) (stamp : ℕ) (w : WorkflowSpec)
    (available : List String)
    → ((issues : List (String × String)) → safe_parse w ≡ refused issues → issues ≢ [])
    → ((create_dry_run_plan safe_parse checked_at stamp w available).valid ≡ true)
      ↔ All (λ r. ¬ Blocks r) (create_dry_run_plan safe_parse checked_at stamp w available).risks
unfolding create_dry_run_plan
create_dry_run_plan-valid_iff safe_parse checked_at stamp w available explains =
    let v = validate_workflow_spec safe_parse checked_at w in
    let missing = missing_credentials w available in
    let same = validate-valid safe_parse checked_at w explains in
    let risks =
      risks_iff v.errors missing (length w.gates) (length (filter (λ e. not e.required) w.edges)) in
    (λ h. risks.1 (ground arith), λ h. let both = risks.0 h in ground arith)
