-- ===== src/Validation/Tests.antt =====
-- The validation of a small workflow, and the theorems applied to it.
use miracle_agent.Prelude.{true, false, [], ◌∷◌, ◌≡◌, ◌↔◌, refl, All, show, string_eq}
use miracle_agent.Types.{WorkflowSpec}
use miracle_agent.Validation.{
  parsed, output_errors, node_errors, edge_errors, edge_warnings, artifact_errors, gate_errors,
  workflow_errors, validate_parsed, validate_workflow_spec, create_dry_run_plan,
}
use miracle_agent.Validation.WellFormed.{IsWellFormed}
use miracle_agent.Validation.Exact.{validate_parsed-valid_iff}
use miracle_agent.Validation.DryRun.{Blocks, create_dry_run_plan-valid_iff}
use miracle_agent.Samples.{workflow, edge}

program : Unit {0}
unfolding output_errors node_errors edge_errors edge_warnings artifact_errors gate_errors
    workflow_errors validate_parsed validate_workflow_spec create_dry_run_plan show
program = tt

valid : (validate_parsed "now" (parsed workflow)).valid ≡ true
unfolding program
valid = refl

abbrev broken : WorkflowSpec
broken = record workflow { edges = record edge { to = "nobody" } ∷ [] }

invalid : (validate_parsed "now" (parsed broken)).valid ≡ false
unfolding program
invalid = refl

launchable : (create_dry_run_plan parsed "now" 7 workflow ("key" ∷ [])).valid ≡ true
unfolding program
launchable = refl

unready : (create_dry_run_plan parsed "now" 7 workflow []).valid ≡ false
unfolding program
unready = refl

validate_parsed-valid_iff_example :
    ((validate_parsed "now" (parsed broken)).valid ≡ true) ↔ IsWellFormed broken
validate_parsed-valid_iff_example = validate_parsed-valid_iff "now" broken

create_dry_run_plan-valid_iff_example :
    ((create_dry_run_plan parsed "now" 7 workflow ("key" ∷ [])).valid ≡ true)
    ↔ All (λ r. ¬ Blocks r) (create_dry_run_plan parsed "now" 7 workflow ("key" ∷ [])).risks
create_dry_run_plan-valid_iff_example =
    create_dry_run_plan-valid_iff parsed "now" 7 workflow ("key" ∷ []) (λ issues e. cc)
