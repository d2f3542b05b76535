-- ===== src/Drafts/Tests.antt =====
-- The life of a small draft, and the theorems applied to it.
use Prim.Native.String.{compare}
use miracle_agent.Prelude.{
  All, Memᴰ, ◌+++◌, ℕ, ◌≤◌, String, Bool, true, false, Option, none, some, List, [], ◌∷◌, ◌≡◌, ◌↔◌,
  refl, subst, Result, ok, throw, coded, ◌==◌, string_eq, show,
}
use miracle_agent.Prelude.Json.{Json, string, end}
use miracle_agent.Types.{ExecutionPolicy, WorkflowSpec}
use miracle_agent.Canonical.{Host, join, object_text, canonical_json, canonical_plan_hash}
use miracle_agent.Drafts.{
  RunDraft, RunDraftStatus, PlanSummary, DraftPatch, Change, assert_mutable, new_confirmation,
  confirmed_draft, normal_paths, patch_changes, create_run_draft, update_run_draft,
  refresh_run_draft_workflow_source, revise_run_draft, cancel_run_draft, confirm_run_draft,
}
use miracle_agent.Drafts.Confirmation.{
  MayConfirm, confirm_run_draft-ok_iff, confirm_run_draft-idempotent,
}
use miracle_agent.Drafts.Lifecycle.{
  Step, Steps, Reachable, IsCoherent, IsSamePlanned, reachable-IsCoherent,
  same_revision-IsSamePlanned,
}
use miracle_agent.Drafts.Refusals.{is_throw, terminal-refuses}
use miracle_agent.Validation.{
  parsed, create_dry_run_plan, validate_workflow_spec, validate_parsed, workflow_errors,
  node_errors, output_errors, edge_errors, artifact_errors, gate_errors,
}
use miracle_agent.Validation.WellFormed.{IsWellFormed}
use miracle_agent.Drafts.Plan.{
  RunDraftDryRunPlan, default_credential_scopes, credential_scope, optional_branch_id,
}
use miracle_agent.Drafts.DryRun.{
  create_workflow_snapshot_draft, plan_without_hash, create_run_draft_dry_run_plan, summary_of,
}
use miracle_agent.Drafts.Launch.{Covered, confirmed_launch}
use miracle_agent.Samples.{workflow}

program : Unit {0}
unfolding join object_text canonical_json canonical_plan_hash normal_paths patch_changes
    create_run_draft update_run_draft refresh_run_draft_workflow_source revise_run_draft
    cancel_run_draft confirm_run_draft assert_mutable
program = tt

abbrev text_of : Json → String
text_of (string s) = s
text_of _ = "_"

abbrev host : Host
host = record { stringify = text_of; key_order = compare; sha256 = λ s. s }

abbrev workflow_json : WorkflowSpec → Json
workflow_json w = string w.id

abbrev draft : RunDraft
draft = record {
  draft_id = "d";
  workflow_id = "wf";
  workflow_source_hash = "sha256:wf";
  status = RunDraftStatus.draft;
  inputs = end;
  enabled_optional_paths = [];
  execution_policy = ExecutionPolicy.hybrid;
  latest_plan_id = none;
  latest_plan_hash = none;
  confirmation_id = none;
  converted_run_id = none;
  revision = 1;
  created_at = "t0";
  updated_at = "t0";
}

created : create_run_draft host workflow_json "d" "t0" workflow none none none none ≡ draft
unfolding program miracle_agent.Prelude.sort_by miracle_agent.Prelude.unique
created = refl

abbrev plan : PlanSummary
plan = record {
  draft_plan_id = "draftplan_d_1";
  draft_id = "d";
  required_path_ready = true;
  required_acknowledgements = "required_gate:review" ∷ [];
  plan_hash = "sha256:p";
}

abbrev acknowledged : List String
acknowledged = "required_gate:review" ∷ []

abbrev after : Change
after = (confirmed_draft draft plan "t1", some (new_confirmation draft plan "ann" "t1"))

confirmed : confirm_run_draft "t1" draft plan none "ann" acknowledged none ≡ ok after
unfolding program
confirmed = refl

unacknowledged :
    confirm_run_draft "t1" draft plan none "ann" [] none
    ≡ throw (
        coded "missing_required_acknowledgements"
          "Missing required acknowledgements: required_gate:review")
unfolding program
unacknowledged = refl

abbrev no_patch : DraftPatch
no_patch = record { inputs = none; enabled_optional_paths = none; execution_policy = none }

unchanged : update_run_draft host workflow_json "t2" draft none no_patch none ≡ ok (draft, none)
unfolding program
unchanged = refl

confirm_run_draft-ok_iff_example :
    (confirm_run_draft "t1" draft plan none "ann" acknowledged none ≡ ok after)
    ↔ (MayConfirm draft plan acknowledged × (after ≡ after))
confirm_run_draft-ok_iff_example =
    confirm_run_draft-ok_iff "t1" draft plan none "ann" acknowledged none after refl

confirm_run_draft-idempotent_example :
    confirm_run_draft "t9" after.0 plan after.1 "bob" [] (some "t10") ≡ ok after
confirm_run_draft-idempotent_example =
    confirm_run_draft-idempotent "t1" draft plan none "ann" acknowledged none after confirmed "t9"
      "bob" [] (some "t10")

created_state : Reachable host workflow_json (draft, none)
created_state =
    subst (λ d. Reachable host workflow_json (d, none)) created
      (Reachable.created "d" "t0" workflow none none none none)

confirmed_once : Step host workflow_json (draft, none) after
confirmed_once = Step.confirm "t1" plan "ann" acknowledged none confirmed

reachable-IsCoherent_example : IsCoherent after
reachable-IsCoherent_example =
    reachable-IsCoherent {host = host} {json = workflow_json}
      (Reachable.stepped created_state confirmed_once)

cancelled_again : (s : Change) × Step host workflow_json (draft, none) s × (s.0.revision ≡ 2)
unfolding program
cancelled_again = (_, Step.cancel "t2" none refl, refl)

same_revision-IsSamePlanned_example : IsSamePlanned draft after.0
same_revision-IsSamePlanned_example =
    same_revision-IsSamePlanned {host = host} {json = workflow_json}
      (Steps.then Steps.done confirmed_once) refl

abbrev cancelled : RunDraft
cancelled = record draft { status = RunDraftStatus.cancelled }

terminal-refuses_example :
    (is_throw (update_run_draft host workflow_json "t3" cancelled none no_patch none) ≡ true)
    × (is_throw (revise_run_draft "t3" cancelled none none) ≡ true)
    × (is_throw (cancel_run_draft "t3" cancelled none none) ≡ true)
    × (is_throw (confirm_run_draft "t3" cancelled plan none "ann" acknowledged none) ≡ true)
terminal-refuses_example =
    terminal-refuses host workflow_json cancelled none "t3" none no_patch plan "ann" acknowledged tt
      refl

abbrev hash_json : RunDraft → RunDraftDryRunPlan → Json
hash_json d plan = string plan.draft_plan_id

abbrev launch_plan : RunDraftDryRunPlan
launch_plan =
    create_run_draft_dry_run_plan host workflow_json hash_json parsed "t0" "t0" 7 draft workflow
      (some ("key" ∷ [])) none

abbrev launched : Change
launched = (
  confirmed_draft draft (summary_of launch_plan) "t1",
  some (new_confirmation draft (summary_of launch_plan) "ann" "t1"),
)

launch :
    confirm_run_draft "t1" draft (summary_of launch_plan) none "ann" acknowledged none ≡ ok launched
unfolding program create_run_draft_dry_run_plan plan_without_hash create_dry_run_plan
    validate_workflow_spec validate_parsed workflow_errors node_errors output_errors edge_errors
    artifact_errors gate_errors default_credential_scopes credential_scope optional_branch_id
    create_workflow_snapshot_draft miracle_agent.Prelude.unique
launch = refl

confirmed_launch_example :
    IsWellFormed workflow
    × All (Covered workflow ("key" ∷ [])) ("key" ∷ [])
    × All (λ g. Memᴰ ("required_gate:" +++ g.id) acknowledged) workflow.gates
confirmed_launch_example =
    confirmed_launch host workflow_json hash_json parsed "t0" "t0" 7 draft workflow
      (some ("key" ∷ [])) none launch_plan "t1" "ann" none acknowledged none launched refl refl refl
      launch
