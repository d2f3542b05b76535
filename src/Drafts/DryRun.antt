-- ===== src/Drafts/DryRun.antt =====
-- packages/core/src/run-drafts.ts: the snapshot and the dry-run plan of a draft. `current` is what
-- `new Date().toISOString()` returns, `checked_at` and `stamp` are the clock of the core plan, and
-- `hash_json` is the JSON value of the object that is hashed, read from a draft and its plan.
use miracle_agent.Prelude.{
  ℕ, ◌*◌, String, Bool, true, false, not, ◌||◌, Option, some, get_or, List, [], ◌∷◌, ◌++◌, map,
  filter, any, length, unique, string_eq, show, ◌+++◌,
}
use miracle_agent.Prelude.Json.{Json, object, string, end, field}
use miracle_agent.Types.{WorkflowSpec}
use miracle_agent.Validation.{Parsed, create_dry_run_plan}
use miracle_agent.Canonical.{Host, canonical_plan_hash}
use miracle_agent.Drafts.{RunDraft, WorkflowSnapshotDraft, PlanSummary}
use miracle_agent.Drafts.Plan.{
  RunDraftDryRunPlan, PlanStatus, PathState, optional_branch_id, optional_edges,
  default_credential_scopes, check_of, blocks_required, branch_impact_of, is_blocked_branch,
  core_credentials, startability_of,
}

abbrev pub gate_acknowledgements : WorkflowSpec → List String
gate_acknowledgements workflow = map (λ g. "required_gate:" +++ g.id) workflow.gates

abbrev branch_acknowledgement : Bool → List String
branch_acknowledgement true = "optional_branch_missing_credential" ∷ []
branch_acknowledgement false = []

abbrev plan_status : Bool → PlanStatus
plan_status true = PlanStatus.ready_for_dry_run
plan_status false = PlanStatus.ready_for_confirmation

module _ (host : Host) (workflow_json : WorkflowSpec → Json)
    (hash_json : RunDraft → RunDraftDryRunPlan → Json) (safe_parse : WorkflowSpec → Parsed) where
  unfoldable pub create_workflow_snapshot_draft :
      (current : String) → RunDraft → WorkflowSpec → (now : Option String) → WorkflowSnapshotDraft
  create_workflow_snapshot_draft current draft workflow now =
      let source_hash = canonical_plan_hash host (workflow_json workflow) in
      record {
        snapshot_id = "draftsnap_" +++ draft.draft_id;
        draft_id = draft.draft_id;
        workflow_source_hash = source_hash;
        snapshot_hash = canonical_plan_hash host (
            object (
              field "workflow_source_hash" (string source_hash)
                (field "workflow" (workflow_json workflow) end)));
        frozen_at = get_or now current;
        workflow = workflow;
      }

  -- `planWithoutHash`, with an empty hash.
  unfoldable pub plan_without_hash :
      (current checked_at : String) (stamp : ℕ)
      → RunDraft
      → WorkflowSpec
      → (available : List String) → (now : Option String) → RunDraftDryRunPlan
  plan_without_hash current checked_at stamp draft workflow available now =
      let resolved_at = get_or now current in
      let checks = map (check_of available) (default_credential_scopes workflow) in
      let branches =
        map (branch_impact_of draft checks)
          (unique (map optional_branch_id (optional_edges workflow))) in
      let core =
        create_dry_run_plan safe_parse checked_at stamp workflow
          (core_credentials workflow available) in
      let required_blocked = any blocks_required checks || not core.valid in
      let optional_blocked = any (λ b. is_blocked_branch b.readiness) branches in
      let snapshot = create_workflow_snapshot_draft current draft workflow (some resolved_at) in
      let nodes = length workflow.nodes in
      record {
        draft_plan_id = "draftplan_" +++ draft.draft_id +++ "_" +++ show draft.revision;
        draft_id = draft.draft_id;
        status = plan_status required_blocked;
        workflow_snapshot_draft_hash = snapshot.snapshot_hash;
        resolved_at = resolved_at;
        core_plan = core;
        credential_checks = checks;
        gate_plan =
            map
              (λ g. record {
                gate_spec_id = g.id;
                required_before = g.required_before;
                actions = g.actions;
              })
              workflow.gates;
        branch_impact = branches;
        provider_resolution =
            map (λ n. (n.id, workflow.provider_policy.default_provider)) workflow.nodes;
        execution_summary = record {
          node_count = nodes;
          enabled_optional_branch_count = length (filter (λ b. b.enabled) branches);
          min_minutes = nodes * 1;
          max_minutes = nodes * 5;
        };
        startability = startability_of required_blocked optional_blocked;
        required_acknowledgements =
            gate_acknowledgements workflow ++ branch_acknowledgement optional_blocked;
        plan_hash = "";
      }

  unfoldable pub create_run_draft_dry_run_plan :
      (current checked_at : String) (stamp : ℕ)
      → RunDraft
      → WorkflowSpec
      → (available_credentials : Option (List String)) → (now : Option String) → RunDraftDryRunPlan
  create_run_draft_dry_run_plan current checked_at stamp draft workflow available now =
      let plan =
        plan_without_hash current checked_at stamp draft workflow (get_or available []) now in
      record plan { plan_hash = canonical_plan_hash host (hash_json draft plan) }

abbrev is_path_ready : PathState → Bool
is_path_ready PathState.ready = true
is_path_ready PathState.blocked = false

-- What `confirmRunDraft` reads of a plan.
abbrev pub summary_of : RunDraftDryRunPlan → PlanSummary
summary_of plan = record {
  draft_plan_id = plan.draft_plan_id;
  draft_id = plan.draft_id;
  required_path_ready = is_path_ready plan.startability.required_path;
  required_acknowledgements = plan.required_acknowledgements;
  plan_hash = plan.plan_hash;
}
