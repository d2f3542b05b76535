-- ===== src/Run.antt =====
-- packages/core/src/run.ts: a new run of a workflow. `current` is what `new Date().toISOString()`
-- returns at the call.
pub mod Fresh
mod Tests
use miracle_agent.Prelude.{
  ℕ, ◌+◌, String, Bool, true, false, Option, none, some, get_or, List, [], ◌∷◌, map, flat_map,
  foldl, head?, unique, ◌==◌, string_eq, nat_eq, if◌then◌else◌, ◌+++◌,
}
use miracle_agent.Types.{
  NodeSpec, EdgeSpec, WorkflowSpec, RunSpec, RunStatus, RunMode, ExecutionPolicy, WorkflowSnapshot,
  NodeRun, NodeRunStatus, TraceEvent,
}

pub record CreatedRun : Type 0 where
  pub run_spec : RunSpec
  pub workflow_snapshot : WorkflowSnapshot
  pub node_runs : List NodeRun
  pub events : List TraceEvent

pub record RunOptions : Type 0 where
  pub run_id : String
  pub execution_policy : ExecutionPolicy
  pub role_profile : String
  pub created_at : Option String

-- `Map<string, number>`: its `get`.
abbrev pub Counts : Type 0
Counts = String → Option ℕ

abbrev pub set : String → ℕ → Counts → Counts
set key value counts other = if other == key then some value else counts other

abbrev pub no_counts : Counts
no_counts key = none

abbrev pub count_edge : Counts → EdgeSpec → Counts
count_edge counts edge =
    if edge.required then set edge.to (get_or (counts edge.to) 0 + 1) counts else counts

-- The required edges to each node.
unfoldable pub incoming : WorkflowSpec → Counts
incoming workflow =
    foldl count_edge (foldl (λ counts node. set node.id 0 counts) no_counts workflow.nodes)
      workflow.edges

unfoldable pub node_run_of : WorkflowSpec → RunOptions → (created_at : String) → NodeSpec → NodeRun
node_run_of workflow options created_at node = record {
  node_run_id = "nr_" +++ options.run_id +++ "_" +++ node.id;
  run_id = options.run_id;
  node_id = node.id;
  status =
      if get_or (incoming workflow node.id) 0 == 0
      then NodeRunStatus.queued
      else NodeRunStatus.waiting;
  agent_id = head? node.agent_candidates;
  provider = some workflow.provider_policy.default_provider;
  started_at = none;
  updated_at = created_at;
  blocked_reason = none;
  upstream_artifacts = [];
  output_artifacts = [];
}

unfoldable pub create_run_from_workflow :
    (current : String) → WorkflowSpec → RunOptions → CreatedRun
create_run_from_workflow current workflow options =
    let created_at = get_or options.created_at current in
    let snapshot_id = "snap_" +++ options.run_id in
    record {
      run_spec = record {
        run_id = options.run_id;
        workflow_id = workflow.id;
        workflow_version = workflow.version;
        workflow_snapshot_id = snapshot_id;
        status = RunStatus.created;
        run_mode = RunMode.executable options.execution_policy;
        role_profile = options.role_profile;
        resolved_components = unique (flat_map (λ node. node.recommended_libraries) workflow.nodes);
        resolved_provider_policy = workflow.provider_policy;
        created_at = created_at;
      };
      workflow_snapshot = record {
        snapshot_id = snapshot_id;
        run_id = options.run_id;
        frozen_at = created_at;
        workflow = workflow;
      };
      node_runs = map (node_run_of workflow options created_at) workflow.nodes;
      events =
          record {
            event_id = "evt_" +++ options.run_id +++ "_created";
            run_id = options.run_id;
            type = "run_created";
            subject = record { type = "RunSpec"; id = options.run_id };
            message = "RunSpec created and WorkflowSnapshot frozen";
            created_at = created_at;
          }
          ∷ [];
    }
