-- ===== src/Run/Tests.antt =====
-- A new run of a small workflow, and the theorems applied to it.
use miracle_agent.Prelude.{none, [], ◌∷◌, map, All, Memᴰ, ◌≡◌, ◌↔◌, refl}
use miracle_agent.Types.{NodeSpec, ExecutionPolicy, NodeRunStatus, CalculateExecutionPlanInput}
use miracle_agent.Execution.{Runtime, calculate_execution_plan}
use miracle_agent.Run.{RunOptions, incoming, node_run_of, create_run_from_workflow}
use miracle_agent.Run.Fresh.{Needs, node_run_of-queued_iff, fresh-ready}
use miracle_agent.Samples.{runtime, workflow, writer, input}

abbrev options : RunOptions
options = record {
  run_id = "run";
  execution_policy = ExecutionPolicy.hybrid;
  role_profile = "author";
  created_at = none;
}

statuses :
    map (λ r. r.status) (create_run_from_workflow "t0" workflow options).node_runs
    ≡ NodeRunStatus.queued ∷ NodeRunStatus.waiting ∷ []
unfolding create_run_from_workflow node_run_of incoming
statuses = refl

abbrev first : CalculateExecutionPlanInput
first = record input {
  node_runs = (create_run_from_workflow "t0" workflow options).node_runs;
  artifacts = [];
  gates = [];
}

first_ready : (calculate_execution_plan runtime first).ready_node_run_ids ≡ "nr_run_writer" ∷ []
unfolding miracle_agent.Execution.Tests.program create_run_from_workflow node_run_of incoming
first_ready = refl

node_run_of-queued_iff_example :
    let status = (node_run_of workflow options "t0" writer).status in
    let free = All (λ e. ¬ Needs "writer" e) workflow.edges in
    ((status ≡ NodeRunStatus.queued) ↔ free) × ((status ≡ NodeRunStatus.waiting) ↔ ¬ free)
node_run_of-queued_iff_example = node_run_of-queued_iff workflow options "t0" writer

fresh-ready_example :
    (node : NodeSpec) × Memᴰ node workflow.nodes
    × ((node_run_of workflow options "t0" node).node_run_id ≡ "nr_run_writer")
    × All (λ e. ¬ Needs node.id e) workflow.edges
fresh-ready_example =
    fresh-ready runtime "t0" workflow options first "nr_run_writer" refl
      (rw first_ready (Memᴰ.head refl))
