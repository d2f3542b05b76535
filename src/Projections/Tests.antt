-- ===== src/Projections/Tests.antt =====
-- The graph of a small run that was just created, and the theorem applied to it.
use miracle_agent.Prelude.{none, map, All, ◌≡◌}
use miracle_agent.Types.{ExecutionPolicy}
use miracle_agent.Run.{RunOptions, create_run_from_workflow}
use miracle_agent.Projections.{build_dag_projection}
use miracle_agent.Projections.Fresh.{IsFirst, create_run_from_workflow-dag}
use miracle_agent.Samples.{workflow}

abbrev options : RunOptions
options = record {
  run_id = "run_1";
  execution_policy = ExecutionPolicy.hybrid;
  role_profile = "editor";
  created_at = none;
}

create_run_from_workflow-dag_example :
    let dag =
      build_dag_projection workflow (create_run_from_workflow "t0" workflow options).node_runs in
    (map (λ d. d.id) dag.nodes ≡ map (λ n. n.id) workflow.nodes) × All (IsFirst workflow) dag.nodes
create_run_from_workflow-dag_example = create_run_from_workflow-dag "t0" workflow options
