-- ===== src/Execution/Tests.antt =====
-- The plan of a small run, and the theorems applied to it.
use miracle_agent.Prelude.{none, some, [], ◌∷◌, ◌++◌, Memᴰ, ◌≡◌, ◌↔◌, refl, string_eq, first_by}
use miracle_agent.Types.{
  NodeSpec, NodeRunStatus, ExecutionDecision, CalculateExecutionPlanInput, ResolveNodeInputsInput,
  ResolvedNodeInput,
}
use miracle_agent.Execution.Artifacts.{
  edge_id, sorted_edges, compare_node_runs, node_run_for_node_id, compare_artifacts,
  newest_artifact, has_text, artifact_metadata_valid, artifact_matches_spec,
}
use miracle_agent.Execution.Inputs.{
  artifact_qualifies, input_artifact_spec, input_matches_edge, qualified_artifacts_for_input,
  qualified_artifacts_for_destination_edge, resolved_artifact_input, input_candidates,
  incoming_edges, resolve_node_input, resolve_node_inputs,
}
use miracle_agent.Execution.Gates.{
  latest_gate_decision, latest_created_artifact_for_spec, gate_for_spec, gate_target_produced,
  gate_approved, gate_verdict, gate_decision_from, gate_decision,
}
use miracle_agent.Execution.Joins.{duration_ms, join_timed_out, before_arrow}
use miracle_agent.Execution.Edges.{is_satisfied, optional_state, blocked_reason, edge_verdict}
use miracle_agent.Execution.Decision.{
  node_outcome, node_decision, scoped, plan_of, calculate_execution_plan,
}
use miracle_agent.Execution.Ready.{MayExecute}
use miracle_agent.Execution.Start.{node_outcome-execute_iff}
use miracle_agent.Execution.Plan.{ready-MayExecute}
use miracle_agent.Execution.Scope.{foreign-ignored}
use miracle_agent.Execution.Sources.{IsSourced, resolve_node_inputs-IsSourced}
use miracle_agent.Samples.{runtime, port, editor, workflow, node_run, draft_text, approval, input}

unfoldable pub program : Unit {0}
unfolding edge_id sorted_edges compare_node_runs node_run_for_node_id compare_artifacts
    newest_artifact has_text artifact_metadata_valid artifact_matches_spec artifact_qualifies
    input_artifact_spec input_matches_edge qualified_artifacts_for_input
    qualified_artifacts_for_destination_edge input_candidates incoming_edges resolve_node_input
    resolve_node_inputs latest_gate_decision latest_created_artifact_for_spec gate_for_spec
    gate_target_produced gate_approved gate_verdict gate_decision_from gate_decision duration_ms
    join_timed_out before_arrow is_satisfied optional_state blocked_reason edge_verdict node_outcome
    node_decision plan_of calculate_execution_plan first_by
program = tt

durations :
    (duration_ms (some "PT1H2M3S") ≡ some 3723000)
    × (duration_ms (some "PT5M") ≡ some 300000)
    × (duration_ms (some "PT") ≡ some 0)
    × (duration_ms (some "PT5X") ≡ none)
    × (duration_ms (some "") ≡ none)
unfolding program
durations = (refl, refl, refl, refl, refl)

sources : (before_arrow "writer->editor" ≡ "writer") × (before_arrow "a-b" ≡ "a-b")
unfolding program
sources = (refl, refl)

ready_ids : (calculate_execution_plan runtime input).ready_node_run_ids ≡ "nr_editor" ∷ []
unfolding program
ready_ids = refl

abbrev unapproved : CalculateExecutionPlanInput
unapproved = record input { gates = [] }

paused_ids : (calculate_execution_plan runtime unapproved).paused_node_run_ids ≡ "nr_editor" ∷ []
unfolding program
paused_ids = refl

abbrev editor_inputs : ResolveNodeInputsInput
editor_inputs = record {
  run_id = "run";
  workflow = workflow;
  node = editor;
  node_runs = input.node_runs;
  artifacts = input.artifacts;
  calculated_at = "|||";
}

abbrev editor_input : ResolvedNodeInput
editor_input = resolved_artifact_input (port "in") draft_text "|||"

resolved : resolve_node_inputs runtime editor_inputs ≡ editor_input ∷ []
unfolding program
resolved = refl

node_outcome-execute_iff_example :
    ((node_outcome runtime input editor).0 ≡ ExecutionDecision.execute)
    ↔ MayExecute runtime input editor
node_outcome-execute_iff_example = node_outcome-execute_iff runtime input editor

ready-MayExecute_example :
    (node : NodeSpec) × Memᴰ node workflow.nodes
    × (may : MayExecute runtime (scoped input) node) × (may.run.node_run_id ≡ "nr_editor")
    × (may.run.run_id ≡ "run")
    × Memᴰ may.run input.node_runs
ready-MayExecute_example =
    ready-MayExecute runtime input "nr_editor" (rw ready_ids (Memᴰ.head refl))

foreign-ignored_example :
    calculate_execution_plan runtime (record input {
      node_runs = (node_run "nr_x" "other" "editor" NodeRunStatus.blocked ∷ []) ++ input.node_runs;
      artifacts = (record draft_text { run_id = "other"; version = 9 } ∷ []) ++ input.artifacts;
      gates = (record approval { run_id = "other" } ∷ []) ++ input.gates;
    })
    ≡ calculate_execution_plan runtime input
foreign-ignored_example =
    foreign-ignored runtime input (node_run "nr_x" "other" "editor" NodeRunStatus.blocked ∷ [])
      (record draft_text { run_id = "other"; version = 9 } ∷ [])
      (record approval { run_id = "other" } ∷ []) (λ e. cc, tt) (λ e. cc, tt) (λ e. cc, tt)

resolve_node_inputs-IsSourced_example : IsSourced runtime editor_inputs editor_input
resolve_node_inputs-IsSourced_example =
    resolve_node_inputs-IsSourced runtime editor_inputs editor_input (rw resolved (Memᴰ.head refl))
