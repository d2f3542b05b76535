-- ===== src/Execution/Decision.antt =====
-- execution-plan.ts: the decision on a node, and the plan of a run.
use miracle_agent.Prelude.{
  String, Bool, true, false, not, ◌&&◌, Option, none, some, get_or, List, [], ◌∷◌, filter, all, map,
  ◌==◌, string_eq, is_nonempty, if◌then◌else◌,
}
use miracle_agent.Types.{
  EdgeSpec, RouteKind, NodeSpec, NodeType, NodeRun, NodeRunStatus, GateStatus, ExecutionDecision,
  ResolvedNodeInput, NodeExecutionDecision, ExecutionPlan, CalculateExecutionPlanInput,
}
use miracle_agent.Execution.Artifacts.{Runtime, is_over, node_run_for_node_id}
use miracle_agent.Execution.Inputs.{incoming_edges, resolve_node_inputs}
use miracle_agent.Execution.Gates.{GateStop, gate_decision}
use miracle_agent.Execution.Edges.{run_id_of, edge_status, Verdict, required_edges, edge_verdict}

abbrev pub is_end : NodeType → Bool
is_end NodeType.end = true
is_end NodeType.terminate = true
is_end _ = false

abbrev pub is_blocked : NodeRunStatus → Bool
is_blocked NodeRunStatus.blocked = true
is_blocked _ = false

-- "waiting" or "reviewing"
abbrev pub is_waiting : NodeRunStatus → Bool
is_waiting NodeRunStatus.waiting = true
is_waiting NodeRunStatus.reviewing = true
is_waiting _ = false

abbrev pub verdict_of_status : NodeRunStatus → Verdict → Verdict
verdict_of_status status rest =
    if is_blocked status
    then (ExecutionDecision.blocked, "node_run_blocked")
    else if is_waiting status
    then (ExecutionDecision.wait, "node_run_waiting")
    else rest

abbrev pub Outcome : Type 0
Outcome = ExecutionDecision × String × Option String

-- A gate's instance is named unless its id is empty.
abbrev named : Option String → Option String
named none = none
named (some id) = if is_nonempty id then some id else none

abbrev pub after_gates : Option GateStop → Verdict → Outcome
after_gates (some stop) rest = (stop.decision, stop.reason_code, named stop.gate_instance_id)
after_gates none rest = (rest.0, rest.1, none)

abbrev skipped : String → Outcome
skipped reason = (ExecutionDecision.skip, reason, none)

abbrev pub run_outcome :
    Runtime
    → CalculateExecutionPlanInput
    → NodeSpec
    → List EdgeSpec
    → List ResolvedNodeInput
    → Option NodeRun
    → Outcome
run_outcome rt i node incoming resolved none = skipped "node_run_missing"
run_outcome rt i node incoming resolved (some node_run) =
    let gate = gate_decision rt node i.workflow i.node_runs i.artifacts i.gates i.run_id in
    if is_over node_run.status
    then skipped "node_run_terminal"
    else if is_end node.type
    then skipped "terminal_node"
    else after_gates gate
        (verdict_of_status node_run.status (edge_verdict rt i node incoming resolved))

unfoldable pub node_outcome : Runtime → CalculateExecutionPlanInput → NodeSpec → Outcome
node_outcome rt i node =
    run_outcome rt i node (incoming_edges rt i.workflow node)
      (resolve_node_inputs rt (record {
        run_id = i.run_id;
        workflow = i.workflow;
        node = node;
        node_runs = i.node_runs;
        artifacts = i.artifacts;
        calculated_at = i.calculated_at;
      }))
      (node_run_for_node_id rt i.node_runs node.id)

unfoldable pub node_decision :
    Runtime → CalculateExecutionPlanInput → NodeSpec → NodeExecutionDecision
node_decision rt i node =
    let (decision, reason, gate) = node_outcome rt i node in
    record {
      node_run_id = run_id_of (node_run_for_node_id rt i.node_runs node.id);
      node_id = node.id;
      decision = decision;
      reason_code = reason;
      gate_instance_id = gate;
      required_edge_status =
          map (edge_status rt i node) (required_edges (incoming_edges rt i.workflow node));
      resolved_inputs = resolve_node_inputs rt (record {
        run_id = i.run_id;
        workflow = i.workflow;
        node = node;
        node_runs = i.node_runs;
        artifacts = i.artifacts;
        calculated_at = i.calculated_at;
      });
      eligible_adapter_kinds =
          if is_end node.type then [] else RouteKind.codex ∷ RouteKind.model_api ∷ [];
      selected_provider_profile_id = none;
    }

abbrev pub scoped : CalculateExecutionPlanInput → CalculateExecutionPlanInput
scoped i = record i {
  node_runs = filter (λ r. r.run_id == i.run_id) i.node_runs;
  artifacts = filter (λ a. a.run_id == i.run_id) i.artifacts;
  gates = filter (λ g. g.run_id == i.run_id) i.gates;
}

abbrev pub is_execute : ExecutionDecision → Bool
is_execute ExecutionDecision.execute = true
is_execute _ = false

abbrev is_pause : ExecutionDecision → Bool
is_pause ExecutionDecision.pause_for_gate = true
is_pause _ = false

abbrev is_block : ExecutionDecision → Bool
is_block ExecutionDecision.blocked = true
is_block _ = false

abbrev is_pending : GateStatus → Bool
is_pending GateStatus.pending_review = true
is_pending _ = false

abbrev is_over_run : Option NodeRun → Bool
is_over_run none = false
is_over_run (some r) = is_over r.status

abbrev pub decided_ids : (ExecutionDecision → Bool) → List NodeExecutionDecision → List String
decided_ids p decisions = map (λ d. d.node_run_id) (filter (λ d. p d.decision) decisions)

unfoldable pub plan_of : Runtime → CalculateExecutionPlanInput → ExecutionPlan
plan_of rt i =
    let decisions = map (node_decision rt i) i.workflow.nodes in
    record {
      run_id = i.run_id;
      workflow_snapshot_id = i.workflow_snapshot_id;
      calculated_at = i.calculated_at;
      revision = get_or i.revision 0;
      decisions = decisions;
      ready_node_run_ids = decided_ids is_execute decisions;
      paused_node_run_ids = decided_ids is_pause decisions;
      blocked_node_run_ids = decided_ids is_block decisions;
      terminal =
          all (λ node. is_over_run (node_run_for_node_id rt i.node_runs node.id)) i.workflow.nodes
          && all (λ g. not (is_pending g.status)) i.gates;
    }

unfoldable pub calculate_execution_plan : Runtime → CalculateExecutionPlanInput → ExecutionPlan
calculate_execution_plan rt i = plan_of rt (scoped i)
