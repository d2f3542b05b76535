-- ===== src/Execution/Plan.antt =====
-- execution-plan.ts: the plan of a run, node by node.
use miracle_agent.Prelude.{
  String, true, some, List, filter, map, ◌==◌, string_eq, ◌≡◌, sym, ◌∙◌, arith, Memᴰ, filter-Memᴰ,
  eq_iff, first_by-Memᴰ, ap,
}
use mathlib.Core.List.Memᴰ
use miracle_agent.Types.{NodeSpec, NodeRun, ExecutionDecision, CalculateExecutionPlanInput}
use miracle_agent.Execution.Artifacts.{Runtime, compare_node_runs, node_run_for_node_id}
use miracle_agent.Execution.Edges.{run_id_of}
use miracle_agent.Execution.Decision.{
  node_outcome, node_decision, scoped, is_execute, plan_of, calculate_execution_plan,
}
use miracle_agent.Execution.Ready.{MayExecute, node_outcome-execute}

is_execute-eq : (d : ExecutionDecision) → is_execute d ≡ true → d ≡ ExecutionDecision.execute
is_execute-eq d h = ground arith

node_run-Memᴰ :
    (rt : Runtime) (runs : List NodeRun) (node_id : String) {run : NodeRun}
    → node_run_for_node_id rt runs node_id ≡ some run
    → Memᴰ run runs
unfolding node_run_for_node_id
node_run-Memᴰ rt runs node_id h =
    (filter-Memᴰ (λ r. r.node_id == node_id) runs
      (first_by-Memᴰ (compare_node_runs rt) (filter (λ r. r.node_id == node_id) runs) h)).0

-- The node runs that a plan names as ready are runs of this run, each the latest of a node of the
-- workflow that may execute: it is queued or running and no end node, every gate before it lets it
-- pass, every required edge to it has a qualified artifact, no optional edge blocks or waits, and
-- no required artifact input is missing.
pub ready-MayExecute :
    (rt : Runtime) (i : CalculateExecutionPlanInput) (id : String)
    → Memᴰ id (calculate_execution_plan rt i).ready_node_run_ids
    → (node : NodeSpec) × Memᴰ node i.workflow.nodes
      × (may : MayExecute rt (scoped i) node) × (may.run.node_run_id ≡ id)
      × (may.run.run_id ≡ i.run_id)
      × Memᴰ may.run i.node_runs
unfolding calculate_execution_plan plan_of node_decision
ready-MayExecute rt i id m =
    let decisions = map (node_decision rt (scoped i)) i.workflow.nodes in
    let (d, k, same) =
      Memᴰ.of_map (λ d. d.node_run_id) (filter (λ d. is_execute d.decision) decisions) m in
    let (k', executes) = filter-Memᴰ (λ d. is_execute d.decision) decisions k in
    let (node, n, made) = Memᴰ.of_map (node_decision rt (scoped i)) i.workflow.nodes k' in
    let decision : (node_outcome rt (scoped i) node).0 ≡ ExecutionDecision.execute =
      ap (λ d. d.decision) made ∙ is_execute-eq d.decision executes in
    let may = node_outcome-execute rt (scoped i) node decision in
    let here =
      node_run-Memᴰ rt (filter (λ r. r.run_id == i.run_id) i.node_runs) node.id may.found in
    let (member, own) = filter-Memᴰ (λ r. r.run_id == i.run_id) i.node_runs here in
    let named : run_id_of (some may.run) ≡ id =
      ap run_id_of (sym may.found) ∙ ap (λ d. d.node_run_id) made ∙ same in
    (node, n, may, named, (eq_iff may.run.run_id i.run_id).0 own, member)
