-- ===== src/Execution/Start.antt =====
-- execution-plan.ts: a node with nothing in its way does execute.
use miracle_agent.Prelude.{
  true, false, none, List, [], ◌∷◌, find, any, map, string_eq, ◌≡◌, refl, inl, inr, ◌⊎◌, ◌↔◌, All,
}
use miracle_agent.Types.{
  EdgeSpec, NodePortSpec, NodeSpec, NodeRunStatus, GateSpec, ExecutionDecision, ResolvedNodeInput,
  CalculateExecutionPlanInput,
}
use miracle_agent.Execution.Artifacts.{Runtime, is_over}
use miracle_agent.Execution.Inputs.{incoming_edges}
use miracle_agent.Execution.Gates.{gate_verdict, gates_before, gate_decision_from, gate_decision}
use miracle_agent.Execution.Edges.{
  is_satisfied, edge_status, edges_block, edges_wait, is_missing, OptionalState, optional_state,
  is_blocked_state, is_wait_state, required_edges, optional_edges, edge_verdict, ready,
}
use miracle_agent.Execution.Decision.{is_blocked, is_waiting, node_outcome}
use miracle_agent.Execution.Awaited.{MayStart}
use miracle_agent.Execution.Ready.{Clears, MayExecute, resolved_of, node_outcome-execute}

module _ (rt : Runtime) (i : CalculateExecutionPlanInput) (node : NodeSpec) where
  satisfied-unblocked :
      (edges : List EdgeSpec)
      → All (λ e. is_satisfied rt i node e ≡ true) edges
      → (edges_block rt i (map (edge_status rt i node) edges) ≡ false)
        × (edges_wait rt i (map (edge_status rt i node) edges) ≡ false)
  satisfied-unblocked [] h = (refl, refl)
  satisfied-unblocked (e ∷ edges) (here, there) =
      let (b, w) = satisfied-unblocked edges there in (rw here b, rw here w)

  continue-unblocked :
      (edges : List EdgeSpec)
      → All (λ e. optional_state rt i node e ≡ OptionalState.continue) edges
      → (find (λ e. is_blocked_state (optional_state rt i node e)) edges ≡ none)
        × (any (λ e. is_wait_state (optional_state rt i node e)) edges ≡ false)
  continue-unblocked [] h = (refl, refl)
  continue-unblocked (e ∷ edges) (here, there) =
      let (b, w) = continue-unblocked edges there in (rw here b, rw here w)

  complete-none :
      (resolved : List ResolvedNodeInput) (inputs : List NodePortSpec)
      → All (λ input. is_missing resolved input ≡ false) inputs
      → any (is_missing resolved) inputs ≡ false
  complete-none resolved [] h = refl
  complete-none resolved (input ∷ inputs) (here, there) =
      rw here (complete-none resolved inputs there)

  edge_verdict-ready :
      (incoming : List EdgeSpec) (resolved : List ResolvedNodeInput)
      → MayStart rt i node incoming resolved
      → edge_verdict rt i node incoming resolved ≡ ready
  unfolding edge_verdict
  edge_verdict-ready incoming resolved start =
      let (b, w) = satisfied-unblocked (required_edges incoming) start.satisfied in
      let (o, a) = continue-unblocked (optional_edges incoming) start.unblocked in
      let c = complete-none resolved node.inputs start.complete in rw (b, c, o, w, a) refl

  gates-open :
      (specs : List GateSpec)
      → All (Clears rt i) specs
      → gate_decision_from rt i.workflow i.node_runs i.artifacts i.gates i.run_id specs ≡ none
  unfolding gate_decision_from gate_verdict
  gates-open [] h = refl
  gates-open (spec ∷ specs) (inl (gate, found, approved), there) =
      rw (found, approved) (gates-open specs there)
  gates-open (spec ∷ specs) (inr (missing, unproduced), there) =
      rw (missing, unproduced) (gates-open specs there)

  fresh_tests :
      (s : NodeRunStatus)
      → ((s ≡ NodeRunStatus.queued) ⊎ (s ≡ NodeRunStatus.running))
      → (is_over s ≡ false) × (is_blocked s ≡ false) × (is_waiting s ≡ false)
  fresh_tests s (inl e) = rw e (refl, refl, refl)
  fresh_tests s (inr e) = rw e (refl, refl, refl)

  may-execute : MayExecute rt i node → (node_outcome rt i node).0 ≡ ExecutionDecision.execute
  unfolding node_outcome gate_decision
  may-execute may =
      let (o, b, w) = fresh_tests may.run.status may.status in
      let cleared = gates-open (gates_before i.workflow node) may.gates in
      let go =
        edge_verdict-ready (incoming_edges rt i.workflow node) (resolved_of rt i node) may.start in
      rw (may.found, o, may.inner, cleared, b, w, go) refl

-- A node is told to execute exactly when its latest run is queued or running, it is no end node,
-- every gate before it lets it pass, every required edge to it has a qualified artifact, no
-- optional edge blocks or waits, and no required artifact input is missing.
pub node_outcome-execute_iff :
    (rt : Runtime) (i : CalculateExecutionPlanInput) (node : NodeSpec)
    → ((node_outcome rt i node).0 ≡ ExecutionDecision.execute) ↔ MayExecute rt i node
node_outcome-execute_iff rt i node = (node_outcome-execute rt i node, may-execute rt i node)
