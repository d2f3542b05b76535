-- ===== src/Execution/Ready.antt =====
-- execution-plan.ts: which nodes a plan names as ready.
use miracle_agent.Prelude.{
  true, false, Option, none, some, List, [], ◌∷◌, string_eq, ◌≡◌, refl, ◌∙◌, inl, inr, ◌⊎◌, arith,
  All, Option-cases,
}
use miracle_agent.Types.{
  NodeSpec, NodeRun, NodeRunStatus, GateSpec, GateInstance, ExecutionDecision, ResolvedNodeInput,
  CalculateExecutionPlanInput,
}
use miracle_agent.Execution.Artifacts.{Runtime, is_over, node_run_for_node_id}
use miracle_agent.Execution.Inputs.{incoming_edges, resolve_node_inputs}
use miracle_agent.Execution.Gates.{
  GateStop, gate_for_spec, gate_target_produced, gate_approved, gate_verdict, gate_stop,
  gates_before, gate_decision_from, gate_decision,
}
use miracle_agent.Execution.Decision.{
  is_end, is_blocked, is_waiting, run_outcome, node_outcome, is_execute,
}
use miracle_agent.Execution.Awaited.{MayStart, edge_verdict-execute}

-- A gate lets a node pass when its latest instance is approved, or when there is none and the
-- artifact that it reviews is not produced yet.
abbrev pub Clears : Runtime → CalculateExecutionPlanInput → GateSpec → Type 0
Clears rt i spec =
    ((gate : GateInstance) × (gate_for_spec rt i.workflow i.gates spec.id i.run_id i.artifacts
        ≡ some gate)
      × (gate_approved rt gate ≡ true))
    ⊎ ((gate_for_spec rt i.workflow i.gates spec.id i.run_id i.artifacts ≡ none)
        × (gate_target_produced rt i.workflow i.node_runs spec ≡ false))

abbrev pub resolved_of : Runtime → CalculateExecutionPlanInput → NodeSpec → List ResolvedNodeInput
resolved_of rt i node = resolve_node_inputs rt (record {
  run_id = i.run_id;
  workflow = i.workflow;
  node = node;
  node_runs = i.node_runs;
  artifacts = i.artifacts;
  calculated_at = i.calculated_at;
})

pub record MayExecute (rt : Runtime) (i : CalculateExecutionPlanInput) (node : NodeSpec)
    : Type 0 where
  pub run : NodeRun
  pub found : node_run_for_node_id rt i.node_runs node.id ≡ some run
  pub status : (run.status ≡ NodeRunStatus.queued) ⊎ (run.status ≡ NodeRunStatus.running)
  pub inner : is_end node.type ≡ false
  pub gates : All (Clears rt i) (gates_before i.workflow node)
  pub start : MayStart rt i node (incoming_edges rt i.workflow node) (resolved_of rt i node)

fresh_status :
    (s : NodeRunStatus)
    → is_over s ≡ false
    → is_blocked s ≡ false
    → is_waiting s ≡ false
    → (s ≡ NodeRunStatus.queued) ⊎ (s ≡ NodeRunStatus.running)
fresh_status NodeRunStatus.queued o b w = inl refl
fresh_status NodeRunStatus.running o b w = inr refl
fresh_status NodeRunStatus.waiting o b w = cc
fresh_status NodeRunStatus.blocked o b w = cc
fresh_status NodeRunStatus.reviewing o b w = cc
fresh_status NodeRunStatus.done o b w = cc
fresh_status NodeRunStatus.failed o b w = cc
fresh_status NodeRunStatus.skipped o b w = cc

module _ (rt : Runtime) (i : CalculateExecutionPlanInput) where
  gate-Clears :
      (spec : GateSpec)
      → gate_stop rt i.workflow i.node_runs spec
          (gate_for_spec rt i.workflow i.gates spec.id i.run_id i.artifacts)
        ≡ none
      → Clears rt i spec
  unfolding gate_verdict
  gate-Clears spec h =
      elim (Option-cases (gate_for_spec rt i.workflow i.gates spec.id i.run_id i.artifacts)) [
        | inl missing ↦ inr (missing, ground arith)
        | inr (gate, found) ↦ inl (gate, found, ground arith)
      ]

  gates-Clear :
      (specs : List GateSpec)
      → gate_decision_from rt i.workflow i.node_runs i.artifacts i.gates i.run_id specs ≡ none
      → All (Clears rt i) specs
  unfolding gate_decision_from
  gates-Clear [] h = tt
  gates-Clear (spec ∷ specs) h = (gate-Clears spec (ground arith), gates-Clear specs (ground arith))

  run-execute :
      (node : NodeSpec) (run : NodeRun)
      → node_run_for_node_id rt i.node_runs node.id ≡ some run
      → (run_outcome rt i node
          (incoming_edges rt i.workflow node)
          (resolved_of rt i node)
          (some run)).0
        ≡ ExecutionDecision.execute
      → gate_decision rt node i.workflow i.node_runs i.artifacts i.gates i.run_id ≡ none
      → MayExecute rt i node
  unfolding gate_decision
  run-execute node run found h open_gates = record {
    run = run;
    found = found;
    status = fresh_status run.status (ground arith) (ground arith) (ground arith);
    inner = ground arith;
    gates = gates-Clear (gates_before i.workflow node) open_gates;
    start =
        edge_verdict-execute rt i node (incoming_edges rt i.workflow node) (resolved_of rt i node)
          (ground arith);
  }

  gate_stop-stops :
      (spec : GateSpec) (gate : Option GateInstance) {stop : GateStop}
      → gate_stop rt i.workflow i.node_runs spec gate ≡ some stop
      → is_execute stop.decision ≡ false
  unfolding gate_verdict
  gate_stop-stops spec none h = ground arith
  gate_stop-stops spec (some gate) h = ground arith

  gates-stop :
      (specs : List GateSpec) {stop : GateStop}
      → gate_decision_from rt i.workflow i.node_runs i.artifacts i.gates i.run_id specs ≡ some stop
      → is_execute stop.decision ≡ false
  unfolding gate_decision_from
  gates-stop [] h = cc
  gates-stop (spec ∷ specs) {stop} h =
      let gate = gate_for_spec rt i.workflow i.gates spec.id i.run_id i.artifacts in
      elim (Option-cases (gate_stop rt i.workflow i.node_runs spec gate)) [
        | inl none_here ↦ gates-stop specs {stop = stop} (ground arith)
        | inr (first, here) ↦
            gate_stop-stops spec gate
              (let same : some first ≡ some stop = ground arith in here ∙ same)
      ]

  pub node_outcome-execute :
      (node : NodeSpec)
      → (node_outcome rt i node).0 ≡ ExecutionDecision.execute
      → MayExecute rt i node
  unfolding node_outcome gate_decision
  node_outcome-execute node h =
      let gate = gate_decision rt node i.workflow i.node_runs i.artifacts i.gates i.run_id in
      elim (Option-cases (node_run_for_node_id rt i.node_runs node.id)) [
        | inl missing ↦ absurd (ground arith)
        | inr (run, found) ↦ elim (Option-cases gate) [
          | inl cleared ↦ run-execute node run found (rw found at h) cleared
          | inr (stop, stopped) ↦
              let refused = gates-stop (gates_before i.workflow node) stopped in
              absurd (ground arith)
        ]
      ]
