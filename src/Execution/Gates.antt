-- ===== src/Execution/Gates.antt =====
-- execution-plan.ts: the gates that a node waits for.
use miracle_agent.Prelude.{
  String, Bool, true, false, ◌&&◌, ◌||◌, Option, none, some, List, [], ◌∷◌, filter, find, includes,
  first_by, ◌==◌, string_eq, or_else, if◌then◌else◌,
}
use miracle_agent.Types.{
  NodeSpec, NodeRun, ArtifactManifest, ArtifactSpec, GateSpec, GateInstance, GateStatus,
  GateDecision, GateVerdict, WorkflowSpec, ExecutionDecision,
}
use miracle_agent.Execution.Artifacts.{
  Runtime, is_done, is_created, node_run_for_node_id, newest_artifact, artifact_metadata_valid,
  artifact_matches_spec,
}

unfoldable pub latest_gate_decision : Runtime → GateInstance → Option GateDecision
latest_gate_decision rt gate =
    first_by
      (λ left right.
        if left.created_at == right.created_at
        then rt.locale_compare right.decision_id left.decision_id
        else rt.locale_compare right.created_at left.created_at)
      gate.decisions

unfoldable pub latest_created_artifact_for_spec :
    Runtime
    → WorkflowSpec
    → (artifact_spec_id : String) → List ArtifactManifest
    → Option ArtifactManifest
latest_created_artifact_for_spec rt workflow artifact_spec_id artifacts =
    elim (find (λ item. item.id == artifact_spec_id) workflow.artifacts) [
      | none ↦ none
      | some spec ↦ newest_artifact rt (
          filter
            (λ a.
              is_created a.status
              && (artifact_metadata_valid a && artifact_matches_spec workflow a spec))
            artifacts)
    ]

-- The instances of a gate that target one artifact, the first by its id.
abbrev first_gate :
    Runtime
    → List GateInstance
    → (gate_spec_id run_id : String) → Option ArtifactManifest
    → Option GateInstance
first_gate rt gates gate_spec_id run_id none = none
first_gate rt gates gate_spec_id run_id (some target) =
    first_by (λ left right. rt.locale_compare left.gate_instance_id right.gate_instance_id)
      (filter (λ g. g.target.id == target.artifact_id)
        (filter (λ g. g.gate_spec_id == gate_spec_id && g.run_id == run_id) gates))

unfoldable pub gate_for_spec :
    Runtime
    → WorkflowSpec
    → List GateInstance
    → (gate_spec_id run_id : String) → List ArtifactManifest
    → Option GateInstance
gate_for_spec rt workflow gates gate_spec_id run_id artifacts =
    elim (find (λ g. g.id == gate_spec_id) workflow.gates) [
      | none ↦ none
      | some spec ↦
          first_gate rt gates gate_spec_id run_id
            (latest_created_artifact_for_spec rt workflow spec.target_artifact_ref artifacts)
    ]

abbrev pub is_decided : GateStatus → Bool
is_decided GateStatus.decided = true
is_decided _ = false

abbrev pub is_invalidated : GateStatus → Bool
is_invalidated GateStatus.invalidated = true
is_invalidated _ = false

abbrev pub is_approve : Option GateDecision → Bool
is_approve none = false
is_approve (some d) = elim d.decision [ GateVerdict.approve ↦ true | _ ↦ false ]

-- "reject" or "request_changes"
abbrev pub is_refusal : Option GateDecision → Bool
is_refusal none = false
is_refusal (some d) = elim d.decision [ GateVerdict.approve ↦ false | _ ↦ true ]

pub record GateStop : Type 0 where
  pub decision : ExecutionDecision
  pub reason_code : String
  pub gate_instance_id : Option String

abbrev pending : Option String → GateStop
pending gate_instance_id = record {
  decision = ExecutionDecision.pause_for_gate;
  reason_code = "required_gate_pending";
  gate_instance_id = gate_instance_id;
}

abbrev rejected : String → GateStop
rejected gate_instance_id = record {
  decision = ExecutionDecision.blocked;
  reason_code = "required_gate_rejected";
  gate_instance_id = some gate_instance_id;
}

-- Whether the run of the node that produces a gate's artifact is done.
abbrev is_produced : Runtime → List NodeRun → Option ArtifactSpec → Bool
is_produced rt node_runs none = false
is_produced rt node_runs (some target) =
    elim (node_run_for_node_id rt node_runs target.produced_by) [
      | none ↦ false
      | some producer ↦ is_done producer.status
    ]

unfoldable pub gate_target_produced : Runtime → WorkflowSpec → List NodeRun → GateSpec → Bool
gate_target_produced rt workflow node_runs spec =
    is_produced rt node_runs (find (λ a. a.id == spec.target_artifact_ref) workflow.artifacts)

unfoldable pub gate_approved : Runtime → GateInstance → Bool
gate_approved rt gate = is_decided gate.status && is_approve (latest_gate_decision rt gate)

-- What a gate's instance says, `none` to go on to the next gate.
unfoldable pub gate_verdict : Runtime → GateInstance → Option GateStop
gate_verdict rt gate =
    if gate_approved rt gate
    then none
    else if is_refusal (latest_gate_decision rt gate) || is_invalidated gate.status
    then some (rejected gate.gate_instance_id)
    else some (pending (some gate.gate_instance_id))

abbrev pub gate_stop :
    Runtime → WorkflowSpec → List NodeRun → GateSpec → Option GateInstance → Option GateStop
gate_stop rt workflow node_runs spec none =
    if gate_target_produced rt workflow node_runs spec then some (pending none) else none
gate_stop rt workflow node_runs spec (some gate) = gate_verdict rt gate

abbrev pub gates_before : WorkflowSpec → NodeSpec → List GateSpec
gates_before workflow node = filter (λ g. includes g.required_before node.id) workflow.gates

-- The loop over the gates before a node returns at the first that stops it.
unfoldable pub gate_decision_from :
    Runtime
    → WorkflowSpec
    → List NodeRun
    → List ArtifactManifest
    → List GateInstance
    → (run_id : String) → List GateSpec
    → Option GateStop
gate_decision_from rt workflow node_runs artifacts gates run_id [] = none
gate_decision_from rt workflow node_runs artifacts gates run_id (spec ∷ specs) =
    or_else
      (gate_stop rt workflow node_runs spec
        (gate_for_spec rt workflow gates spec.id run_id artifacts))
      (gate_decision_from rt workflow node_runs artifacts gates run_id specs)

unfoldable pub gate_decision :
    Runtime
    → NodeSpec
    → WorkflowSpec
    → List NodeRun
    → List ArtifactManifest
    → List GateInstance
    → (run_id : String) → Option GateStop
gate_decision rt node workflow node_runs artifacts gates run_id =
    gate_decision_from rt workflow node_runs artifacts gates run_id (gates_before workflow node)
