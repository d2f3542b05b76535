-- ===== src/Projections.antt =====
-- packages/core/src/projections.ts: the summary of a run, its graph, and what a decision on a gate
-- would change. `current` is what `new Date().toISOString()` returns at the call.
pub mod Fresh
mod Tests
use miracle_agent.Prelude.{
  ℕ, String, Bool, true, false, not, ◌&&◌, ◌||◌, Option, none, some, is_some, or_else, get_or, List,
  [], ◌∷◌, map, filter, find, head?, length, reverse, ◌==◌, string_eq, if◌then◌else◌, ◌+++◌,
}
use miracle_agent.Prelude.Int.{ℤ, pos}
use miracle_agent.Types.{
  NodeSpec, NodeType, NodePortSpec, EdgeSpec, JoinPolicy, WorkflowSpec, DagPosition,
  ArtifactReviewStatus, NodeRun, NodeRunStatus, GateInstance, GateStatus, GateVerdict, GateDecision,
}

pub record RunSummary : Type 0 where
  pub run_id : String
  pub workflow_id : String
  pub status : String
  pub done : ℕ
  pub total : ℕ
  pub updated_at : String

abbrev pub is_done : NodeRunStatus → Bool
is_done NodeRunStatus.done = true
is_done _ = false

abbrev pub updated : Option NodeRun → Option String
updated none = none
updated (some run) = some run.updated_at

-- `buildRunSummary`
unfoldable pub build_run_summary :
    (current run_id workflow_id status : String) (created_at : Option String)
    → List NodeRun
    → RunSummary
build_run_summary current run_id workflow_id status created_at nodes = record {
  run_id = run_id;
  workflow_id = workflow_id;
  status = status;
  done = length (filter (λ n. is_done n.status) nodes);
  total = length nodes;
  updated_at = get_or (updated (head? nodes)) (get_or created_at current);
}

pub record DagNode : Type 0 where
  pub id : String
  pub node_run_id : Option String
  pub name : String
  pub type : NodeType
  pub status : NodeRunStatus
  pub agent_id : Option String
  pub provider : Option String
  pub position : DagPosition
  pub stage : String
  pub input_artifacts : List String
  pub output_artifacts : List String
  pub review_gate_ref : Option String

pub record DagEdge : Type 0 where
  pub id : String
  pub from : String
  pub to : String
  pub required : Bool
  pub label : String
  pub join_policy : JoinPolicy

pub record DagProjection : Type 0 where
  pub nodes : List DagNode
  pub edges : List DagEdge

abbrev pub run_of : String → List NodeRun → Option NodeRun
run_of node_id runs = find (λ r. r.node_id == node_id) runs

abbrev pub status_or_queued : Option NodeRun → NodeRunStatus
status_or_queued none = NodeRunStatus.queued
status_or_queued (some run) = run.status

abbrev pub run_id_of : Option NodeRun → Option String
run_id_of none = none
run_id_of (some run) = some run.node_run_id

abbrev pub agent_of : Option NodeRun → Option String
agent_of none = none
agent_of (some run) = run.agent_id

abbrev pub provider_of : Option NodeRun → Option String
provider_of none = none
provider_of (some run) = run.provider

-- `workflow.layouts.dag[id]`
abbrev pub position_in : String → List (String × DagPosition) → Option DagPosition
position_in id [] = none
position_in id ((key, position) ∷ more) = if key == id then some position else position_in id more

abbrev pub stage_of : Option DagPosition → Option String
stage_of none = none
stage_of (some position) = position.stage

abbrev pub origin : DagPosition
origin = record { x = pos 0; y = pos 0; stage = none }

abbrev pub port_artifact : NodePortSpec → String
port_artifact port = get_or port.artifact_spec_ref port.id

unfoldable pub dag_node : WorkflowSpec → List NodeRun → NodeSpec → DagNode
dag_node workflow runs node =
    let run = run_of node.id runs in
    let position = position_in node.id workflow.layouts.dag in
    record {
      id = node.id;
      node_run_id = run_id_of run;
      name = node.name;
      type = node.type;
      status = status_or_queued run;
      agent_id = agent_of run;
      provider = provider_of run;
      position = get_or position origin;
      stage = get_or (stage_of position) "default";
      input_artifacts = map port_artifact node.inputs;
      output_artifacts = map port_artifact node.outputs;
      review_gate_ref = node.review_gate_ref;
    }

unfoldable pub dag_edge : EdgeSpec → DagEdge
dag_edge edge = record {
  id = edge.from +++ "->" +++ edge.to;
  from = edge.from;
  to = edge.to;
  required = edge.required;
  label = if edge.required then "required" else "optional";
  join_policy = edge.join_policy;
}

-- `buildDagProjection`
unfoldable pub build_dag_projection : WorkflowSpec → List NodeRun → DagProjection
build_dag_projection workflow runs = record {
  nodes = map (dag_node workflow runs) workflow.nodes;
  edges = map dag_edge workflow.edges;
}

pub record AffectedNodeRun : Type 0 where
  pub node_id : String
  pub node_run_id : Option String
  pub current_status : Option NodeRunStatus
  pub projected_status : NodeRunStatus
  pub reason : String

pub record GateDecisionProjection : Type 0 where
  pub gate_instance_id : String
  pub current_status : GateStatus
  pub target_artifact_id : String
  pub projected_artifact_review_status : ArtifactReviewStatus
  pub affected_node_runs : List AffectedNodeRun
  pub event_types : List String
  pub mutates_artifact : Bool

abbrev pub verdict_of : Option GateDecision → Option GateVerdict
verdict_of none = none
verdict_of (some d) = some d.decision

-- The verdict that counts: the one asked about, or else the last one of the gate.
abbrev pub effective_verdict : GateInstance → Option GateVerdict → Option GateVerdict
effective_verdict gate decision = or_else decision (verdict_of (head? (reverse gate.decisions)))

abbrev pub current_of : Option NodeRun → Option NodeRunStatus
current_of none = none
current_of (some run) = some run.status

abbrev pub name_or : String → Option NodeSpec → String
name_or id none = id
name_or id (some node) = node.name

abbrev pub projected_review : Option GateVerdict → ArtifactReviewStatus
projected_review none = ArtifactReviewStatus.pending_review
projected_review (some GateVerdict.approve) = ArtifactReviewStatus.approved
projected_review (some _) = ArtifactReviewStatus.rejected

abbrev pub projected_status : Option GateVerdict → Option NodeRun → NodeRunStatus
projected_status none run = NodeRunStatus.reviewing
projected_status (some GateVerdict.approve) run = status_or_queued run
projected_status (some _) run = NodeRunStatus.blocked

abbrev pub reason_for : Option GateVerdict → String → String
reason_for none name = name +++ " 等待 Gate 决策。"
reason_for (some GateVerdict.approve) name = "Gate 通过后，" +++ name +++ " 可按原执行计划继续判断输入。"
reason_for (some _) name = "Gate 驳回后，" +++ name +++ " 等待返工产物。"

unfoldable pub affected_node_run :
    Option GateVerdict → WorkflowSpec → List NodeRun → String → AffectedNodeRun
affected_node_run verdict workflow runs node_id =
    let run = run_of node_id runs in
    record {
      node_id = node_id;
      node_run_id = run_id_of run;
      current_status = current_of run;
      projected_status = projected_status verdict run;
      reason = reason_for verdict (name_or node_id (find (λ n. n.id == node_id) workflow.nodes));
    }

-- `buildGateDecisionProjection`
unfoldable pub build_gate_decision_projection :
    GateInstance
    → WorkflowSpec
    → List NodeRun
    → Option GateVerdict
    → (mutates_artifact : Bool) → GateDecisionProjection
build_gate_decision_projection gate workflow runs decision mutates_artifact =
    let verdict = effective_verdict gate decision in
    record {
      gate_instance_id = gate.gate_instance_id;
      current_status = gate.status;
      target_artifact_id = gate.target.id;
      projected_artifact_review_status = projected_review verdict;
      affected_node_runs = map (affected_node_run verdict workflow runs) gate.required_before;
      event_types =
          if is_some decision
          then "gate_decision_created" ∷ "gate_projection_refreshed" ∷ []
          else "gate_projection_refreshed" ∷ [];
      mutates_artifact = mutates_artifact;
    }
