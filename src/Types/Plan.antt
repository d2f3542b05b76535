-- ===== src/Types/Plan.antt =====
-- types.ts: the execution plan of a run.
use miracle_agent.Prelude.{ℕ, String, Bool, Option, List}
use miracle_agent.Types.Workflow.{RouteKind, WorkflowSpec, NodeSpec}
use miracle_agent.Types.Run.{NodeRun, ArtifactManifest, GateInstance}

pub data ExecutionDecision : Type 0 where
  execute wait pause_for_gate blocked skip : ExecutionDecision

pub data SourceKind : Type 0 where
  run_input artifact parameter : SourceKind

pub record ResolvedNodeInput : Type 0 where
  pub input_id : String
  pub source_kind : SourceKind
  pub source_ref : String
  pub artifact_id : Option String
  pub artifact_version : Option ℕ
  pub artifact_hash : Option String
  pub media_type : String
  pub required : Bool
  pub resolved_at : String

pub record RequiredEdgeStatus : Type 0 where
  pub edge_id : String
  pub source_node_run_id : String
  pub satisfied : Bool

pub record NodeExecutionDecision : Type 0 where
  pub node_run_id : String
  pub node_id : String
  pub decision : ExecutionDecision
  pub reason_code : String
  pub gate_instance_id : Option String
  pub required_edge_status : List RequiredEdgeStatus
  pub resolved_inputs : List ResolvedNodeInput
  pub eligible_adapter_kinds : List RouteKind
  pub selected_provider_profile_id : Option String

pub record ExecutionPlan : Type 0 where
  pub run_id : String
  pub workflow_snapshot_id : String
  pub calculated_at : String
  pub revision : ℕ
  pub decisions : List NodeExecutionDecision
  pub ready_node_run_ids : List String
  pub paused_node_run_ids : List String
  pub blocked_node_run_ids : List String
  pub terminal : Bool

pub record ResolveNodeInputsInput : Type 0 where
  pub run_id : String
  pub workflow : WorkflowSpec
  pub node : NodeSpec
  pub node_runs : List NodeRun
  pub artifacts : List ArtifactManifest
  pub calculated_at : String

pub record CalculateExecutionPlanInput : Type 0 where
  pub run_id : String
  pub workflow_snapshot_id : String
  pub workflow : WorkflowSpec
  pub node_runs : List NodeRun
  pub artifacts : List ArtifactManifest
  pub gates : List GateInstance
  pub calculated_at : String
  pub revision : Option ℕ
