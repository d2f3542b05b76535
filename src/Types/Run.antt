-- ===== src/Types/Run.antt =====
-- types.ts: a run, its node runs and attempts, its artifacts, gates and trace.
use miracle_agent.Prelude.{ℕ, String, Option, List}
use miracle_agent.Prelude.Json.{Json}
use miracle_agent.Types.Retry.{AdapterError}
use miracle_agent.Types.Workflow.{WorkflowSpec, ProviderPolicy, ArtifactReviewStatus}

pub data NodeRunStatus : Type 0 where
  queued running waiting blocked reviewing done failed skipped : NodeRunStatus

pub data AttemptStatus : Type 0 where
  succeeded failed timed_out cancelled aborted unknown : AttemptStatus

pub data RunStatus : Type 0 where
  created queued running paused cancelling cancelled failed completed aborted : RunStatus

pub data ExecutionPolicy : Type 0 where
  auto manual hybrid : ExecutionPolicy

-- `run_mode`, with the properties that each mode has.
pub data RunMode : Type 0 where
  executable : ExecutionPolicy → RunMode
  historical_readonly : (source_meta_path : String) → RunMode

pub record RunSpec : Type 0 where
  pub run_id : String
  pub workflow_id : String
  pub workflow_version : String
  pub workflow_snapshot_id : String
  pub status : RunStatus
  pub run_mode : RunMode
  pub role_profile : String
  pub resolved_components : List String
  pub resolved_provider_policy : ProviderPolicy
  pub created_at : String

pub record WorkflowSnapshot : Type 0 where
  pub snapshot_id : String
  pub run_id : String
  pub frozen_at : String
  pub workflow : WorkflowSpec

pub record NodeRun : Type 0 where
  pub node_run_id : String
  pub run_id : String
  pub node_id : String
  pub status : NodeRunStatus
  pub agent_id : Option String
  pub provider : Option String
  pub started_at : Option String
  pub updated_at : String
  pub blocked_reason : Option String
  pub upstream_artifacts : List String
  pub output_artifacts : List String

pub data AttemptKind : Type 0 where
  execute rework : AttemptKind

pub record NodeAttempt : Type 0 where
  pub attempt_id : String
  pub node_run_id : String
  pub operation_id : String
  pub attempt_number : Option ℕ
  pub attempt_kind : Option AttemptKind
  pub status : AttemptStatus
  pub provider_receipt : Option (List (String × Json))
  pub error : Option AdapterError
  pub started_at : Option String
  pub dispatched_at : Option String
  pub created_at : Option String

pub record ObjectRef : Type 0 where
  pub type : String
  pub id : String

pub record TraceEvent : Type 0 where
  pub event_id : String
  pub run_id : String
  pub type : String
  pub subject : ObjectRef
  pub message : String
  pub created_at : String

pub data ArtifactStatus : Type 0 where
  created pending missing hidden : ArtifactStatus

pub record ArtifactManifest : Type 0 where
  pub artifact_id : String
  pub artifact_spec_ref : Option String
  pub run_id : String
  pub node_run_id : String
  pub type : String
  pub version : ℕ
  pub path : String
  pub hash : String
  pub status : ArtifactStatus
  pub review_status : ArtifactReviewStatus
  pub producer : String
  pub created_at : String
  pub supersedes_artifact_id : Option String
  pub rework_of_gate_instance_id : Option String

pub data GateStatus : Type 0 where
  pending_review decided invalidated : GateStatus

pub data GateVerdict : Type 0 where
  approve reject request_changes : GateVerdict

pub record GateDecision : Type 0 where
  pub decision_id : String
  pub actor : String
  pub decision : GateVerdict
  pub comment : String
  pub created_at : String

pub record GateInstance : Type 0 where
  pub gate_instance_id : String
  pub run_id : String
  pub gate_spec_id : String
  pub target : ObjectRef
  pub status : GateStatus
  pub required_before : List String
  pub decisions : List GateDecision
