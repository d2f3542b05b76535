-- ===== src/Types/Adapter.antt =====
-- types.ts: what an adapter is asked to do, and what it answers.
use miracle_agent.Prelude.{ℕ, String, Bool, Option, List}
use miracle_agent.Types.Retry.{AdapterError}
use miracle_agent.Types.Workflow.{ArtifactReviewStatus}
use miracle_agent.Types.Run.{AttemptStatus, ArtifactStatus}
use miracle_agent.Types.Plan.{ResolvedNodeInput}

pub data AdapterKind : Type 0 where
  mock_local codex hermes openclaw official_api model_api : AdapterKind

pub record ExpectedOutput : Type 0 where
  pub output_id : String
  pub artifact_type : String
  pub artifact_spec_ref : Option String
  pub required : Bool

pub data Sandbox : Type 0 where
  read_only workspace_write : Sandbox

pub record AdapterRuntimeControl : Type 0 where
  pub timeout_ms : ℕ
  pub cancellation_token_id : String
  pub attempt_workspace : String
  pub sandbox : Sandbox

pub record AdapterInvocation : Type 0 where
  pub operation_id : String
  pub attempt_id : String
  pub attempt_number : Option ℕ
  pub run_id : String
  pub node_run_id : String
  pub node_id : String
  pub adapter_kind : AdapterKind
  pub adapter_id : String
  pub provider : String
  pub provider_profile_id : Option String
  pub capability_requirements : List String
  pub input_artifacts : List String
  pub resolved_inputs : List ResolvedNodeInput
  pub expected_outputs : List ExpectedOutput
  pub runtime_control : AdapterRuntimeControl
  pub prompt_path : String
  pub output_schema_path : String
  pub dispatched_at : String

pub record ModelApiUsage : Type 0 where
  pub input_tokens : Option ℕ
  pub output_tokens : Option ℕ
  pub total_tokens : Option ℕ

pub record ProviderReceipt : Type 0 where
  pub provider : String
  pub provider_profile_id : Option String
  pub adapter_kind : AdapterKind
  pub adapter_id : String
  pub model : Option String
  pub operation_id : String
  pub external_session_id : Option String
  pub cost : Option ℕ
  pub latency_ms : Option ℕ
  pub raw_receipt_id : Option String
  pub usage : Option ModelApiUsage

pub record AdapterArtifactDescriptor : Type 0 where
  pub artifact_id : String
  pub output_id : String
  pub artifact_spec_ref : Option String
  pub type : String
  pub path : String
  pub hash : String
  pub status : ArtifactStatus
  pub review_status : ArtifactReviewStatus
  pub content : Option String

pub record AdapterResult : Type 0 where
  pub operation_id : String
  pub attempt_id : String
  pub node_run_id : String
  pub status : AttemptStatus
  pub provider_receipt : ProviderReceipt
  pub artifact_descriptors : List AdapterArtifactDescriptor
  pub error : Option AdapterError
  pub received_at : String
