-- ===== src/Types/Workflow.antt =====
-- types.ts: the specification of a workflow.
use miracle_agent.Prelude.{ℕ, String, Bool, Option, List}
use miracle_agent.Prelude.Int.{ℤ}
use miracle_agent.Types.Retry.{RetryPolicy}

pub data ArtifactReviewStatus : Type 0 where
  none_required pending_review approved rejected : ArtifactReviewStatus

pub data NodeType : Type 0 where
  start source transform agent tool mcp_tool branch loop review_gate artifact : NodeType
  subworkflow end terminate : NodeType

-- "codex" | "model-api"
pub data RouteKind : Type 0 where
  codex model_api : RouteKind

pub data OnFailure : Type 0 where
  blocked failed : OnFailure

pub data PortKind : Type 0 where
  artifact parameter : PortKind

pub record NodePortSpec : Type 0 where
  pub id : String
  pub kind : PortKind
  pub artifact_type : Option String
  pub required : Bool
  pub artifact_spec_ref : Option String

pub record RuntimePolicy : Type 0 where
  pub allowed_adapter_kinds : List RouteKind
  pub automatic_cross_kind_fallback : Bool

pub record FailurePolicy : Type 0 where
  pub retry : ℕ
  pub cost_budget : Option ℕ
  pub retry_policy : Option RetryPolicy
  pub on_missing_input : OnFailure
  pub on_provider_failure : OnFailure

pub record NodeSpec : Type 0 where
  pub id : String
  pub name : String
  pub type : NodeType
  pub domain_tags : Option (List String)
  pub capability_requirements : List String
  pub recommended_libraries : List String
  pub agent_candidates : List String
  pub inputs : List NodePortSpec
  pub outputs : List NodePortSpec
  pub review_gate_ref : Option String
  pub runtime_policy : Option RuntimePolicy
  pub failure_policy : FailurePolicy

pub record ArtifactSelector : Type 0 where
  pub artifact_type : Option String
  pub review_status : Option ArtifactReviewStatus

pub data OnTimeout : Type 0 where
  continue_if_required_inputs_ready blocked failed require_decision : OnTimeout

pub data OnNoQualifiedArtifact : Type 0 where
  ignore_optional block_downstream require_decision : OnNoQualifiedArtifact

pub record JoinPolicy : Type 0 where
  pub wait_if_active : Bool
  pub max_wait : Option String
  pub on_timeout : OnTimeout
  pub on_no_qualified_artifact : OnNoQualifiedArtifact

pub record EdgeSpec : Type 0 where
  pub from : String
  pub to : String
  pub required : Bool
  pub optional_path_id : Option String
  pub artifact_selector : Option ArtifactSelector
  pub join_policy : JoinPolicy

pub data ReviewMode : Type 0 where
  none auto manual conditional : ReviewMode

pub record ReviewPolicy : Type 0 where
  pub mode : ReviewMode
  pub gate_spec_id : Option String

pub data CompareBy : Type 0 where
  hash path version : CompareBy

pub record Versioning : Type 0 where
  pub immutable : Bool
  pub compare_by : CompareBy

pub record ArtifactSpec : Type 0 where
  pub id : String
  pub type : String
  pub produced_by : String
  pub review_policy : ReviewPolicy
  pub required_for : List String
  pub versioning : Versioning

pub record GateSpec : Type 0 where
  pub id : String
  pub name : String
  pub target_artifact_ref : String
  pub required_before : List String
  pub actions : List String

pub data BlockingScope : Type 0 where
  required_path optional_branch : BlockingScope

pub record CredentialScope : Type 0 where
  pub credential_ref : String
  pub required_for_branch : String
  pub blocking_scope : BlockingScope

pub record ProviderPolicy : Type 0 where
  pub default_provider : String
  pub allowed_providers : List String
  pub required_credentials : List String
  pub fallback_providers : List String
  pub credential_scopes : Option (List CredentialScope)

pub record DagPosition : Type 0 where
  pub x : ℤ
  pub y : ℤ
  pub stage : Option String

pub record CanvasZone : Type 0 where
  pub id : String
  pub name : String
  pub node_ids : List String

-- `canvas` holds the zones of the optional canvas layout.
pub record Layouts : Type 0 where
  pub dag : List (String × DagPosition)
  pub canvas : Option (List CanvasZone)

pub record RegistryMeta : Type 0 where
  pub source : String
  pub status : String

pub record WorkflowSpec : Type 0 where
  pub id : String
  pub name : String
  pub version : String
  pub domain : String
  pub category : String
  pub nodes : List NodeSpec
  pub edges : List EdgeSpec
  pub gates : List GateSpec
  pub artifacts : List ArtifactSpec
  pub provider_policy : ProviderPolicy
  pub layouts : Layouts
  pub registry_meta : RegistryMeta
