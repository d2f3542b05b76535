-- ===== src/Types/Provider.antt =====
-- types.ts: provider routing.
use miracle_agent.Prelude.{ℕ, String, Bool, Option, List}
use miracle_agent.Prelude.Int.{ℤ}
use miracle_agent.Types.Workflow.{RouteKind}
use miracle_agent.Types.Run.{AttemptStatus}

pub data ProviderRoutingHealthStatus : Type 0 where
  missing_credential driver_unregistered configured_unverified : ProviderRoutingHealthStatus
  healthy degraded unavailable : ProviderRoutingHealthStatus

pub record EstimatedCost : Type 0 where
  pub currency : String
  pub min : ℕ
  pub max : ℕ

pub record ProviderRoutingCandidate : Type 0 where
  pub id : String
  pub provider : String
  pub adapter_kind : RouteKind
  pub capabilities : List String
  pub executable : Bool
  pub credential_available : Bool
  pub health_status : ProviderRoutingHealthStatus
  pub user_priority : ℤ
  pub cost_tier : ℕ
  pub estimated_cost : Option EstimatedCost

pub record ProviderRoutingBudget : Type 0 where
  pub attempts_used : ℕ
  pub max_attempts : ℕ
  pub elapsed_ms : ℕ
  pub total_time_budget_ms : ℕ
  pub cost_used : ℕ
  pub cost_budget : ℕ

pub record RoutingFailure : Type 0 where
  pub error_code : String
  pub status : AttemptStatus

pub record ProviderRoutingInput : Type 0 where
  pub operation_id : String
  pub capability_requirements : List String
  pub allowed_adapter_kinds : List RouteKind
  pub current_adapter_kind : Option RouteKind
  pub failed_profile_id : Option String
  pub failed_provider_id : Option String
  pub failure : Option RoutingFailure
  pub profiles : List ProviderRoutingCandidate
  pub budget : ProviderRoutingBudget
  pub decided_at : String

pub record RejectedCandidate : Type 0 where
  pub profile_id : String
  pub reason_code : String

pub record ProviderRoutingDecision : Type 0 where
  pub operation_id : String
  pub selected_adapter_kind : Option RouteKind
  pub selected_provider_profile_id : Option String
  pub candidate_profile_ids : List String
  pub rejected_candidates : List RejectedCandidate
  pub reason_codes : List String
  pub estimated_cost : Option EstimatedCost
  pub requires_confirmation : Bool
  pub decided_at : String
