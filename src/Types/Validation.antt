-- ===== src/Types/Validation.antt =====
-- types.ts: the results of validation and of a dry run.
use miracle_agent.Prelude.{ℕ, String, Bool, List}

pub record ValidationIssue : Type 0 where
  pub code : String
  pub object_type : String
  pub object_id : String
  pub message : String

pub record ValidationResult : Type 0 where
  pub valid : Bool
  pub errors : List ValidationIssue
  pub warnings : List ValidationIssue
  pub checked_at : String

pub data Severity : Type 0 where
  p0 p1 p2 : Severity

pub record Risk : Type 0 where
  pub severity : Severity
  pub code : String
  pub message : String
  pub recovery_actions : List String

pub record CostRange : Type 0 where
  pub min : ℕ
  pub max : ℕ
  pub currency : String

pub data NodeReadiness : Type 0 where
  ready blocked requires_review : NodeReadiness

pub record DryRunNode : Type 0 where
  pub node_id : String
  pub status : NodeReadiness

pub record DryRunPlan : Type 0 where
  pub plan_id : String
  pub workflow_id : String
  pub valid : Bool
  pub estimated_cost : CostRange
  pub risks : List Risk
  pub nodes : List DryRunNode
