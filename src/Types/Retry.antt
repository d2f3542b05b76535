-- ===== src/Types/Retry.antt =====
-- types.ts: retry policies, budgets, decisions and their stored records.
use miracle_agent.Prelude.{ℕ, String, Bool, Option, List}

pub data Backoff : Type 0 where
  fixed exponential : Backoff

pub record RetryPolicy : Type 0 where
  pub max_attempts : ℕ
  pub backoff : Backoff
  pub initial_delay_ms : ℕ
  pub max_delay_ms : ℕ
  pub retryable_error_codes : List String
  pub attempt_timeout_ms : ℕ
  pub total_time_budget_ms : ℕ
  pub cost_budget : ℕ
  pub manual_confirmation_after : Option ℕ

pub record RetryBudgetSnapshot : Type 0 where
  pub attempts_used : ℕ
  pub elapsed_ms : ℕ
  pub cost_used : ℕ
  pub max_attempts : ℕ
  pub total_time_budget_ms : ℕ
  pub cost_budget : ℕ

pub data RetryAction : Type 0 where
  schedule_retry require_attention fail_terminal : RetryAction

pub data RetryPhase : Type 0 where
  waiting_for_retry due exhausted blocked : RetryPhase

pub record RetryDecision : Type 0 where
  pub action : RetryAction
  pub phase : Option RetryPhase
  pub reason_code : String
  pub operation_id : String
  pub next_attempt_number : Option ℕ
  pub delay_ms : Option ℕ
  pub scheduled_for : Option String
  pub budget_snapshot : RetryBudgetSnapshot

pub record RetryScheduleRecord : Type 0 where
  pub operation_id : String
  pub node_run_id : String
  pub attempt_number : ℕ
  pub reason_code : String
  pub scheduled_for : String
  pub budget_snapshot : RetryBudgetSnapshot

-- `{ code, message, recoverable }`, the error of an attempt and of an adapter's result.
pub record AdapterError : Type 0 where
  pub code : String
  pub message : String
  pub recoverable : Bool

pub data RetryStatePhase : Type 0 where
  waiting_for_retry exhausted blocked : RetryStatePhase

-- `phase`, with the properties that each phase has.
pub data RetryState : Type 0 where
  replayable : RetryStatePhase → RetryDecision → AdapterError → RetryState
  completed : RetryState

pub record RetryStateRecord : Type 0 where
  pub operation_id : String
  pub node_run_id : String
  pub attempt_id : String
  pub attempt_number : ℕ
  pub reason_code : String
  pub effects_committed : Bool
  pub updated_at : String
  pub state : RetryState
