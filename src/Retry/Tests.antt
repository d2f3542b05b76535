-- ===== src/Retry/Tests.antt =====
-- Sample inputs of `decideRetry`, and the theorems applied to them.
use Prim.Native.String.{count}
use text.Mathlib.TextLemmas.{length-append}
use miracle_agent.Prelude.{
  ℕ, zero, suc, String, true, none, some, [], ◌∷◌, ◌≡◌, refl, ap, ok, ◌+++◌, arith,
}
use miracle_agent.Prelude.Dates.{Dates}
use miracle_agent.Types.{
  AttemptStatus, NodeAttempt, NodeSpec, NodeType, OnFailure, RetryAction, RetryDecision,
  RetryPolicy,
}
use miracle_agent.Retry.{
  RetryMode, DecideRetryInput, default_retry_policy, operation_dispatch_timestamp,
  attempts_used_from, attempts_used, latest_attempt, later_attempt, cost_used, receipt_cost,
  decide_within, decide_for, attempt_dispatch_timestamp, first_dispatch, timestamp, backoff_delay,
  one_operation, decide_retry, resolve_node_retry_policy,
}
use miracle_agent.Schemas.{retry_policy_schema, retry_policy_ok}
use miracle_agent.Retry.Safety.{
  IsWithinBudget, decide_retry-IsWithinBudget, consume_at_due, resolve_node_retry_policy-counted,
}

-- A clock that writes an instant as so many strokes.
strokes : ℕ → String
strokes zero = ""
strokes (suc n) = "|" +++ strokes n

one_stroke : count "|" ≡ 1
one_stroke = refl

count-strokes : (n : ℕ) → count (strokes n) ≡ n
unfolding strokes
count-strokes zero = refl
count-strokes (suc n) = omega (arith, length-append "|" (strokes n), count-strokes n, one_stroke)

abbrev clock : Dates
clock = record { parse = λ s. some (count s); to_iso = strokes }

abbrev attempt : ℕ → NodeAttempt
attempt n = record {
  attempt_id = "a";
  node_run_id = "n";
  operation_id = "op_1";
  attempt_number = some n;
  attempt_kind = none;
  status = AttemptStatus.failed;
  provider_receipt = none;
  error = none;
  started_at = some "||";
  dispatched_at = none;
  created_at = none;
}

abbrev input : DecideRetryInput
input = record {
  policy = record default_retry_policy { initial_delay_ms = 3 };
  error = record { code = "rate_limit"; message = "slow down"; recoverable = true };
  attempts = attempt 1 ∷ attempt 2 ∷ [];
  now = "|||||";
  mode = none;
}

abbrev scheduled : RetryDecision
scheduled = record {
  action = RetryAction.schedule_retry;
  phase = none;
  reason_code = "retryable_error";
  operation_id = "op_1";
  next_attempt_number = some 3;
  delay_ms = some 3;
  scheduled_for = some (strokes 8);
  budget_snapshot = record {
    attempts_used = 2;
    elapsed_ms = 3;
    cost_used = 0;
    max_attempts = 3;
    total_time_budget_ms = 3600000;
    cost_budget = 5;
  };
}

program : Unit {0}
unfolding decide_retry decide_for decide_within retry_policy_schema retry_policy_ok timestamp
    one_operation latest_attempt later_attempt first_dispatch attempt_dispatch_timestamp
    attempts_used attempts_used_from cost_used receipt_cost backoff_delay
program = tt

decide_retry-input : decide_retry clock input ≡ ok scheduled
unfolding program
decide_retry-input = refl

timestamps :
    (operation_dispatch_timestamp "op_nr_1_1700" ≡ some 1700)
    × (operation_dispatch_timestamp "op_x" ≡ none)
    × (operation_dispatch_timestamp "12" ≡ none)
unfolding operation_dispatch_timestamp
timestamps = (refl, refl, refl)

decide_retry-IsWithinBudget_example : IsWithinBudget clock input scheduled
decide_retry-IsWithinBudget_example =
    decide_retry-IsWithinBudget clock input scheduled decide_retry-input refl

consume_at_due_example :
    (later : RetryDecision) × (decide_retry clock
        (record input { now = strokes 8; mode = some RetryMode.consume })
      ≡ ok later)
    × (later.action ≡ RetryAction.schedule_retry)
    × (later.next_attempt_number ≡ some 3)
consume_at_due_example =
    consume_at_due clock input scheduled (strokes 8) 3 (λ n. ap some (count-strokes n)) refl
      decide_retry-input refl refl refl (omega arith)

abbrev node : NodeSpec
node = record {
  id = "n";
  name = "Node";
  type = NodeType.agent;
  domain_tags = none;
  capability_requirements = [];
  recommended_libraries = [];
  agent_candidates = [];
  inputs = [];
  outputs = [];
  review_gate_ref = none;
  runtime_policy = none;
  failure_policy = record {
    retry = 1;
    cost_budget = some 9;
    retry_policy = none;
    on_missing_input = OnFailure.blocked;
    on_provider_failure = OnFailure.failed;
  };
}

resolve_node_retry_policy-counted_example :
    (policy : RetryPolicy) × (resolve_node_retry_policy node ≡ ok policy)
    × (policy.max_attempts ≡ 2)
    × (policy.cost_budget ≡ 9)
resolve_node_retry_policy-counted_example = resolve_node_retry_policy-counted node refl
