-- ===== src/Retry.antt =====
-- packages/core/src/retry-policy.ts: whether and when a failed attempt is tried again.
-- Amounts of money are whole numbers of the smallest unit that is priced, times are whole
-- milliseconds since 1970.
mod Spent
mod Budget
mod Safety
mod Tests
use miracle_agent.Prelude.{
  ℕ, ◌+◌, ◌-◌, ◌*◌, ◌^◌, min, max, String, Bool, true, false, not, ◌&&◌, ◌||◌, Option, none, some,
  get_or, List, [], ◌∷◌, map, reverse, any, foldl, includes, codes, ltb, leb, ◌==◌, nat_eq,
  string_eq, or_else, truthy, is_nonempty, if◌then◌else◌, ◌+++◌, Result, ok, throw, error, guard,
  ◌>>=◌, ◌>>◌,
}
use miracle_agent.Prelude.Int.{pos}
use miracle_agent.Prelude.Json.{Json, number, finite, lookup}
use miracle_agent.Prelude.Dates.{Dates}
use miracle_agent.Types.{
  Backoff, RetryPolicy, RetryBudgetSnapshot, RetryAction, RetryDecision, AdapterError,
  AttemptStatus, NodeAttempt, NodeSpec,
}
use miracle_agent.Schemas.{retry_policy_schema}

-- DEFAULT_RETRY_POLICY
abbrev pub default_retry_policy : RetryPolicy
default_retry_policy = record {
  max_attempts = 3;
  backoff = Backoff.fixed;
  initial_delay_ms = 1000;
  max_delay_ms = 30000;
  retryable_error_codes =
      "network_error" ∷ "rate_limit" ∷ "provider_temporary_5xx" ∷ "adapter_process_error"
      ∷ "adapter_timeout" ∷ "adapter_output_invalid" ∷ "mock_failure" ∷ [];
  attempt_timeout_ms = 1800000;
  total_time_budget_ms = 3600000;
  cost_budget = 5;
  manual_confirmation_after = none;
}

-- The policy of a node that gives only a count of retries.
abbrev pub counted_policy : ℕ → Option ℕ → RetryPolicy
counted_policy retry cost_budget = record default_retry_policy {
  max_attempts = min 3 (max 1 (retry + 1));
  cost_budget = get_or cost_budget default_retry_policy.cost_budget;
}

unfoldable pub resolve_node_retry_policy : NodeSpec → Result RetryPolicy
resolve_node_retry_policy node = elim node.failure_policy.retry_policy [
  | some policy ↦ retry_policy_schema policy
  | none ↦
      retry_policy_schema (counted_policy node.failure_policy.retry node.failure_policy.cost_budget)
]

abbrev cost_value : Option Json → ℕ
cost_value (some (number (finite (pos n)))) = n
cost_value _ = 0

unfoldable pub receipt_cost : NodeAttempt → ℕ
receipt_cost attempt = elim attempt.provider_receipt [
  | none ↦ 0
  | some receipt ↦ cost_value (lookup "cost" receipt)
]

is_digit : ℕ → Bool
is_digit c = leb b'0' c && leb c b'9'

-- `/_(\d+)$/` over the codes from the last: the digits before the first underscore.
trailing_number : (weight total : ℕ) → Bool → List ℕ → Option ℕ
trailing_number weight total seen [] = none
trailing_number weight total seen (c ∷ cs) =
    let more = trailing_number (weight * 10) (total + weight * (c - b'0')) true cs in
    if is_digit c then more else if c == b'_' && seen then some total else none

unfoldable pub operation_dispatch_timestamp : String → Option ℕ
unfolding trailing_number is_digit codes
operation_dispatch_timestamp operation_id = trailing_number 1 0 false (reverse (codes operation_id))

abbrev pub attempt_number_of : NodeAttempt → ℕ
attempt_number_of attempt = get_or attempt.attempt_number 1

-- One round of the `reduce` that finds the latest attempt.
unfoldable pub later_attempt : NodeAttempt → NodeAttempt → NodeAttempt
later_attempt latest attempt =
    if ltb (attempt_number_of latest) (attempt_number_of attempt) then attempt else latest

unfoldable pub latest_attempt : NodeAttempt → List NodeAttempt → NodeAttempt
latest_attempt first rest = foldl later_attempt first rest

unfoldable pub attempts_used_from : ℕ → List NodeAttempt → ℕ
attempts_used_from most rest = foldl (λ n attempt. max n (attempt_number_of attempt)) most rest

-- `Math.max(...attempts.map((attempt) => attempt.attempt_number ?? 1))`
unfoldable pub attempts_used : NodeAttempt → List NodeAttempt → ℕ
attempts_used first rest = attempts_used_from (attempt_number_of first) rest

unfoldable pub cost_used : List NodeAttempt → ℕ
cost_used attempts = foldl (λ total attempt. total + receipt_cost attempt) 0 attempts

unfoldable pub backoff_delay : RetryPolicy → ℕ → ℕ
backoff_delay policy next_attempt_number = elim policy.backoff [
  | Backoff.fixed ↦ min policy.initial_delay_ms policy.max_delay_ms
  | Backoff.exponential ↦
      min (policy.initial_delay_ms * 2 ^ (next_attempt_number - 2)) policy.max_delay_ms
]

pub data RetryMode : Type 0 where
  schedule consume : RetryMode

abbrev pub is_consume : Option RetryMode → Bool
is_consume (some RetryMode.consume) = true
is_consume _ = false

abbrev pub may_retry : AttemptStatus → Bool
may_retry AttemptStatus.failed = true
may_retry AttemptStatus.timed_out = true
may_retry _ = false

abbrev pub confirmation_due : Option ℕ → ℕ → Bool
confirmation_due none used = false
confirmation_due (some n) used = leb n used

-- `decision({ … })`
abbrev pub decision : RetryAction → String → String → RetryBudgetSnapshot → RetryDecision
decision action reason_code operation_id snapshot = record {
  action = action;
  phase = none;
  reason_code = reason_code;
  operation_id = operation_id;
  next_attempt_number = none;
  delay_ms = none;
  scheduled_for = none;
  budget_snapshot = snapshot;
}

pub record DecideRetryInput : Type 0 where
  pub policy : RetryPolicy
  pub error : AdapterError
  pub attempts : List NodeAttempt
  pub now : String
  pub mode : Option RetryMode

unfoldable pub one_operation : NodeAttempt → List NodeAttempt → Bool
one_operation first rest =
    is_nonempty first.operation_id
    && not (any (λ a. not (a.operation_id == first.operation_id)) (first ∷ rest))

-- Is the time budget used up by the projected time?
unfoldable pub time_exhausted : Option RetryMode → (elapsed delay budget : ℕ) → Bool
time_exhausted mode elapsed delay budget =
    if is_consume mode then leb budget elapsed else ltb budget (elapsed + delay)

unfoldable pub retryable : RetryPolicy → AdapterError → Bool
retryable policy e = e.recoverable && includes policy.retryable_error_codes e.code

-- The budget of the attempts that a decision is made on.
abbrev pub budget_snapshot_of : RetryPolicy → (used elapsed cost : ℕ) → RetryBudgetSnapshot
budget_snapshot_of policy used elapsed cost = record {
  attempts_used = used;
  elapsed_ms = elapsed;
  cost_used = cost;
  max_attempts = policy.max_attempts;
  total_time_budget_ms = policy.total_time_budget_ms;
  cost_budget = policy.cost_budget;
}

module _ (dates : Dates) where
  unfoldable pub timestamp : Option String → String → Result ℕ
  timestamp value field = elim (dates.parse (get_or value "")) [
    | none ↦ throw (error (field +++ " must be a valid timestamp"))
    | some ms ↦ ok ms
  ]

  unfoldable pub attempt_dispatch_timestamp : NodeAttempt → Result ℕ
  attempt_dispatch_timestamp attempt =
      let explicit = or_else attempt.dispatched_at attempt.started_at in
      if truthy explicit
      then timestamp explicit "attempt.dispatched_at"
      else elim (operation_dispatch_timestamp attempt.operation_id) [
        | some ms ↦ ok ms
        | none ↦ throw (error "Retry attempts require a real dispatch timestamp")
      ]

  -- `Math.min(...attempts.map(attemptDispatchTimestamp))`
  unfoldable pub first_dispatch : NodeAttempt → List NodeAttempt → Result ℕ
  first_dispatch first [] = attempt_dispatch_timestamp first
  first_dispatch first (next ∷ rest) = do
    at ← attempt_dispatch_timestamp first
    others ← first_dispatch next rest
    ok (min at others)

  -- The budget checks of `decideRetry`, from the snapshot on.
  unfoldable pub decide_within :
      RetryPolicy
      → AdapterError
      → Option RetryMode
      → (operation_id : String) (now_ms : ℕ) → RetryBudgetSnapshot
      → RetryDecision
  unfolding retryable time_exhausted
  decide_within policy e mode operation_id now_ms snapshot =
      let used = snapshot.attempts_used in
      let delay = backoff_delay policy (used + 1) in
      if not (retryable policy e)
      then decision RetryAction.fail_terminal "error_not_retryable" operation_id snapshot
      else if leb policy.max_attempts used
      then decision RetryAction.require_attention "attempt_budget_exhausted" operation_id snapshot
      else if leb policy.cost_budget snapshot.cost_used
      then decision RetryAction.require_attention "cost_budget_exhausted" operation_id snapshot
      else if confirmation_due policy.manual_confirmation_after used
      then decision RetryAction.require_attention "manual_confirmation_required" operation_id
          snapshot
      else if time_exhausted mode snapshot.elapsed_ms delay policy.total_time_budget_ms
      then decision RetryAction.require_attention "time_budget_exhausted" operation_id snapshot
      else record {
        action = RetryAction.schedule_retry;
        phase = none;
        reason_code = "retryable_error";
        operation_id = operation_id;
        next_attempt_number = some (used + 1);
        delay_ms = some delay;
        scheduled_for = some (dates.to_iso (now_ms + delay));
        budget_snapshot = snapshot;
      }

  unfoldable pub decide_for :
      RetryPolicy
      → AdapterError
      → Option RetryMode
      → (now_ms : ℕ) → List NodeAttempt
      → Result RetryDecision
  decide_for policy e mode now_ms [] =
      throw (error "decideRetry requires an explicit failed NodeAttempt")
  decide_for policy e mode now_ms (first ∷ rest) = do
    guard (one_operation first rest) (error "Retry attempts must belong to one operation_id")
    guard (may_retry (latest_attempt first rest).status)
        (error "Only an explicit failed or confirmed timed_out NodeAttempt may be retried")
    first_at ← first_dispatch first rest
    ok (
        decide_within policy e mode first.operation_id now_ms (
          budget_snapshot_of policy (attempts_used first rest) (now_ms - first_at)
            (cost_used (first ∷ rest))))

  unfoldable pub decide_retry : DecideRetryInput → Result RetryDecision
  decide_retry input = do
    policy ← retry_policy_schema input.policy
    now_ms ← timestamp (some input.now) "now"
    decide_for policy input.error input.mode now_ms input.attempts
