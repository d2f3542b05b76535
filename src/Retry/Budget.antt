-- ===== src/Retry/Budget.antt =====
-- retry-policy.ts: what a scheduled retry guarantees of its budgets.
use miracle_agent.Prelude.{
  ℕ, ◌+◌, ◌-◌, ◌≤◌, ◌<◌, String, true, false, Option, some, List, [], ◌∷◌, includes, string_eq, ◌≡◌,
  refl, ◌↔◌, ok, arith, Result-cases, inl, inr,
}
use miracle_agent.Prelude.Dates.{Dates}
use miracle_agent.Types.{
  RetryPolicy, RetryBudgetSnapshot, RetryAction, RetryDecision, AdapterError, NodeAttempt,
}
use miracle_agent.Schemas.{retry_policy_schema, retry_policy_ok}
use miracle_agent.Retry.{
  RetryMode, DecideRetryInput, latest_attempt, attempts_used, cost_used, backoff_delay,
  confirmation_due, may_retry, one_operation, time_exhausted, budget_snapshot_of, timestamp,
  first_dispatch, decide_within, decide_for, decide_retry,
}

-- A delay never exceeds the cap of the policy.
pub backoff_delay-le : (policy : RetryPolicy) (n : ℕ) → backoff_delay policy n ≤ policy.max_delay_ms
unfolding backoff_delay
backoff_delay-le policy n = ground arith

-- The conditions under which `decideRetry` schedules, none left out.
pub record MaySchedule (policy : RetryPolicy) (e : AdapterError) (mode : Option RetryMode)
    (s : RetryBudgetSnapshot) : Type 0 where
  pub recoverable : e.recoverable ≡ true
  pub listed : includes policy.retryable_error_codes e.code ≡ true
  pub attempts_left : s.attempts_used < policy.max_attempts
  pub cost_left : s.cost_used < policy.cost_budget
  pub unconfirmed : confirmation_due policy.manual_confirmation_after s.attempts_used ≡ false
  pub time_left :
      time_exhausted mode s.elapsed_ms
        (backoff_delay policy (s.attempts_used + 1))
        policy.total_time_budget_ms
      ≡ false

module _ (dates : Dates) (policy : RetryPolicy) (e : AdapterError) (mode : Option RetryMode)
    (operation_id : String) (now_ms : ℕ) (s : RetryBudgetSnapshot) where
  -- A retry is scheduled exactly when the error may be retried and every budget has room.
  pub decide_within-schedules_iff :
      ((decide_within dates policy e mode operation_id now_ms s).action
        ≡ RetryAction.schedule_retry)
      ↔ MaySchedule policy e mode s
  unfolding decide_within
  decide_within-schedules_iff = (λ h. ground arith, λ m. ground arith)

  pub decide_within-fields :
      let d = decide_within dates policy e mode operation_id now_ms s in
      d.action ≡ RetryAction.schedule_retry
      → let delay = backoff_delay policy (s.attempts_used + 1) in
        (d.next_attempt_number ≡ some (s.attempts_used + 1))
        × (d.delay_ms ≡ some delay)
        × (d.scheduled_for ≡ some (dates.to_iso (now_ms + delay)))
        × (d.budget_snapshot ≡ s)
  unfolding decide_within
  decide_within-fields h = ground arith

-- The facts on which `decideRetry` returns a decision.
pub record DecidedOn (dates : Dates) (input : DecideRetryInput) (d : RetryDecision) : Type 0 where
  pub first : NodeAttempt
  pub rest : List NodeAttempt
  pub now_ms : ℕ
  pub first_at : ℕ
  pub attempts : input.attempts ≡ first ∷ rest
  pub valid : retry_policy_ok input.policy ≡ true
  pub now : timestamp dates (some input.now) "now" ≡ ok now_ms
  pub same : one_operation first rest ≡ true
  pub latest : may_retry (latest_attempt first rest).status ≡ true
  pub dispatched : first_dispatch dates first rest ≡ ok first_at
  pub decided :
      d
      ≡ decide_within dates input.policy input.error input.mode first.operation_id now_ms (
          budget_snapshot_of input.policy
            (attempts_used first rest)
            (now_ms - first_at)
            (cost_used (first ∷ rest)))

decide_for-eq-ok :
    (dates : Dates) (input : DecideRetryInput) (now_ms : ℕ) (attempts : List NodeAttempt)
    {d : RetryDecision}
    → input.attempts ≡ attempts
    → retry_policy_ok input.policy ≡ true
    → timestamp dates (some input.now) "now" ≡ ok now_ms
    → decide_for dates input.policy input.error input.mode now_ms attempts ≡ ok d
    → DecidedOn dates input d
unfolding decide_for
decide_for-eq-ok dates input now_ms [] a v n h = cc
decide_for-eq-ok dates input now_ms (first ∷ rest) {d} a v n h =
    elim (Result-cases (first_dispatch dates first rest)) [
      | inl (x, failed) ↦ absurd (ground arith)
      | inr (first_at, dispatched) ↦ record {
        first = first;
        rest = rest;
        now_ms = now_ms;
        first_at = first_at;
        attempts = a;
        valid = v;
        now = n;
        same = ground arith;
        latest = ground arith;
        dispatched = dispatched;
        decided = ground arith;
      }
    ]

pub decide_retry-eq-ok :
    (dates : Dates) (input : DecideRetryInput) {d : RetryDecision}
    → decide_retry dates input ≡ ok d
    → DecidedOn dates input d
unfolding decide_retry retry_policy_schema
decide_retry-eq-ok dates input h = elim (Result-cases (timestamp dates (some input.now) "now")) [
  | inl (x, failed) ↦ absurd (ground arith)
  | inr (now_ms, now) ↦
      decide_for-eq-ok dates input now_ms input.attempts refl (ground arith) now (ground arith)
]
