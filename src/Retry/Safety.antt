-- ===== src/Retry/Safety.antt =====
-- retry-policy.ts: `decideRetry` as a whole.
use miracle_agent.Prelude.{
  ℕ, ◌+◌, ◌-◌, ◌≤◌, ◌<◌, max, min, String, true, false, Option, some, List, [], ◌∷◌, All, ◌≡◌, refl,
  sym, subst, ap, ◌∙◌, none, get_or, ok, arith, Memᴰ, includes→Memᴰ, string_eq,
}
use miracle_agent.Prelude.Dates.{Dates}
use miracle_agent.Types.{RetryPolicy, RetryAction, RetryDecision, NodeAttempt, NodeSpec}
use miracle_agent.Schemas.{retry_policy_ok, retry_policy_schema}
use miracle_agent.Retry.{
  RetryMode, DecideRetryInput, confirmation_due, attempt_number_of, attempts_used_from,
  attempts_used, budget_snapshot_of, cost_used, backoff_delay, is_consume, time_exhausted,
  timestamp, decide_retry, decide_for, decide_within, counted_policy, resolve_node_retry_policy,
}
use miracle_agent.Retry.Spent.{
  spent, cost_used-spent, attempts_used-reached, IsFirst, first_dispatch-IsFirst,
}
use miracle_agent.Retry.Budget.{
  MaySchedule, DecidedOn, decide_retry-eq-ok, decide_within-schedules_iff, decide_within-fields,
  backoff_delay-le,
}

used_from-ge :
    (acc : ℕ) (rest : List NodeAttempt)
    → (acc ≤ attempts_used_from acc rest)
      × All (λ a. attempt_number_of a ≤ attempts_used_from acc rest) rest
unfolding attempts_used_from
used_from-ge acc [] = (omega arith, tt)
used_from-ge acc (a ∷ rest) =
    let (h, all_h) = used_from-ge (max acc (attempt_number_of a)) rest in
    (omega arith, (omega arith, all_h))

max_attempts-le : (policy : RetryPolicy) → retry_policy_ok policy ≡ true → policy.max_attempts ≤ 3
unfolding retry_policy_ok
max_attempts-le policy h = ground arith

attempts_used-ge :
    (first : NodeAttempt) (rest : List NodeAttempt)
    → All (λ a. attempt_number_of a ≤ attempts_used first rest) (first ∷ rest)
unfolding attempts_used
attempts_used-ge first rest = used_from-ge (attempt_number_of first) rest

-- The time of the attempts so far leaves room: for the delay when the retry is scheduled, and for
-- the retry itself when it is due.
abbrev pub TimeLeft : Option RetryMode → (elapsed delay budget : ℕ) → Type 0
TimeLeft (some RetryMode.consume) elapsed delay budget = elapsed < budget
TimeLeft (some RetryMode.schedule) elapsed delay budget = elapsed + delay ≤ budget
TimeLeft none elapsed delay budget = elapsed + delay ≤ budget

time_exhausted-TimeLeft :
    (mode : Option RetryMode) (elapsed delay budget : ℕ)
    → time_exhausted mode elapsed delay budget ≡ false
    → TimeLeft mode elapsed delay budget
unfolding time_exhausted
time_exhausted-TimeLeft none elapsed delay budget h = ground arith
time_exhausted-TimeLeft (some RetryMode.schedule) elapsed delay budget h = ground arith
time_exhausted-TimeLeft (some RetryMode.consume) elapsed delay budget h = ground arith

confirmation_due-lt :
    (o : Option ℕ) (used n : ℕ) → confirmation_due o used ≡ false → o ≡ some n → used < n
confirmation_due-lt none used n h e = cc
confirmation_due-lt (some m) used n h e = let same : m ≡ n = cc e in ground arith

-- What a scheduled retry promises of the attempts, the policy and the clock.
pub record IsWithinBudget (dates : Dates) (input : DecideRetryInput) (d : RetryDecision)
    : Type 0 where
  pub recoverable : input.error.recoverable ≡ true
  pub listed : Memᴰ input.error.code input.policy.retryable_error_codes
  pub used : ℕ
  pub counted : All (λ a. attempt_number_of a ≤ used) input.attempts
  pub reached : (a : NodeAttempt) × Memᴰ a input.attempts × (attempt_number_of a ≡ used)
  pub next : d.next_attempt_number ≡ some (used + 1)
  pub attempts_left : used < input.policy.max_attempts
  pub at_most_three : used + 1 ≤ 3
  pub cost_left : spent input.attempts < input.policy.cost_budget
  pub unconfirmed : (n : ℕ) → input.policy.manual_confirmation_after ≡ some n → used < n
  pub now_ms : ℕ
  pub now : dates.parse input.now ≡ some now_ms
  pub first_at : ℕ
  pub first : IsFirst dates first_at input.attempts
  pub delay : ℕ
  pub delayed : d.delay_ms ≡ some delay
  pub capped : delay ≤ input.policy.max_delay_ms
  pub time_left : TimeLeft input.mode (now_ms - first_at) delay input.policy.total_time_budget_ms

timestamp-parsed :
    (dates : Dates) (value field : String) {ms : ℕ}
    → timestamp dates (some value) field ≡ ok ms
    → dates.parse value ≡ some ms
unfolding timestamp
timestamp-parsed dates value field h = ground arith

-- A retry is scheduled only for a recoverable, listed error. Its number is one above the largest
-- number of the attempts, within the policy's and 3 at most; the attempts' recorded costs add up to
-- less than the budget, no confirmation is due, the time from the first attempt's dispatch until now
-- leaves room for the delay (in consume mode it is only below the budget), and the delay is at most
-- the policy's cap.
pub decide_retry-IsWithinBudget :
    (dates : Dates) (input : DecideRetryInput) (d : RetryDecision)
    → decide_retry dates input ≡ ok d
    → d.action ≡ RetryAction.schedule_retry
    → IsWithinBudget dates input d
decide_retry-IsWithinBudget dates input d returned scheduled =
    let on = decide_retry-eq-ok dates input returned in
    let id = on.first.operation_id in
    let s =
      budget_snapshot_of input.policy (attempts_used on.first on.rest) (on.now_ms - on.first_at)
        (cost_used (on.first ∷ on.rest)) in
    let e = subst (λ x. x.action ≡ RetryAction.schedule_retry) on.decided scheduled in
    let may =
      (decide_within-schedules_iff dates input.policy input.error input.mode id on.now_ms s).0 e in
    let (next, delay, _, _) =
      decide_within-fields dates input.policy input.error input.mode id on.now_ms s e in
    let three = max_attempts-le input.policy on.valid in
    record {
      recoverable = may.recoverable;
      listed = includes→Memᴰ input.policy.retryable_error_codes input.error.code may.listed;
      used = attempts_used on.first on.rest;
      counted = rw on.attempts (attempts_used-ge on.first on.rest);
      reached = rw on.attempts (attempts_used-reached on.first on.rest);
      next = ap (λ x. x.next_attempt_number) on.decided ∙ next;
      attempts_left = may.attempts_left;
      at_most_three = omega (arith, three, may.attempts_left);
      cost_left = rw on.attempts (
          subst (λ c. c < input.policy.cost_budget) (cost_used-spent (on.first ∷ on.rest))
            may.cost_left);
      unconfirmed =
          λ n. confirmation_due-lt input.policy.manual_confirmation_after _ n may.unconfirmed;
      now_ms = on.now_ms;
      now = timestamp-parsed dates input.now "now" on.now;
      first_at = on.first_at;
      first = rw on.attempts (first_dispatch-IsFirst dates on.first on.rest on.dispatched);
      delay = backoff_delay input.policy (s.attempts_used + 1);
      delayed = ap (λ x. x.delay_ms) on.decided ∙ delay;
      capped = backoff_delay-le input.policy _;
      time_left = time_exhausted-TimeLeft input.mode _ _ _ may.time_left;
    }

-- A node with no policy of its own gets a valid one: one attempt more than its retries, between
-- 1 and 3, and its own cost budget where it names one.
pub resolve_node_retry_policy-counted :
    (node : NodeSpec)
    → node.failure_policy.retry_policy ≡ none
    → (policy : RetryPolicy) × (resolve_node_retry_policy node ≡ ok policy)
      × (policy.max_attempts ≡ min 3 (node.failure_policy.retry + 1))
      × (policy.cost_budget ≡ get_or node.failure_policy.cost_budget 5)
unfolding resolve_node_retry_policy retry_policy_schema retry_policy_ok
resolve_node_retry_policy-counted node h = (
  counted_policy node.failure_policy.retry node.failure_policy.cost_budget,
  ground arith,
  omega arith,
  refl,
)

-- The policy that a node carries is used as it is, or the call throws.
resolve_node_retry_policy-ok :
    (node : NodeSpec) {policy : RetryPolicy}
    → resolve_node_retry_policy node ≡ ok policy
    → retry_policy_ok policy ≡ true
unfolding resolve_node_retry_policy retry_policy_schema
resolve_node_retry_policy-ok node h = ground arith

decide_for-ok :
    (dates : Dates) (input : DecideRetryInput) {d : RetryDecision} (on : DecidedOn dates input d)
    (mode : Option RetryMode) (now_ms : ℕ)
    → decide_for dates input.policy input.error mode now_ms (on.first ∷ on.rest)
      ≡ ok (
          decide_within dates input.policy input.error mode on.first.operation_id now_ms (
            budget_snapshot_of input.policy
              (attempts_used on.first on.rest)
              (now_ms - on.first_at)
              (cost_used (on.first ∷ on.rest))))
unfolding decide_for
decide_for-ok dates input on mode now_ms = rw (on.same, on.latest, on.dispatched)

retry_policy_schema-ok :
    (policy : RetryPolicy) → retry_policy_ok policy ≡ true → retry_policy_schema policy ≡ ok policy
unfolding retry_policy_schema
retry_policy_schema-ok policy h = ground arith

timestamp-ok :
    (dates : Dates) (value field : String) {ms : ℕ}
    → dates.parse value ≡ some ms
    → timestamp dates (some value) field ≡ ok ms
unfolding timestamp
timestamp-ok dates value field h = ground arith

decide_retry-ok :
    (dates : Dates) (input : DecideRetryInput) {d : RetryDecision} (on : DecidedOn dates input d)
    (mode : Option RetryMode) {now : String} (now_ms : ℕ)
    → dates.parse now ≡ some now_ms
    → decide_retry dates (record input { now = now; mode = mode })
      ≡ ok (
          decide_within dates input.policy input.error mode on.first.operation_id now_ms (
            budget_snapshot_of input.policy
              (attempts_used on.first on.rest)
              (now_ms - on.first_at)
              (cost_used (on.first ∷ on.rest))))
unfolding decide_retry
decide_retry-ok dates input on mode {now} now_ms h =
    rw (retry_policy_schema-ok input.policy on.valid, timestamp-ok dates now "now" h, on.attempts)
      (decide_for-ok dates input on mode now_ms)

consume-time_left :
    (now first_at wait budget : ℕ)
    → now - first_at + wait < budget
    → time_exhausted (some RetryMode.consume) (now + wait - first_at) wait budget ≡ false
unfolding time_exhausted
consume-time_left now first_at wait budget h = ground arith

-- A retry that was scheduled to end strictly inside the time budget is accepted when it falls due:
-- deciding again on the same attempts at the scheduled instant, with mode "consume", schedules the
-- same attempt number. The clock reads back the instants that it writes.
pub consume_at_due :
    (dates : Dates) (input : DecideRetryInput) (d : RetryDecision) (at : String) (ms : ℕ)
    → ((n : ℕ) → dates.parse (dates.to_iso n) ≡ some n)
    → is_consume input.mode ≡ false
    → decide_retry dates input ≡ ok d
    → d.action ≡ RetryAction.schedule_retry
    → d.scheduled_for ≡ some at
    → d.delay_ms ≡ some ms
    → d.budget_snapshot.elapsed_ms + ms < input.policy.total_time_budget_ms
    → (later : RetryDecision) × (decide_retry dates
          (record input { now = at; mode = some RetryMode.consume })
        ≡ ok later)
      × (later.action ≡ RetryAction.schedule_retry)
      × (later.next_attempt_number ≡ d.next_attempt_number)
consume_at_due dates input d at ms clock mode returned scheduled due delay room =
    let on = decide_retry-eq-ok dates input returned in
    let id = on.first.operation_id in
    let used = attempts_used on.first on.rest in
    let cost = cost_used (on.first ∷ on.rest) in
    let s = budget_snapshot_of input.policy used (on.now_ms - on.first_at) cost in
    let e = subst (λ x. x.action ≡ RetryAction.schedule_retry) on.decided scheduled in
    let may =
      (decide_within-schedules_iff dates input.policy input.error input.mode id on.now_ms s).0 e in
    let (next, delay', due', same) =
      decide_within-fields dates input.policy input.error input.mode id on.now_ms s e in
    let wait = backoff_delay input.policy (used + 1) in
    let now = on.now_ms + wait in
    let s' = budget_snapshot_of input.policy used (now - on.first_at) cost in
    let consume = some RetryMode.consume in
    let at_eq = sym due ∙ ap (λ x. x.scheduled_for) on.decided ∙ due' in
    let parsed : dates.parse at ≡ some now =
      let q : at ≡ dates.to_iso now = cc at_eq in rw q (clock now) in
    let wait_eq : ms ≡ wait = cc (sym delay ∙ ap (λ x. x.delay_ms) on.decided ∙ delay') in
    let elapsed : d.budget_snapshot.elapsed_ms ≡ on.now_ms - on.first_at =
      ap (λ x. x.budget_snapshot.elapsed_ms) on.decided ∙ ap (λ x. x.elapsed_ms) same in
    let may' : MaySchedule input.policy input.error consume s' = record {
      recoverable = may.recoverable;
      listed = may.listed;
      attempts_left = may.attempts_left;
      cost_left = may.cost_left;
      unconfirmed = may.unconfirmed;
      time_left =
          consume-time_left on.now_ms on.first_at wait input.policy.total_time_budget_ms
            (omega (arith, wait_eq, elapsed));
    } in
    let e' =
      (decide_within-schedules_iff dates input.policy input.error consume id now s').1 may' in
    let (next', _, _, _) =
      decide_within-fields dates input.policy input.error consume id now s' e' in
    (
      decide_within dates input.policy input.error consume id now s',
      decide_retry-ok dates input on consume now parsed,
      e',
      next' ∙ sym (ap (λ x. x.next_attempt_number) on.decided ∙ next),
    )
