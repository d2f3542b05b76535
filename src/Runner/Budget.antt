-- ===== src/Runner/Budget.antt =====
-- packages/core/src/runner.ts: the time that an invocation gets.
use miracle_agent.Prelude.{
  ℕ, ◌≤◌, ◌<◌, String, true, Option, none, some, get_or, string_eq, ok, ◌≡◌, refl, arith, Bool, ◌↔◌,
  ◌≢◌, false, inl, inr, Option-cases,
}
use miracle_agent.Prelude.Ensures.{
  Ensures, returned, Ensures-bind, Ensures-guard, Ensures-of, Ensures-ok,
}
use miracle_agent.Prelude.Dates.{Dates}
use miracle_agent.Types.{AdapterInvocation, NodeSpec, RetryPolicy}
use miracle_agent.Schemas.{retry_policy_ok, retry_policy_schema}
use miracle_agent.Retry.{resolve_node_retry_policy, counted_policy}
use miracle_agent.Runner.{
  Duration, unusable, millis, floor_min, InvocationInput, find_node, node_or_error,
  is_attempt_number, budget_ok, invocation_of, create_adapter_invocation,
}

retry_policy_schema-timeout :
    (p : RetryPolicy) → Ensures (λ q. 0 < q.attempt_timeout_ms) (retry_policy_schema p)
unfolding retry_policy_schema retry_policy_ok
retry_policy_schema-timeout p = Ensures-guard (retry_policy_ok p) _ λ h. returned p (ground arith)

resolve_node_retry_policy-timeout :
    (node : NodeSpec) → Ensures (λ q. 0 < q.attempt_timeout_ms) (resolve_node_retry_policy node)
unfolding resolve_node_retry_policy
resolve_node_retry_policy-timeout node = elim (Option-cases node.failure_policy.retry_policy) [
  | inr (policy, given) ↦ rw given (retry_policy_schema-timeout policy)
  | inl counted ↦ rw counted (
      retry_policy_schema-timeout
        (counted_policy node.failure_policy.retry node.failure_policy.cost_budget))
]

-- What is left for the invocation is at least a whole millisecond.
abbrev pub HasMillisecond : Option Duration → Type 0
HasMillisecond none = Unit
HasMillisecond (some unusable) = ⊥
HasMillisecond (some (millis whole has_fraction)) = 0 < whole

-- The invocation gets a time that its policy allows, and no more than is left.
pub record IsTimed (input : InvocationInput) (i : AdapterInvocation) : Type 0 where
  pub node : NodeSpec
  pub policy : RetryPolicy
  pub found : find_node input.workflow input.node_run.node_id ≡ some node
  pub resolved : resolve_node_retry_policy node ≡ ok policy
  pub positive_iff :
      (0 < i.runtime_control.timeout_ms) ↔ HasMillisecond input.remaining_total_budget_ms
  pub usable : input.remaining_total_budget_ms ≢ some unusable
  pub not_zero : input.remaining_total_budget_ms ≢ some (millis 0 false)
  pub within_policy : i.runtime_control.timeout_ms ≤ policy.attempt_timeout_ms
  pub within_budget :
      (whole : ℕ) (has_fraction : Bool)
      → input.remaining_total_budget_ms ≡ some (millis whole has_fraction)
      → i.runtime_control.timeout_ms ≤ whole
  pub numbered : i.attempt_number ≡ some (get_or input.attempt_number 1)
  pub first : 1 ≤ get_or input.attempt_number 1

floor_min-positive_iff :
    (a : ℕ) (o : Option Duration) → 0 < a → (0 < floor_min a o) ↔ HasMillisecond o
floor_min-positive_iff a none p = (λ _. tt, λ _. p)
floor_min-positive_iff a (some unusable) p = (λ h. absurd (omega (arith, h)), λ h. absurd h)
floor_min-positive_iff a (some (millis whole has_fraction)) p =
    (λ h. omega (arith, h), λ h. omega (arith, h, p))

floor_min-limit : (a : ℕ) (o : Option Duration) → floor_min a o ≤ a
floor_min-limit a none = omega arith
floor_min-limit a (some unusable) = omega arith
floor_min-limit a (some (millis whole has_fraction)) = omega arith

floor_min-whole :
    (a : ℕ) (o : Option Duration) (whole : ℕ) (has_fraction : Bool)
    → o ≡ some (millis whole has_fraction)
    → floor_min a o ≤ whole
floor_min-whole a o whole has_fraction h = rw h (omega arith)

refused_budget :
    (o : Option Duration) (d : Duration)
    → budget_ok o ≡ true
    → budget_ok (some d) ≡ false
    → o ≢ some d
refused_budget o d h k e = let g = rw e at h in cc (g, k)

node_or_error-found :
    (o : Option NodeSpec) (id : String) → Ensures (λ n. o ≡ some n) (node_or_error o id)
node_or_error-found none id = Ensures.thrown _
node_or_error-found (some n) id = returned n refl

-- An invocation that is created has a time limit, which is neither above the time that the retry
-- policy of its node gives an attempt nor above the whole milliseconds that are left; it is positive
-- exactly if at least one whole millisecond is left or no budget is given. A budget that is given is
-- a finite number above 0, and the invocation counts its attempt from 1.
pub create_adapter_invocation-IsTimed :
    (dates : Dates) (current : String) (input : InvocationInput) (i : AdapterInvocation)
    → create_adapter_invocation dates current input ≡ ok i
    → IsTimed input i
unfolding create_adapter_invocation invocation_of
create_adapter_invocation-IsTimed dates current input i h =
    let n = get_or input.attempt_number 1 in
    let rem = input.remaining_total_budget_ms in
    Ensures-ok {P = IsTimed input}
      (Ensures-bind _
        (node_or_error-found (find_node input.workflow input.node_run.node_id)
          input.node_run.node_id)
        λ node found. Ensures-guard (is_attempt_number n) _ λ numbered.
          Ensures-bind (λ p. (resolve_node_retry_policy node ≡ ok p) × (0 < p.attempt_timeout_ms))
            (Ensures-of (resolve_node_retry_policy node)
              (λ p r. (r, Ensures-ok (resolve_node_retry_policy-timeout node) r)))
            λ policy (r, p). Ensures-guard (budget_ok rem) _ λ b. returned _ (record {
              node = node;
              policy = policy;
              found = found;
              resolved = r;
              positive_iff = floor_min-positive_iff policy.attempt_timeout_ms rem p;
              usable = refused_budget rem unusable b refl;
              not_zero = refused_budget rem (millis 0 false) b refl;
              within_policy = floor_min-limit policy.attempt_timeout_ms rem;
              within_budget = floor_min-whole policy.attempt_timeout_ms rem;
              numbered = refl;
              first = ground arith;
            }))
      h
