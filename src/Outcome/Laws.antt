-- ===== src/Outcome/Laws.antt =====
-- adapter-outcome.ts: what holds of every classification.
use miracle_agent.Prelude.{
  String, Bool, true, false, Option, none, some, includes, string_eq, is_some, ◌==◌, ◌≡◌, ◌≢◌, refl,
  subst, ◌↔◌, ◌⊎◌, inl, inr, arith, Option-cases, Bool-cases, eq_iff, if◌then◌else◌, not,
}
use miracle_agent.Types.{AdapterResult, AdapterError, AttemptStatus}
use miracle_agent.Retry.{default_retry_policy, retryable}
use miracle_agent.Outcome.{
  Category, OutcomeStatus, AdapterOutcomeClassification, retry_code_alias, blocked_codes,
  error_code_of, is_failed, is_timed_out, is_succeeded, is_recoverable, error_message,
  classify_timeout, classify_failure, classify,
}

-- It is not known whether the work of the attempt was done.
abbrev pub IsUnclear : AdapterResult → Type 0
IsUnclear result =
    (result.status ≡ AttemptStatus.timed_out)
    ⊎ (result.status ≡ AttemptStatus.unknown)
    ⊎ (error_code_of result ≡ "process_timeout")

-- The fields of a classification agree with its category.
pub record IsConsistent (result : AdapterResult) (c : AdapterOutcomeClassification) : Type 0 where
  pub eligible_iff : (c.retry_eligible ≡ true) ↔ (c.category ≡ Category.retryable_failure)
  pub done_iff : (c.node_run_status ≡ OutcomeStatus.done) ↔ (c.category ≡ Category.succeeded)
  pub blocked_iff : (c.node_run_status ≡ OutcomeStatus.blocked) ↔ (c.category ≡ Category.blocked)
  pub error_unless_done : is_some c.normalized_error ≡ not (is_succeeded result.status)
  pub error_recoverable : is_recoverable c.normalized_error ≡ c.retry_eligible
  pub attention_iff :
      (c.attention_required ≡ true)
      ↔ ((c.category ≡ Category.blocked) ⊎ ((c.category ≡ Category.terminal) × IsUnclear result))
  pub same_status : c.attempt_status ≡ result.status

classify_timeout-IsConsistent :
    (result : AdapterResult)
    → is_succeeded result.status ≡ false
    → IsConsistent result (classify_timeout result)
unfolding classify_timeout
classify_timeout-IsConsistent result h =
    grind (arith, eq_iff (error_code_of result) "process_timeout")

classify_failure-IsConsistent :
    (result : AdapterResult)
    → is_succeeded result.status ≡ false
    → IsConsistent result (classify_failure result)
unfolding classify_failure
classify_failure-IsConsistent result h = grind (arith, classify_timeout-IsConsistent result h)

-- On every branch the retry flag, the node status and the error of a classification agree with its
-- category, and the attempt keeps the status of the result. Attention is asked for exactly when the
-- outcome is blocked, or is terminal with a time-out, an unknown status or the code of a process
-- time-out.
pub classify-IsConsistent : (result : AdapterResult) → IsConsistent result (classify result)
unfolding classify
classify-IsConsistent result = elim (Bool-cases (is_succeeded result.status)) [
  | inl done ↦ ground arith
  | inr failed ↦ rw failed (classify_failure-IsConsistent result failed)
]

-- Which results may be tried again: a failure whose code is not a blocking one and that has an
-- alias or is marked recoverable, or a time-out that the adapter confirmed.
abbrev pub MayTryAgain : AdapterResult → Type 0
MayTryAgain result =
    (is_failed result.status ≡ true)
      × (includes blocked_codes (error_code_of result) ≡ false)
      × ((is_some (retry_code_alias (error_code_of result)) ≡ true)
          ⊎ ((error_code_of result ≢ "process_timeout") × (is_recoverable result.error ≡ true)))
    ⊎ ((is_timed_out result.status ≡ true) × (error_code_of result ≡ "process_timeout"))

no_timeout_alias : retry_code_alias "process_timeout" ≡ none
unfolding retry_code_alias
no_timeout_alias = refl

-- A result is eligible for a retry exactly when it failed with a code that is no blocking one and
-- either has an alias or is no process time-out and is marked recoverable, or when it timed out
-- with the code of a process time-out.
pub classify-eligible_iff :
    (result : AdapterResult) → ((classify result).retry_eligible ≡ true) ↔ MayTryAgain result
unfolding classify classify_failure classify_timeout
classify-eligible_iff result = (
  λ h. ground (arith, eq_iff (error_code_of result) "process_timeout"),
  λ h. ground (arith, eq_iff (error_code_of result) "process_timeout", no_timeout_alias),
)

-- An alias is a code of the default list.
abbrev Listed : Option String → Type 0
Listed none = Unit
Listed (some code) = includes default_retry_policy.retryable_error_codes code ≡ true

if-Listed : (b : Bool) (x y : Option String) → Listed x → Listed y → Listed (if b then x else y)
if-Listed true x y hx hy = hx
if-Listed false x y hx hy = hy

alias-Listed : (code : String) → Listed (retry_code_alias code)
unfolding retry_code_alias
alias-Listed code =
    if-Listed (code == "process_exit_nonzero") (some "adapter_process_error") _ refl (
      if-Listed (code == "process_spawn_failed") (some "adapter_process_error") _ refl (
        if-Listed (code == "invalid_adapter_output") (some "adapter_output_invalid") _ refl (
          if-Listed (code == "provider_rate_limited") (some "rate_limit") _ refl (
            if-Listed (code == "provider_unavailable") (some "provider_temporary_5xx") _ refl (
              if-Listed (code == "provider_network_error") (some "network_error") _ refl
                (if-Listed (code == "provider_timeout") (some "adapter_timeout") none refl tt))))))

-- A failure whose code has an alias, and is not a blocking one, is normalized to an error that the
-- default retry policy retries.
pub classify-retryable_default :
    (result : AdapterResult)
    → is_failed result.status ≡ true
    → includes blocked_codes (error_code_of result) ≡ false
    → is_some (retry_code_alias (error_code_of result)) ≡ true
    → (e : AdapterError) × ((classify result).normalized_error ≡ some e)
      × (retryable default_retry_policy e ≡ true)
unfolding classify classify_failure retryable
classify-retryable_default result failed free known =
    elim (Option-cases (retry_code_alias (error_code_of result))) [
      | inl missing ↦ absurd (ground arith)
      | inr (alias, found) ↦ (
        record { code = alias; message = error_message result.error alias; recoverable = true },
        let not_done : is_succeeded result.status ≡ false = ground arith in
            rw (not_done, failed, free, found),
        subst Listed found (alias-Listed (error_code_of result)),
      )
    ]
