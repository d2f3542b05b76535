-- ===== src/Outcome/Tests.antt =====
-- A provider's answers, and how they are classified.
use miracle_agent.Prelude.{String, true, none, some, [], ◌≡◌, refl, ◌↔◌}
use miracle_agent.Types.{AttemptStatus, AdapterKind, AdapterError, AdapterResult}
use miracle_agent.Retry.{default_retry_policy, retryable}
use miracle_agent.Outcome.{
  blocked_codes, retry_code_alias, classify, classify_failure, classify_timeout, Category,
}
use miracle_agent.Outcome.Laws.{
  IsConsistent, MayTryAgain, classify-IsConsistent, classify-eligible_iff,
  classify-retryable_default,
}

abbrev answer : AttemptStatus → String → AdapterResult
answer status code = record {
  operation_id = "op";
  attempt_id = "a";
  node_run_id = "n";
  status = status;
  provider_receipt = record {
    provider = "p";
    provider_profile_id = none;
    adapter_kind = AdapterKind.model_api;
    adapter_id = "m";
    model = none;
    operation_id = "op";
    external_session_id = none;
    cost = none;
    latency_ms = none;
    raw_receipt_id = none;
    usage = none;
  };
  artifact_descriptors = [];
  error = some (record { code = code; message = "m"; recoverable = true });
  received_at = "t";
}

abbrev limited : AdapterResult
limited = answer AttemptStatus.failed "provider_rate_limited"

unconfirmed :
    (classify (answer AttemptStatus.timed_out "provider_timeout")).category ≡ Category.terminal
unfolding classify classify_failure classify_timeout
unconfirmed = refl

missing_key :
    (classify (answer AttemptStatus.failed "credential_missing")).category ≡ Category.blocked
unfolding classify classify_failure blocked_codes
missing_key = refl

classify-IsConsistent_example : IsConsistent limited (classify limited)
classify-IsConsistent_example = classify-IsConsistent limited

classify-eligible_iff_example : ((classify limited).retry_eligible ≡ true) ↔ MayTryAgain limited
classify-eligible_iff_example = classify-eligible_iff limited

classify-retryable_default_example :
    (e : AdapterError) × ((classify limited).normalized_error ≡ some e)
    × (retryable default_retry_policy e ≡ true)
unfolding blocked_codes retry_code_alias
classify-retryable_default_example = classify-retryable_default limited refl refl refl
