-- ===== src/Outcome.antt =====
-- packages/core/src/adapter-outcome.ts: what the result of an adapter means for its attempt and
-- its node run.
mod Laws
mod Tests
use miracle_agent.Prelude.{
  String, Bool, true, false, ◌&&◌, ◌||◌, Option, none, some, List, [], ◌∷◌, includes, ◌==◌,
  string_eq, if◌then◌else◌, Result, ok, ◌>>=◌,
}
use miracle_agent.Types.{AdapterError, AdapterResult, AttemptStatus}
use miracle_agent.Schemas.{adapter_result_schema}

pub data Category : Type 0 where
  succeeded retryable_failure blocked terminal : Category

-- The node run statuses that an outcome can have.
pub data OutcomeStatus : Type 0 where
  done failed blocked : OutcomeStatus

pub record AdapterOutcomeClassification : Type 0 where
  pub category : Category
  pub attempt_status : AttemptStatus
  pub node_run_status : OutcomeStatus
  pub normalized_error : Option AdapterError
  pub retry_eligible : Bool
  pub attention_required : Bool
  pub reason_code : String

-- `retryCodeAliases.get(code)`
unfoldable pub retry_code_alias : String → Option String
retry_code_alias code =
    if code == "process_exit_nonzero"
    then some "adapter_process_error"
    else if code == "process_spawn_failed"
    then some "adapter_process_error"
    else if code == "invalid_adapter_output"
    then some "adapter_output_invalid"
    else if code == "provider_rate_limited"
    then some "rate_limit"
    else if code == "provider_unavailable"
    then some "provider_temporary_5xx"
    else if code == "provider_network_error"
    then some "network_error"
    else if code == "provider_timeout"
    then some "adapter_timeout"
    else none

unfoldable pub blocked_codes : List String
blocked_codes =
    "credential_missing" ∷ "authentication_failed" ∷ "permission_denied" ∷ "required_input_missing"
    ∷ "input_missing" ∷ "artifact_missing" ∷ "artifact_reference_invalid" ∷ []

abbrev pub error_message : Option AdapterError → String → String
error_message none code = code
error_message (some e) code = e.message

abbrev pub classified_error : AdapterResult → String → Bool → Option AdapterError
classified_error result code recoverable =
    some
      (record { code = code; message = error_message result.error code; recoverable = recoverable })

-- `adapter_${result.status}`
abbrev pub status_code : AttemptStatus → String
status_code AttemptStatus.succeeded = "adapter_succeeded"
status_code AttemptStatus.failed = "adapter_failed"
status_code AttemptStatus.timed_out = "adapter_timed_out"
status_code AttemptStatus.cancelled = "adapter_cancelled"
status_code AttemptStatus.aborted = "adapter_aborted"
status_code AttemptStatus.unknown = "adapter_unknown"

abbrev pub error_code_of : AdapterResult → String
error_code_of result = elim result.error [ none ↦ status_code result.status | some e ↦ e.code ]

abbrev pub is_failed : AttemptStatus → Bool
is_failed AttemptStatus.failed = true
is_failed _ = false

abbrev pub is_timed_out : AttemptStatus → Bool
is_timed_out AttemptStatus.timed_out = true
is_timed_out _ = false

abbrev is_unknown : AttemptStatus → Bool
is_unknown AttemptStatus.unknown = true
is_unknown _ = false

abbrev pub is_recoverable : Option AdapterError → Bool
is_recoverable none = false
is_recoverable (some e) = e.recoverable

abbrev pub retryable_failure_of :
    AdapterResult → AttemptStatus → String → AdapterOutcomeClassification
retryable_failure_of result status code = record {
  category = Category.retryable_failure;
  attempt_status = status;
  node_run_status = OutcomeStatus.failed;
  normalized_error = classified_error result code true;
  retry_eligible = true;
  attention_required = false;
  reason_code = code;
}

abbrev pub terminal_of : AdapterResult → Bool → String → AdapterOutcomeClassification
terminal_of result attention reason = record {
  category = Category.terminal;
  attempt_status = result.status;
  node_run_status = OutcomeStatus.failed;
  normalized_error = classified_error result (error_code_of result) false;
  retry_eligible = false;
  attention_required = attention;
  reason_code = reason;
}

abbrev pub succeeded_outcome : AdapterOutcomeClassification
succeeded_outcome = record {
  category = Category.succeeded;
  attempt_status = AttemptStatus.succeeded;
  node_run_status = OutcomeStatus.done;
  normalized_error = none;
  retry_eligible = false;
  attention_required = false;
  reason_code = "adapter_succeeded";
}

abbrev pub blocked_of : AdapterResult → AdapterOutcomeClassification
blocked_of result = record {
  category = Category.blocked;
  attempt_status = AttemptStatus.failed;
  node_run_status = OutcomeStatus.blocked;
  normalized_error = classified_error result (error_code_of result) false;
  retry_eligible = false;
  attention_required = true;
  reason_code = error_code_of result;
}

-- The last three tests of `classifyAdapterOutcome`, once there is no alias.
unfoldable pub classify_timeout : AdapterResult → AdapterOutcomeClassification
classify_timeout result =
    let code = error_code_of result in
    if is_timed_out result.status && code == "process_timeout"
    then retryable_failure_of result AttemptStatus.timed_out "adapter_timeout"
    else if is_timed_out result.status || code == "process_timeout"
    then terminal_of result true "adapter_timeout_unconfirmed"
    else if is_failed result.status && is_recoverable result.error
    then retryable_failure_of result AttemptStatus.failed code
    else terminal_of result (is_unknown result.status) code

abbrev alias_of : AdapterResult → Option String
alias_of result = if is_failed result.status then retry_code_alias (error_code_of result) else none

-- The tests of a result that did not succeed.
unfoldable pub classify_failure : AdapterResult → AdapterOutcomeClassification
classify_failure result =
    if is_failed result.status && includes blocked_codes (error_code_of result)
    then blocked_of result
    else elim (alias_of result) [
      | some alias ↦ retryable_failure_of result AttemptStatus.failed alias
      | none ↦ classify_timeout result
    ]

abbrev pub is_succeeded : AttemptStatus → Bool
is_succeeded AttemptStatus.succeeded = true
is_succeeded _ = false

-- The body of `classifyAdapterOutcome`, after the schema check.
unfoldable pub classify : AdapterResult → AdapterOutcomeClassification
classify result = if is_succeeded result.status then succeeded_outcome else classify_failure result

unfoldable pub classify_adapter_outcome : AdapterResult → Result AdapterOutcomeClassification
classify_adapter_outcome input = do result ← adapter_result_schema input; ok (classify result)
