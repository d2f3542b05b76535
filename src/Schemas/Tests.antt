-- ===== src/Schemas/Tests.antt =====
-- A stored record, and the theorem on its schema applied to it.
use miracle_agent.Prelude.{
  Bool, true, none, some, [], ok, throw, error, ◌↔◌, refl, ◌≡◌, is_nonempty,
}
use miracle_agent.Types.{RetryAction, RetryPhase, RetryStatePhase, replayable, RetryStateRecord}
use miracle_agent.Types.{AdapterInvocation, AdapterResult, AttemptStatus, codex, workspace_write}
use miracle_agent.Schemas.{adapter_result_ok, provider_receipt_ok, adapter_result_schema}
use miracle_agent.Schemas.Invocations.{
  adapter_invocation_ok, runtime_control_ok, resolved_node_input_ok, expected_output_ok,
  adapter_invocation_schema, check_associations, parse_adapter_result_for_invocation,
}
use miracle_agent.Schemas.Matching.{IsMatch, parse_adapter_result_for_invocation-ok_iff}
use miracle_agent.Schemas.Stored.{retry_state_record_schema, state_json}
use miracle_agent.Schemas.RoundTrip.{retry_state_record_schema-json}

abbrev waiting : RetryStateRecord
waiting = record {
  operation_id = "op";
  node_run_id = "n1";
  attempt_id = "a1";
  attempt_number = 1;
  reason_code = "retryable_error";
  effects_committed = Bool.false;
  updated_at = "now";
  state =
      replayable RetryStatePhase.waiting_for_retry
        (record {
          action = RetryAction.schedule_retry;
          phase = some RetryPhase.waiting_for_retry;
          reason_code = "retryable_error";
          operation_id = "op";
          next_attempt_number = some 2;
          delay_ms = none;
          scheduled_for = some "later";
          budget_snapshot = record {
            attempts_used = 1;
            elapsed_ms = 10;
            cost_used = 0;
            max_attempts = 3;
            total_time_budget_ms = 1000;
            cost_budget = 5;
          };
        })
        (record { code = "rate_limit"; message = "slow"; recoverable = true });
}

retry_state_record_schema-json_example :
    retry_state_record_schema is_nonempty (state_json waiting) ≡ ok waiting
retry_state_record_schema-json_example = retry_state_record_schema-json is_nonempty waiting

abbrev invocation : AdapterInvocation
invocation = record {
  operation_id = "op";
  attempt_id = "attempt_op";
  attempt_number = none;
  run_id = "run";
  node_run_id = "n1";
  node_id = "writer";
  adapter_kind = codex;
  adapter_id = "codex-cli";
  provider = "local";
  provider_profile_id = none;
  capability_requirements = [];
  input_artifacts = [];
  resolved_inputs = [];
  expected_outputs = [];
  runtime_control = record {
    timeout_ms = 1000;
    cancellation_token_id = "cancel_op";
    attempt_workspace = "runtime/run";
    sandbox = workspace_write;
  };
  prompt_path = "prompt.md";
  output_schema_path = "result.json";
  dispatched_at = "t1";
}

abbrev result : AdapterResult
result = record {
  operation_id = "op";
  attempt_id = "attempt_op";
  node_run_id = "n1";
  status = AttemptStatus.succeeded;
  provider_receipt = record {
    provider = "local";
    provider_profile_id = none;
    adapter_kind = codex;
    adapter_id = "codex-cli";
    model = none;
    operation_id = "op";
    external_session_id = none;
    cost = none;
    latency_ms = none;
    raw_receipt_id = none;
    usage = none;
  };
  artifact_descriptors = [];
  error = none;
  received_at = "t2";
}

matches : IsMatch invocation result
unfolding adapter_invocation_ok runtime_control_ok resolved_node_input_ok expected_output_ok
    adapter_result_ok provider_receipt_ok
matches = record {
  invocation = refl;
  result = refl;
  operation = refl;
  attempt = refl;
  node_run = refl;
  adapter = refl;
  kind = refl;
  provider = refl;
}

parse_adapter_result_for_invocation-ok_iff_example :
    (parse_adapter_result_for_invocation invocation result ≡ ok result) ↔ IsMatch invocation result
parse_adapter_result_for_invocation-ok_iff_example =
    parse_adapter_result_for_invocation-ok_iff invocation result

-- The result of another node run is refused.
other_refused :
    parse_adapter_result_for_invocation invocation (record result { node_run_id = "n2" })
    ≡ throw (error "AdapterResult node_run_id does not match AdapterInvocation")
unfolding parse_adapter_result_for_invocation adapter_invocation_schema adapter_result_schema
    check_associations adapter_invocation_ok runtime_control_ok resolved_node_input_ok
    expected_output_ok adapter_result_ok provider_receipt_ok
other_refused = refl
