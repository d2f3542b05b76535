-- ===== src/Runner.antt =====
-- packages/core/src/runner.ts: the invocation of an adapter, the mock adapter, and what is recorded
-- of a result. `current` is what `new Date().toISOString()` returns at the call.
pub mod Mock
pub mod Records
mod Budget
mod Answers
mod Tests
use miracle_agent.Prelude.{
  ℕ, String, Bool, true, false, not, ◌&&◌, ◌||◌, Option, none, some, get_or, List, [], ◌∷◌, map,
  find, min, ltb, leb, ◌==◌, nat_eq, string_eq, truthy, normalize_id, show, if◌then◌else◌, ◌+++◌,
  Error, Result, ok, throw, error, guard, ◌>>=◌, ◌>>◌,
}
use miracle_agent.Prelude.Dates.{Dates}
use miracle_agent.Types.{
  AdapterKind, codex, mock_local, ExpectedOutput, workspace_write, AdapterInvocation,
  ResolvedNodeInput, NodeSpec, NodePortSpec, WorkflowSpec, RunSpec, NodeRun,
}
use miracle_agent.Retry.{resolve_node_retry_policy}

-- A number that is given for milliseconds: NaN, infinite or below 0; or a whole part, with or without
-- a fraction of a millisecond.
pub data Duration : Type 0 where
  unusable : Duration
  millis : (whole : ℕ) (has_fraction : Bool) → Duration

pub record InvocationInput : Type 0 where
  pub run_spec : RunSpec
  pub workflow : WorkflowSpec
  pub node_run : NodeRun
  pub created_at : Option String
  pub adapter_kind : Option AdapterKind
  pub adapter_id : Option String
  pub provider_profile_id : Option String
  pub resolved_inputs : Option (List ResolvedNodeInput)
  pub operation_id : Option String
  pub attempt_number : Option ℕ
  pub remaining_total_budget_ms : Option Duration

abbrev pub find_node : WorkflowSpec → String → Option NodeSpec
find_node workflow node_id = find (λ n. n.id == node_id) workflow.nodes

-- A date in a template literal.
abbrev pub instant_text : Option ℕ → String
instant_text none = "NaN"
instant_text (some ms) = show ms

-- `Number.isSafeInteger(n) && n >= 1`
abbrev pub is_attempt_number : ℕ → Bool
is_attempt_number n = leb 1 n && leb n 9007199254740991

abbrev pub attempt_id_of : String → ℕ → String
attempt_id_of operation_id n =
    if n == 1 then "attempt_" +++ operation_id else "attempt_" +++ operation_id +++ "_" +++ show n

-- `Number.isFinite(ms) && ms > 0`, for a budget that is given.
abbrev pub budget_ok : Option Duration → Bool
budget_ok none = true
budget_ok (some unusable) = false
budget_ok (some (millis whole has_fraction)) = ltb 0 whole || has_fraction

-- `Math.floor(Math.min(limit, budget ?? limit))`: the limit is a whole number.
abbrev pub floor_min : ℕ → Option Duration → ℕ
floor_min limit none = limit
floor_min limit (some unusable) = 0
floor_min limit (some (millis whole has_fraction)) = min limit whole

abbrev pub default_adapter_id : AdapterKind → String
default_adapter_id codex = "codex-mock-compatible-adapter"
default_adapter_id AdapterKind.model_api = "model-api-compatible-adapter"
default_adapter_id _ = "mock-local-adapter"

abbrev pub expected_output : NodePortSpec → ExpectedOutput
expected_output port = record {
  output_id = port.id;
  artifact_type = get_or port.artifact_type "document";
  artifact_spec_ref = port.artifact_spec_ref;
  required = port.required;
}

abbrev pub node_or_error : Option NodeSpec → String → Result NodeSpec
node_or_error none node_id = throw (error ("NodeSpec not found: " +++ node_id))
node_or_error (some node) node_id = ok node

-- The invocation, once its parts are known.
unfoldable pub invocation_of :
    InvocationInput
    → NodeSpec
    → (dispatched_at operation_id : String) (attempt_number timeout_ms : ℕ) → AdapterInvocation
invocation_of input node dispatched_at operation_id attempt_number timeout_ms =
    let attempt_id = attempt_id_of operation_id attempt_number in
    let kind = get_or input.adapter_kind mock_local in
    let workspace =
      "runtime/" +++ input.run_spec.run_id +++ "/" +++ input.node_run.node_run_id +++ "/"
      +++ attempt_id in
    record {
      operation_id = operation_id;
      attempt_id = attempt_id;
      attempt_number = some attempt_number;
      run_id = input.run_spec.run_id;
      node_run_id = input.node_run.node_run_id;
      node_id = input.node_run.node_id;
      adapter_kind = kind;
      adapter_id = get_or input.adapter_id (default_adapter_id kind);
      provider =
          get_or input.node_run.provider input.run_spec.resolved_provider_policy.default_provider;
      provider_profile_id =
          if truthy input.provider_profile_id then input.provider_profile_id else none;
      capability_requirements = node.capability_requirements;
      input_artifacts = input.node_run.upstream_artifacts;
      resolved_inputs = get_or input.resolved_inputs [];
      expected_outputs = map expected_output node.outputs;
      runtime_control = record {
        timeout_ms = timeout_ms;
        cancellation_token_id = "cancel_" +++ operation_id;
        attempt_workspace = workspace;
        sandbox = workspace_write;
      };
      prompt_path = workspace +++ "/prompt.md";
      output_schema_path = "runtime/schemas/adapter-result-v0.json";
      dispatched_at = dispatched_at;
    }

abbrev pub operation_id_of : Dates → InvocationInput → (dispatched_at : String) → String
operation_id_of dates input dispatched_at = get_or input.operation_id (
    "op_"
    +++ normalize_id input.node_run.node_run_id
    +++ "_"
    +++ instant_text (dates.parse dispatched_at))

-- `createAdapterInvocation`
unfoldable pub create_adapter_invocation :
    Dates → (current : String) → InvocationInput → Result AdapterInvocation
create_adapter_invocation dates current input = do
  node ← node_or_error (find_node input.workflow input.node_run.node_id) input.node_run.node_id
  let dispatched_at = get_or input.created_at current
  let operation_id = operation_id_of dates input dispatched_at
  let attempt_number = get_or input.attempt_number 1
  guard (is_attempt_number attempt_number) (error "attemptNumber must be a positive integer")
  policy ← resolve_node_retry_policy node
  guard (budget_ok input.remaining_total_budget_ms)
      (error "remaining total retry budget must be a positive finite number")
  ok (
      invocation_of input node dispatched_at operation_id attempt_number
        (floor_min policy.attempt_timeout_ms input.remaining_total_budget_ms))
