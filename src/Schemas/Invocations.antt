-- ===== src/Schemas/Invocations.antt =====
-- packages/core/src/schemas.ts: the schema of an invocation, and the check that the result of an
-- adapter answers it.
use miracle_agent.Prelude.{
  ℕ, String, Bool, true, ◌&&◌, Option, none, some, get_or, List, [], ◌∷◌, all, ltb, leb, ◌==◌,
  string_eq, is_nonempty, ◌+++◌, Result, ok, error, schema_error, guard, ◌>>=◌, ◌>>◌,
}
use miracle_agent.Types.{
  AdapterKind, mock_local, codex, hermes, openclaw, official_api, ExpectedOutput,
  AdapterRuntimeControl, AdapterInvocation, AdapterResult, ResolvedNodeInput,
}
use miracle_agent.Schemas.{optional_nonempty, adapter_result_schema}

-- An artifact version is at least 1.
abbrev pub version_ok : Option ℕ → Bool
version_ok none = true
version_ok (some n) = leb 1 n

unfoldable pub resolved_node_input_ok : ResolvedNodeInput → Bool
resolved_node_input_ok i =
    is_nonempty i.input_id
    && is_nonempty i.source_ref
    && optional_nonempty i.artifact_id
    && version_ok i.artifact_version
    && optional_nonempty i.artifact_hash
    && is_nonempty i.media_type
    && is_nonempty i.resolved_at

unfoldable pub runtime_control_ok : AdapterRuntimeControl → Bool
runtime_control_ok c =
    ltb 0 c.timeout_ms && is_nonempty c.cancellation_token_id && is_nonempty c.attempt_workspace

unfoldable pub expected_output_ok : ExpectedOutput → Bool
expected_output_ok o = is_nonempty o.output_id && is_nonempty o.artifact_type

unfoldable pub adapter_invocation_ok : AdapterInvocation → Bool
adapter_invocation_ok i =
    is_nonempty i.operation_id
    && is_nonempty i.attempt_id
    && version_ok i.attempt_number
    && is_nonempty i.run_id
    && is_nonempty i.node_run_id
    && is_nonempty i.node_id
    && is_nonempty i.adapter_id
    && is_nonempty i.provider
    && optional_nonempty i.provider_profile_id
    && all resolved_node_input_ok i.resolved_inputs
    && all expected_output_ok i.expected_outputs
    && runtime_control_ok i.runtime_control
    && is_nonempty i.prompt_path
    && is_nonempty i.output_schema_path
    && is_nonempty i.dispatched_at

-- `adapterInvocationSchema.parse`: the attempt number is 1 where it is missing.
unfoldable pub adapter_invocation_schema : AdapterInvocation → Result AdapterInvocation
adapter_invocation_schema i = do
  guard (adapter_invocation_ok i) schema_error
  ok (record i { attempt_number = some (get_or i.attempt_number 1) })

abbrev pub kind_text : AdapterKind → String
kind_text mock_local = "mock-local"
kind_text codex = "codex"
kind_text hermes = "hermes"
kind_text openclaw = "openclaw"
kind_text official_api = "official-api"
kind_text AdapterKind.model_api = "model-api"

-- The loop over the associations.
unfoldable pub check_associations : List (String × String × String) → Result (Unit {0})
check_associations [] = ok tt
check_associations ((name, expected, actual) ∷ more) = do
  guard (expected == actual)
      (error ("AdapterResult " +++ name +++ " does not match AdapterInvocation"))
  check_associations more

abbrev pub associations : AdapterInvocation → AdapterResult → List (String × String × String)
associations i r =
    ("operation_id", i.operation_id, r.operation_id)
    ∷ ("attempt_id", i.attempt_id, r.attempt_id)
    ∷ ("node_run_id", i.node_run_id, r.node_run_id)
    ∷ ("adapter_id", i.adapter_id, r.provider_receipt.adapter_id)
    ∷ ("adapter_kind", kind_text i.adapter_kind, kind_text r.provider_receipt.adapter_kind)
    ∷ ("provider", i.provider, r.provider_receipt.provider)
    ∷ []

-- `parseAdapterResultForInvocation`
unfoldable pub parse_adapter_result_for_invocation :
    AdapterInvocation → AdapterResult → Result AdapterResult
parse_adapter_result_for_invocation invocation result = do
  i ← adapter_invocation_schema invocation
  r ← adapter_result_schema result
  check_associations (associations i r)
  ok r
