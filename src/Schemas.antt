-- ===== src/Schemas.antt =====
-- packages/core/src/schemas.ts: the checks that `parse` makes on a value that already has the
-- static type. A property that the record cannot hold (a missing field, NaN, an unknown status)
-- is refused before it becomes such a value, and is not modelled.
pub mod Values
pub mod Stored
pub mod RoundTrip
pub mod Accepted
pub mod Invocations
pub mod Matching
mod Tests
use miracle_agent.Prelude.{
  ℕ, String, Bool, true, not, ◌&&◌, Option, none, some, List, all, ltb, leb, ◌==◌, string_eq,
  is_nonempty, Result, ok, schema_error, guard, ◌>>◌,
}
use miracle_agent.Types.{RetryPolicy, AdapterResult, AdapterError, AdapterArtifactDescriptor}
use miracle_agent.Types.{ProviderReceipt}
use miracle_agent.Types.{EstimatedCost, ProviderRoutingCandidate, RoutingFailure}
use miracle_agent.Types.{ProviderRoutingBudget, ProviderRoutingInput, RouteKind}

-- `.min(1)` on an optional text.
abbrev pub optional_nonempty : Option String → Bool
optional_nonempty none = true
optional_nonempty (some s) = is_nonempty s

abbrev confirmation_ok : ℕ → Option ℕ → Bool
confirmation_ok max_attempts none = true
confirmation_ok max_attempts (some n) = leb 1 n && leb n 3 && leb n max_attempts

unfoldable pub retry_policy_ok : RetryPolicy → Bool
retry_policy_ok p =
    leb 1 p.max_attempts
    && leb p.max_attempts 3
    && all is_nonempty p.retryable_error_codes
    && ltb 0 p.attempt_timeout_ms
    && ltb 0 p.total_time_budget_ms
    && not (ltb p.max_delay_ms p.initial_delay_ms)
    && confirmation_ok p.max_attempts p.manual_confirmation_after

-- `retryPolicySchema.parse`
unfoldable pub retry_policy_schema : RetryPolicy → Result RetryPolicy
retry_policy_schema p = do guard (retry_policy_ok p) schema_error; ok p

unfoldable pub provider_receipt_ok : ProviderReceipt → Bool
provider_receipt_ok r =
    is_nonempty r.provider
    && optional_nonempty r.provider_profile_id
    && is_nonempty r.adapter_id
    && optional_nonempty r.model
    && is_nonempty r.operation_id
    && optional_nonempty r.external_session_id
    && optional_nonempty r.raw_receipt_id

unfoldable pub artifact_descriptor_ok : AdapterArtifactDescriptor → Bool
artifact_descriptor_ok d =
    is_nonempty d.artifact_id
    && is_nonempty d.output_id
    && optional_nonempty d.artifact_spec_ref
    && is_nonempty d.type
    && is_nonempty d.path
    && is_nonempty d.hash

abbrev result_error_ok : Option AdapterError → Bool
result_error_ok none = true
result_error_ok (some e) = is_nonempty e.code && is_nonempty e.message

unfoldable pub adapter_result_ok : AdapterResult → Bool
unfolding provider_receipt_ok artifact_descriptor_ok
adapter_result_ok r =
    is_nonempty r.operation_id
    && is_nonempty r.attempt_id
    && is_nonempty r.node_run_id
    && provider_receipt_ok r.provider_receipt
    && all artifact_descriptor_ok r.artifact_descriptors
    && result_error_ok r.error
    && is_nonempty r.received_at
    && r.provider_receipt.operation_id == r.operation_id

-- `adapterResultSchema.parse`
unfoldable pub adapter_result_schema : AdapterResult → Result AdapterResult
adapter_result_schema r = do guard (adapter_result_ok r) schema_error; ok r

abbrev cost_ok : Option EstimatedCost → Bool
cost_ok none = true
cost_ok (some c) = is_nonempty c.currency && leb c.min c.max

routing_candidate_ok : ProviderRoutingCandidate → Bool
routing_candidate_ok c =
    is_nonempty c.id
    && is_nonempty c.provider
    && all is_nonempty c.capabilities
    && cost_ok c.estimated_cost

abbrev failure_ok : Option RoutingFailure → Bool
failure_ok none = true
failure_ok (some f) = is_nonempty f.error_code

routing_budget_ok : ProviderRoutingBudget → Bool
routing_budget_ok b = leb 1 b.max_attempts && leb b.max_attempts 3 && ltb 0 b.total_time_budget_ms

abbrev some_kind : List RouteKind → Bool
some_kind List.[] = Bool.false
some_kind (List.◌∷◌ k ks) = true

-- `is_datetime` is the test of `z.string().datetime()`.
module _ (is_datetime : String → Bool) where
  unfoldable pub routing_input_ok : ProviderRoutingInput → Bool
  unfolding routing_candidate_ok routing_budget_ok
  routing_input_ok i =
      is_nonempty i.operation_id
      && all is_nonempty i.capability_requirements
      && some_kind i.allowed_adapter_kinds
      && optional_nonempty i.failed_profile_id
      && optional_nonempty i.failed_provider_id
      && failure_ok i.failure
      && all routing_candidate_ok i.profiles
      && routing_budget_ok i.budget
      && is_datetime i.decided_at

  -- `providerRoutingInputSchema.parse`
  unfoldable pub provider_routing_input_schema : ProviderRoutingInput → Result ProviderRoutingInput
  provider_routing_input_schema i = do guard (routing_input_ok i) schema_error; ok i
