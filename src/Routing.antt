-- ===== src/Routing.antt =====
-- packages/core/src/provider-routing.ts: which provider profile runs an operation. Costs, cost
-- tiers and priorities are whole numbers of one unit each; `String.prototype.localeCompare` and
-- the date test of the schema are parameters.
mod Rejection
mod Selection
mod Tests
use miracle_agent.Prelude.{
  ℕ, ◌+◌, ◌-◌, String, Bool, true, false, not, ◌&&◌, ◌||◌, Option, none, some, get_or, List, [],
  ◌∷◌, map, all, filter, includes, find, ltb, leb, ◌==◌, string_eq, is_some, truthy, is_text,
  or_else, if◌then◌else◌, Ordering, then_by, sort_by, first_by, Result, ok, ◌>>=◌,
}
use Prim.Native.Nat.{compare}
use miracle_agent.Prelude.Int.{compare_ℤ}
use miracle_agent.Types.{
  RouteKind, AttemptStatus, ProviderRoutingHealthStatus, EstimatedCost, ProviderRoutingCandidate,
  ProviderRoutingBudget, RoutingFailure, ProviderRoutingInput, RejectedCandidate,
  ProviderRoutingDecision,
}
use miracle_agent.Schemas.{provider_routing_input_schema}

abbrev pub kind_eq : RouteKind → RouteKind → Bool
kind_eq RouteKind.codex RouteKind.codex = true
kind_eq RouteKind.model_api RouteKind.model_api = true
kind_eq _ _ = false

-- `input.current_adapter_kind === kind`
abbrev pub current_is : Option RouteKind → RouteKind → Bool
current_is none kind = false
current_is (some k) kind = kind_eq k kind

abbrev is_healthy : ProviderRoutingHealthStatus → Bool
is_healthy ProviderRoutingHealthStatus.healthy = true
is_healthy _ = false

abbrev pub model_api_fallback_errors : List String
model_api_fallback_errors =
    "rate_limit" ∷ "provider_temporary_5xx" ∷ "network_error" ∷ "adapter_timeout" ∷ []

abbrev pub codex_cross_kind_fallback_errors : List String
codex_cross_kind_fallback_errors =
    "adapter_process_error" ∷ "network_error" ∷ "adapter_timeout" ∷ []

-- `candidate.estimated_cost.max > cost_budget - cost_used`, where the difference may be negative.
abbrev pub too_costly : Option EstimatedCost → ProviderRoutingBudget → Bool
too_costly none budget = false
too_costly (some cost) budget = ltb budget.cost_budget (cost.max + budget.cost_used)

-- The reasons that hold only after a failure.
unfoldable pub fallback_rejection : ProviderRoutingInput → ProviderRoutingCandidate → Option String
fallback_rejection input candidate =
    if not (is_some input.failure)
    then none
    else if current_is input.current_adapter_kind RouteKind.model_api
        && not (kind_eq candidate.adapter_kind RouteKind.model_api)
    then some "automatic_fallback_kind_mismatch"
    else if current_is input.current_adapter_kind RouteKind.codex
        && not (kind_eq candidate.adapter_kind RouteKind.model_api)
    then some "codex_fallback_requires_model_api_target"
    else none

-- The reasons that come after those.
unfoldable pub ability_rejection : ProviderRoutingInput → ProviderRoutingCandidate → Option String
ability_rejection input candidate =
    if not (all (λ c. includes candidate.capabilities c) input.capability_requirements)
    then some "capability_incomplete"
    else if not candidate.executable
    then some "adapter_not_executable"
    else if not candidate.credential_available
    then some "credential_missing"
    else if not (is_healthy candidate.health_status)
    then some "provider_not_healthy"
    else if is_text input.failed_profile_id candidate.id
    then some "failed_profile_excluded"
    else if not (truthy input.failed_profile_id)
        && is_text input.failed_provider_id candidate.provider
    then some "failed_provider_profile_unknown"
    else if too_costly candidate.estimated_cost input.budget
    then some "estimated_cost_exceeds_budget"
    else none

abbrev pub kind_in : List RouteKind → RouteKind → Bool
kind_in [] kind = false
kind_in (k ∷ ks) kind = kind_eq k kind || kind_in ks kind

unfoldable pub rejection_reason : ProviderRoutingInput → ProviderRoutingCandidate → Option String
rejection_reason input candidate =
    if not (kind_in input.allowed_adapter_kinds candidate.adapter_kind)
    then some "adapter_kind_not_allowed"
    else or_else (fallback_rejection input candidate) (ability_rejection input candidate)

-- `candidateReasons.get(id)`: the reason kept for an id is that of its last candidate.
unfoldable pub reason_for :
    ProviderRoutingInput → List ProviderRoutingCandidate → String → Option String
reason_for input [] id = none
reason_for input (c ∷ cs) id =
    let later = reason_for input cs id in
    if includes (map (λ d. d.id) cs) id
    then later
    else if c.id == id
    then rejection_reason input c
    else none

abbrev pub rejected_as :
    ProviderRoutingInput → Option String → ProviderRoutingCandidate → RejectedCandidate
rejected_as input fallback_reason candidate = record {
  profile_id = candidate.id;
  reason_code =
      get_or (or_else (reason_for input input.profiles candidate.id) fallback_reason)
        "no_eligible_provider_profile";
}

-- `rejected(fallbackReason)`
unfoldable pub rejected : ProviderRoutingInput → Option String → List RejectedCandidate
rejected input fallback_reason = map (rejected_as input fallback_reason) input.profiles

abbrev stopped_status : AttemptStatus → Bool
stopped_status AttemptStatus.failed = true
stopped_status AttemptStatus.timed_out = true
stopped_status _ = false

-- The guards before a route is selected: the reason that refuses every candidate.
unfoldable pub route_refusal : ProviderRoutingInput → Option String
route_refusal input =
    let permitted =
      if current_is input.current_adapter_kind RouteKind.codex
      then codex_cross_kind_fallback_errors
      else model_api_fallback_errors in
    let failure_refusal : Option String = elim input.failure [
      | none ↦ none
      | some failure ↦
          if not (is_some input.current_adapter_kind)
          then some "fallback_current_adapter_kind_missing"
          else if not (includes permitted failure.error_code)
          then some "fallback_error_not_recoverable"
          else if not (stopped_status failure.status)
          then some "fallback_error_not_recoverable"
          else none
    ] in
    let budget_refusal : Option String =
      if leb input.budget.max_attempts input.budget.attempts_used
      then some "attempt_budget_exhausted"
      else if leb input.budget.total_time_budget_ms input.budget.elapsed_ms
      then some "time_budget_exhausted"
      else if leb input.budget.cost_budget input.budget.cost_used
      then some "cost_budget_exhausted"
      else none in
    or_else failure_refusal budget_refusal

module _ (locale_compare : String → String → Ordering) where
  unfoldable pub compare_candidates : ProviderRoutingCandidate → ProviderRoutingCandidate → Ordering
  compare_candidates left right =
      then_by (compare_ℤ left.user_priority right.user_priority)
        (then_by (compare left.cost_tier right.cost_tier) (locale_compare left.id right.id))

  abbrev pub eligible : ProviderRoutingInput → List ProviderRoutingCandidate
  eligible input = filter (λ c. not (is_some (rejection_reason input c))) input.profiles

  unfoldable pub selected : ProviderRoutingInput → Option ProviderRoutingCandidate
  selected input = first_by compare_candidates (eligible input)

  -- A decision that selects no route.
  abbrev pub refusal : ProviderRoutingInput → Option String → String → ProviderRoutingDecision
  refusal input fallback_reason reason = record {
    operation_id = input.operation_id;
    selected_adapter_kind = none;
    selected_provider_profile_id = none;
    candidate_profile_ids = sort_by locale_compare (map (λ p. p.id) input.profiles);
    rejected_candidates = rejected input fallback_reason;
    reason_codes = reason ∷ [];
    estimated_cost = none;
    requires_confirmation = false;
    decided_at = input.decided_at;
  }

  abbrev pub needs_confirmation : ProviderRoutingInput → ProviderRoutingCandidate → Bool
  needs_confirmation input chosen =
      current_is input.current_adapter_kind RouteKind.codex
      && kind_eq chosen.adapter_kind RouteKind.model_api

  abbrev pub route_to : ProviderRoutingInput → ProviderRoutingCandidate → ProviderRoutingDecision
  route_to input chosen = record {
    operation_id = input.operation_id;
    selected_adapter_kind = some chosen.adapter_kind;
    selected_provider_profile_id = some chosen.id;
    candidate_profile_ids = sort_by locale_compare (map (λ p. p.id) input.profiles);
    rejected_candidates =
        filter (λ r. not (r.profile_id == chosen.id)) (rejected input (some "lower_route_rank"));
    reason_codes =
        (if needs_confirmation input chosen
          then "cross_kind_fallback_requires_confirmation"
          else "provider_route_selected")
        ∷ [];
    estimated_cost = chosen.estimated_cost;
    requires_confirmation = needs_confirmation input chosen;
    decided_at = input.decided_at;
  }

  -- The body of `selectProviderRoute`, after the schema check.
  unfoldable pub route : ProviderRoutingInput → ProviderRoutingDecision
  route input = elim (route_refusal input) [
    | some reason ↦ refusal input (some reason) reason
    | none ↦ elim (selected input) [
      | none ↦ refusal input none "no_eligible_provider_profile"
      | some chosen ↦ route_to input chosen
    ]
  ]

  unfoldable pub select_provider_route :
      (is_datetime : String → Bool) → ProviderRoutingInput → Result ProviderRoutingDecision
  select_provider_route is_datetime input = do
    input ← provider_routing_input_schema is_datetime input
    ok (route input)
