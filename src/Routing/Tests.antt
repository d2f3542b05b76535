-- ===== src/Routing/Tests.antt =====
-- Two profiles, and the route between them.
use miracle_agent.Prelude.{
  ℕ, String, true, none, some, [], ◌∷◌, map, Memᴰ, ◌≡◌, refl, ◌≢◌, ◌↔◌, ◌⊎◌, Ordering, sort_by,
  first_by, insert_by, IsComparator, key-IsComparator, compare-IsComparator,
}
use Prim.Native.Nat.{compare}
use Prim.Native.String.{count}
use miracle_agent.Prelude.Int.{pos}
use miracle_agent.Types.{
  RouteKind, ProviderRoutingHealthStatus, ProviderRoutingCandidate, ProviderRoutingInput,
}
use miracle_agent.Routing.{
  compare_candidates, rejection_reason, fallback_rejection, ability_rejection, reason_for, rejected,
  route_refusal, selected, route,
}
use miracle_agent.Routing.Rejection.{IsEligible, rejection_reason-none_iff}
use miracle_agent.Routing.Selection.{
  IsBestRoute, route-IsBestRoute, route-none_iff, route-rejected_iff,
}

abbrev profile : String → ℕ → ProviderRoutingCandidate
profile id priority = record {
  id = id;
  provider = "p";
  adapter_kind = RouteKind.model_api;
  capabilities = "text" ∷ [];
  executable = true;
  credential_available = true;
  health_status = ProviderRoutingHealthStatus.healthy;
  user_priority = pos priority;
  cost_tier = 1;
  estimated_cost = none;
}

abbrev input : ProviderRoutingInput
input = record {
  operation_id = "op";
  capability_requirements = "text" ∷ [];
  allowed_adapter_kinds = RouteKind.model_api ∷ [];
  current_adapter_kind = none;
  failed_profile_id = none;
  failed_provider_id = none;
  failure = none;
  profiles = profile "b" 2 ∷ profile "a" 1 ∷ [];
  budget = record {
    attempts_used = 0;
    max_attempts = 3;
    elapsed_ms = 0;
    total_time_budget_ms = 10;
    cost_used = 0;
    cost_budget = 5;
  };
  decided_at = "t";
}

-- An order on ids: by their number of characters.
abbrev by_count : String → String → Ordering
by_count s t = compare (count s) (count t)

by_count-IsComparator : IsComparator by_count
by_count-IsComparator = key-IsComparator compare-IsComparator count

program : Unit {0}
unfolding route route_refusal selected first_by sort_by insert_by compare_candidates
    rejection_reason fallback_rejection ability_rejection rejected reason_for
program = tt

selects_a : (route by_count input).selected_provider_profile_id ≡ some "a"
unfolding program
selects_a = refl

rejection_reason-none_iff_example :
    (rejection_reason input (profile "a" 1) ≡ none) ↔ IsEligible input (profile "a" 1)
rejection_reason-none_iff_example = rejection_reason-none_iff input (profile "a" 1)

route-IsBestRoute_example : IsBestRoute by_count input (route by_count input) "a"
route-IsBestRoute_example = route-IsBestRoute by_count input by_count-IsComparator selects_a

route-none_iff_example : ((route by_count input).selected_provider_profile_id ≡ none) ↔ (
    (route_refusal input ≢ none)
    ⊎ ((c : ProviderRoutingCandidate) → Memᴰ c input.profiles → ¬ IsEligible input c))
route-none_iff_example = route-none_iff by_count input

route-rejected_iff_example :
    Memᴰ "b" (map (λ r. r.profile_id) (route by_count input).rejected_candidates)
    ↔ ((route by_count input).selected_provider_profile_id ≢ some "b")
route-rejected_iff_example = route-rejected_iff by_count input (profile "b" 2) (Memᴰ.head refl)
