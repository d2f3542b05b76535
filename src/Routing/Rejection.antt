-- ===== src/Routing/Rejection.antt =====
-- provider-routing.ts: what it takes for a candidate not to be rejected.
use miracle_agent.Prelude.{
  ℕ, ◌+◌, ◌≤◌, true, false, Option, none, some, all, includes, string_eq, is_some, ◌≡◌, ◌↔◌, arith,
  truthy, is_text,
}
use miracle_agent.Types.{
  RouteKind, ProviderRoutingHealthStatus, EstimatedCost, ProviderRoutingCandidate,
  ProviderRoutingInput,
}
use miracle_agent.Routing.{kind_in, fallback_rejection, ability_rejection, rejection_reason}

abbrev pub FitsBudget : Option EstimatedCost → (used budget : ℕ) → Type 0
FitsBudget none used budget = Unit
FitsBudget (some cost) used budget = cost.max + used ≤ budget

-- The conditions on a candidate, none left out.
pub record IsEligible (i : ProviderRoutingInput) (c : ProviderRoutingCandidate) : Type 0 where
  pub allowed : kind_in i.allowed_adapter_kinds c.adapter_kind ≡ true
  pub same_kind :
      is_some i.failure ≡ true
      → is_some i.current_adapter_kind ≡ true
      → c.adapter_kind ≡ RouteKind.model_api
  pub capable : all (λ x. includes c.capabilities x) i.capability_requirements ≡ true
  pub executable : c.executable ≡ true
  pub credential : c.credential_available ≡ true
  pub healthy : c.health_status ≡ ProviderRoutingHealthStatus.healthy
  pub not_failed : is_text i.failed_profile_id c.id ≡ false
  pub provider_known :
      truthy i.failed_profile_id ≡ false → is_text i.failed_provider_id c.provider ≡ false
  pub affordable : FitsBudget c.estimated_cost i.budget.cost_used i.budget.cost_budget

-- A candidate is not rejected exactly when its kind is allowed and fits the fallback, it has every
-- required capability, is executable, has a credential and is healthy, is not the profile that
-- failed, is not of the provider that failed if no failed profile is named, and its estimated cost
-- fits the budget that is left.
pub rejection_reason-none_iff :
    (i : ProviderRoutingInput) (c : ProviderRoutingCandidate)
    → (rejection_reason i c ≡ none) ↔ IsEligible i c
unfolding rejection_reason fallback_rejection ability_rejection
rejection_reason-none_iff i c = (λ h. ground arith, λ h. ground arith)
