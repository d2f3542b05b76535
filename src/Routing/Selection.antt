-- ===== src/Routing/Selection.antt =====
-- provider-routing.ts: the route that `selectProviderRoute` decides on.
use miracle_agent.Prelude.{
  String, Bool, true, false, not, Option, none, some, map, filter, Memᴰ, is_some, ◌==◌, string_eq,
  ◌≡◌, ◌≢◌, ◌↔◌, ◌⊎◌, inl, inr, arith, eq_iff, Option-cases, Ordering, is_gt, IsComparator,
  compare-before, ◌<◌, then_by-IsComparator, key-IsComparator, compare-IsComparator, first_by-Memᴰ,
  first_by-least, first_by-eq-none, filter-Memᴰ, Memᴰ-filter,
}
use mathlib.Core.List.Memᴰ
use miracle_agent.Prelude.Int.{◌<ℤ◌, compare_ℤ-IsComparator, compare_ℤ-before}
use miracle_agent.Types.{
  RouteKind, ProviderRoutingCandidate, ProviderRoutingInput, RejectedCandidate,
  ProviderRoutingDecision,
}
use miracle_agent.Routing.{
  rejection_reason, route_refusal, compare_candidates, selected, rejected, rejected_as, route,
  eligible, refusal, route_to,
}
use miracle_agent.Routing.Rejection.{IsEligible, rejection_reason-none_iff}

-- The order on candidates is a total preorder, if the order on their ids is.
pub compare_candidates-IsComparator :
    {locale_compare : String → String → Ordering}
    → IsComparator locale_compare
    → IsComparator (compare_candidates locale_compare)
unfolding compare_candidates
compare_candidates-IsComparator ids =
    then_by-IsComparator (key-IsComparator compare_ℤ-IsComparator (λ c. c.user_priority)) (
      then_by-IsComparator (key-IsComparator compare-IsComparator (λ c. c.cost_tier))
        (key-IsComparator ids (λ c. c.id)))

-- `a` comes before `b`, or is no worse: by priority, then cost tier, then id.
abbrev pub Precedes :
    (String → String → Ordering) → ProviderRoutingCandidate → ProviderRoutingCandidate → Type 0
Precedes locale_compare a b =
    (a.user_priority <ℤ b.user_priority)
    ⊎ ((a.user_priority ≡ b.user_priority)
        × ((a.cost_tier < b.cost_tier)
            ⊎ ((a.cost_tier ≡ b.cost_tier) × (is_gt (locale_compare a.id b.id) ≡ false))))

compare_candidates-Precedes :
    (locale_compare : String → String → Ordering) (a b : ProviderRoutingCandidate)
    → is_gt (compare_candidates locale_compare a b) ≡ false
    → Precedes locale_compare a b
unfolding compare_candidates
compare_candidates-Precedes locale_compare a b h =
    elim (compare_ℤ-before a.user_priority b.user_priority _ h) [
      | inl higher ↦ inl higher
      | inr (same, next) ↦ inr (same, compare-before a.cost_tier b.cost_tier _ next)
    ]

-- What the selection of `id` shows.
pub record IsBestRoute (locale_compare : String → String → Ordering) (i : ProviderRoutingInput)
    (d : ProviderRoutingDecision) (id : String) : Type 0 where
  pub chosen : ProviderRoutingCandidate
  pub listed : Memᴰ chosen i.profiles
  pub named : chosen.id ≡ id
  pub kind : d.selected_adapter_kind ≡ some chosen.adapter_kind
  pub eligible : IsEligible i chosen
  pub permitted : route_refusal i ≡ none
  pub best :
      (c : ProviderRoutingCandidate)
      → Memᴰ c i.profiles
      → IsEligible i c
      → Precedes locale_compare chosen c
  pub confirmed_iff : (d.requires_confirmation ≡ true) ↔ (
      (i.current_adapter_kind ≡ some RouteKind.codex) × (chosen.adapter_kind ≡ RouteKind.model_api))

module _ (locale_compare : String → String → Ordering) (i : ProviderRoutingInput) where
  kept_iff :
      (c : ProviderRoutingCandidate)
      → (not (is_some (rejection_reason i c)) ≡ true) ↔ IsEligible i c
  kept_iff c = (
    λ h. (rejection_reason-none_iff i c).0 (ground arith),
    λ h. ground (arith, (rejection_reason-none_iff i c).1 h),
  )

  selected-Memᴰ :
      {c : ProviderRoutingCandidate}
      → selected locale_compare i ≡ some c
      → Memᴰ c i.profiles × IsEligible i c
  unfolding selected
  selected-Memᴰ {c} h =
      let (m, keep) =
        filter-Memᴰ (λ x. not (is_some (rejection_reason i x))) i.profiles
          (first_by-Memᴰ (compare_candidates locale_compare) (eligible locale_compare i) h) in
      (m, (kept_iff c).0 keep)

  selected-least :
      IsComparator locale_compare
      → {c : ProviderRoutingCandidate} → selected locale_compare i ≡ some c
      → (b : ProviderRoutingCandidate) → Memᴰ b i.profiles
      → IsEligible i b
      → is_gt (compare_candidates locale_compare c b) ≡ false
  unfolding selected
  selected-least ids h b m e =
      first_by-least (compare_candidates-IsComparator ids) (eligible locale_compare i) h
        (Memᴰ-filter (λ x. not (is_some (rejection_reason i x))) i.profiles m ((kept_iff b).1 e))

  selected-none :
      selected locale_compare i ≡ none
      → (c : ProviderRoutingCandidate) → Memᴰ c i.profiles
      → ¬ IsEligible i c
  unfolding selected
  selected-none h c m e =
      first_by-eq-none (compare_candidates locale_compare) (eligible locale_compare i) h
        (Memᴰ-filter (λ x. not (is_some (rejection_reason i x))) i.profiles m ((kept_iff c).1 e))

  route-refused :
      {reason : String}
      → route_refusal i ≡ some reason
      → route locale_compare i ≡ refusal locale_compare i (some reason) reason
  unfolding route
  route-refused h = ground arith

  route-nobody :
      route_refusal i ≡ none
      → selected locale_compare i ≡ none
      → route locale_compare i ≡ refusal locale_compare i none "no_eligible_provider_profile"
  unfolding route
  route-nobody h k = ground arith

  route-chosen :
      {chosen : ProviderRoutingCandidate}
      → route_refusal i ≡ none
      → selected locale_compare i ≡ some chosen
      → route locale_compare i ≡ route_to locale_compare i chosen
  unfolding route
  route-chosen h k = ground arith

  confirmation_iff :
      (chosen : ProviderRoutingCandidate)
      → ((route_to locale_compare i chosen).requires_confirmation ≡ true) ↔ (
          (i.current_adapter_kind ≡ some RouteKind.codex)
          × (chosen.adapter_kind ≡ RouteKind.model_api))
  confirmation_iff chosen = (λ h. ground arith, λ h. ground arith)

  -- Every candidate is listed by its id.
  rejected-Memᴰ :
      (fallback : Option String) {c : ProviderRoutingCandidate}
      → Memᴰ c i.profiles
      → Memᴰ c.id (map (λ r. r.profile_id) (rejected i fallback))
  unfolding rejected
  rejected-Memᴰ fallback m = Memᴰ.map (λ r. r.profile_id) (Memᴰ.map (rejected_as i fallback) m)

  -- The ids that remain when the chosen one is filtered out.
  chosen-rejected_iff :
      (chosen c : ProviderRoutingCandidate)
      → Memᴰ c i.profiles
      → Memᴰ c.id (map (λ r. r.profile_id) (route_to locale_compare i chosen).rejected_candidates)
        ↔ (◌≢◌ {A = Option String} (some chosen.id) (some c.id))
  unfolding rejected
  chosen-rejected_iff chosen c m = (to, from)
    where
      other : RejectedCandidate → Bool
      other r = not (r.profile_id == chosen.id)

      to :
          Memᴰ c.id (map (λ r. r.profile_id) (route_to locale_compare i chosen).rejected_candidates)
          → ◌≢◌ {A = Option String} (some chosen.id) (some c.id)
      to k e =
          let (r, listed, named) =
            Memᴰ.of_map (λ r. r.profile_id) (filter other (rejected i (some "lower_route_rank")))
              k in
          let (_, kept) = filter-Memᴰ other (rejected i (some "lower_route_rank")) listed in
          ground (arith, eq_iff r.profile_id chosen.id)

      from :
          ◌≢◌ {A = Option String} (some chosen.id) (some c.id)
          → Memᴰ c.id
              (map (λ r. r.profile_id) (route_to locale_compare i chosen).rejected_candidates)
      from ne =
          Memᴰ.map (λ r. r.profile_id)
            (Memᴰ-filter other (rejected i (some "lower_route_rank"))
              (Memᴰ.map (rejected_as i (some "lower_route_rank")) m)
              (ground (arith, eq_iff c.id chosen.id)))

  -- A selected profile is listed, meets every condition, and comes first among the profiles that
  -- do, by priority, then cost tier, then id, none of them before it; no guard refused the route, and
  -- a confirmation is asked for exactly when an operation moves from Codex to a model API. The order
  -- on the ids is a total preorder.
  pub route-IsBestRoute :
      IsComparator locale_compare
      → {id : String} → (route locale_compare i).selected_provider_profile_id ≡ some id
      → IsBestRoute locale_compare i (route locale_compare i) id
  unfolding route
  route-IsBestRoute ids {id} h = elim (Option-cases (route_refusal i)) [
    | inr (reason, refused) ↦ absurd (ground arith)
    | inl open_route ↦ elim (Option-cases (selected locale_compare i)) [
      | inl nobody ↦ absurd (ground arith)
      | inr (c, found) ↦ record {
        chosen = c;
        listed = (selected-Memᴰ found).0;
        named = ground arith;
        kind = ground arith;
        eligible = (selected-Memᴰ found).1;
        permitted = open_route;
        best = λ b m e.
            compare_candidates-Precedes locale_compare c b (selected-least ids found b m e);
        confirmed_iff = rw (route-chosen open_route found) (confirmation_iff c);
      }
    ]
  ]

  -- No profile is selected exactly when a guard refuses the route, or no listed profile meets
  -- every condition.
  pub route-none_iff : ((route locale_compare i).selected_provider_profile_id ≡ none) ↔ (
      (route_refusal i ≢ none)
      ⊎ ((c : ProviderRoutingCandidate) → Memᴰ c i.profiles → ¬ IsEligible i c))
  unfolding route
  route-none_iff = (to, from)
    where
      to :
          (route locale_compare i).selected_provider_profile_id ≡ none
          → (route_refusal i ≢ none)
            ⊎ ((c : ProviderRoutingCandidate) → Memᴰ c i.profiles → ¬ IsEligible i c)
      to h = elim (Option-cases (route_refusal i)) [
        | inr (reason, refused) ↦ inl (λ e. cc)
        | inl open_route ↦ elim (Option-cases (selected locale_compare i)) [
          | inl nobody ↦ inr (selected-none nobody)
          | inr (c, found) ↦ absurd (ground arith)
        ]
      ]

      from :
          (route_refusal i ≢ none)
            ⊎ ((c : ProviderRoutingCandidate) → Memᴰ c i.profiles → ¬ IsEligible i c)
          → (route locale_compare i).selected_provider_profile_id ≡ none
      from (inl refused) = ground arith
      from (inr nobody) = elim (Option-cases (selected locale_compare i)) [
        | inl none_left ↦ ground arith
        | inr (c, found) ↦ let (m, e) = selected-Memᴰ found in absurd (nobody c m e)
      ]

  -- Every listed profile is accounted for: its id is among the rejected ones exactly when it is not
  -- the selected one.
  pub route-rejected_iff :
      (c : ProviderRoutingCandidate)
      → Memᴰ c i.profiles
      → Memᴰ c.id (map (λ r. r.profile_id) (route locale_compare i).rejected_candidates)
        ↔ ((route locale_compare i).selected_provider_profile_id ≢ some c.id)
  route-rejected_iff c m = elim (Option-cases (route_refusal i)) [
    | inr (reason, refused) ↦
        rw (route-refused refused) (λ _ e. cc, λ _. rejected-Memᴰ (some reason) m)
    | inl open_route ↦ elim (Option-cases (selected locale_compare i)) [
      | inl nobody ↦ rw (route-nobody open_route nobody) (λ _ e. cc, λ _. rejected-Memᴰ none m)
      | inr (chosen, found) ↦ rw (route-chosen open_route found) (chosen-rejected_iff chosen c m)
    ]
  ]
