-- ===== src/Retry/Spent.antt =====
-- retry-policy.ts: the sums, the largest number and the earliest instant of `decideRetry`.
use miracle_agent.Prelude.{
  ℕ, ◌+◌, ◌≤◌, max, min, List, [], ◌∷◌, All, Memᴰ, foldl, ok, ◌≡◌, refl, sym, ◌∙◌, arith, ◌⊎◌, inl,
  inr, Result-cases, ap,
}
use miracle_agent.Prelude.Dates.{Dates}
use miracle_agent.Types.{NodeAttempt}
use miracle_agent.Retry.{
  attempt_number_of, attempts_used_from, attempts_used, receipt_cost, cost_used,
  attempt_dispatch_timestamp, first_dispatch,
}

-- What the attempts cost together.
abbrev pub spent : List NodeAttempt → ℕ
spent [] = 0
spent (a ∷ rest) = receipt_cost a + spent rest

cost_from :
    (total : ℕ) (attempts : List NodeAttempt)
    → foldl (λ n a. n + receipt_cost a) total attempts ≡ total + spent attempts
cost_from total [] = omega arith
cost_from total (a ∷ rest) = omega (arith, cost_from (total + receipt_cost a) rest)

pub cost_used-spent : (attempts : List NodeAttempt) → cost_used attempts ≡ spent attempts
unfolding cost_used
cost_used-spent attempts = omega (arith, cost_from 0 attempts)

larger : (m n : ℕ) → (max m n ≡ m) ⊎ (max m n ≡ n)
larger m n = ground arith

used_from-reached :
    (most : ℕ) (attempts : List NodeAttempt)
    → (attempts_used_from most attempts ≡ most)
      ⊎ ((a : NodeAttempt) × Memᴰ a attempts
          × (attempt_number_of a ≡ attempts_used_from most attempts))
unfolding attempts_used_from
used_from-reached most [] = inl refl
used_from-reached most (a ∷ more) = elim (used_from-reached (max most (attempt_number_of a)) more) [
  | inr (b, m, e) ↦ inr (b, Memᴰ.tail m, e)
  | inl e ↦ elim (larger most (attempt_number_of a)) [
    | inl old ↦ inl (e ∙ old)
    | inr new ↦ inr (a, Memᴰ.head refl, sym (e ∙ new))
  ]
]

-- One of the attempts has the largest number.
pub attempts_used-reached :
    (first : NodeAttempt) (rest : List NodeAttempt)
    → (a : NodeAttempt) × Memᴰ a (first ∷ rest) × (attempt_number_of a ≡ attempts_used first rest)
unfolding attempts_used
attempts_used-reached first rest = elim (used_from-reached (attempt_number_of first) rest) [
  | inl e ↦ (first, Memᴰ.head refl, sym e)
  | inr (a, m, e) ↦ (a, Memᴰ.tail m, e)
]

module _ (dates : Dates) where
  -- The attempt was sent at `t` or later.
  abbrev pub SentAfter : ℕ → NodeAttempt → Type 0
  SentAfter t a = (s : ℕ) × (attempt_dispatch_timestamp dates a ≡ ok s) × (t ≤ s)

  All-earlier :
      (t u : ℕ) (attempts : List NodeAttempt)
      → t ≤ u
      → All (SentAfter u) attempts
      → All (SentAfter t) attempts
  All-earlier t u [] h k = tt
  All-earlier t u (a ∷ rest) h ((s, e, l), more) =
      ((s, e, omega (arith, h, l)), All-earlier t u rest h more)

  smaller : (m n t : ℕ) → min m n ≡ t → (m ≡ t) ⊎ (n ≡ t)
  smaller m n t h = ground arith

  -- The instant is that of one attempt, and none was sent before it.
  pub record IsFirst (t : ℕ) (attempts : List NodeAttempt) : Type 0 where
    pub none_before : All (SentAfter t) attempts
    pub attempt : NodeAttempt
    pub listed : Memᴰ attempt attempts
    pub sent : attempt_dispatch_timestamp dates attempt ≡ ok t

  pub first_dispatch-IsFirst :
      (first : NodeAttempt) (rest : List NodeAttempt) {t : ℕ}
      → first_dispatch dates first rest ≡ ok t
      → IsFirst t (first ∷ rest)
  unfolding first_dispatch
  first_dispatch-IsFirst first [] {t} h = record {
    none_before = ((t, h, omega arith), tt);
    attempt = first;
    listed = Memᴰ.head refl;
    sent = h;
  }
  first_dispatch-IsFirst first (next ∷ rest) {t} h =
      elim (Result-cases (attempt_dispatch_timestamp dates first)) [
        | inl (e, failed) ↦ cc (rw failed at h)
        | inr (at, sent) ↦ elim (Result-cases (first_dispatch dates next rest)) [
          | inl (e, failed) ↦ cc (rw (sent, failed) at h)
          | inr (others, later) ↦
              let k = first_dispatch-IsFirst next rest later in
              let e : min at others ≡ t = let g = rw (sent, later) at h in cc g in
              let before : t ≤ at = omega (arith, e) in
              let before_others : t ≤ others = omega (arith, e) in
              let all_after : All (SentAfter t) (first ∷ next ∷ rest) = (
                (at, sent, before),
                All-earlier t others (next ∷ rest) before_others k.none_before,
              ) in
              elim (smaller at others t e) [
                | inl here ↦ record {
                  none_before = all_after;
                  attempt = first;
                  listed = Memᴰ.head refl;
                  sent = sent ∙ ap ok here;
                }
                | inr there ↦ record {
                  none_before = all_after;
                  attempt = k.attempt;
                  listed = Memᴰ.tail k.listed;
                  sent = k.sent ∙ ap ok there;
                }
              ]
        ]
      ]
