-- ===== src/RetryStore/Distinct.antt =====
-- retry-store.ts: lists of records with different operation ids, as the stores keep them.
use miracle_agent.Prelude.{
  ◌≤◌, String, Bool, true, false, not, ◌&&◌, ◌||◌, Option, none, some, List, [], ◌∷◌, ◌++◌, map,
  length, filter, find, any, all, All, includes, unique, unique_from, ◌==◌, nat_eq, string_eq,
  if◌then◌else◌, ◌≡◌, refl, inl, inr, arith, Bool-cases, eq_iff,
}
use miracle_agent.RetryStore.Files.{all_distinct}

-- No text occurs twice.
abbrev pub nodup : List String → Bool
nodup [] = true
nodup (x ∷ xs) = not (includes xs x) && nodup xs

abbrev unseen : List String → List String → Bool
unseen seen xs = all (λ x. not (includes seen x)) xs

unseen-cons :
    (x : String) (seen xs : List String)
    → unseen (x ∷ seen) xs ≡ (not (includes xs x) && unseen seen xs)
unseen-cons x seen [] = refl
unseen-cons x seen (y ∷ ys) = ground (arith, eq_iff x y, eq_iff y x, unseen-cons x seen ys)

length-unique_from-le : (seen xs : List String) → length (unique_from seen xs) ≤ length xs
unfolding unique_from
length-unique_from-le seen [] = omega arith
length-unique_from-le seen (x ∷ xs) =
    ground (arith, length-unique_from-le seen xs, length-unique_from-le (x ∷ seen) xs)

length-unique_from :
    (seen xs : List String)
    → (length (unique_from seen xs) == length xs) ≡ (unseen seen xs && nodup xs)
unfolding unique_from
length-unique_from seen [] = refl
length-unique_from seen (x ∷ xs) =
    ground (
      arith,
      length-unique_from-le seen xs,
      length-unique_from (x ∷ seen) xs,
      unseen-cons x seen xs,
    )

unseen-nil : (xs : List String) → unseen [] xs ≡ true
unseen-nil [] = refl
unseen-nil (x ∷ xs) = unseen-nil xs

-- The test by the size of a set finds repetitions.
pub all_distinct_lem : (ids : List String) → all_distinct ids ≡ nodup ids
unfolding all_distinct unique
all_distinct_lem ids = rw (length-unique_from [] ids, unseen-nil ids)

module _ {R : Type 0} (id : R → String) where
  pub includes-map : (rs : List R) (k : String) → includes (map id rs) k ≡ any (λ r. id r == k) rs
  includes-map [] k = refl
  includes-map (r ∷ rs) k = rw (includes-map rs k)

  any-filter : (p q : R → Bool) (rs : List R) → any q rs ≡ false → any q (filter p rs) ≡ false
  any-filter p q [] h = refl
  any-filter p q (r ∷ rs) h = ground (arith, any-filter p q rs)

  pub nodup-filter :
      (p : R → Bool) (rs : List R) → nodup (map id rs) ≡ true → nodup (map id (filter p rs)) ≡ true
  nodup-filter p [] h = refl
  nodup-filter p (r ∷ rs) h = ground (
    arith,
    nodup-filter p rs,
    includes-map rs (id r),
    includes-map (filter p rs) (id r),
    any-filter p (λ (x : R). id x == id r) rs,
  )

  -- The records that a store keeps beside the one it writes.
  abbrev pub without : String → List R → List R
  without k rs = filter (λ r. not (id r == k)) rs

  pub any-without : (k : String) (rs : List R) → any (λ r. id r == k) (without k rs) ≡ false
  any-without k [] = refl
  any-without k (r ∷ rs) = ground (arith, any-without k rs)

  any-snoc : (q : R → Bool) (rs : List R) (x : R) → any q (rs ++ x ∷ []) ≡ (any q rs || q x)
  any-snoc q [] x = ground arith
  any-snoc q (r ∷ rs) x = ground (arith, any-snoc q rs x)

  pub nodup-snoc :
      (rs : List R) (x : R)
      → nodup (map id rs) ≡ true
      → any (λ r. id r == id x) rs ≡ false
      → nodup (map id (rs ++ x ∷ [])) ≡ true
  nodup-snoc [] x h free = refl
  nodup-snoc (r ∷ rs) x h free = ground (
    arith,
    nodup-snoc rs x,
    includes-map rs (id r),
    includes-map (rs ++ x ∷ []) (id r),
    any-snoc (λ (y : R). id y == id r) rs x,
    eq_iff (id x) (id r),
    eq_iff (id r) (id x),
  )

  pub nodup-upsert :
      (rs : List R) (x : R)
      → nodup (map id rs) ≡ true
      → nodup (map id (without (id x) rs ++ x ∷ [])) ≡ true
  nodup-upsert rs x h =
      nodup-snoc (without (id x) rs) x (nodup-filter (λ r. not (id r == id x)) rs h)
        (any-without (id x) rs)

  -- The record of an operation.
  abbrev pub record_of : String → List R → Option R
  record_of k rs = find (λ r. id r == k) rs

  pub record_of-without :
      (k j : String) (rs : List R)
      → record_of j (without k rs) ≡ (if k == j then none else record_of j rs)
  record_of-without k j [] = ground arith
  record_of-without k j (r ∷ rs) =
      ground (arith, record_of-without k j rs, eq_iff (id r) k, eq_iff (id r) j, eq_iff k j)

  record_of-snoc :
      (j : String) (rs : List R) (x : R)
      → any (λ r. id r == id x) rs ≡ false
      → record_of j (rs ++ x ∷ []) ≡ (if id x == j then some x else record_of j rs)
  record_of-snoc j [] x free = refl
  record_of-snoc j (r ∷ rs) x free =
      ground (arith, record_of-snoc j rs x, eq_iff (id r) (id x), eq_iff (id r) j, eq_iff (id x) j)

  pub record_of-upsert :
      (j : String) (rs : List R) (x : R)
      → record_of j (without (id x) rs ++ x ∷ []) ≡ (if id x == j then some x else record_of j rs)
  record_of-upsert j rs x = ground (
    arith,
    record_of-snoc j (without (id x) rs) x (any-without (id x) rs),
    record_of-without (id x) j rs,
  )

  length-filter-le : (p : R → Bool) (rs : List R) → length (filter p rs) ≤ length rs
  length-filter-le p [] = omega arith
  length-filter-le p (r ∷ rs) = ground (arith, length-filter-le p rs)

  -- A filter that keeps the length keeps the list.
  pub filter_same :
      (p : R → Bool) (rs : List R) → length (filter p rs) ≡ length rs → filter p rs ≡ rs
  filter_same p [] h = refl
  filter_same p (r ∷ rs) h = ground (arith, filter_same p rs, length-filter-le p rs)

  pub All-without : (P : R → Type 0) (k : String) (rs : List R) → All P rs → All P (without k rs)
  All-without P k [] h = tt
  All-without P k (r ∷ rs) h = elim (Bool-cases (id r == k)) [
    | inl gone ↦ rw gone (All-without P k rs h.1)
    | inr kept ↦ rw kept (h.0, All-without P k rs h.1)
  ]

pub All-snoc :
    {R : Type 0} (P : R → Type 0) (rs : List R) (x : R) → All P rs → P x → All P (rs ++ x ∷ [])
All-snoc P [] x h p = (p, tt)
All-snoc P (r ∷ rs) x h p = (h.0, All-snoc P rs x h.1 p)
