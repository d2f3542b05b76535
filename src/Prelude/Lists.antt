-- ===== src/Prelude/Lists.antt =====
-- Array methods with Boolean callbacks, and arrays measured by native numbers.
use Prim.Native.Nat.{ℕ, suc}
use mathlib.Core.Path.{◌≡◌, refl, sym}
use mathlib.Core.Logic.{inl, inr}
use mathlib.Core.Bool.{Bool, true, false, ◌&&◌, ◌||◌}
use mathlib.Core.Option.{Option, none, some}
use mathlib.Core.List.{List, [], ◌∷◌, ◌++◌, Memᴰ}
use native.Mathlib.Omega.{arith}
use miracle_agent.Prelude.Tests.{Eq, ◌==◌, if◌then◌else◌, ==_refl, Bool-cases}

module _ {ℓ} {A : Type ℓ} where
  abbrev pub length : List A → ℕ
  length [] = 0
  length (x ∷ xs) = suc (length xs)

  abbrev pub any : (A → Bool) → List A → Bool
  any p [] = false
  any p (x ∷ xs) = p x || any p xs

  abbrev pub all : (A → Bool) → List A → Bool
  all p [] = true
  all p (x ∷ xs) = p x && all p xs

  abbrev pub filter : (A → Bool) → List A → List A
  filter p [] = []
  filter p (x ∷ xs) = let rest = filter p xs in if p x then x ∷ rest else rest

  abbrev pub find : (A → Bool) → List A → Option A
  find p [] = none
  find p (x ∷ xs) = if p x then some x else find p xs

  abbrev pub head? : List A → Option A
  head? [] = none
  head? (x ∷ xs) = some x

abbrev pub flat_map {ℓ κ} : {A : Type ℓ} {B : Type κ} → (A → List B) → List A → List B
flat_map f [] = []
flat_map f (x ∷ xs) = f x ++ flat_map f xs

abbrev pub foldl {ℓ κ} : {A : Type ℓ} {B : Type κ} → (B → A → B) → B → List A → B
foldl f b [] = b
foldl f b (x ∷ xs) = foldl f (f b x) xs

-- A property of every element, as a tuple.
abbrev pub All {ℓ κ} : {A : Type ℓ} → (A → Type κ) → List A → Type κ
All P [] = Unit
All P (x ∷ xs) = P x × All P xs

module _ {ℓ} {A : Type ℓ} where
  pub all→All : (p : A → Bool) (xs : List A) → all p xs ≡ true → All (λ x. p x ≡ true) xs
  all→All p [] h = tt
  all→All p (x ∷ xs) h = (ground arith, all→All p xs (ground arith))

  pub All→all : (p : A → Bool) (xs : List A) → All (λ x. p x ≡ true) xs → all p xs ≡ true
  All→all p [] h = refl
  All→all p (x ∷ xs) h = ground (arith, All→all p xs h.1)

  pub any-eq-false→All : (p : A → Bool) (xs : List A) → any p xs ≡ false → All (λ x. p x ≡ false) xs
  any-eq-false→All p [] h = tt
  any-eq-false→All p (x ∷ xs) h = (ground arith, any-eq-false→All p xs (ground arith))

  pub any→Memᴰ : (p : A → Bool) (xs : List A) → any p xs ≡ true → (x : A) × Memᴰ x xs × (p x ≡ true)
  any→Memᴰ p [] h = cc
  any→Memᴰ p (x ∷ xs) h = elim (Bool-cases (p x)) [
    | inl here ↦ (x, Memᴰ.head refl, here)
    | inr there ↦ let (y, m, e) = any→Memᴰ p xs (ground arith) in (y, Memᴰ.tail m, e)
  ]

  pub Memᴰ→any : (p : A → Bool) (xs : List A) {x : A} → Memᴰ x xs → p x ≡ true → any p xs ≡ true
  Memᴰ→any p [] m h = elim m [ ]
  Memᴰ→any p (y ∷ ys) (Memᴰ.head e) h = rw (← e, h) refl
  Memᴰ→any p (y ∷ ys) (Memᴰ.tail m) h = ground (arith, Memᴰ→any p ys m h)

  pub All-Memᴰ {κ} : (P : A → Type κ) (xs : List A) {x : A} → All P xs → Memᴰ x xs → P x
  All-Memᴰ P [] h m = elim m [ ]
  All-Memᴰ P (y ∷ ys) h (Memᴰ.head e) = rw e h.0
  All-Memᴰ P (y ∷ ys) h (Memᴰ.tail m) = All-Memᴰ P ys h.1 m

  pub Memᴰ-cons {κ} :
      (C : Type κ) {x y : A} {ys : List A} → Memᴰ x (y ∷ ys) → (x ≡ y → C) → (Memᴰ x ys → C) → C
  Memᴰ-cons C (Memᴰ.head e) f g = f e
  Memᴰ-cons C (Memᴰ.tail m) f g = g m

  pub filter-Memᴰ :
      (p : A → Bool) (xs : List A) {x : A} → Memᴰ x (filter p xs) → Memᴰ x xs × (p x ≡ true)
  filter-Memᴰ p [] m = elim m [ ]
  filter-Memᴰ p (y ∷ ys) {x} m = elim (Bool-cases (p y)) [
    | inl keep ↦
        Memᴰ-cons _ (rw keep at m) (λ e. (Memᴰ.head e, rw e keep))
          (λ m'. let (k, h) = filter-Memᴰ p ys m' in (Memᴰ.tail k, h))
    | inr drop ↦ let (k, h) = filter-Memᴰ p ys (rw drop at m) in (Memᴰ.tail k, h)
  ]

  pub Memᴰ-filter :
      (p : A → Bool) (xs : List A) {x : A} → Memᴰ x xs → p x ≡ true → Memᴰ x (filter p xs)
  Memᴰ-filter p [] m h = elim m [ ]
  Memᴰ-filter p (y ∷ ys) (Memᴰ.head e) h = rw (← e, h) (Memᴰ.head refl)
  Memᴰ-filter p (y ∷ ys) (Memᴰ.tail m) h = elim (Bool-cases (p y)) [
    | inl keep ↦ rw keep (Memᴰ.tail (Memᴰ-filter p ys m h))
    | inr drop ↦ rw drop (Memᴰ-filter p ys m h)
  ]

  pub filter-nil→all : (p : A → Bool) (xs : List A) → filter p xs ≡ [] → All (λ x. p x ≡ false) xs
  filter-nil→all p [] h = tt
  filter-nil→all p (x ∷ xs) h = elim (Bool-cases (p x)) [
    | inl keep ↦ cc (rw keep at h)
    | inr drop ↦ (drop, filter-nil→all p xs (rw drop at h))
  ]

  pub find-eq-some :
      (p : A → Bool) (xs : List A) {x : A} → find p xs ≡ some x → Memᴰ x xs × (p x ≡ true)
  find-eq-some p [] h = cc
  find-eq-some p (y ∷ ys) {x} h = elim (Bool-cases (p y)) [
    | inl here ↦ let e : x ≡ y = ground arith in (Memᴰ.head e, rw e here)
    | inr there ↦ let (m, q) = find-eq-some p ys (rw there at h) in (Memᴰ.tail m, q)
  ]

  pub find-eq-none : (p : A → Bool) (xs : List A) → find p xs ≡ none → any p xs ≡ false
  find-eq-none p [] h = refl
  find-eq-none p (x ∷ xs) h = ground (arith, find-eq-none p xs)

-- `xs.includes(x)`, and `new Set(xs).has(x)`.
abbrev pub includes {ℓ} : {A : Type ℓ} ⦃e : Eq A⦄ → List A → A → Bool
includes xs x = any (λ y. y == x) xs

-- `Array.from(new Set(xs))`: the first occurrence of each value, in order.
unfoldable pub unique_from {ℓ} : {A : Type ℓ} ⦃e : Eq A⦄ → List A → List A → List A
unique_from seen [] = []
unique_from seen (x ∷ xs) =
    let rest = unique_from (x ∷ seen) xs in
    let skip = unique_from seen xs in if includes seen x then skip else x ∷ rest

unfoldable pub unique {ℓ} : {A : Type ℓ} ⦃e : Eq A⦄ → List A → List A
unfolding unique_from
unique xs = unique_from [] xs

module _ {ℓ} {A : Type ℓ} ⦃e : Eq A⦄ where
  pub includes→Memᴰ : (xs : List A) (x : A) → includes xs x ≡ true → Memᴰ x xs
  includes→Memᴰ [] x h = cc
  includes→Memᴰ (y ∷ ys) x h = elim (Bool-cases (y == x)) [
    | inl here ↦ Memᴰ.head (sym ((e.same_iff y x).0 here))
    | inr there ↦ Memᴰ.tail (includes→Memᴰ ys x (rw there at h))
  ]

  pub Memᴰ→includes : (xs : List A) (x : A) → Memᴰ x xs → includes xs x ≡ true
  Memᴰ→includes xs x m = Memᴰ→any (λ y. y == x) xs m (==_refl x)
