-- ===== src/Prelude/Sorting.antt =====
-- `Array.prototype.sort`: stable, by a comparator of which only the sign counts.
use Prim.Native.Nat.{ℕ, ◌<◌, compare, Ordering}
use mathlib.Core.Path.{◌≡◌}
use mathlib.Core.Logic.{◌⊎◌, inl, inr}
use mathlib.Core.Bool.{Bool, true, false}
use mathlib.Core.Option.{Option, none, some}
use mathlib.Core.List.{List, [], ◌∷◌, Memᴰ}
use native.Mathlib.Omega.{arith}
use miracle_agent.Prelude.Tests.{if◌then◌else◌, Bool-cases}
use miracle_agent.Prelude.Lists.{head?, Memᴰ-cons}

abbrev pub is_gt : Ordering → Bool
is_gt Ordering.gt = true
is_gt _ = false

-- `a || b` on signs: the second comparison counts where the first gives 0.
abbrev pub then_by : Ordering → Ordering → Ordering
then_by Ordering.eq o = o
then_by o _ = o

abbrev pub flip : Ordering → Ordering
flip Ordering.lt = Ordering.gt
flip Ordering.eq = Ordering.eq
flip Ordering.gt = Ordering.lt

module _ {ℓ} {A : Type ℓ} (cmp : A → A → Ordering) where
  unfoldable pub insert_by : A → List A → List A
  insert_by x [] = x ∷ []
  insert_by x (y ∷ ys) =
      let later = y ∷ insert_by x ys in if is_gt (cmp x y) then later else x ∷ y ∷ ys

  unfoldable pub sort_by : List A → List A
  unfolding insert_by
  sort_by [] = []
  sort_by (x ∷ xs) = insert_by x (sort_by xs)

  -- `xs.sort(cmp)[0]`
  unfoldable pub first_by : List A → Option A
  unfolding sort_by
  first_by xs = head? (sort_by xs)

  insert_by-Memᴰ : (x : A) (ys : List A) {a : A} → Memᴰ a (insert_by x ys) → Memᴰ a (x ∷ ys)
  unfolding insert_by
  insert_by-Memᴰ x [] m = m
  insert_by-Memᴰ x (y ∷ ys) {a} m = elim (Bool-cases (is_gt (cmp x y))) [
    | inl after ↦
        Memᴰ-cons (Memᴰ a (x ∷ y ∷ ys)) (rw after at m) (λ e. Memᴰ.tail (Memᴰ.head e))
          (λ k.
            Memᴰ-cons (Memᴰ a (x ∷ y ∷ ys)) (insert_by-Memᴰ x ys k) (λ e. Memᴰ.head e)
              (λ j. Memᴰ.tail (Memᴰ.tail j)))
    | inr before ↦ rw before at m
  ]

  Memᴰ-insert_by : (x : A) (ys : List A) {a : A} → Memᴰ a (x ∷ ys) → Memᴰ a (insert_by x ys)
  unfolding insert_by
  Memᴰ-insert_by x [] m = m
  Memᴰ-insert_by x (y ∷ ys) {a} m = elim (Bool-cases (is_gt (cmp x y))) [
    | inl after ↦ rw after (
        Memᴰ-cons (Memᴰ a (y ∷ insert_by x ys)) m
          (λ e. Memᴰ.tail (Memᴰ-insert_by x ys (Memᴰ.head e)))
          (λ k.
            Memᴰ-cons (Memᴰ a (y ∷ insert_by x ys)) k (λ e. Memᴰ.head e)
              (λ j. Memᴰ.tail (Memᴰ-insert_by x ys (Memᴰ.tail j)))))
    | inr before ↦ rw before m
  ]

  pub sort_by-Memᴰ : (xs : List A) {a : A} → Memᴰ a (sort_by xs) → Memᴰ a xs
  unfolding sort_by
  sort_by-Memᴰ [] m = m
  sort_by-Memᴰ (x ∷ xs) {a} m =
      Memᴰ-cons (Memᴰ a (x ∷ xs)) (insert_by-Memᴰ x (sort_by xs) m) (λ e. Memᴰ.head e)
        (λ k. Memᴰ.tail (sort_by-Memᴰ xs k))

  pub Memᴰ-sort_by : (xs : List A) {a : A} → Memᴰ a xs → Memᴰ a (sort_by xs)
  unfolding sort_by
  Memᴰ-sort_by [] m = m
  Memᴰ-sort_by (x ∷ xs) (Memᴰ.head e) = Memᴰ-insert_by x (sort_by xs) (Memᴰ.head e)
  Memᴰ-sort_by (x ∷ xs) (Memᴰ.tail m) =
      Memᴰ-insert_by x (sort_by xs) (Memᴰ.tail (Memᴰ-sort_by xs m))

  pub first_by-Memᴰ : (xs : List A) {a : A} → first_by xs ≡ some a → Memᴰ a xs
  unfolding first_by
  first_by-Memᴰ xs {a} h = sort_by-Memᴰ xs (of_head (sort_by xs) h)
    where
      of_head : (ys : List A) → head? ys ≡ some a → Memᴰ a ys
      of_head [] e = cc
      of_head (y ∷ ys) e = Memᴰ.head (cc)

  pub first_by-eq-none : (xs : List A) {a : A} → first_by xs ≡ none → ¬ Memᴰ a xs
  unfolding first_by
  first_by-eq-none xs {a} h m = of_head (sort_by xs) h (Memᴰ-sort_by xs m)
    where
      of_head : (ys : List A) → head? ys ≡ none → Memᴰ a ys → ⊥
      of_head [] e k = elim k [ ]
      of_head (y ∷ ys) e k = cc

-- What makes the result of a sort independent of the algorithm.
pub record IsComparator {ℓ} {A : Type ℓ} (cmp : A → A → Ordering) : Type ℓ where
  pub flips : (x y : A) → cmp y x ≡ flip (cmp x y)
  pub le_trans :
      (x y z : A) → is_gt (cmp x y) ≡ false → is_gt (cmp y z) ≡ false → is_gt (cmp x z) ≡ false

module _ {ℓ} {A : Type ℓ} {cmp : A → A → Ordering} (c : IsComparator cmp) where
  open c use {flips, le_trans}

  -- The head of a list is not after any element.
  abbrev pub HeadIsLeast : List A → Type ℓ
  HeadIsLeast [] = Unit
  HeadIsLeast (x ∷ xs) = (a : A) → Memᴰ a (x ∷ xs) → is_gt (cmp x a) ≡ false

  le_refl : (x : A) → is_gt (cmp x x) ≡ false
  le_refl x = ground (arith, flips x x)

  insert_by-HeadIsLeast : (x : A) (ys : List A) → HeadIsLeast ys → HeadIsLeast (insert_by cmp x ys)
  unfolding insert_by
  insert_by-HeadIsLeast x [] h =
      λ a m. Memᴰ-cons (is_gt (cmp x a) ≡ false) m (λ e. rw e (le_refl x)) (λ k. elim k [ ])
  insert_by-HeadIsLeast x (y ∷ ys) h = elim (Bool-cases (is_gt (cmp x y))) [
    | inl after ↦ rw after λ a m.
        Memᴰ-cons (is_gt (cmp y a) ≡ false) m (λ e. rw e (le_refl y))
          (λ k.
            Memᴰ-cons (is_gt (cmp y a) ≡ false) (insert_by-Memᴰ cmp x ys k)
              (λ e. rw e (ground (arith, flips x y))) (λ j. h a (Memᴰ.tail j)))
    | inr before ↦ rw before λ a m.
        Memᴰ-cons (is_gt (cmp x a) ≡ false) m (λ e. rw e (le_refl x))
          (λ k. le_trans x y a before (h a k))
  ]

  sort_by-HeadIsLeast : (xs : List A) → HeadIsLeast (sort_by cmp xs)
  unfolding sort_by
  sort_by-HeadIsLeast [] = tt
  sort_by-HeadIsLeast (x ∷ xs) = insert_by-HeadIsLeast x (sort_by cmp xs) (sort_by-HeadIsLeast xs)

  pub first_by-least :
      (xs : List A) {a b : A} → first_by cmp xs ≡ some a → Memᴰ b xs → is_gt (cmp a b) ≡ false
  unfolding first_by
  first_by-least xs {a} {b} h m =
      of_head (sort_by cmp xs) h (sort_by-HeadIsLeast xs) (Memᴰ-sort_by cmp xs m)
    where
      of_head :
          (ys : List A) → head? ys ≡ some a → HeadIsLeast ys → Memᴰ b ys → is_gt (cmp a b) ≡ false
      of_head [] e l k = cc
      of_head (y ∷ ys) e l k = let same : y ≡ a = cc in rw (← same) (l b k)

-- Comparing by one comparator, and by another where the first gives 0.
module _ {ℓ} {A : Type ℓ} {f g : A → A → Ordering} (cf : IsComparator f) (cg : IsComparator g) where
  then_by-flips : (x y : A) → then_by (f y x) (g y x) ≡ flip (then_by (f x y) (g x y))
  then_by-flips x y = ground (arith, cf.flips x y, cg.flips x y)

  then_by-le_trans :
      (x y z : A)
      → is_gt (then_by (f x y) (g x y)) ≡ false
      → is_gt (then_by (f y z) (g y z)) ≡ false
      → is_gt (then_by (f x z) (g x z)) ≡ false
  then_by-le_trans x y z p q = ground (
    arith,
    cf.le_trans x y z,
    cf.le_trans y z x,
    cf.le_trans z x y,
    cf.flips x y,
    cf.flips y z,
    cf.flips x z,
    cg.le_trans x y z,
  )

  pub then_by-IsComparator : IsComparator (λ x y. then_by (f x y) (g x y))
  then_by-IsComparator = record { flips = then_by-flips; le_trans = then_by-le_trans }

-- Comparing by a key.
pub key-IsComparator {ℓ κ} :
    {A : Type ℓ} {B : Type κ} {f : B → B → Ordering}
    → IsComparator f
    → (key : A → B) → IsComparator (λ x y. f (key x) (key y))
key-IsComparator c key = record {
  flips = λ x y. c.flips (key x) (key y);
  le_trans = λ x y z. c.le_trans (key x) (key y) (key z);
}

compare-flips : (m n : ℕ) → compare n m ≡ flip (compare m n)
compare-flips m n = ground arith

compare-le_trans :
    (l m n : ℕ)
    → is_gt (compare l m) ≡ false
    → is_gt (compare m n) ≡ false
    → is_gt (compare l n) ≡ false
compare-le_trans l m n p q = ground arith

pub compare-IsComparator : IsComparator compare
compare-IsComparator = record { flips = compare-flips; le_trans = compare-le_trans }

-- What it means that a number is not behind another by two comparisons.
pub compare-before :
    (m n : ℕ) (o : Ordering)
    → is_gt (then_by (compare m n) o) ≡ false
    → (m < n) ⊎ ((m ≡ n) × (is_gt o ≡ false))
compare-before m n o h = ground arith
