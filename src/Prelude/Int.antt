-- ===== src/Prelude/Int.antt =====
-- Signed integers over the native numbers, under the library's names (its ℤ stands on the unary ℕ).
use Prim.Native.Nat.{ℕ, suc, ◌+◌, ◌<◌, Ordering, compare}
use mathlib.Core.Path.{◌≡◌, ap}
use mathlib.Core.Logic.{◌⊎◌, inl, inr}
use mathlib.Core.Bool.{false}
use native.Mathlib.Omega.{arith}
use miracle_agent.Prelude.Sorting.{is_gt, flip, then_by, compare-before, IsComparator}

-- `negsuc n` is -(n + 1).
pub data ℤ : Type 0 where
  pos : ℕ → ℤ
  negsuc : ℕ → ℤ

abbrev pub pos_part : ℤ → ℕ
pos_part (pos n) = n
pos_part (negsuc n) = 0

abbrev pub neg_part : ℤ → ℕ
neg_part (pos n) = 0
neg_part (negsuc n) = suc n

-- The order of integers, through their parts.
abbrev pub compare_ℤ : ℤ → ℤ → Ordering
compare_ℤ a b = compare (pos_part a + neg_part b) (pos_part b + neg_part a)

infix 50 ◌<ℤ◌
abbrev pub ◌<ℤ◌ : ℤ → ℤ → Type 0
a <ℤ b = pos_part a + neg_part b < pos_part b + neg_part a

same_parts : (a b : ℤ) → pos_part a + neg_part b ≡ pos_part b + neg_part a → a ≡ b
same_parts (pos m) (pos n) h = let e : m ≡ n = omega arith in ap pos e
same_parts (pos m) (negsuc n) h = absurd (omega arith)
same_parts (negsuc m) (pos n) h = absurd (omega arith)
same_parts (negsuc m) (negsuc n) h = let e : m ≡ n = omega arith in ap negsuc e

compare_ℤ-flips : (m n : ℤ) → compare_ℤ n m ≡ flip (compare_ℤ m n)
compare_ℤ-flips m n = ground arith

compare_ℤ-le_trans :
    (l m n : ℤ)
    → is_gt (compare_ℤ l m) ≡ false
    → is_gt (compare_ℤ m n) ≡ false
    → is_gt (compare_ℤ l n) ≡ false
compare_ℤ-le_trans l m n p q = ground arith

pub compare_ℤ-IsComparator : IsComparator compare_ℤ
compare_ℤ-IsComparator = record { flips = compare_ℤ-flips; le_trans = compare_ℤ-le_trans }

pub compare_ℤ-before :
    (a b : ℤ) (o : Ordering)
    → is_gt (then_by (compare_ℤ a b) o) ≡ false
    → (a <ℤ b) ⊎ ((a ≡ b) × (is_gt o ≡ false))
compare_ℤ-before a b o h =
    elim (compare-before (pos_part a + neg_part b) (pos_part b + neg_part a) o h) [
      | inl before ↦ inl before
      | inr (same, next) ↦ inr (same_parts a b same, next)
    ]
