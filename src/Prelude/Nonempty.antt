-- ===== src/Prelude/Nonempty.antt =====
-- Texts that are not empty.
use Prim.Native.String.{String, [], ◌∷◌}
use mathlib.Core.Path.{◌≡◌, subst}
use mathlib.Core.Logic.{inl, inr}
use mathlib.Core.Bool.{true}
use text.Mathlib.TextEquality.{eq_iff}
use text.Mathlib.TextLemmas.{cons-append}
use miracle_agent.Prelude.Tests.{◌==◌, string_eq, Bool-cases}
use miracle_agent.Prelude.Text.{◌+++◌, is_nonempty}

abbrev IsCons : String → Type 0
IsCons [] = ⊥
IsCons (c ∷ s) = Unit {0}

IsCons-nonempty : (s : String) → IsCons s → is_nonempty s ≡ true
IsCons-nonempty s h = elim (Bool-cases (s == "")) [
  | inl same ↦ absurd (subst IsCons ((eq_iff s "").0 same) h)
  | inr other ↦ rw other
]

nonempty-IsCons : (s : String) → is_nonempty s ≡ true → IsCons s
nonempty-IsCons [] h = cc h
nonempty-IsCons (c ∷ s) h = tt

-- A text that starts with a nonempty text is not empty.
pub is_nonempty-append : (p s : String) → is_nonempty p ≡ true → is_nonempty (p +++ s) ≡ true
is_nonempty-append [] s h = absurd (nonempty-IsCons [] h)
is_nonempty-append (c ∷ p) s h = rw (cons-append c p s) (IsCons-nonempty (c ∷ (p +++ s)) tt)
