-- ===== src/Prelude/Ensures.antt =====
-- Postconditions of functions that may throw.
use mathlib.Core.Path.{◌≡◌, refl, subst}
use mathlib.Core.Bool.{Bool, true, false}
use miracle_agent.Prelude.Throws.{Error, Result, ok, throw, guard, ◌>>=◌, ◌>>◌}

-- What the call returns, if it returns, has the property.
pub data Ensures {ℓ κ} {A : Type ℓ} (P : A → Type κ) : Result A → Type (ℓ ⊔ κ) where
  returned : (a : A) → P a → Ensures P (ok a)
  thrown : (e : Error) → Ensures P (throw e)

pub Ensures-bind :
    {A : Type 0} {B : Type 0} (Q : A → Type 0) {P : B → Type 0} {m : Result A} {f : A → Result B}
    → Ensures Q m
    → ((a : A) → Q a → Ensures P (f a))
    → Ensures P (m >>= f)
Ensures-bind Q (returned a q) next = next a q
Ensures-bind Q (thrown e) next = thrown e

pub Ensures-guard :
    {B : Type 0} {P : B → Type 0} (test : Bool) (e : Error) {next : Result B}
    → (test ≡ true → Ensures P next)
    → Ensures P (guard test e >> next)
Ensures-guard true e next = next refl
Ensures-guard false e next = thrown e

pub Ensures-then :
    {B : Type 0} {C : Type 0} {P : B → Type 0} {m : Result (Unit {0})} {next : Result B}
    → Ensures (λ _. C) m
    → (C → Ensures P next)
    → Ensures P (m >> next)
Ensures-then (returned a c) next = next c
Ensures-then (thrown e) next = thrown e

pub Ensures-weaken :
    {A : Type 0} {P Q : A → Type 0} {m : Result A}
    → ((a : A) → P a → Q a)
    → Ensures P m
    → Ensures Q m
Ensures-weaken f (returned a p) = returned a (f a p)
Ensures-weaken f (thrown e) = thrown e

pub Ensures-of :
    {A : Type 0} {P : A → Type 0} (m : Result A) → ((a : A) → m ≡ ok a → P a) → Ensures P m
Ensures-of (ok a) h = returned a (h a refl)
Ensures-of (throw e) h = thrown e

pub Ensures-any : {A : Type 0} (m : Result A) → Ensures (λ a. Unit {0}) m
Ensures-any m = Ensures-of m (λ a _. tt)

pub Ensures-ok : {A : Type 0} {P : A → Type 0} {m : Result A} {a : A} → Ensures P m → m ≡ ok a → P a
Ensures-ok {P} {a} (returned b p) h = let e : b ≡ a = cc in subst P e p
Ensures-ok (thrown e) h = cc
