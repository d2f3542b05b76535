-- ===== src/Prelude/Actions.antt =====
-- Methods that read and change a state, and may throw: what was written before an error stays.
use mathlib.Core.Bool.{Bool}
use miracle_agent.Prelude.Throws.{Error, Result, ok, throw, guard}

abbrev pub Action {ℓ} : Type 0 → Type ℓ → Type ℓ
Action S A = S → S × Result A

abbrev pub continue {ℓ κ} :
    {S : Type 0} {A : Type ℓ} {B : Type κ} → S × Result A → (A → Action S B) → S × Result B
continue (after, ok value) next = next value after
continue (after, throw e) next = (after, throw e)

infixl 5 ◌>>=◌ ◌>>◌
abbrev pub ◌>>=◌ {ℓ κ} :
    {S : Type 0} {A : Type ℓ} {B : Type κ} → Action S A → (A → Action S B) → Action S B
◌>>=◌ m next s = continue (m s) next

abbrev pub ◌>>◌ {κ} : {S : Type 0} {B : Type κ} → Action S (Unit {0}) → Action S B → Action S B
m >> next = m >>= λ done. next

abbrev pub returns {ℓ} : {S : Type 0} {A : Type ℓ} → A → Action S A
returns value s = (s, ok value)

-- A call that leaves the state alone.
abbrev pub lift {ℓ} : {S : Type 0} {A : Type ℓ} → Result A → Action S A
lift r s = (s, r)

abbrev pub reads {ℓ} : {S : Type 0} {A : Type ℓ} → (S → Result A) → Action S A
reads f s = (s, f s)

-- `if (!test) throw e`
abbrev pub ensure : {S : Type 0} → Bool → Error → Action S (Unit {0})
ensure test e = lift (guard test e)
