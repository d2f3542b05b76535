-- ===== src/Prelude/Throws.antt =====
-- Functions that throw: `new Error(message)`, or the error of a failed schema parse.
use Prim.Native.String.{String}
use mathlib.Core.Path.{◌≡◌, refl}
use mathlib.Core.Logic.{◌⊎◌, inl, inr}
use mathlib.Core.Bool.{Bool, true, false}

-- `coded` is an error class with a `code` beside its message (`RunDraftError`).
pub data Error : Type 0 where
  schema_error : Error
  error : String → Error
  coded : String → String → Error

pub data Result {ℓ} (A : Type ℓ) : Type ℓ where
  ok : A → Result A
  throw : Error → Result A

-- `if (!test) throw e`
abbrev pub guard : Bool → Error → Result (Unit {0})
guard true e = ok tt
guard false e = throw e

infixl 5 ◌>>=◌ ◌>>◌
abbrev pub ◌>>=◌ {ℓ κ} : {A : Type ℓ} {B : Type κ} → Result A → (A → Result B) → Result B
throw e >>= next = throw e
ok value >>= next = next value

abbrev pub ◌>>◌ {κ} : {B : Type κ} → Result (Unit {0}) → Result B → Result B
throw e >> next = throw e
ok done >> next = next

pub Result-cases {ℓ} :
    {A : Type ℓ} (r : Result A) → ((e : Error) × (r ≡ throw e)) ⊎ ((a : A) × (r ≡ ok a))
Result-cases (ok a) = inr (a, refl)
Result-cases (throw e) = inl (e, refl)
