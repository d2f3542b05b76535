-- ===== src/Prelude/Dates.antt =====
-- The clock and the `Date` functions of the runtime, which the source calls and does not define.
use Prim.Native.Nat.{ℕ}
use Prim.Native.String.{String}
use mathlib.Core.Option.{Option}

-- `parse` is `Date.parse` in milliseconds since 1970, `none` for `NaN`; `to_iso` is
-- `new Date(ms).toISOString()`.
pub record Dates : Type 0 where
  pub parse : String → Option ℕ
  pub to_iso : ℕ → String
