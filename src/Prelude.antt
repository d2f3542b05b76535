-- ===== src/Prelude.antt =====
-- The names that the other modules share: those of the libraries, passed on, and those of the
-- children below (tests, lists, sorting, text, signed numbers, thrown errors, JSON values).
mod Tests
mod Lists
mod Sorting
mod Text
mod Throws
pub mod Ensures
pub mod Nonempty
pub mod Int
pub mod Json
pub mod Dates
pub mod Actions
unfoldable pub use Tests.*
unfoldable pub use Lists.*
unfoldable pub use Sorting.*
unfoldable pub use Text.*
unfoldable pub use Throws.*
pub use Prim.Native.Nat.{ℕ, zero, suc, ◌+◌, ◌-◌, ◌*◌, ◌^◌, ◌≤◌, ◌<◌, min, max, Ordering}
pub use Prim.Native.String.{String}
pub use mathlib.Core.Path.{◌≡◌, refl, sym, ap, subst, ◌∙◌}
pub use mathlib.Core.Logic.{◌≢◌, ◌↔◌, ◌⊎◌, inl, inr}
pub use mathlib.Core.Bool.{Bool, true, false, not, ◌&&◌, ◌||◌}
pub use mathlib.Core.Option.{Option, none, some, get_or}
pub use mathlib.Core.List.{List, [], ◌∷◌, ◌++◌, map, reverse, Memᴰ}
pub use native.Mathlib.Omega.{arith}
pub use text.Mathlib.TextEquality.{eq_iff}
