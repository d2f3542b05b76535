-- ===== src/Prelude/Json.antt =====
-- A parsed JSON value (`unknown` in the source). A number is a whole number of its unit, or one
-- that `Number.isFinite` refuses; an object lists its own keys in order.
use Prim.Native.String.{String}
use mathlib.Core.Bool.{Bool}
use mathlib.Core.Option.{Option, none, some}
use mathlib.Core.List.{List, [], ◌∷◌}
use miracle_agent.Prelude.Tests.{◌==◌, string_eq, if◌then◌else◌}
use miracle_agent.Prelude.Int.{ℤ}

pub data Number : Type 0 where
  not_finite : Number
  finite : ℤ → Number

mutual
  pub data Json : Type 0 where
    null : Json
    bool : Bool → Json
    number : Number → Json
    string : String → Json
    array : Items → Json
    object : Fields → Json

  pub data Items : Type 0 where
    nil : Items
    cons : Json → Items → Items

  pub data Fields : Type 0 where
    end : Fields
    field : String → Json → Fields → Fields

-- `object.key`, where `none` is `undefined`.
abbrev pub lookup : String → List (String × Json) → Option Json
lookup key [] = none
lookup key ((k, v) ∷ fields) = if k == key then some v else lookup key fields
