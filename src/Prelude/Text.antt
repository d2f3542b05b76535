-- ===== src/Prelude/Text.antt =====
-- Texts as the source tests and takes them apart.
use Prim.Native.Nat.{ℕ, zero, suc, ◌/◌, ◌%◌}
use Prim.Native.Char.{code}
use Prim.Native.String.{String, [], ◌∷◌}
use mathlib.Core.Bool.{Bool, false, not, ◌&&◌, ◌||◌}
use mathlib.Core.Option.{Option, none, some}
use mathlib.Core.List as L
use mathlib.Core.List.{List}
use miracle_agent.Prelude.Tests.{◌==◌, string_eq, nat_eq, ltb, leb, if◌then◌else◌}

-- `a + b` on texts, and template literals.
infixr 65 ◌+++◌
abbrev pub ◌+++◌ : String → String → String
◌+++◌ = Prim.Native.String.◌++◌

-- A text counts as true unless it is empty, and so does one that may be missing.
abbrev pub is_nonempty : String → Bool
is_nonempty s = not (s == "")

abbrev pub truthy : Option String → Bool
truthy none = false
truthy (some s) = is_nonempty s

-- `a?.x === s`
abbrev pub is_text : Option String → String → Bool
is_text none s = false
is_text (some t) s = t == s

unfoldable pub codes : String → List ℕ
codes [] = L.[]
codes (c ∷ s) = L.◌∷◌ (code c) (codes s)

-- `[a-zA-Z0-9_-]`
abbrev pub is_id_char : ℕ → Bool
is_id_char c =
    leb 48 c && leb c 57 || (leb 97 c && leb c 122 || leb 65 c && leb c 90) || (c == 95 || c == 45)

-- `value.replace(/[^a-zA-Z0-9_-]/g, "_")`: a character beyond the first plane is two of its units.
unfoldable pub normalize_id : String → String
normalize_id [] = ""
normalize_id (c ∷ s) =
    let rest = normalize_id s in
    if is_id_char (code c) then c ∷ rest else (if leb 65536 (code c) then "__" else "_") +++ rest

digit : ℕ → String
digit zero = "0"
digit (suc zero) = "1"
digit (suc (suc zero)) = "2"
digit (suc (suc (suc zero))) = "3"
digit (suc (suc (suc (suc zero)))) = "4"
digit (suc (suc (suc (suc (suc zero))))) = "5"
digit (suc (suc (suc (suc (suc (suc zero)))))) = "6"
digit (suc (suc (suc (suc (suc (suc (suc zero))))))) = "7"
digit (suc (suc (suc (suc (suc (suc (suc (suc zero)))))))) = "8"
digit _ = "9"

-- The decimal digits of a number; a number has at most as many digits as its value plus one.
show_digits : (fuel : ℕ) → ℕ → String
show_digits zero n = ""
show_digits (suc fuel) n =
    let rest = show_digits fuel (n / 10) in if ltb n 10 then digit n else rest +++ digit (n % 10)

-- A number in a template literal.
unfoldable pub show : ℕ → String
unfolding show_digits digit
show n = show_digits (suc n) n
