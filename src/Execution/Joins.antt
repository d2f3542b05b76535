-- ===== src/Execution/Joins.antt =====
-- execution-plan.ts: how long an edge waits for its source.
use Prim.Native.Char.{code}
use Prim.Native.String.{String, [], ◌∷◌}
use mathlib.Core.List as L
use mathlib.Core.List.{List}
use miracle_agent.Prelude.{
  ℕ, ◌+◌, ◌-◌, ◌*◌, Bool, true, false, ◌&&◌, Option, none, some, get_or, codes, leb, ◌==◌, nat_eq,
  is_nonempty, if◌then◌else◌,
}
use miracle_agent.Types.{EdgeSpec, NodeRun}
use miracle_agent.Execution.Artifacts.{Runtime}

-- A part of `PT1H2M3S` that was read: its number, and what follows it.
abbrev Reading : Type 0
Reading = ℕ × List ℕ

abbrev is_digit : ℕ → Bool
is_digit c = leb b'0' c && leb c b'9'

-- `(?:(\d+)X)?` for the unit X. Where the digits end in another character, the group is skipped
-- and `whole` is left to read.
read_part : (unit : ℕ) (whole : List ℕ) (total : ℕ) → (seen : Bool) → List ℕ → Reading
read_part unit whole total seen L.[] = (0, whole)
read_part unit whole total seen (L.◌∷◌ c cs) =
    let more = read_part unit whole (total * 10 + (c - b'0')) true cs in
    if is_digit c then more else if seen && c == unit then (total, cs) else (0, whole)

abbrev part : ℕ → List ℕ → Reading
part unit cs = read_part unit cs 0 false cs

abbrev at_end : List ℕ → ℕ → Option ℕ
at_end L.[] ms = some ms
at_end (L.◌∷◌ c cs) ms = none

after_pt : List ℕ → Option ℕ
unfolding read_part
after_pt cs =
    let (hours, cs₁) = part b'H' cs in
    let (minutes, cs₂) = part b'M' cs₁ in
    let (seconds, cs₃) = part b'S' cs₂ in
    at_end cs₃ (hours * 3600000 + minutes * 60000 + seconds * 1000)

abbrev pt : List ℕ → Option ℕ
pt (L.◌∷◌ p (L.◌∷◌ t cs)) = let read = after_pt cs in if p == b'P' && t == b'T' then read else none
pt _ = none

-- `/^PT(?:(\d+)H)?(?:(\d+)M)?(?:(\d+)S)?$/`, in milliseconds; numbers are exact.
unfoldable pub duration_ms : Option String → Option ℕ
unfolding after_pt codes
duration_ms none = none
duration_ms (some value) = let read = pt (codes value) in if is_nonempty value then read else none

-- `calculated - started >= wait`; a date or a limit that is none makes it false.
abbrev pub waited : Option ℕ → Option ℕ → Option ℕ → Bool
waited (some wait) (some calculated) (some started) = leb (started + wait) calculated
waited _ _ _ = false

unfoldable pub join_timed_out :
    Runtime → EdgeSpec → (source_run : NodeRun) → (calculated_at : String) → Bool
join_timed_out rt edge source_run calculated_at =
    waited (duration_ms edge.join_policy.max_wait) (rt.parse_date calculated_at)
      (rt.parse_date (get_or source_run.started_at source_run.updated_at))

abbrev starts_gt : String → Bool
starts_gt [] = false
starts_gt (c ∷ s) = code c == b'>'

-- `text.split("->")[0]`
unfoldable pub before_arrow : String → String
before_arrow [] = ""
before_arrow (c ∷ s) =
    let rest = c ∷ before_arrow s in if code c == b'-' && starts_gt s then "" else rest
