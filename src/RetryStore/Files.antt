-- ===== src/RetryStore/Files.antt =====
-- retry-store.ts: what the files hold, and how a store reads its records.
use miracle_agent.Prelude.{
  String, Bool, ◌&&◌, List, [], ◌∷◌, map, length, unique, ◌==◌, nat_eq, string_eq, is_nonempty,
  Error, Result, ok, throw, error, guard, ◌>>=◌, ◌>>◌,
}
use miracle_agent.Prelude.Json.{Json, array}
use miracle_agent.Schemas.Values.{elements}

-- What `readFile` finds: no file, a failure of another kind, or a text.
pub data File (Text : Type 0) : Type 0 where
  missing : File Text
  unreadable : Error → File Text
  holds : Text → File Text

-- The runtime: `JSON.parse` and `JSON.stringify` on the texts of files, `path.basename`, the test of
-- `z.string().datetime()`, and `String(value)` on a value that is no text.
pub record Host (Text : Type 0) : Type 0 where
  pub parse : Text → Result Json
  pub stringify : Json → Text
  pub basename : String → String
  pub is_datetime : String → Bool
  pub as_text : Json → String

-- What the classes `RetryScheduleStore` and `RetryStateStore` differ in.
pub record Kind (R : Type 0) : Type 0 where
  pub schema : Json → Result R
  pub to_json : R → Json
  pub operation_id : R → String
  pub not_array : String
  pub duplicates : String

-- `values.map((value) => f(value))` for a function that may throw.
unfoldable pub map_ok {ℓ κ} : {A : Type ℓ} {B : Type κ} → (A → Result B) → List A → Result (List B)
map_ok f [] = ok []
map_ok f (x ∷ xs) = do y ← f x; ys ← map_ok f xs; ok (y ∷ ys)

-- `if (!Array.isArray(value)) throw new Error(message)`
abbrev pub array_items : String → Json → Result (List Json)
array_items message (array items) = ok (elements items)
array_items message _ = throw (error message)

-- `new Set(ids).size === ids.length`
unfoldable pub all_distinct : List String → Bool
unfolding unique
all_distinct ids = length (unique ids) == length ids

module _ {Text : Type 0} (host : Host Text) where
  -- `if (!runId || path.basename(runId) !== runId) throw`
  unfoldable pub check_run_id : String → Result (Unit {0})
  check_run_id run_id =
      guard (is_nonempty run_id && host.basename run_id == run_id)
        (error "runId must be a single path segment")

  -- The parsed records of the file, or the replacement of a missing file.
  unfoldable pub read_values : String → File Text → Result (List Json)
  read_values message missing = ok []
  read_values message (unreadable e) = throw e
  read_values message (holds t) = do value ← host.parse t; array_items message value

  unfoldable pub parse_records : {R : Type 0} → Kind R → List Json → Result (List R)
  parse_records kind values = do
    records ← map_ok kind.schema values
    guard (all_distinct (map kind.operation_id records)) (error kind.duplicates)
    ok records

  -- `list`
  unfoldable pub list_records : {R : Type 0} → Kind R → String → File Text → Result (List R)
  list_records kind run_id file = do
    check_run_id run_id
    values ← read_values kind.not_array file
    parse_records kind values
