-- ===== src/RetryStore/Migration.antt =====
-- retry-store.ts: the migration of retry states of an earlier version.
use Prim.Native.Nat.{compare}
use mathlib.Core.Option
use miracle_agent.Prelude.{
  ℕ, String, Bool, true, false, not, ◌&&◌, Option, none, some, get_or, or_else, is_some, List, [],
  ◌∷◌, filter, includes, ◌==◌, nat_eq, string_eq, truthy, is_text, ◌+++◌, if◌then◌else◌, Error,
  Result, ok, throw, error, guard, ◌>>=◌, ◌>>◌, first_by, Ordering,
}
use miracle_agent.Prelude.Json.{Json, bool, string, object, Fields, end, field}
use miracle_agent.Prelude.Dates.{Dates}
use miracle_agent.Types.{NodeAttempt, AdapterError}
use miracle_agent.Schemas.Values.{own, append_fields}
use miracle_agent.Schemas.Stored.{error_json, natural}

-- The whole object, and the two properties of it that are read.
pub record LegacyRetryStateRecord : Type 0 where
  pub fields : Fields
  pub operation_id : String
  pub node_run_id : String

-- `reason_code` is always "retry_state_migration_failed".
pub record RetryStateMigrationIssue : Type 0 where
  pub operation_id : String
  pub node_run_id : String
  pub message : String
  pub legacy_record : LegacyRetryStateRecord
  pub updated_at : String

abbrev pub as_string : Option Json → Option String
as_string (some (string s)) = some s
as_string _ = none

abbrev pub is_record : Option Json → Bool
is_record (some (object fields)) = true
is_record _ = false

-- `String(value)`
abbrev pub text_of : (Json → String) → Option Json → String
text_of as_text none = "undefined"
text_of as_text (some (string s)) = s
text_of as_text (some v) = as_text v

abbrev pub legacy_phases : List String
legacy_phases = "waiting_for_retry" ∷ "exhausted" ∷ "blocked" ∷ []

abbrev pub legacy_shape : (Json → String) → Fields → Bool
legacy_shape as_text f =
    not (is_some (own "attempt_id" f))
    && not (is_some (own "attempt_number" f))
    && not (is_some (own "error" f))
    && not (is_some (own "effects_committed" f))
    && includes legacy_phases (text_of as_text (own "phase" f))
    && is_some (as_string (own "reason_code" f))
    && is_record (own "decision" f)
    && is_some (as_string (own "updated_at" f))

abbrev pub legacy_with :
    Fields → Bool → Option String → Option String → Option LegacyRetryStateRecord
legacy_with f true (some operation_id) (some node_run_id) =
    some (record { fields = f; operation_id = operation_id; node_run_id = node_run_id })
legacy_with f shape operation_id node_run_id = none

-- `legacyRetryStateRecord`
unfoldable pub legacy_retry_state_record :
    (Json → String) → Option Json → Option LegacyRetryStateRecord
legacy_retry_state_record as_text (some (object f)) =
    legacy_with f (legacy_shape as_text f) (as_string (own "operation_id" f))
      (as_string (own "node_run_id" f))
legacy_retry_state_record as_text _ = none

-- `right - left`, where `NaN` counts as equal.
abbrev pub compare_instants : Option ℕ → Option ℕ → Ordering
compare_instants (some left) (some right) = compare right left
compare_instants left right = Ordering.eq

-- The later attempt comes first.
unfoldable pub compare_attempts : Dates → NodeAttempt → NodeAttempt → Ordering
compare_attempts dates left right =
    let instant = λ (a : NodeAttempt).
      dates.parse (get_or (or_else a.created_at (or_else a.dispatched_at a.started_at)) "") in
    elim (compare (get_or right.attempt_number 1) (get_or left.attempt_number 1)) [
      | Ordering.eq ↦ compare_instants (instant left) (instant right)
      | other ↦ other
    ]

unfoldable pub of_operation : LegacyRetryStateRecord → NodeAttempt → Bool
of_operation legacy attempt =
    attempt.operation_id == legacy.operation_id && attempt.node_run_id == legacy.node_run_id

unfoldable pub latest_operation_attempt :
    Dates → List NodeAttempt → LegacyRetryStateRecord → Option NodeAttempt
latest_operation_attempt dates attempts legacy =
    first_by (compare_attempts dates) (filter (of_operation legacy) attempts)

-- `map.set(key, value)`: a key that is there keeps its place.
unfoldable pub set_entry {ℓ} : {V : Type ℓ} → String → V → List (String × V) → List (String × V)
set_entry key v [] = (key, v) ∷ []
set_entry key v ((k, w) ∷ entries) =
    let rest = set_entry key v entries in if k == key then (k, v) ∷ entries else (k, w) ∷ rest

abbrev pub Legacies : Type 0
Legacies = List (String × LegacyRetryStateRecord)

unfoldable pub issue_json : RetryStateMigrationIssue → Json
issue_json i = object (
    field "operation_id" (string i.operation_id) (
      field "node_run_id" (string i.node_run_id) (
        field "reason_code" (string "retry_state_migration_failed") (
          field "message" (string i.message) (
            field "legacy_record" (object i.legacy_record.fields)
              (field "updated_at" (string i.updated_at) end))))))

abbrev pub invalid_issue : Error
invalid_issue = error "retry_state_migration_blocked.json contains an invalid issue"

abbrev pub invalid_legacy : Error
invalid_legacy = error "retry_state_migration_blocked.json contains an invalid legacy record"

abbrev pub required_text : Option Json → Result String
required_text value = elim (as_string value) [ none ↦ throw invalid_issue | some s ↦ ok s ]

abbrev pub fields_of : Json → Result Fields
fields_of (object f) = ok f
fields_of _ = throw invalid_issue

abbrev pub required_legacy : Option LegacyRetryStateRecord → Result LegacyRetryStateRecord
required_legacy none = throw invalid_legacy
required_legacy (some l) = ok l

-- The callback of `migrationIssues`.
unfoldable pub parse_issue : (Json → String) → Json → Result RetryStateMigrationIssue
parse_issue as_text value = do
  f ← fields_of value
  operation_id ← required_text (own "operation_id" f)
  node_run_id ← required_text (own "node_run_id" f)
  guard (is_text (as_string (own "reason_code" f)) "retry_state_migration_failed") invalid_issue
  message ← required_text (own "message" f)
  updated_at ← required_text (own "updated_at" f)
  legacy ← required_legacy (legacy_retry_state_record as_text (own "legacy_record" f))
  ok (record {
    operation_id = operation_id;
    node_run_id = node_run_id;
    message = message;
    legacy_record = legacy;
    updated_at = updated_at;
  })

-- `{ ...legacy, attempt_id, attempt_number, error, effects_committed: false }`
unfoldable pub migrated_json : LegacyRetryStateRecord → String → ℕ → AdapterError → Json
migrated_json legacy attempt_id attempt_number e = object (
    append_fields legacy.fields (
      field "attempt_id" (string attempt_id) (
        field "attempt_number" (natural attempt_number)
          (field "error" (error_json e) (field "effects_committed" (bool false) end)))))

-- The facts of an attempt that a record of this version needs.
abbrev pub attempt_facts : Option NodeAttempt → Option (String × ℕ × AdapterError)
attempt_facts none = none
attempt_facts (some a) =
    if truthy (some a.attempt_id)
    then Option.map (λ e. (a.attempt_id, get_or a.attempt_number 1, e)) a.error
    else none

unfoldable pub issue_of : (now : String) → LegacyRetryStateRecord → RetryStateMigrationIssue
issue_of now legacy = record {
  operation_id = legacy.operation_id;
  node_run_id = legacy.node_run_id;
  message =
      "Cannot migrate legacy RetryState " +++ legacy.operation_id
      +++ ": matching latest NodeAttempt error facts are unavailable.";
  legacy_record = legacy;
  updated_at = now;
}
