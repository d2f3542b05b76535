-- ===== src/RetryStore/Kept.antt =====
-- retry-store.ts: `migrateLegacy` loses no operation.
use miracle_agent.Prelude.{
  ℕ, String, Bool, Option, none, some, ◌==◌, string_eq, Result, ok, schema_error, ◌≡◌, sym, ◌∙◌,
  inl, inr, arith, Bool-cases, Option-cases,
}
use miracle_agent.Prelude.Ensures.{
  Ensures, returned, thrown, Ensures-bind, Ensures-guard, Ensures-any, Ensures-of, Ensures-ok,
}
use miracle_agent.Prelude.Json.{Json, null, bool, number, string, array, object, Fields, end, field}
use miracle_agent.Types.{RetryStateRecord, AdapterError}
use miracle_agent.Schemas.Values.{own, append_fields, text, nonempty_text, number_from, boolean}
use miracle_agent.Schemas.Stored.{
  retry_state_record_schema, replayable_retry_state_record_schema,
  completed_retry_state_record_schema, either, datetime, retry_error_schema, retry_decision_schema,
  retry_state_phase_schema,
}
use miracle_agent.RetryStore.Migration.{
  LegacyRetryStateRecord, legacy_retry_state_record, legacy_shape, legacy_with, migrated_json,
  as_string,
}

-- The object has the operation id that is read from it.
abbrev pub Named : LegacyRetryStateRecord → Type 0
Named l = own "operation_id" l.fields ≡ some (string l.operation_id)

as_string-eq-some : (v : Option Json) {s : String} → as_string v ≡ some s → v ≡ some (string s)
as_string-eq-some v h = ground arith

legacy_with-Named :
    (f : Fields) (shape : Bool) (node_run_id : Option String) {l : LegacyRetryStateRecord}
    → legacy_with f shape (as_string (own "operation_id" f)) node_run_id ≡ some l
    → Named l
legacy_with-Named f shape node_run_id {l} h =
    elim (Option-cases (as_string (own "operation_id" f))) [
      | inl absent ↦ absurd (ground arith)
      | inr (id, found) ↦
          let at = as_string-eq-some (own "operation_id" f) found in
          let e : (l.fields ≡ f) × (l.operation_id ≡ id) = ground arith in rw (e.0, e.1) at
    ]

pub legacy_retry_state_record-Named :
    (as_text : Json → String) (v : Option Json) {l : LegacyRetryStateRecord}
    → legacy_retry_state_record as_text v ≡ some l
    → Named l
unfolding legacy_retry_state_record
legacy_retry_state_record-Named as_text (some (object f)) {l} h =
    legacy_with-Named f (legacy_shape as_text f) (as_string (own "node_run_id" f)) {l = l} h
legacy_retry_state_record-Named as_text none h = cc
legacy_retry_state_record-Named as_text (some null) h = cc
legacy_retry_state_record-Named as_text (some (bool b)) h = cc
legacy_retry_state_record-Named as_text (some (number n)) h = cc
legacy_retry_state_record-Named as_text (some (string s)) h = cc
legacy_retry_state_record-Named as_text (some (array items)) h = cc

own-append_fields :
    (key : String) (f more : Fields) {v : Json}
    → own key f ≡ some v
    → own key (append_fields f more) ≡ some v
own-append_fields key end more h = cc
own-append_fields key (field k w f) more h = elim (Bool-cases (k == key)) [
  | inl here ↦ rw here (rw here at h)
  | inr there ↦ rw there (own-append_fields key f more (rw there at h))
]

-- A parsed record has the operation id of its object.
abbrev Keeps : Fields → Result RetryStateRecord → Type 0
Keeps f r = Ensures (λ a. own "operation_id" f ≡ some (string a.operation_id)) r

nonempty_text-string : (v : Option Json) → Ensures (λ s. v ≡ some (string s)) (nonempty_text v)
nonempty_text-string v = Ensures-of (nonempty_text v) (λ s h. ground arith)

module _ (is_datetime : String → Bool) where
  replayable-Keeps : (f : Fields) → Keeps f (replayable_retry_state_record_schema is_datetime f)
  unfolding replayable_retry_state_record_schema
  replayable-Keeps f = Ensures-bind _ (nonempty_text-string (own "operation_id" f)) λ id h.
      Ensures-bind _ (Ensures-any (nonempty_text (own "node_run_id" f))) λ node _.
        Ensures-bind _ (Ensures-any (nonempty_text (own "attempt_id" f))) λ attempt _.
          Ensures-bind _ (Ensures-any (number_from 1 (own "attempt_number" f))) λ n _.
            Ensures-bind _ (Ensures-any (retry_state_phase_schema (own "phase" f))) λ phase _.
              Ensures-bind _ (Ensures-any (nonempty_text (own "reason_code" f))) λ reason _.
                Ensures-bind _ (Ensures-any (retry_decision_schema is_datetime (own "decision" f)))
                  λ decision _.
                    Ensures-bind _ (Ensures-any (retry_error_schema (own "error" f))) λ e _.
                      Ensures-bind _ (Ensures-any (boolean (own "effects_committed" f)))
                        λ effects _.
                          Ensures-bind _ (Ensures-any (datetime is_datetime (own "updated_at" f)))
                            λ at _. returned _ h

  completed-Keeps : (f : Fields) → Keeps f (completed_retry_state_record_schema is_datetime f)
  unfolding completed_retry_state_record_schema
  completed-Keeps f = Ensures-bind _ (nonempty_text-string (own "operation_id" f)) λ id h.
      Ensures-bind _ (Ensures-any (nonempty_text (own "node_run_id" f))) λ node _.
        Ensures-bind _ (Ensures-any (nonempty_text (own "attempt_id" f))) λ attempt _.
          Ensures-bind _ (Ensures-any (number_from 1 (own "attempt_number" f))) λ n _.
            Ensures-bind _ (Ensures-any (text (own "phase" f))) λ phase _.
              Ensures-guard (phase == "completed") schema_error λ _.
                Ensures-bind _ (Ensures-any (text (own "reason_code" f))) λ reason _.
                  Ensures-guard (reason == "retry_completed") schema_error λ _.
                    Ensures-bind _ (Ensures-any (boolean (own "effects_committed" f))) λ effects _.
                      Ensures-guard effects schema_error λ _.
                        Ensures-bind _ (Ensures-any (datetime is_datetime (own "updated_at" f)))
                          λ at _. returned _ h

  either-Keeps :
      (f : Fields) {a : Result RetryStateRecord} {b : Result RetryStateRecord}
      → Keeps f a
      → Keeps f b
      → Keeps f (either a b)
  either-Keeps f (returned a p) k = returned a p
  either-Keeps f (thrown e) k = k

  pub state_schema-Keeps : (f : Fields) → Keeps f (retry_state_record_schema is_datetime (object f))
  unfolding retry_state_record_schema
  state_schema-Keeps f = either-Keeps f (replayable-Keeps f) (completed-Keeps f)

  -- A migrated record is one of the same operation.
  pub migrated_json-operation_id :
      (l : LegacyRetryStateRecord) (attempt_id : String) (n : ℕ) (e : AdapterError)
      {r : RetryStateRecord}
      → Named l
      → retry_state_record_schema is_datetime (migrated_json l attempt_id n e) ≡ ok r
      → r.operation_id ≡ l.operation_id
  unfolding migrated_json
  migrated_json-operation_id l attempt_id n e {r} named h =
      let found = Ensures-ok {P = λ a. _ ≡ some (string a.operation_id)} (state_schema-Keeps _) h in
      cc (sym (own-append_fields "operation_id" l.fields _ named) ∙ found)
