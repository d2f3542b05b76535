-- ===== src/Schemas/Accepted.antt =====
-- packages/core/src/schemas.ts: what the schemas of the stored retry records accept they accept
-- again, from the JSON value of the record.
use miracle_agent.Prelude.{
  ℕ, String, Bool, true, ◌&&◌, Option, some, leb, ◌==◌, string_eq, is_nonempty, Result, ok,
  schema_error, ◌≡◌, refl, arith,
}
use miracle_agent.Prelude.Ensures.{
  Ensures, returned, thrown, Ensures-bind, Ensures-guard, Ensures-any, Ensures-of, Ensures-ok,
}
use miracle_agent.Prelude.Json.{Json, Fields}
use miracle_agent.Types.{RetryScheduleRecord, RetryStateRecord}
use miracle_agent.Schemas.Values.{
  own, object_fields, text, nonempty_text, number_from, boolean, optional,
}
use miracle_agent.Schemas.Stored.{
  retry_budget_snapshot_schema, retry_error_schema, retry_decision_schema, datetime,
  retry_schedule_record_schema, replayable_retry_state_record_schema, schedule_json, state_json,
  completed_retry_state_record_schema, either, retry_state_record_schema, retry_action_schema,
  retry_phase_schema, retry_state_phase_schema,
}
use miracle_agent.Schemas.RoundTrip.{
  snapshot_ok, error_ok, decision_ok, schedule_ok, state_record_ok,
  retry_schedule_record_schema-json, retry_state_record_schema-json, datetime_ok, number_ok,
}

both : {a b : Bool} → a ≡ true → b ≡ true → (a && b) ≡ true
both {a} {b} h k = rw (h, k)

-- What each part of a schema lets through.
abbrev Passes : {A : Type 0} → (A → Bool) → Result A → Type 0
Passes test r = Ensures (λ a. test a ≡ true) r

nonempty_text-Passes : (v : Option Json) → Passes is_nonempty (nonempty_text v)
nonempty_text-Passes v = Ensures-of (nonempty_text v) (λ s h. ground arith)

number_from-Passes : (k : ℕ) (v : Option Json) → Passes (leb k) (number_from k v)
number_from-Passes k v = Ensures-of (number_from k v) (λ n h. ground arith)

optional_number-Passes :
    (k : ℕ) (v : Option Json) → Passes (number_ok k) (optional (number_from k) v)
optional_number-Passes k v = Ensures-of (optional (number_from k) v) (λ n h. ground arith)

retry_error_schema-Passes : (v : Option Json) → Passes error_ok (retry_error_schema v)
unfolding retry_error_schema
retry_error_schema-Passes v = Ensures-of (retry_error_schema v) (λ e h. ground arith)

snapshot_schema-Passes : (v : Option Json) → Passes snapshot_ok (retry_budget_snapshot_schema v)
unfolding retry_budget_snapshot_schema
snapshot_schema-Passes v = Ensures-of (retry_budget_snapshot_schema v) (λ s h. ground arith)

module _ (is_datetime : String → Bool) where
  datetime-Passes : (v : Option Json) → Passes is_datetime (datetime is_datetime v)
  datetime-Passes v = Ensures-of (datetime is_datetime v) (λ s h. ground arith)

  optional-datetime-Passes :
      (v : Option Json) → Passes (datetime_ok is_datetime) (optional (datetime is_datetime) v)
  optional-datetime-Passes v = Ensures-of (optional (datetime is_datetime) v) (λ s h. ground arith)

  retry_decision_schema-Passes :
      (v : Option Json) → Passes (decision_ok is_datetime) (retry_decision_schema is_datetime v)
  unfolding retry_decision_schema
  retry_decision_schema-Passes v = Ensures-bind _ (Ensures-any (object_fields v)) λ f _.
      Ensures-bind _ (Ensures-any (retry_action_schema (own "action" f))) λ action _.
        Ensures-bind _ (Ensures-any (optional retry_phase_schema (own "phase" f))) λ phase _.
          Ensures-bind _ (nonempty_text-Passes (own "reason_code" f)) λ reason h1.
            Ensures-bind _ (nonempty_text-Passes (own "operation_id" f)) λ id h2.
              Ensures-bind _ (optional_number-Passes 2 (own "next_attempt_number" f)) λ next h3.
                Ensures-bind _ (optional_number-Passes 0 (own "delay_ms" f)) λ delay _.
                  Ensures-bind _ (optional-datetime-Passes (own "scheduled_for" f)) λ at h4.
                    Ensures-bind _ (snapshot_schema-Passes (own "budget_snapshot" f))
                      λ snapshot h5. returned _ (both (both (both (both h1 h2) h3) h4) h5)

  schedule_schema-Passes :
      (v : Json) → Passes (schedule_ok is_datetime) (retry_schedule_record_schema is_datetime v)
  unfolding retry_schedule_record_schema
  schedule_schema-Passes v = Ensures-bind _ (Ensures-any (object_fields (some v))) λ f _.
      Ensures-bind _ (nonempty_text-Passes (own "operation_id" f)) λ id h1.
        Ensures-bind _ (nonempty_text-Passes (own "node_run_id" f)) λ node h2.
          Ensures-bind _ (number_from-Passes 2 (own "attempt_number" f)) λ n h3.
            Ensures-bind _ (nonempty_text-Passes (own "reason_code" f)) λ reason h4.
              Ensures-bind _ (datetime-Passes (own "scheduled_for" f)) λ at h5.
                Ensures-bind _ (snapshot_schema-Passes (own "budget_snapshot" f))
                  λ snapshot h6. returned _ (both (both (both (both (both h1 h2) h3) h4) h5) h6)

  replayable_schema-Passes :
      (f : Fields)
      → Passes (state_record_ok is_datetime) (replayable_retry_state_record_schema is_datetime f)
  unfolding replayable_retry_state_record_schema
  replayable_schema-Passes f = Ensures-bind _ (nonempty_text-Passes (own "operation_id" f)) λ id h1.
      Ensures-bind _ (nonempty_text-Passes (own "node_run_id" f)) λ node h2.
        Ensures-bind _ (nonempty_text-Passes (own "attempt_id" f)) λ attempt h3.
          Ensures-bind _ (number_from-Passes 1 (own "attempt_number" f)) λ n h4.
            Ensures-bind _ (Ensures-any (retry_state_phase_schema (own "phase" f))) λ phase _.
              Ensures-bind _ (nonempty_text-Passes (own "reason_code" f)) λ reason h5.
                Ensures-bind _ (retry_decision_schema-Passes (own "decision" f)) λ decision h6.
                  Ensures-bind _ (retry_error_schema-Passes (own "error" f)) λ e h7.
                    Ensures-bind _ (Ensures-any (boolean (own "effects_committed" f))) λ effects _.
                      Ensures-bind _ (datetime-Passes (own "updated_at" f)) λ at h8.
                        returned _
                          (both (both (both (both (both h1 h2) h3) h4) (both (both h5 h6) h7)) h8)

  completed_schema-Passes :
      (f : Fields)
      → Passes (state_record_ok is_datetime) (completed_retry_state_record_schema is_datetime f)
  unfolding completed_retry_state_record_schema
  completed_schema-Passes f = Ensures-bind _ (nonempty_text-Passes (own "operation_id" f)) λ id h1.
      Ensures-bind _ (nonempty_text-Passes (own "node_run_id" f)) λ node h2.
        Ensures-bind _ (nonempty_text-Passes (own "attempt_id" f)) λ attempt h3.
          Ensures-bind _ (number_from-Passes 1 (own "attempt_number" f)) λ n h4.
            Ensures-bind _ (Ensures-any (text (own "phase" f))) λ phase _.
              Ensures-guard (phase == "completed") schema_error λ _.
                Ensures-bind _ (Ensures-any (text (own "reason_code" f))) λ reason _.
                  Ensures-guard (reason == "retry_completed") schema_error λ _.
                    Ensures-bind _ (Ensures-any (boolean (own "effects_committed" f))) λ effects _.
                      Ensures-guard effects schema_error λ _.
                        Ensures-bind _ (datetime-Passes (own "updated_at" f))
                          λ at h5. returned _ (both (both (both (both (both h1 h2) h3) h4) refl) h5)

  either-Passes :
      {A : Type 0} {test : A → Bool} {a : Result A} {b : Result A}
      → Passes test a
      → Passes test b
      → Passes test (either a b)
  either-Passes (returned a p) k = returned a p
  either-Passes (thrown e) k = k

  state_schema-Passes :
      (v : Json) → Passes (state_record_ok is_datetime) (retry_state_record_schema is_datetime v)
  unfolding retry_state_record_schema
  state_schema-Passes v =
      Ensures-bind _ (Ensures-any (object_fields (some v)))
        λ f _. either-Passes (replayable_schema-Passes f) (completed_schema-Passes f)

  -- What the schema of schedule records returns it accepts again.
  pub retry_schedule_record_schema-accepts :
      (v : Json) (r : RetryScheduleRecord)
      → retry_schedule_record_schema is_datetime v ≡ ok r
      → retry_schedule_record_schema is_datetime (schedule_json r) ≡ ok r
  retry_schedule_record_schema-accepts v r h = rw (
    retry_schedule_record_schema-json is_datetime r,
    Ensures-ok {P = λ a. schedule_ok is_datetime a ≡ true} (schedule_schema-Passes v) h,
  )

  -- What the schema of state records returns it accepts again.
  pub retry_state_record_schema-accepts :
      (v : Json) (r : RetryStateRecord)
      → retry_state_record_schema is_datetime v ≡ ok r
      → retry_state_record_schema is_datetime (state_json r) ≡ ok r
  retry_state_record_schema-accepts v r h = rw (
    retry_state_record_schema-json is_datetime r,
    Ensures-ok {P = λ a. state_record_ok is_datetime a ≡ true} (state_schema-Passes v) h,
  )
