-- ===== src/Schemas/RoundTrip.antt =====
-- packages/core/src/schemas.ts: what the schemas of the stored retry records make of the JSON value
-- of a record.
use miracle_agent.Prelude.{
  ℕ, String, Bool, true, false, ◌&&◌, Option, none, some, leb, ◌==◌, string_eq, is_nonempty, eq_iff,
  Result, ok, throw, schema_error, ◌≡◌, refl, arith, ==_refl,
}
use miracle_agent.Prelude.Json.{Json, string, Fields}
use miracle_agent.Types.{
  RetryBudgetSnapshot, RetryAction, RetryPhase, RetryDecision, RetryScheduleRecord, RetryStatePhase,
  RetryState, replayable, completed, RetryStateRecord, AdapterError,
}
use miracle_agent.Schemas.Values.{own, optional, optional_field, number_from}
use mathlib.Core.Option
use miracle_agent.Schemas.Stored.{
  natural, datetime, retry_budget_snapshot_schema, snapshot_json, retry_error_schema, error_json,
  decision_json, decision_fields, action_named, action_name, phase_named, phase_name,
  state_phase_named, state_phase_name, retry_phase_schema, schedule_json, state_json,
  state_record_fields, retry_decision_schema, retry_schedule_record_schema,
  replayable_retry_state_record_schema, completed_retry_state_record_schema,
  retry_state_record_schema,
}

-- `x` itself where the test holds.
abbrev pub accepted_if {ℓ} : {A : Type ℓ} → Bool → A → Result A
accepted_if true x = ok x
accepted_if false x = throw schema_error

-- The bounds of a budget snapshot.
abbrev pub snapshot_ok : RetryBudgetSnapshot → Bool
snapshot_ok s = leb 1 s.max_attempts && leb s.max_attempts 3 && leb 1 s.total_time_budget_ms

abbrev pub error_ok : AdapterError → Bool
error_ok e = is_nonempty e.code && is_nonempty e.message

abbrev pub number_ok : ℕ → Option ℕ → Bool
number_ok least none = true
number_ok least (some n) = leb least n

pub retry_budget_snapshot_schema-json :
    (s : RetryBudgetSnapshot)
    → retry_budget_snapshot_schema (some (snapshot_json s)) ≡ accepted_if (snapshot_ok s) s
unfolding retry_budget_snapshot_schema snapshot_json
retry_budget_snapshot_schema-json s = ground arith

pub retry_error_schema-json :
    (e : AdapterError) → retry_error_schema (some (error_json e)) ≡ accepted_if (error_ok e) e
unfolding retry_error_schema error_json
retry_error_schema-json e = ground arith

action_named-name : (a : RetryAction) → action_named (action_name a) ≡ ok a
unfolding action_named action_name
action_named-name RetryAction.schedule_retry = refl
action_named-name RetryAction.require_attention = refl
action_named-name RetryAction.fail_terminal = refl

phase_named-name : (p : RetryPhase) → phase_named (phase_name p) ≡ ok p
unfolding phase_named phase_name
phase_named-name RetryPhase.waiting_for_retry = refl
phase_named-name RetryPhase.due = refl
phase_named-name RetryPhase.exhausted = refl
phase_named-name RetryPhase.blocked = refl

state_phase_named-name : (p : RetryStatePhase) → state_phase_named (state_phase_name p) ≡ ok p
unfolding state_phase_named state_phase_name
state_phase_named-name RetryStatePhase.waiting_for_retry = refl
state_phase_named-name RetryStatePhase.exhausted = refl
state_phase_named-name RetryStatePhase.blocked = refl

not_completed : (p : RetryStatePhase) → (state_phase_name p == "completed") ≡ false
unfolding state_phase_name
not_completed RetryStatePhase.waiting_for_retry = refl
not_completed RetryStatePhase.exhausted = refl
not_completed RetryStatePhase.blocked = refl

own-optional_field :
    (key k : String) (value : Option Json) (rest : Fields)
    → (k == key) ≡ false
    → own key (optional_field k value rest) ≡ own key rest
own-optional_field key k value rest other = ground arith

own-optional_field_self :
    (key : String) (value : Option Json) (rest : Fields)
    → own key rest ≡ none
    → own key (optional_field key value rest) ≡ value
own-optional_field_self key none rest fresh = fresh
own-optional_field_self key (some v) rest fresh = rw (==_refl key)

optional_phase-json :
    (p : Option RetryPhase)
    → optional retry_phase_schema (Option.map (λ x. string (phase_name x)) p) ≡ ok p
optional_phase-json none = refl
optional_phase-json (some p) = rw (phase_named-name p)

optional_number-json :
    (least : ℕ) (n : Option ℕ)
    → optional (number_from least) (Option.map natural n) ≡ accepted_if (number_ok least n) n
optional_number-json least n = ground arith

number_ok-zero : (n : Option ℕ) → number_ok 0 n ≡ true
number_ok-zero n = ground arith

module _ (d : RetryDecision) where
  own-action : own "action" (decision_fields d) ≡ some (string (action_name d.action))
  unfolding decision_fields
  own-action = refl

  own-phase : own "phase" (decision_fields d) ≡ Option.map (λ x. string (phase_name x)) d.phase
  unfolding decision_fields
  own-phase = own-optional_field_self "phase" _ _ (simp own-optional_field)

  own-next_attempt_number :
      own "next_attempt_number" (decision_fields d) ≡ Option.map natural d.next_attempt_number
  unfolding decision_fields
  own-next_attempt_number =
      simp own-optional_field
        (own-optional_field_self "next_attempt_number" _ _ (simp own-optional_field))

  own-delay_ms : own "delay_ms" (decision_fields d) ≡ Option.map natural d.delay_ms
  unfolding decision_fields
  own-delay_ms =
      simp own-optional_field (own-optional_field_self "delay_ms" _ _ (simp own-optional_field))

  own-scheduled_for :
      own "scheduled_for" (decision_fields d) ≡ Option.map (λ x. string x) d.scheduled_for
  unfolding decision_fields
  own-scheduled_for = simp own-optional_field (own-optional_field_self "scheduled_for" _ _ refl)

  own-reason_code : own "reason_code" (decision_fields d) ≡ some (string d.reason_code)
  unfolding decision_fields
  own-reason_code = simp own-optional_field

  own-operation_id : own "operation_id" (decision_fields d) ≡ some (string d.operation_id)
  unfolding decision_fields
  own-operation_id = simp own-optional_field

  own-budget_snapshot :
      own "budget_snapshot" (decision_fields d) ≡ some (snapshot_json d.budget_snapshot)
  unfolding decision_fields
  own-budget_snapshot = simp own-optional_field

module _ (is_datetime : String → Bool) where
  abbrev pub datetime_ok : Option String → Bool
  datetime_ok none = true
  datetime_ok (some s) = is_datetime s

  optional-datetime-json :
      (s : Option String)
      → optional (datetime is_datetime) (Option.map (λ x. string x) s)
        ≡ accepted_if (datetime_ok s) s
  optional-datetime-json s = ground arith

  abbrev pub decision_ok : RetryDecision → Bool
  decision_ok d =
      is_nonempty d.reason_code
      && is_nonempty d.operation_id
      && number_ok 2 d.next_attempt_number
      && datetime_ok d.scheduled_for
      && snapshot_ok d.budget_snapshot

  abbrev pub schedule_ok : RetryScheduleRecord → Bool
  schedule_ok r =
      is_nonempty r.operation_id
      && is_nonempty r.node_run_id
      && leb 2 r.attempt_number
      && is_nonempty r.reason_code
      && is_datetime r.scheduled_for
      && snapshot_ok r.budget_snapshot

  pub retry_decision_schema-json :
      (d : RetryDecision)
      → retry_decision_schema is_datetime (some (decision_json d)) ≡ accepted_if (decision_ok d) d
  unfolding retry_decision_schema
  retry_decision_schema-json d =
      rw
        (
          own-action d,
          own-phase d,
          own-next_attempt_number d,
          own-delay_ms d,
          own-scheduled_for d,
          own-reason_code d,
          own-operation_id d,
          own-budget_snapshot d,
          action_named-name d.action,
          optional_phase-json d.phase,
          optional_number-json 2 d.next_attempt_number,
          optional_number-json 0 d.delay_ms,
          optional-datetime-json d.scheduled_for,
          retry_budget_snapshot_schema-json d.budget_snapshot,
          number_ok-zero d.delay_ms,
        )
        (ground arith)

  -- The schema accepts the JSON value of a schedule record exactly when its texts are not empty,
  -- its attempt number is 2 or more, its time is a timestamp and its budget is within bounds, and
  -- then reads back the record.
  pub retry_schedule_record_schema-json :
      (r : RetryScheduleRecord)
      → retry_schedule_record_schema is_datetime (schedule_json r) ≡ accepted_if (schedule_ok r) r
  unfolding retry_schedule_record_schema schedule_json
  retry_schedule_record_schema-json r =
      ground (arith, retry_budget_snapshot_schema-json r.budget_snapshot)

  abbrev pub state_ok : RetryState → RetryStateRecord → Bool
  state_ok (replayable phase decision e) r =
      is_nonempty r.reason_code && decision_ok decision && error_ok e
  state_ok completed r = r.reason_code == "retry_completed" && r.effects_committed

  abbrev pub state_record_ok : RetryStateRecord → Bool
  state_record_ok r =
      is_nonempty r.operation_id
      && is_nonempty r.node_run_id
      && is_nonempty r.attempt_id
      && leb 1 r.attempt_number
      && state_ok r.state r
      && is_datetime r.updated_at

  module _ (r : RetryStateRecord) (phase : RetryStatePhase) (decision : RetryDecision)
      (e : AdapterError) where
    abbrev replaying : RetryStateRecord
    replaying = record r { state = replayable phase decision e }

    replayable_schema-json :
        replayable_retry_state_record_schema is_datetime (state_record_fields replaying)
        ≡ accepted_if (state_record_ok replaying) replaying
    unfolding replayable_retry_state_record_schema state_record_fields
    replayable_schema-json =
        rw
          (
            state_phase_named-name phase,
            retry_decision_schema-json decision,
            retry_error_schema-json e,
          )
          (ground arith)

    completed_schema-replaying :
        completed_retry_state_record_schema is_datetime (state_record_fields replaying)
        ≡ throw schema_error
    unfolding completed_retry_state_record_schema state_record_fields
    completed_schema-replaying = rw (not_completed phase) (ground arith)

    retry_state_record_schema-replaying :
        retry_state_record_schema is_datetime (state_json replaying)
        ≡ accepted_if (state_record_ok replaying) replaying
    unfolding retry_state_record_schema
    retry_state_record_schema-replaying =
        ground (arith, replayable_schema-json, completed_schema-replaying)

  module _ (r : RetryStateRecord) where
    abbrev finished : RetryStateRecord
    finished = record r { state = completed }

    replayable_schema-finished :
        replayable_retry_state_record_schema is_datetime (state_record_fields finished)
        ≡ throw schema_error
    unfolding replayable_retry_state_record_schema state_record_fields state_phase_named
    replayable_schema-finished = ground arith

    completed_schema-finished :
        completed_retry_state_record_schema is_datetime (state_record_fields finished)
        ≡ accepted_if (state_record_ok finished) finished
    unfolding completed_retry_state_record_schema state_record_fields
    completed_schema-finished = ground (arith, eq_iff r.reason_code "retry_completed")

    retry_state_record_schema-finished :
        retry_state_record_schema is_datetime (state_json finished)
        ≡ accepted_if (state_record_ok finished) finished
    unfolding retry_state_record_schema
    retry_state_record_schema-finished = rw (replayable_schema-finished, completed_schema-finished)

  with_state-json :
      (r : RetryStateRecord) (s : RetryState)
      → retry_state_record_schema is_datetime (state_json (record r { state = s }))
        ≡ accepted_if (state_record_ok (record r { state = s })) (record r { state = s })
  with_state-json r (replayable phase decision e) =
      retry_state_record_schema-replaying r phase decision e
  with_state-json r completed = retry_state_record_schema-finished r

  -- The schema accepts the JSON value of a state record exactly when its texts are not empty, its
  -- attempt number is positive, its time is a timestamp, and its phase has what it needs: a valid
  -- decision and error, or the reason and the effects of a completed retry. It then reads back the
  -- record.
  pub retry_state_record_schema-json :
      (r : RetryStateRecord)
      → retry_state_record_schema is_datetime (state_json r) ≡ accepted_if (state_record_ok r) r
  retry_state_record_schema-json r = with_state-json r r.state
