-- ===== src/Schemas/Stored.antt =====
-- packages/core/src/schemas.ts: the schemas of the retry records that are kept in files, on JSON
-- values, and the JSON value of each record.
use mathlib.Core.Option
use miracle_agent.Prelude.{
  ℕ, String, Bool, true, Option, none, some, leb, ◌==◌, string_eq, if◌then◌else◌, Result, ok, throw,
  schema_error, guard, ◌>>=◌, ◌>>◌,
}
use miracle_agent.Prelude.Int.{pos}
use miracle_agent.Prelude.Json.{Json, bool, number, string, object, finite, Fields, end, field}
use miracle_agent.Types.{
  RetryBudgetSnapshot, RetryAction, RetryPhase, RetryDecision, RetryScheduleRecord, RetryStatePhase,
  RetryState, replayable, completed, RetryStateRecord, AdapterError,
}
use miracle_agent.Schemas.Values.{
  own, object_fields, text, nonempty_text, number_from, boolean, optional, optional_field,
}

abbrev pub natural : ℕ → Json
natural n = number (finite (pos n))

-- `finiteNonNegativeNumber.default(5)`
abbrev pub cost_budget_schema : Option Json → Result ℕ
cost_budget_schema none = ok 5
cost_budget_schema (some v) = number_from 0 (some v)

-- `z.number().int().min(1).max(3)`
abbrev pub attempts_schema : Option Json → Result ℕ
attempts_schema value = do n ← number_from 1 value; guard (leb n 3) schema_error; ok n

unfoldable pub retry_budget_snapshot_schema : Option Json → Result RetryBudgetSnapshot
retry_budget_snapshot_schema value = do
  f ← object_fields value
  attempts_used ← number_from 0 (own "attempts_used" f)
  elapsed_ms ← number_from 0 (own "elapsed_ms" f)
  cost_used ← number_from 0 (own "cost_used" f)
  max_attempts ← attempts_schema (own "max_attempts" f)
  total_time_budget_ms ← number_from 1 (own "total_time_budget_ms" f)
  cost_budget ← cost_budget_schema (own "cost_budget" f)
  ok (record {
    attempts_used = attempts_used;
    elapsed_ms = elapsed_ms;
    cost_used = cost_used;
    max_attempts = max_attempts;
    total_time_budget_ms = total_time_budget_ms;
    cost_budget = cost_budget;
  })

unfoldable pub snapshot_json : RetryBudgetSnapshot → Json
snapshot_json s = object (
    field "attempts_used" (natural s.attempts_used) (
      field "elapsed_ms" (natural s.elapsed_ms) (
        field "cost_used" (natural s.cost_used) (
          field "max_attempts" (natural s.max_attempts) (
            field "total_time_budget_ms" (natural s.total_time_budget_ms)
              (field "cost_budget" (natural s.cost_budget) end))))))

unfoldable pub action_named : String → Result RetryAction
action_named name =
    if name == "schedule_retry"
    then ok RetryAction.schedule_retry
    else if name == "require_attention"
    then ok RetryAction.require_attention
    else if name == "fail_terminal"
    then ok RetryAction.fail_terminal
    else throw schema_error

unfoldable pub action_name : RetryAction → String
action_name RetryAction.schedule_retry = "schedule_retry"
action_name RetryAction.require_attention = "require_attention"
action_name RetryAction.fail_terminal = "fail_terminal"

unfoldable pub phase_named : String → Result RetryPhase
phase_named name =
    if name == "waiting_for_retry"
    then ok RetryPhase.waiting_for_retry
    else if name == "due"
    then ok RetryPhase.due
    else if name == "exhausted"
    then ok RetryPhase.exhausted
    else if name == "blocked"
    then ok RetryPhase.blocked
    else throw schema_error

unfoldable pub phase_name : RetryPhase → String
phase_name RetryPhase.waiting_for_retry = "waiting_for_retry"
phase_name RetryPhase.due = "due"
phase_name RetryPhase.exhausted = "exhausted"
phase_name RetryPhase.blocked = "blocked"

unfoldable pub state_phase_named : String → Result RetryStatePhase
state_phase_named name =
    if name == "waiting_for_retry"
    then ok RetryStatePhase.waiting_for_retry
    else if name == "exhausted"
    then ok RetryStatePhase.exhausted
    else if name == "blocked"
    then ok RetryStatePhase.blocked
    else throw schema_error

unfoldable pub state_phase_name : RetryStatePhase → String
state_phase_name RetryStatePhase.waiting_for_retry = "waiting_for_retry"
state_phase_name RetryStatePhase.exhausted = "exhausted"
state_phase_name RetryStatePhase.blocked = "blocked"

abbrev pub retry_action_schema : Option Json → Result RetryAction
retry_action_schema value = do name ← text value; action_named name

abbrev pub retry_phase_schema : Option Json → Result RetryPhase
retry_phase_schema value = do name ← text value; phase_named name

abbrev pub retry_state_phase_schema : Option Json → Result RetryStatePhase
retry_state_phase_schema value = do name ← text value; state_phase_named name

unfoldable pub retry_error_schema : Option Json → Result AdapterError
retry_error_schema value = do
  f ← object_fields value
  code ← nonempty_text (own "code" f)
  message ← nonempty_text (own "message" f)
  recoverable ← boolean (own "recoverable" f)
  ok (record { code = code; message = message; recoverable = recoverable })

unfoldable pub error_json : AdapterError → Json
error_json e = object (
    field "code" (string e.code)
      (field "message" (string e.message) (field "recoverable" (bool e.recoverable) end)))

unfoldable pub decision_fields : RetryDecision → Fields
decision_fields d = field "action" (string (action_name d.action)) (
    optional_field "phase" (Option.map (λ p. string (phase_name p)) d.phase) (
      field "reason_code" (string d.reason_code) (
        field "operation_id" (string d.operation_id) (
          optional_field "next_attempt_number" (Option.map natural d.next_attempt_number) (
            optional_field "delay_ms" (Option.map natural d.delay_ms) (
              optional_field "scheduled_for" (Option.map string d.scheduled_for)
                (field "budget_snapshot" (snapshot_json d.budget_snapshot) end)))))))

abbrev pub decision_json : RetryDecision → Json
decision_json d = object (decision_fields d)

unfoldable pub schedule_json : RetryScheduleRecord → Json
schedule_json r = object (
    field "operation_id" (string r.operation_id) (
      field "node_run_id" (string r.node_run_id) (
        field "attempt_number" (natural r.attempt_number) (
          field "reason_code" (string r.reason_code) (
            field "scheduled_for" (string r.scheduled_for)
              (field "budget_snapshot" (snapshot_json r.budget_snapshot) end))))))

abbrev pub state_fields : RetryState → Fields → Fields
state_fields completed fields = field "phase" (string "completed") fields
state_fields (replayable phase decision e) fields =
    field "phase" (string (state_phase_name phase))
      (field "decision" (decision_json decision) (field "error" (error_json e) fields))

unfoldable pub state_record_fields : RetryStateRecord → Fields
state_record_fields r = field "operation_id" (string r.operation_id) (
    field "node_run_id" (string r.node_run_id) (
      field "attempt_id" (string r.attempt_id) (
        field "attempt_number" (natural r.attempt_number) (
          state_fields r.state (
            field "reason_code" (string r.reason_code) (
              field "effects_committed" (bool r.effects_committed)
                (field "updated_at" (string r.updated_at) end)))))))

abbrev pub state_json : RetryStateRecord → Json
state_json r = object (state_record_fields r)

-- `a` unless it throws, else `b`: two branches of a `z.union`.
abbrev pub either {ℓ} : {A : Type ℓ} → Result A → Result A → Result A
either (ok a) b = ok a
either (throw e) b = b

-- `is_datetime` is the test of `z.string().datetime()`.
module _ (is_datetime : String → Bool) where
  abbrev pub datetime : Option Json → Result String
  datetime value = do s ← text value; guard (is_datetime s) schema_error; ok s

  unfoldable pub retry_decision_schema : Option Json → Result RetryDecision
  retry_decision_schema value = do
    f ← object_fields value
    action ← retry_action_schema (own "action" f)
    phase ← optional retry_phase_schema (own "phase" f)
    reason_code ← nonempty_text (own "reason_code" f)
    operation_id ← nonempty_text (own "operation_id" f)
    next_attempt_number ← optional (number_from 2) (own "next_attempt_number" f)
    delay_ms ← optional (number_from 0) (own "delay_ms" f)
    scheduled_for ← optional datetime (own "scheduled_for" f)
    budget_snapshot ← retry_budget_snapshot_schema (own "budget_snapshot" f)
    ok (record {
      action = action;
      phase = phase;
      reason_code = reason_code;
      operation_id = operation_id;
      next_attempt_number = next_attempt_number;
      delay_ms = delay_ms;
      scheduled_for = scheduled_for;
      budget_snapshot = budget_snapshot;
    })

  -- `retryScheduleRecordSchema.parse`
  unfoldable pub retry_schedule_record_schema : Json → Result RetryScheduleRecord
  retry_schedule_record_schema value = do
    f ← object_fields (some value)
    operation_id ← nonempty_text (own "operation_id" f)
    node_run_id ← nonempty_text (own "node_run_id" f)
    attempt_number ← number_from 2 (own "attempt_number" f)
    reason_code ← nonempty_text (own "reason_code" f)
    scheduled_for ← datetime (own "scheduled_for" f)
    budget_snapshot ← retry_budget_snapshot_schema (own "budget_snapshot" f)
    ok (record {
      operation_id = operation_id;
      node_run_id = node_run_id;
      attempt_number = attempt_number;
      reason_code = reason_code;
      scheduled_for = scheduled_for;
      budget_snapshot = budget_snapshot;
    })

  unfoldable pub replayable_retry_state_record_schema : Fields → Result RetryStateRecord
  replayable_retry_state_record_schema f = do
    operation_id ← nonempty_text (own "operation_id" f)
    node_run_id ← nonempty_text (own "node_run_id" f)
    attempt_id ← nonempty_text (own "attempt_id" f)
    attempt_number ← number_from 1 (own "attempt_number" f)
    phase ← retry_state_phase_schema (own "phase" f)
    reason_code ← nonempty_text (own "reason_code" f)
    decision ← retry_decision_schema (own "decision" f)
    e ← retry_error_schema (own "error" f)
    effects_committed ← boolean (own "effects_committed" f)
    updated_at ← datetime (own "updated_at" f)
    ok (record {
      operation_id = operation_id;
      node_run_id = node_run_id;
      attempt_id = attempt_id;
      attempt_number = attempt_number;
      reason_code = reason_code;
      effects_committed = effects_committed;
      updated_at = updated_at;
      state = replayable phase decision e;
    })

  unfoldable pub completed_retry_state_record_schema : Fields → Result RetryStateRecord
  completed_retry_state_record_schema f = do
    operation_id ← nonempty_text (own "operation_id" f)
    node_run_id ← nonempty_text (own "node_run_id" f)
    attempt_id ← nonempty_text (own "attempt_id" f)
    attempt_number ← number_from 1 (own "attempt_number" f)
    phase ← text (own "phase" f)
    guard (phase == "completed") schema_error
    reason_code ← text (own "reason_code" f)
    guard (reason_code == "retry_completed") schema_error
    effects_committed ← boolean (own "effects_committed" f)
    guard effects_committed schema_error
    updated_at ← datetime (own "updated_at" f)
    ok (record {
      operation_id = operation_id;
      node_run_id = node_run_id;
      attempt_id = attempt_id;
      attempt_number = attempt_number;
      reason_code = "retry_completed";
      effects_committed = true;
      updated_at = updated_at;
      state = completed;
    })

  -- `retryStateRecordSchema.parse`: the first branch of the union that accepts the value.
  unfoldable pub retry_state_record_schema : Json → Result RetryStateRecord
  retry_state_record_schema value = do
    f ← object_fields (some value)
    either (replayable_retry_state_record_schema f) (completed_retry_state_record_schema f)
