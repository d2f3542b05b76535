-- ===== src/RetryStore/Tests.antt =====
-- Sample files of the retry store, and the theorems applied to them.
use miracle_agent.Prelude.{
  ℕ, ◌≤◌, String, Bool, true, Option, none, some, List, [], ◌∷◌, error, ok, ◌≡◌, refl, ◌↔◌, Memᴰ,
  is_nonempty, All, first_by,
}
use miracle_agent.Prelude.Json.{Json, string, object, Fields, end, field}
use miracle_agent.Prelude.Dates.{Dates}
use miracle_agent.Types.{
  NodeAttempt, AttemptStatus, RetryScheduleRecord, RetryAction, RetryStatePhase, replayable,
}
use miracle_agent.Schemas.Values.{items_of}
use miracle_agent.Schemas.RoundTrip.{schedule_ok}
use miracle_agent.Schemas.Stored.{
  schedule_json, snapshot_json, retry_schedule_record_schema, retry_budget_snapshot_schema,
  retry_state_record_schema, replayable_retry_state_record_schema, retry_decision_schema,
  completed_retry_state_record_schema, retry_error_schema, error_json, action_named,
  state_phase_named,
}
use miracle_agent.RetryStore.Migration.{
  LegacyRetryStateRecord, RetryStateMigrationIssue, legacy_retry_state_record, set_entry,
  latest_operation_attempt, compare_attempts, of_operation, migrated_json, issue_of, parse_issue,
}
use miracle_agent.RetryStore.Migrate.{
  StateFiles, Settled, migrated, migration_issues, sort_out, settle, reopen,
}
use miracle_agent.RetryStore.Migrated.{operation_of, accounted}
use miracle_agent.RetryStore.Accounts.{migrated-accounts}
use miracle_agent.RetryStore.Files.{
  File, missing, holds, Host, list_records, check_run_id, read_values, parse_records, map_ok,
  all_distinct,
}
use miracle_agent.RetryStore.Writes.{WriteFaults}
use miracle_agent.RetryStore.Schedules.{schedules, list_schedules, upsert_schedule, due_schedules}
use miracle_agent.RetryStore.Replay.{Command, put, delete, Represents, replay, apply_all}
use miracle_agent.RetryStore.Laws.{
  replay-schedules-Represents, upsert_schedule-ok_iff, due_schedules_iff,
}

-- A runtime whose files hold the values themselves.
abbrev host : Host Json
host = record {
  parse = λ value. ok value;
  stringify = λ value. value;
  basename = λ path. path;
  is_datetime = is_nonempty;
  as_text = λ value. "";
}

abbrev schedule : String → RetryScheduleRecord
schedule operation_id = record {
  operation_id = operation_id;
  node_run_id = "n1";
  attempt_number = 2;
  reason_code = "retryable_error";
  scheduled_for = "later";
  budget_snapshot = record {
    attempts_used = 1;
    elapsed_ms = 10;
    cost_used = 0;
    max_attempts = 3;
    total_time_budget_ms = 1000;
    cost_budget = 5;
  };
}

-- Everything that the store runs.
program : Unit {0}
unfolding list_schedules list_records check_run_id read_values parse_records map_ok all_distinct
    schedule_json snapshot_json retry_schedule_record_schema retry_budget_snapshot_schema
    due_schedules migrated migration_issues sort_out settle reopen legacy_retry_state_record
    set_entry latest_operation_attempt compare_attempts of_operation migrated_json issue_of
    retry_state_record_schema replayable_retry_state_record_schema retry_decision_schema
    completed_retry_state_record_schema retry_error_schema error_json action_named state_phase_named
    first_by parse_issue
program = tt

abbrev fine : WriteFaults
fine = record { mkdir = none; write = none; rename = none }

abbrev full_disk : WriteFaults
full_disk = record { mkdir = none; write = some (error "ENOSPC"); rename = none }

abbrev calls : List (WriteFaults × Command RetryScheduleRecord)
calls =
    (fine, put (schedule "a"))
    ∷ (full_disk, put (schedule "b"))
    ∷ (fine, delete "a")
    ∷ (fine, put (schedule "c"))
    ∷ []

empty-Represents : Represents host (schedules host) "run" missing (λ k. none)
unfolding program
empty-Represents = record { records = []; listed = refl; agrees = λ k. refl }

replay-schedules-Represents_example :
    let (last, done) = replay host (schedules host) "run" calls missing in
    Represents host (schedules host) "run" last (apply_all (λ r. r.operation_id) done (λ k. none))
replay-schedules-Represents_example =
    replay-schedules-Represents host "run" calls missing (λ k. none) (λ rs. refl) empty-Represents

abbrev one_schedule : File Json
one_schedule = holds (Json.array (items_of (schedule_json (schedule "a") ∷ [])))

list_one : list_schedules host "run" one_schedule ≡ ok (schedule "a" ∷ [])
unfolding program
list_one = refl

upsert_schedule-ok_iff_example :
    ((upsert_schedule host fine "run" (schedule "b") one_schedule).1 ≡ ok (schedule "b"))
    ↔ (schedule_ok is_nonempty (schedule "b") ≡ true)
upsert_schedule-ok_iff_example =
    upsert_schedule-ok_iff host "run" one_schedule (schedule "a" ∷ []) (schedule "b") list_one

abbrev clock : Dates
clock = record { parse = λ s. some 7; to_iso = λ n. "then" }

due_one : due_schedules host clock "run" "now" one_schedule ≡ ok (schedule "a" ∷ [])
unfolding program
due_one = refl

due_schedules_iff_example : Memᴰ (schedule "a") (schedule "a" ∷ []) ↔ (
    Memᴰ (schedule "a") (schedule "a" ∷ [])
    × ((ms : ℕ) × (◌≡◌ {A = Option ℕ} (some 7) (some ms)) × (ms ≤ 7)))
due_schedules_iff_example =
    due_schedules_iff host clock "run" "now" one_schedule (schedule "a" ∷ []) (schedule "a" ∷ []) 7
      (schedule "a") refl list_one due_one

-- A record of an earlier version.
abbrev legacy_fields : String → Fields
legacy_fields operation_id = field "operation_id" (string operation_id) (
    field "node_run_id" (string "n1") (
      field "phase" (string "blocked") (
        field "reason_code" (string "time_budget_exhausted") (
          field "decision"
            (object (
              field "action" (string "require_attention") (
                field "reason_code" (string "time_budget_exhausted") (
                  field "operation_id" (string operation_id)
                    (field "budget_snapshot" (snapshot_json (schedule "a").budget_snapshot) end)))))
            (field "updated_at" (string "before") end)))))

abbrev legacy_files : StateFiles Json
legacy_files = record {
  state =
      holds (Json.array (items_of (object (legacy_fields "a") ∷ object (legacy_fields "b") ∷ [])));
  issues = missing;
}

-- The attempt of the first of them.
abbrev attempt : NodeAttempt
attempt = record {
  attempt_id = "a1";
  node_run_id = "n1";
  operation_id = "a";
  attempt_number = none;
  attempt_kind = none;
  status = AttemptStatus.failed;
  provider_receipt = none;
  error = some (record { code = "rate_limit"; message = "slow"; recoverable = true });
  started_at = none;
  dispatched_at = none;
  created_at = none;
}

abbrev legacy : String → LegacyRetryStateRecord
legacy operation_id = record {
  fields = legacy_fields operation_id;
  operation_id = operation_id;
  node_run_id = "n1";
}

abbrev settled : Settled
settled = (
  record {
    operation_id = "a";
    node_run_id = "n1";
    attempt_id = "a1";
    attempt_number = 1;
    reason_code = "time_budget_exhausted";
    effects_committed = Bool.false;
    updated_at = "before";
    state =
        replayable RetryStatePhase.blocked
          (record {
            action = RetryAction.require_attention;
            phase = none;
            reason_code = "time_budget_exhausted";
            operation_id = "a";
            next_attempt_number = none;
            delay_ms = none;
            scheduled_for = none;
            budget_snapshot = (schedule "a").budget_snapshot;
          })
          (record { code = "rate_limit"; message = "slow"; recoverable = true });
  }
      ∷ [],
  issue_of "now" (legacy "b") ∷ [],
)

migrated-legacy : migrated host clock "now" "run" (attempt ∷ []) legacy_files ≡ ok (settled, true)
unfolding program
migrated-legacy = refl

migrated-accounts_example :
    All
      (λ raw. (id : String) × (operation_of host raw ≡ some id) × (accounted id settled ≡ true))
      (object (legacy_fields "a") ∷ object (legacy_fields "b") ∷ [])
    × All {A = RetryStateMigrationIssue} (λ i. accounted i.operation_id settled ≡ true) []
unfolding program
migrated-accounts_example =
    migrated-accounts host clock "now" "run" (attempt ∷ []) legacy_files
      (object (legacy_fields "a") ∷ object (legacy_fields "b") ∷ []) [] settled true refl refl tt
      migrated-legacy
