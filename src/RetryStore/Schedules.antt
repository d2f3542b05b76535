-- ===== src/RetryStore/Schedules.antt =====
-- retry-store.ts: `RetryScheduleStore` and the methods of `RetryStateStore` that have the same form.
use miracle_agent.Prelude.{
  ℕ, String, Bool, false, Option, none, some, List, filter, leb, Result, ok, throw, error, ◌>>=◌,
}
use miracle_agent.Prelude.Dates.{Dates}
use miracle_agent.Prelude.Actions.{Action}
use miracle_agent.Types.{RetryScheduleRecord, RetryStateRecord}
use miracle_agent.Schemas.Stored.{
  retry_schedule_record_schema, retry_state_record_schema, schedule_json, state_json,
}
use miracle_agent.RetryStore.Files.{File, Host, Kind, list_records}
use miracle_agent.RetryStore.Writes.{WriteFaults, upsert_record, remove_record}

-- `Date.parse(text) <= limit`, which is false where the text is no date.
abbrev pub parsed_until : Option ℕ → ℕ → Bool
parsed_until none limit = false
parsed_until (some ms) limit = leb ms limit

abbrev pub valid_instant : Option ℕ → Result ℕ
valid_instant none = throw (error "now must be a valid timestamp")
valid_instant (some ms) = ok ms

module _ {Text : Type 0} (host : Host Text) where
  abbrev pub schedules : Kind RetryScheduleRecord
  schedules = record {
    schema = retry_schedule_record_schema host.is_datetime;
    to_json = schedule_json;
    operation_id = λ r. r.operation_id;
    not_array = "retry_schedule.json must contain an array";
    duplicates = "retry_schedule.json contains duplicate active operation schedules";
  }

  unfoldable pub list_schedules : String → File Text → Result (List RetryScheduleRecord)
  list_schedules run_id file = list_records host schedules run_id file

  unfoldable pub upsert_schedule :
      WriteFaults → String → RetryScheduleRecord → Action (File Text) RetryScheduleRecord
  upsert_schedule faults run_id item = upsert_record host schedules faults run_id item

  unfoldable pub remove_schedule : WriteFaults → String → String → Action (File Text) (Unit {0})
  remove_schedule faults run_id operation_id =
      remove_record host schedules faults run_id operation_id

  -- `due`
  unfoldable pub due_schedules :
      Dates → String → (now : String) → File Text → Result (List RetryScheduleRecord)
  due_schedules dates run_id now file = do
    now_ms ← valid_instant (dates.parse now)
    records ← list_schedules run_id file
    ok (filter (λ r. parsed_until (dates.parse r.scheduled_for) now_ms) records)

  abbrev pub states : Kind RetryStateRecord
  states = record {
    schema = retry_state_record_schema host.is_datetime;
    to_json = state_json;
    operation_id = λ r. r.operation_id;
    not_array = "retry_state.json must contain an array";
    duplicates = "retry_state.json contains duplicate operations";
  }

  unfoldable pub list_states : String → File Text → Result (List RetryStateRecord)
  list_states run_id file = list_records host states run_id file

  unfoldable pub upsert_state :
      WriteFaults → String → RetryStateRecord → Action (File Text) RetryStateRecord
  upsert_state faults run_id item = upsert_record host states faults run_id item

  unfoldable pub remove_state : WriteFaults → String → String → Action (File Text) (Unit {0})
  remove_state faults run_id operation_id = remove_record host states faults run_id operation_id
