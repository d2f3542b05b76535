-- ===== src/RetryStore/Laws.antt =====
-- retry-store.ts: what the store of scheduled retries promises.
use miracle_agent.Prelude.{
  ℕ, ◌≤◌, String, Bool, true, Option, none, some, List, ok, ◌≡◌, refl, sym, ◌∙◌, ◌↔◌, Memᴰ,
  filter-Memᴰ, Memᴰ-filter, filter, arith, Bool-cases, inl, inr,
}
use miracle_agent.Prelude.Dates.{Dates}
use miracle_agent.Types.{RetryScheduleRecord}
use miracle_agent.Schemas.RoundTrip.{
  schedule_ok, retry_schedule_record_schema-json, retry_state_record_schema-json, accepted_if,
}
use miracle_agent.Schemas.Accepted.{
  retry_schedule_record_schema-accepts, retry_state_record_schema-accepts,
}
use miracle_agent.RetryStore.Files.{File, Host}
use miracle_agent.RetryStore.Writes.{WriteFaults, records_json, upsert_record, write_atomically}
use miracle_agent.RetryStore.Schedules.{
  schedules, states, list_schedules, upsert_schedule, due_schedules, parsed_until,
}
use miracle_agent.RetryStore.Effects.{IsStable}
use miracle_agent.RetryStore.Replay.{
  Command, Table, Represents, replay, apply_all, replay-Represents,
}

accepted_if-eq-ok {ℓ} :
    {A : Type ℓ} (b : Bool) (x : A) {y : A} → accepted_if b x ≡ ok y → (y ≡ x) × (b ≡ true)
accepted_if-eq-ok b x h = ground arith

module _ {Text : Type 0} (host : Host Text) where
  pub schedules-IsStable : IsStable (schedules host)
  schedules-IsStable = record {
    reads_back = λ r p h.
        (accepted_if-eq-ok _ r (sym (retry_schedule_record_schema-json host.is_datetime r) ∙ h)).0;
    accepts = retry_schedule_record_schema-accepts host.is_datetime;
  }

  pub states-IsStable : IsStable (states host)
  states-IsStable = record {
    reads_back = λ r p h.
        (accepted_if-eq-ok _ r (sym (retry_state_record_schema-json host.is_datetime r) ∙ h)).0;
    accepts = retry_state_record_schema-accepts host.is_datetime;
  }

  -- The store of scheduled retries is a finite map. Whatever calls of the file system fail, after
  -- any upserts and removals the file lists the records of the map that the calls which returned
  -- make of the first map: an upsert that returned sets the record of its operation and no other, a
  -- removal that returned clears one, and a call that threw changed nothing. JSON.parse reads back
  -- the lists that JSON.stringify wrote.
  pub replay-schedules-Represents :
      (run_id : String) (calls : List (WriteFaults × Command RetryScheduleRecord))
      (file : File Text) (table : Table RetryScheduleRecord)
      → ((rs : List RetryScheduleRecord)
          → host.parse (host.stringify (records_json host (schedules host) rs))
            ≡ ok (records_json host (schedules host) rs))
      → Represents host (schedules host) run_id file table
      → let (last, done) = replay host (schedules host) run_id calls file in
        Represents host (schedules host) run_id last (apply_all (λ r. r.operation_id) done table)
  replay-schedules-Represents run_id calls file table same rep =
      replay-Represents host (schedules host) run_id schedules-IsStable same calls file table rep

  abbrev faultless : WriteFaults
  faultless = record { mkdir = none; write = none; rename = none }

  -- On a file that lists and with no failing call, an upsert returns exactly for the records within
  -- the bounds of the schema: no empty text, a second or later attempt, a timestamp and a valid
  -- budget.
  pub upsert_schedule-ok_iff :
      (run_id : String) (file : File Text) (current : List RetryScheduleRecord)
      (item : RetryScheduleRecord)
      → list_schedules host run_id file ≡ ok current
      → ((upsert_schedule host faultless run_id item file).1 ≡ ok item)
        ↔ (schedule_ok host.is_datetime item ≡ true)
  unfolding list_schedules upsert_schedule upsert_record write_atomically
  upsert_schedule-ok_iff run_id file current item h =
      rw (retry_schedule_record_schema-json host.is_datetime item) (
        (λ g. elim (Bool-cases (schedule_ok host.is_datetime item)) [
          | inl good ↦ good
          | inr bad ↦ cc (rw bad at g)
        ]),
        (λ g. rw (g, h)),
      )

  parsed_until_iff :
      (o : Option ℕ) (limit : ℕ)
      → (parsed_until o limit ≡ true) ↔ ((ms : ℕ) × (o ≡ some ms) × (ms ≤ limit))
  parsed_until_iff none limit = (λ h. cc, λ h. cc h.1)
  parsed_until_iff (some ms) limit =
      (λ h. (ms, refl, ground arith), λ h. let e : ms ≡ h.0 = cc h.1 in rw e (ground (arith, h.2)))

  -- The retries that are due are exactly the listed ones whose time is a date at or before now.
  pub due_schedules_iff :
      (dates : Dates) (run_id now : String) (file : File Text)
      (listed due : List RetryScheduleRecord) (now_ms : ℕ) (r : RetryScheduleRecord)
      → dates.parse now ≡ some now_ms
      → list_schedules host run_id file ≡ ok listed
      → due_schedules host dates run_id now file ≡ ok due
      → Memᴰ r due
        ↔ (Memᴰ r listed × ((ms : ℕ) × (dates.parse r.scheduled_for ≡ some ms) × (ms ≤ now_ms)))
  unfolding due_schedules
  due_schedules_iff dates run_id now file listed due now_ms r clock found answer =
      let p = λ (x : RetryScheduleRecord). parsed_until (dates.parse x.scheduled_for) now_ms in
      let e : due ≡ filter p listed = cc (rw (clock, found) at answer) in
      let same = parsed_until_iff (dates.parse r.scheduled_for) now_ms in
      rw e (
        λ m. let (k, h) = filter-Memᴰ p listed m in (k, same.0 h),
        λ m. Memᴰ-filter p listed m.0 (same.1 m.1),
      )
