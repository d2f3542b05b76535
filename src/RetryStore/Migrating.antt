-- ===== src/RetryStore/Migrating.antt =====
-- retry-store.ts: the writes of `migrateLegacy`.
use miracle_agent.Prelude.{String, List, map, if◌then◌else◌}
use miracle_agent.Prelude.Json.{Json, array}
use miracle_agent.Prelude.Dates.{Dates}
use miracle_agent.Prelude.Actions.{Action, reads, returns, ◌>>=◌, ◌>>◌}
use miracle_agent.Types.{NodeAttempt}
use miracle_agent.Schemas.Values.{items_of}
use miracle_agent.RetryStore.Files.{File, Host}
use miracle_agent.RetryStore.Writes.{WriteFaults, write_atomically, records_json}
use miracle_agent.RetryStore.Schedules.{states}
use miracle_agent.RetryStore.Migration.{RetryStateMigrationIssue, issue_json}
use miracle_agent.RetryStore.Migrate.{StateFiles, Settled, migrated}

-- An action on one of the two files.
abbrev on_state : {Text : Type 0} {A : Type 0} → Action (File Text) A → Action (StateFiles Text) A
on_state write files = let out = write files.state in (record files { state = out.0 }, out.1)

abbrev on_issues : {Text : Type 0} {A : Type 0} → Action (File Text) A → Action (StateFiles Text) A
on_issues write files = let out = write files.issues in (record files { issues = out.0 }, out.1)

module _ {Text : Type 0} (host : Host Text) where
  abbrev pub issues_json : List RetryStateMigrationIssue → Json
  issues_json issues = array (items_of (map issue_json issues))

  -- `migrateLegacy`: the issues are written before the records.
  unfoldable pub migrate_legacy :
      WriteFaults
      → WriteFaults
      → Dates
      → (now run_id : String) → List NodeAttempt
      → Action (StateFiles Text) Settled
  migrate_legacy issue_faults state_faults dates now run_id attempts = do
    (settled, required) ← reads (migrated host dates now run_id attempts)
    if required
        then (on_issues (write_atomically host issue_faults (issues_json settled.1))
            >> on_state
                (write_atomically host state_faults (records_json host (states host) settled.0))
            >> returns settled)
        else returns settled
