-- ===== src/RetryStore/Migrate.antt =====
-- retry-store.ts: `migrationIssues`, `requiresMigration` and `migrateLegacy`.
use miracle_agent.Prelude.{
  String, Bool, true, false, not, ◌||◌, none, some, List, [], ◌∷◌, ◌++◌, map, any, ◌==◌, nat_eq,
  string_eq, if◌then◌else◌, Result, ok, throw, error, guard, ◌>>=◌, ◌>>◌,
}
use miracle_agent.Prelude.Json.{Json}
use miracle_agent.Prelude.Dates.{Dates}
use miracle_agent.Types.{NodeAttempt, RetryStateRecord}
use miracle_agent.Schemas.Stored.{retry_state_record_schema}
use miracle_agent.RetryStore.Files.{File, Host, map_ok, check_run_id, read_values, all_distinct}
use miracle_agent.RetryStore.Migration.{
  RetryStateMigrationIssue, Legacies, legacy_retry_state_record, set_entry,
  latest_operation_attempt, parse_issue, migrated_json, attempt_facts, issue_of,
}

-- `retry_state.json` and `retry_state_migration_blocked.json` of a run.
pub record StateFiles (Text : Type 0) : Type 0 where
  pub state : File Text
  pub issues : File Text

abbrev pub Sorted : Type 0
Sorted = List RetryStateRecord × Legacies

abbrev pub Settled : Type 0
Settled = List RetryStateRecord × List RetryStateMigrationIssue

abbrev pub is_ok {ℓ} : {A : Type ℓ} → Result A → Bool
is_ok (ok a) = true
is_ok (throw e) = false

abbrev pub is_cons {ℓ} : {A : Type ℓ} → List A → Bool
is_cons [] = false
is_cons (x ∷ xs) = true

abbrev pub issues_not_array : String
issues_not_array = "retry_state_migration_blocked.json must contain an array"

module _ {Text : Type 0} (host : Host Text) where
  abbrev pub state_schema : Json → Result RetryStateRecord
  state_schema = retry_state_record_schema host.is_datetime

  -- `migrationIssues`
  unfoldable pub migration_issues : String → File Text → Result (List RetryStateMigrationIssue)
  migration_issues run_id file = do
    check_run_id host run_id
    values ← read_values host issues_not_array file
    map_ok (parse_issue host.as_text) values

  abbrev pub state_values : String → File Text → Result (List Json)
  state_values run_id file = do
    check_run_id host run_id
    read_values host "retry_state.json must contain an array" file

  -- `requiresMigration`
  unfoldable pub requires_migration : String → StateFiles Text → Result Bool
  requires_migration run_id files = do
    values ← state_values run_id files.state
    if any (λ v. not (is_ok (state_schema v))) values
        then ok true
        else (migration_issues run_id files.issues >>= λ issues. ok (is_cons issues))

  -- The first loop: the current records, and the last legacy record of each operation.
  unfoldable pub sort_out : Sorted → List Json → Result Sorted
  sort_out sorted [] = ok sorted
  sort_out (records, legacies) (raw ∷ raws) = elim (state_schema raw) [
    | ok record' ↦ sort_out (records ++ record' ∷ [], legacies) raws
    | throw e ↦ elim (legacy_retry_state_record host.as_text (some raw)) [
      | none ↦ throw e
      | some legacy ↦ sort_out (records, set_entry legacy.operation_id legacy legacies) raws
    ]
  ]

  -- The second loop: the legacy records of earlier issues.
  unfoldable pub reopen :
      List RetryStateRecord → List RetryStateMigrationIssue → Legacies → Legacies
  reopen records [] legacies = legacies
  reopen records (issue ∷ issues) legacies =
      let known = any (λ r. r.operation_id == issue.operation_id) records in
      reopen records issues
        (if known then legacies else set_entry issue.operation_id issue.legacy_record legacies)

  -- The third loop: each legacy record becomes a current one or an issue.
  unfoldable pub settle : Dates → String → List NodeAttempt → Settled → Legacies → Result Settled
  settle dates now attempts settled [] = ok settled
  settle dates now attempts (records, issues) ((key, legacy) ∷ legacies) =
      elim (attempt_facts (latest_operation_attempt dates attempts legacy)) [
        | none ↦ settle dates now attempts (records, issues ++ issue_of now legacy ∷ []) legacies
        | some (attempt_id, attempt_number, e) ↦
            elim (state_schema (migrated_json legacy attempt_id attempt_number e)) [
              | throw x ↦ throw x
              | ok migrated ↦ settle dates now attempts (records ++ migrated ∷ [], issues) legacies
            ]
      ]

  -- `migrateLegacy` up to the writes: what it returns, and whether it writes.
  unfoldable pub migrated :
      Dates → String → String → List NodeAttempt → StateFiles Text → Result (Settled × Bool)
  migrated dates now run_id attempts files = do
    raws ← state_values run_id files.state
    existing ← migration_issues run_id files.issues
    sorted ← sort_out ([], []) raws
    settled ← settle dates now attempts (sorted.0, []) (reopen sorted.0 existing sorted.1)
    guard (all_distinct (map (λ r. r.operation_id) settled.0))
        (error "retry_state.json contains duplicate operations")
    ok (settled, is_cons existing || any (λ v. not (is_ok (state_schema v))) raws)
