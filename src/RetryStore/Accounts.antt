-- ===== src/RetryStore/Accounts.antt =====
-- retry-store.ts: what `migrateLegacy` returns accounts for every operation of the two files.
use miracle_agent.Prelude.{
  String, Bool, true, false, ◌||◌, some, List, [], ◌∷◌, ◌++◌, ◌==◌, string_eq, is_text, ok, ◌≡◌,
  refl, subst, inl, inr, All, arith, Bool-cases, Option-cases, Result-cases,
}
use miracle_agent.Prelude.Json.{Json}
use miracle_agent.Prelude.Dates.{Dates}
use miracle_agent.Types.{NodeAttempt, RetryStateRecord}
use miracle_agent.Prelude.Ensures.{
  Ensures, returned, thrown, Ensures-bind, Ensures-guard, Ensures-any, Ensures-ok,
}
use miracle_agent.Schemas.Values.{own}
use miracle_agent.RetryStore.Files.{File, Host, map_ok, check_run_id, read_values}
use miracle_agent.RetryStore.Migration.{
  RetryStateMigrationIssue, Legacies, latest_operation_attempt, migrated_json, attempt_facts,
  issue_of, parse_issue, fields_of, required_text, as_string, invalid_issue,
}
use miracle_agent.RetryStore.Migrate.{
  StateFiles, Settled, state_schema, state_values, migration_issues, sort_out, reopen, settle,
  migrated, issues_not_array,
}
use miracle_agent.RetryStore.Kept.{Named, migrated_json-operation_id}
use miracle_agent.RetryStore.Migrated.{
  has_record, has_entry, accounted, Keyed, operation_of, met, any-append_one, sort_out-met,
  Consistent-all, required_legacy-Named, reopen-met,
}

All-imp {ℓ κ} :
    {A : Type 0} {P : A → Type ℓ} {Q : A → Type κ}
    → ((x : A) → P x → Q x)
    → (xs : List A) → All P xs
    → All Q xs
All-imp f [] h = tt
All-imp f (x ∷ xs) h = (f x h.0, All-imp f xs h.1)

met_accounts :
    (id : String) (out : Settled) (records : List RetryStateRecord) (legacies : Legacies)
    → ((has_record id records || false) ≡ true → accounted id out ≡ true)
    → (has_entry id legacies ≡ true → accounted id out ≡ true)
    → (has_record id records || has_entry id legacies) ≡ true
    → accounted id out ≡ true
met_accounts id out records legacies stay done m = elim (Bool-cases (has_record id records)) [
  | inl here ↦ stay (rw here)
  | inr there ↦ done (rw there at m)
]

module _ {Text : Type 0} (host : Host Text) where
  settle-accounts :
      (dates : Dates) (now : String) (attempts : List NodeAttempt) (legacies : Legacies)
      (records : List RetryStateRecord) (issues : List RetryStateMigrationIssue) {out : Settled}
      → settle host dates now attempts (records, issues) legacies ≡ ok out
      → All Keyed legacies
      → ((id : String) → accounted id (records, issues) ≡ true → accounted id out ≡ true)
        × ((id : String) → has_entry id legacies ≡ true → accounted id out ≡ true)
  unfolding settle issue_of
  settle-accounts dates now attempts [] records issues {out} h keyed =
      let e : (records, issues) ≡ out = cc in
      (λ id m. subst (λ x. accounted id x ≡ true) e m, λ id m. cc)
  settle-accounts dates now attempts ((key, l) ∷ legacies) records issues {out} h keyed =
      elim (Option-cases (attempt_facts (latest_operation_attempt dates attempts l))) [
        | inl unknown ↦
            let (keep, rest) =
              settle-accounts dates now attempts legacies records (issues ++ issue_of now l ∷ [])
                {out = out} (rw (unknown, settle) at h) keyed.1 in
            let more = λ (id : String).
              any-append_one (λ (x : RetryStateMigrationIssue). x.operation_id == id) issues
                (issue_of now l) in
            (
              λ id m. keep id (ground (arith, more id)),
              λ id m. elim (Bool-cases (key == id)) [
                | inl here ↦
                    let f : (l.operation_id == id) ≡ true = rw (← keyed.0.0) here in
                    keep id (ground (arith, more id, f))
                | inr there ↦ rest id (rw there at m)
              ],
            )
        | inr ((attempt_id, n, e), facts) ↦
            elim (Result-cases (state_schema host (migrated_json l attempt_id n e))) [
              | inl (x, failed) ↦ cc (rw (facts, failed, settle) at h)
              | inr (r, parsed) ↦
                  let (keep, rest) =
                    settle-accounts dates now attempts legacies (records ++ r ∷ []) issues
                      {out = out} (rw (facts, parsed, settle) at h) keyed.1 in
                  let same =
                    migrated_json-operation_id host.is_datetime l attempt_id n e keyed.0.1 parsed in
                  let more = λ (id : String).
                    any-append_one (λ (x : RetryStateRecord). x.operation_id == id) records r in
                  (
                    λ id m. keep id (ground (arith, more id)),
                    λ id m. elim (Bool-cases (key == id)) [
                      | inl here ↦
                          let f : (r.operation_id == id) ≡ true = rw (same, ← keyed.0.0) here in
                          keep id (ground (arith, more id, f))
                      | inr there ↦ rest id (rw there at m)
                    ],
                  )
            ]
      ]

  parse_issue-Named : (v : Json) → Ensures (λ i. Named i.legacy_record) (parse_issue host.as_text v)
  unfolding parse_issue
  parse_issue-Named v = Ensures-bind _ (Ensures-any (fields_of v)) λ f _.
      Ensures-bind _ (Ensures-any (required_text (own "operation_id" f))) λ id _.
        Ensures-bind _ (Ensures-any (required_text (own "node_run_id" f))) λ node _.
          Ensures-guard (is_text (as_string (own "reason_code" f)) "retry_state_migration_failed")
            invalid_issue
            λ _. Ensures-bind _ (Ensures-any (required_text (own "message" f))) λ message _.
              Ensures-bind _ (Ensures-any (required_text (own "updated_at" f))) λ at _.
                Ensures-bind Named (required_legacy-Named host (own "legacy_record" f))
                  λ l named. returned _ named

  parse_issues-Named :
      (vs : List Json)
      → Ensures (All (λ i. Named i.legacy_record)) (map_ok (parse_issue host.as_text) vs)
  unfolding map_ok
  parse_issues-Named [] = returned [] tt
  parse_issues-Named (v ∷ vs) =
      Ensures-bind _ (parse_issue-Named v)
        λ i h. Ensures-bind _ (parse_issues-Named vs) λ is hs. returned (i ∷ is) (h, hs)

  migration_issues-Named :
      (run_id : String) (file : File Text)
      → Ensures (All (λ i. Named i.legacy_record)) (migration_issues host run_id file)
  unfolding migration_issues
  migration_issues-Named run_id file = elim (Result-cases (check_run_id host run_id)) [
    | inl (e, failed) ↦ rw failed (thrown e)
    | inr (_, run) ↦ rw run (
        Ensures-bind _ (Ensures-any (read_values host issues_not_array file))
          λ vs _. parse_issues-Named vs)
  ]

  -- A successful migration accounts for every operation: each raw record of the state file is a
  -- current or a legacy record, and its operation has a record or an issue afterwards, and so has the
  -- operation of every earlier issue. The earlier issues were written for their own records.
  pub migrated-accounts :
      (dates : Dates) (now run_id : String) (attempts : List NodeAttempt) (files : StateFiles Text)
      (raws : List Json) (existing : List RetryStateMigrationIssue) (out : Settled) (writes : Bool)
      → state_values host run_id files.state ≡ ok raws
      → migration_issues host run_id files.issues ≡ ok existing
      → All (λ i. i.operation_id ≡ i.legacy_record.operation_id) existing
      → migrated host dates now run_id attempts files ≡ ok (out, writes)
      → All
          (λ raw. (id : String) × (operation_of host raw ≡ some id) × (accounted id out ≡ true))
          raws
        × All (λ i. accounted i.operation_id out ≡ true) existing
  unfolding migrated
  migrated-accounts dates now run_id attempts files raws existing out writes found issues own h =
      elim (Result-cases (sort_out host ([], []) raws)) [
        | inl (e, failed) ↦ cc (rw (found, issues, failed) at h)
        | inr (sorted, first) ↦
            let (keyed, _, raw) = sort_out-met host raws [] [] {out = sorted} first tt in
            let again = reopen host sorted.0 existing sorted.1 in
            let (keyed', keep, known) =
              reopen-met host existing sorted.0 sorted.1 {out = again} refl
                (Consistent-all host existing own (
                  Ensures-ok {P = All (λ i. Named i.legacy_record)}
                    (migration_issues-Named run_id files.issues) issues))
                keyed in
            elim (Result-cases (settle host dates now attempts (sorted.0, []) again)) [
              | inl (e, failed) ↦ cc (rw (found, issues, first, failed) at h)
              | inr (settled, second) ↦
                  let (stay, done) =
                    settle-accounts dates now attempts again sorted.0 [] {out = settled} second
                      keyed' in
                  let e : settled ≡ out = ground arith in
                  let all = λ (id : String) (m : met host id (sorted.0, again) ≡ true).
                    subst (λ x. accounted id x ≡ true) e
                      (met_accounts id settled sorted.0 again (stay id) (done id) m) in
                  (
                    All-imp (λ x w. (w.0, w.1, all w.0 (keep w.0 w.2))) raws raw,
                    All-imp (λ i w. all i.operation_id w) existing known,
                  )
            ]
      ]
