-- ===== src/RetryStore/Migrated.antt =====
-- retry-store.ts: `migrateLegacy` accounts for every operation that the two files name.
use miracle_agent.Prelude.{
  String, Bool, true, ◌||◌, Option, none, some, List, [], ◌∷◌, ◌++◌, any, ◌==◌, string_eq, ok,
  throw, ◌≡◌, refl, ◌∙◌, subst, inl, inr, All, arith, eq_iff, Bool-cases, Option-cases,
  Result-cases, ==_refl,
}
use miracle_agent.Prelude.Json.{Json}
use miracle_agent.Types.{RetryStateRecord}
use miracle_agent.Prelude.Ensures.{Ensures, returned, thrown}
use miracle_agent.RetryStore.Files.{Host}
use miracle_agent.RetryStore.Migration.{
  LegacyRetryStateRecord, RetryStateMigrationIssue, Legacies, legacy_retry_state_record, set_entry,
  required_legacy, invalid_legacy,
}
use miracle_agent.RetryStore.Migrate.{Sorted, Settled, state_schema, sort_out, reopen}
use miracle_agent.RetryStore.Kept.{Named, legacy_retry_state_record-Named}

abbrev pub has_record : String → List RetryStateRecord → Bool
has_record id records = any (λ r. r.operation_id == id) records

abbrev pub has_issue : String → List RetryStateMigrationIssue → Bool
has_issue id issues = any (λ i. i.operation_id == id) issues

abbrev pub has_entry : String → Legacies → Bool
has_entry id legacies = any (λ e. e.0 == id) legacies

-- The operation has a record or an issue.
abbrev pub accounted : String → Settled → Bool
accounted id (records, issues) = has_record id records || has_issue id issues

-- Each entry stands under the operation of its record.
abbrev pub Keyed : String × LegacyRetryStateRecord → Type 0
Keyed e = (e.0 ≡ e.1.operation_id) × Named e.1

pub any-append_one :
    {A : Type 0} (p : A → Bool) (xs : List A) (x : A) → any p (xs ++ x ∷ []) ≡ (any p xs || p x)
any-append_one p [] x = ground arith
any-append_one p (y ∷ ys) x = ground (arith, any-append_one p ys x)

has_entry-set_entry :
    (id key : String) (l : LegacyRetryStateRecord) (legacies : Legacies)
    → has_entry id (set_entry key l legacies) ≡ (key == id || has_entry id legacies)
unfolding set_entry
has_entry-set_entry id key l [] = ground arith
has_entry-set_entry id key l ((k, w) ∷ legacies) =
    ground (arith, has_entry-set_entry id key l legacies, eq_iff k key, eq_iff k id, eq_iff key id)

set_entry-Keyed :
    (key : String) (l : LegacyRetryStateRecord) (legacies : Legacies)
    → Keyed (key, l)
    → All Keyed legacies
    → All Keyed (set_entry key l legacies)
unfolding set_entry
set_entry-Keyed key l [] k h = (k, tt)
set_entry-Keyed key l ((j, w) ∷ legacies) k h = elim (Bool-cases (j == key)) [
  | inl same ↦ rw same (((eq_iff j key).0 same ∙ k.0, k.1), h.1)
  | inr other ↦ rw other (h.0, set_entry-Keyed key l legacies k h.1)
]

module _ {Text : Type 0} (host : Host Text) where
  -- What the first loop makes of a raw record.
  abbrev pub operation_of : Json → Option String
  operation_of raw = elim (state_schema host raw) [
    | ok r ↦ some r.operation_id
    | throw e ↦ elim (legacy_retry_state_record host.as_text (some raw)) [
      | none ↦ none
      | some l ↦ some l.operation_id
    ]
  ]

  -- An operation that the first loop has met.
  abbrev pub met : String → Sorted → Bool
  met id (records, legacies) = has_record id records || has_entry id legacies

  pub sort_out-met :
      (raws : List Json) (records : List RetryStateRecord) (legacies : Legacies) {out : Sorted}
      → sort_out host (records, legacies) raws ≡ ok out
      → All Keyed legacies
      → All Keyed out.1
        × ((id : String) → met id (records, legacies) ≡ true → met id out ≡ true)
        × All (λ raw. (id : String) × (operation_of raw ≡ some id) × (met id out ≡ true)) raws
  unfolding sort_out
  sort_out-met [] records legacies {out} h keyed =
      let e : (records, legacies) ≡ out = cc in
      (subst (λ x. All Keyed x.1) e keyed, λ id m. subst (λ x. met id x ≡ true) e m, tt)
  sort_out-met (raw ∷ raws) records legacies {out} h keyed =
      elim (Result-cases (state_schema host raw)) [
        | inr (r, parsed) ↦
            let (k, keep, rest) =
              sort_out-met raws (records ++ r ∷ []) legacies {out = out}
                (rw (parsed, sort_out) at h) keyed in
            (
              k,
              λ id m. keep id (
                  ground (
                    arith,
                    any-append_one (λ (x : RetryStateRecord). x.operation_id == id) records r,
                  )),
              (
                (
                  r.operation_id,
                  rw (parsed, operation_of),
                  keep r.operation_id (
                      ground (
                        arith,
                        any-append_one (λ (x : RetryStateRecord). x.operation_id == r.operation_id)
                            records r,
                        ==_refl r.operation_id,
                      )),
                ),
                rest,
              ),
            )
        | inl (e, failed) ↦
            elim (Option-cases (legacy_retry_state_record host.as_text (some raw))) [
              | inl absent ↦ cc (rw (failed, absent, sort_out) at h)
              | inr (l, found) ↦
                  let named = legacy_retry_state_record-Named host.as_text (some raw) found in
                  let (k, keep, rest) =
                    sort_out-met raws records (set_entry l.operation_id l legacies) {out = out}
                      (rw (failed, found, sort_out) at h)
                      (set_entry-Keyed l.operation_id l legacies (refl, named) keyed) in
                  (
                    k,
                    λ id m.
                        keep id (ground (arith, has_entry-set_entry id l.operation_id l legacies)),
                    (
                      (
                        l.operation_id,
                        rw (failed, found, operation_of),
                        keep l.operation_id (
                            ground (
                              arith,
                              has_entry-set_entry l.operation_id l.operation_id l legacies,
                              ==_refl l.operation_id,
                            )),
                      ),
                      rest,
                    ),
                  )
            ]
      ]

  -- An earlier issue that was written for its own record.
  abbrev pub Consistent : RetryStateMigrationIssue → Type 0
  Consistent i = (i.operation_id ≡ i.legacy_record.operation_id) × Named i.legacy_record

  pub Consistent-all :
      (issues : List RetryStateMigrationIssue)
      → All (λ i. i.operation_id ≡ i.legacy_record.operation_id) issues
      → All (λ i. Named i.legacy_record) issues
      → All Consistent issues
  Consistent-all [] h k = tt
  Consistent-all (i ∷ is) h k = ((h.0, k.0), Consistent-all is h.1 k.1)

  pub required_legacy-Named :
      (v : Option Json) → Ensures Named (required_legacy (legacy_retry_state_record host.as_text v))
  required_legacy-Named v = elim (Option-cases (legacy_retry_state_record host.as_text v)) [
    | inl absent ↦ rw absent (thrown invalid_legacy)
    | inr (l, found) ↦ rw found (returned l (legacy_retry_state_record-Named host.as_text v found))
  ]

  pub reopen-met :
      (issues : List RetryStateMigrationIssue) (records : List RetryStateRecord)
      (legacies : Legacies) {out : Legacies}
      → reopen host records issues legacies ≡ out
      → All Consistent issues
      → All Keyed legacies
      → All Keyed out
        × ((id : String) → met id (records, legacies) ≡ true → met id (records, out) ≡ true)
        × All (λ i. met i.operation_id (records, out) ≡ true) issues
  unfolding reopen
  reopen-met [] records legacies {out} h c keyed =
      (subst (All Keyed) h keyed, λ id m. subst (λ x. met id (records, x) ≡ true) h m, tt)
  reopen-met (i ∷ issues) records legacies {out} h c keyed =
      elim (Bool-cases (has_record i.operation_id records)) [
        | inl known ↦
            let (k, keep, rest) =
              reopen-met issues records legacies {out = out} (rw known at h) c.1 keyed in
            (k, keep, (keep i.operation_id (ground arith), rest))
        | inr new ↦
            let id = i.operation_id in
            let next = set_entry id i.legacy_record legacies in
            let entry = λ (j : String). has_entry-set_entry j id i.legacy_record legacies in
            let (k, keep, rest) =
              reopen-met issues records next {out = out} (rw new at h) c.1
                (set_entry-Keyed id i.legacy_record legacies c.0 keyed) in
            (
              k,
              λ j m. keep j (ground (arith, entry j)),
              (keep id (ground (arith, entry id, ==_refl id)), rest),
            )
      ]
