-- ===== src/RetryStore/Effects.antt =====
-- retry-store.ts: what a write does to the file, for both stores.
use miracle_agent.Prelude.{
  String, true, List, [], ◌∷◌, ◌++◌, map, length, ◌==◌, nat_eq, string_eq, Error, Result, ok, throw,
  ◌≡◌, refl, subst, ◌⊎◌, inl, inr, All, Bool-cases, nat_beq_iff, Option-cases, Result-cases,
}
use miracle_agent.Prelude.Json.{Json}
use miracle_agent.Schemas.Values.{elements, items_of}
use miracle_agent.RetryStore.Files.{
  File, holds, Host, Kind, map_ok, check_run_id, read_values, parse_records, list_records,
  all_distinct,
}
use miracle_agent.RetryStore.Writes.{
  WriteFaults, write_atomically, records_json, upsert_record, remove_record,
}
use miracle_agent.RetryStore.Distinct.{nodup, all_distinct_lem, without, filter_same}

-- What the schema of a kind makes of its own records: a record that it accepts it reads back, and
-- every record that it read it accepts.
pub record IsStable {R : Type 0} (kind : Kind R) : Type 0 where
  pub reads_back : (r p : R) → kind.schema (kind.to_json r) ≡ ok p → p ≡ r
  pub accepts :
      (value : Json) (r : R) → kind.schema value ≡ ok r → kind.schema (kind.to_json r) ≡ ok r

elements-items : (vs : List Json) → elements (items_of vs) ≡ vs
elements-items [] = refl
elements-items (v ∷ vs) = rw (elements-items vs)

module _ {Text : Type 0} (host : Host Text) {R : Type 0} (kind : Kind R) where
  abbrev pub Accepted : R → Type 0
  Accepted r = kind.schema (kind.to_json r) ≡ ok r

  map_ok-json : (rs : List R) → All Accepted rs → map_ok kind.schema (map kind.to_json rs) ≡ ok rs
  unfolding map_ok
  map_ok-json [] h = refl
  map_ok-json (r ∷ rs) h = rw (h.0, map_ok-json rs h.1)

  parsed-Accepted :
      IsStable kind
      → (values : List Json) (rs : List R) → map_ok kind.schema values ≡ ok rs
      → All Accepted rs
  unfolding map_ok
  parsed-Accepted stable [] rs h = let e : [] ≡ rs = cc h in subst (All Accepted) e tt
  parsed-Accepted stable (v ∷ vs) rs h = elim (Result-cases (kind.schema v)) [
    | inl (e, failed) ↦ cc (rw failed at h)
    | inr (r, parsed) ↦ elim (Result-cases (map_ok kind.schema vs)) [
      | inl (e, failed) ↦ cc (rw (parsed, failed) at h)
      | inr (rest, more) ↦
          let e : r ∷ rest ≡ rs = cc (rw (parsed, more) at h) in
          subst (All Accepted) e (stable.accepts v r parsed, parsed-Accepted stable vs rest more)
    ]
  ]

  parsed_lem :
      IsStable kind
      → (values : List Json) (rs : List R) → parse_records host kind values ≡ ok rs
      → All Accepted rs × (nodup (map kind.operation_id rs) ≡ true)
  unfolding parse_records
  parsed_lem stable values rs h = elim (Result-cases (map_ok kind.schema values)) [
    | inl (e, failed) ↦ cc (rw failed at h)
    | inr (all, parsed) ↦ elim (Bool-cases (all_distinct (map kind.operation_id all))) [
      | inr repeated ↦ cc (rw (parsed, repeated) at h)
      | inl distinct ↦
          let e : all ≡ rs = cc (rw (parsed, distinct) at h) in
          (
            subst (All Accepted) e (parsed-Accepted stable values all parsed),
            rw (← e, ← all_distinct_lem (map kind.operation_id all)) distinct,
          )
    ]
  ]

  module _ (run_id : String) where
    abbrev pub listing : File Text → Result (List R)
    listing file = list_records host kind run_id file

    -- The file that a write leaves.
    abbrev pub written : List R → File Text
    written rs = holds (host.stringify (records_json host kind rs))

    -- What a store reads are accepted records with different operation ids.
    pub listed-Accepted :
        IsStable kind
        → (file : File Text) (rs : List R) → listing file ≡ ok rs
        → All Accepted rs
          × (nodup (map kind.operation_id rs) ≡ true)
          × (check_run_id host run_id ≡ ok tt)
    unfolding list_records
    listed-Accepted stable file rs h = elim (Result-cases (check_run_id host run_id)) [
      | inl (e, failed) ↦ cc (rw failed at h)
      | inr (_, run) ↦ elim (Result-cases (read_values host kind.not_array file)) [
        | inl (e, failed) ↦ cc (rw (run, failed) at h)
        | inr (values, found) ↦
            let g = rw (run, found) at h in
            let (valid, distinct) = parsed_lem stable values rs g in (valid, distinct, run)
      ]
    ]

    -- What was written is read back.
    pub listing-written :
        ((rs : List R)
          → host.parse (host.stringify (records_json host kind rs))
            ≡ ok (records_json host kind rs))
        → (rs : List R) → All Accepted rs
        → nodup (map kind.operation_id rs) ≡ true
        → check_run_id host run_id ≡ ok tt
        → listing (written rs) ≡ ok rs
    unfolding list_records read_values parse_records
    listing-written same rs valid distinct run = rw (
      run,
      same rs,
      elements-items (map kind.to_json rs),
      map_ok-json rs valid,
      all_distinct_lem (map kind.operation_id rs),
      distinct,
    )

    -- A write that ends well, and one that fails.
    pub write_atomically-cases :
        (faults : WriteFaults) (value : Json) (file : File Text)
        → ((e : Error) × (write_atomically host faults value file ≡ (file, throw e)))
          ⊎ (write_atomically host faults value file ≡ (holds (host.stringify value), ok tt))
    unfolding write_atomically
    write_atomically-cases faults value file = elim (Option-cases faults.mkdir) [
      | inr (e, failed) ↦ inl (e, rw failed)
      | inl made ↦ elim (Option-cases faults.write) [
        | inr (e, failed) ↦ inl (e, rw (made, failed))
        | inl saved ↦ elim (Option-cases faults.rename) [
          | inr (e, failed) ↦ inl (e, rw (made, saved, failed))
          | inl moved ↦ inr (rw (made, saved, moved))
        ]
      ]
    ]

    -- `upsert` either throws and leaves the file, or it keeps the other records and puts this one
    -- last.
    pub upsert_record-cases :
        IsStable kind
        → (faults : WriteFaults) (item : R) (file : File Text)
        → ((e : Error) × (upsert_record host kind faults run_id item file ≡ (file, throw e)))
          ⊎ ((current : List R) × (listing file ≡ ok current)
              × Accepted item
              × (upsert_record host kind faults run_id item file ≡ (
                written (without kind.operation_id (kind.operation_id item) current ++ item ∷ []),
                ok item,
              )))
    unfolding upsert_record
    upsert_record-cases stable faults item file =
        elim (Result-cases (kind.schema (kind.to_json item))) [
          | inl (e, failed) ↦ inl (e, rw failed)
          | inr (parsed, valid) ↦
              let same = stable.reads_back item parsed valid in
              elim (Result-cases (listing file)) [
                | inl (e, failed) ↦ inl (e, rw (valid, failed))
                | inr (current, found) ↦
                    let next =
                      without kind.operation_id (kind.operation_id item) current ++ item ∷ [] in
                    elim (write_atomically-cases faults (records_json host kind next) file) [
                      | inl (e, failed) ↦ inl (e, rw (valid, same, found, failed))
                      | inr saved ↦
                          inr (current, found, rw same at valid, rw (valid, same, found, saved))
                    ]
              ]
        ]

    -- `remove` either throws and leaves the file, or it keeps the other records.
    pub remove_record-cases :
        (faults : WriteFaults) (operation_id : String) (file : File Text)
        → ((e : Error) × (remove_record host kind faults run_id operation_id file
              ≡ (file, throw e)))
          ⊎ ((current : List R) × (listing file ≡ ok current)
              × ((remove_record host kind faults run_id operation_id file ≡ (file, ok tt))
                    × (without kind.operation_id operation_id current ≡ current)
                  ⊎ (remove_record host kind faults run_id operation_id file
                      ≡ (written (without kind.operation_id operation_id current), ok tt))))
    unfolding remove_record
    remove_record-cases faults operation_id file = elim (Result-cases (listing file)) [
      | inl (e, failed) ↦ inl (e, rw failed)
      | inr (current, found) ↦
          let next = without kind.operation_id operation_id current in
          elim (Bool-cases (length next == length current)) [
            | inl same ↦ inr (
              current,
              found,
              inl (
                rw (found, same),
                filter_same kind.operation_id _ current ((nat_beq_iff _ _).0 same),
              ),
            )
            | inr fewer ↦ elim (write_atomically-cases faults (records_json host kind next) file) [
              | inl (e, failed) ↦ inl (e, rw (found, fewer, failed))
              | inr saved ↦ inr (current, found, inr (rw (found, fewer, saved)))
            ]
          ]
    ]
