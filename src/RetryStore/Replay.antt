-- ===== src/RetryStore/Replay.antt =====
-- retry-store.ts: a store as a finite map from operation ids to records, whatever calls fail.
use miracle_agent.Prelude.{
  String, Bool, not, Option, none, some, List, [], ◌∷◌, ◌++◌, ◌==◌, string_eq, if◌then◌else◌,
  Result, ok, throw, ◌≡◌, sym, ◌∙◌, ap, inl, inr, Bool-cases,
}
use miracle_agent.RetryStore.Files.{File, Host, Kind}
use miracle_agent.RetryStore.Writes.{WriteFaults, records_json, upsert_record, remove_record}
use miracle_agent.RetryStore.Distinct.{
  nodup-filter, nodup-upsert, without, record_of, record_of-upsert, record_of-without, All-without,
  All-snoc,
}
use miracle_agent.RetryStore.Effects.{
  IsStable, Accepted, listing, listed-Accepted, listing-written, upsert_record-cases,
  remove_record-cases,
}

-- A call of a store that changes it.
pub data Command (R : Type 0) : Type 0 where
  put : R → Command R
  delete : String → Command R

-- The finite map that a store stands for, and what a call does to it.
abbrev pub Table : Type 0 → Type 0
Table R = String → Option R

unfoldable pub apply : {R : Type 0} → (R → String) → Command R → Table R → Table R
apply id (put r) table k = if id r == k then some r else table k
apply id (delete j) table k = if j == k then none else table k

unfoldable pub apply_all : {R : Type 0} → (R → String) → List (Command R) → Table R → Table R
apply_all id [] table = table
apply_all id (c ∷ cs) table = apply_all id cs (apply id c table)

abbrev pub answered : {S : Type 0} {A : Type 0} → S × Result A → Bool
answered (s, ok a) = Bool.true
answered (s, throw e) = Bool.false

module _ {Text : Type 0} (host : Host Text) {R : Type 0} (kind : Kind R) (run_id : String) where
  -- One call: the file after it, and whether it returned.
  unfoldable pub perform : WriteFaults × Command R → File Text → File Text × Bool
  perform (faults, put r) file =
      let out = upsert_record host kind faults run_id r file in (out.0, answered out)
  perform (faults, delete k) file =
      let out = remove_record host kind faults run_id k file in (out.0, answered out)

  -- The calls one after the other: the last file, and the calls that returned.
  unfoldable pub replay : List (WriteFaults × Command R) → File Text → File Text × List (Command R)
  replay [] file = (file, [])
  replay (call ∷ calls) file =
      let (next, done) = perform call file in
      let (last, rest) = replay calls next in (last, (if done then call.1 ∷ rest else rest))

  -- The file can be listed, and its records are those of the map.
  pub record Represents (file : File Text) (table : Table R) : Type 0 where
    pub records : List R
    pub listed : listing host kind run_id file ≡ ok records
    pub agrees : (k : String) → record_of kind.operation_id k records ≡ table k

  module _ (stable : IsStable kind)
      (same : (rs : List R)
        → host.parse (host.stringify (records_json host kind rs))
          ≡ ok (records_json host kind rs)) where
    put-Represents :
        (faults : WriteFaults) (r : R) (file : File Text) (table : Table R)
        → Represents file table
        → let (next, done) = perform (faults, put r) file in
          Represents next (if done then apply kind.operation_id (put r) table else table)
    unfolding perform apply
    put-Represents faults r file table rep =
        elim (upsert_record-cases host kind run_id stable faults r file) [
          | inl (e, failed) ↦ rw failed rep
          | inr (current, found, valid, done) ↦
              let (all, distinct, run) =
                listed-Accepted host kind run_id stable file current found in
              let id = kind.operation_id in
              let e : current ≡ rep.records = cc (found, rep.listed) in
              rw done (record {
                records = without id (id r) current ++ r ∷ [];
                listed =
                    listing-written host kind run_id same _
                      (All-snoc (Accepted host kind) (without id (id r) current) r
                        (All-without id (Accepted host kind) (id r) current all) valid)
                      (nodup-upsert id current r distinct) run;
                agrees = λ k. rw (record_of-upsert id k current r, e, rep.agrees k);
              })
        ]

    delete-Represents :
        (faults : WriteFaults) (j : String) (file : File Text) (table : Table R)
        → Represents file table
        → let (next, done) = perform (faults, delete j) file in
          Represents next (if done then apply kind.operation_id (delete j) table else table)
    unfolding perform apply
    delete-Represents faults j file table rep =
        elim (remove_record-cases host kind run_id faults j file) [
          | inl (e, failed) ↦ rw failed rep
          | inr (current, found, effect) ↦
              let (all, distinct, run) =
                listed-Accepted host kind run_id stable file current found in
              let id = kind.operation_id in
              let e : current ≡ rep.records = cc (found, rep.listed) in
              let agrees = λ (k : String).
                record_of-without id j k current
                ∙ ap (λ t. if j == k then none else t) (ap (record_of id k) e ∙ rep.agrees k) in
              elim effect [
                | inl (done, kept) ↦ rw done (record {
                  records = current;
                  listed = found;
                  agrees = λ k. ap (record_of id k) (sym kept) ∙ agrees k;
                })
                | inr done ↦ rw done (record {
                  records = without id j current;
                  listed =
                      listing-written host kind run_id same _
                        (All-without id (Accepted host kind) j current all)
                        (nodup-filter id (λ r. not (id r == j)) current distinct) run;
                  agrees = agrees;
                })
              ]
        ]

    perform-Represents :
        (faults : WriteFaults) (c : Command R) (file : File Text) (table : Table R)
        → Represents file table
        → let (next, done) = perform (faults, c) file in
          Represents next (if done then apply kind.operation_id c table else table)
    perform-Represents faults (put r) = put-Represents faults r
    perform-Represents faults (delete j) = delete-Represents faults j

    -- After any calls, with any failures, the file stands for the map that the calls that returned
    -- make of the first one.
    pub replay-Represents :
        (calls : List (WriteFaults × Command R)) (file : File Text) (table : Table R)
        → Represents file table
        → let (last, done) = replay calls file in
          Represents last (apply_all kind.operation_id done table)
    unfolding replay apply_all
    replay-Represents [] file table rep = rep
    replay-Represents ((faults, c) ∷ calls) file table rep =
        let next = perform-Represents faults c file table rep in
        elim (Bool-cases (perform (faults, c) file).1) [
          | inl done ↦ rw done (replay-Represents calls _ _ (rw done at next))
          | inr failed ↦ rw failed (replay-Represents calls _ _ (rw failed at next))
        ]
