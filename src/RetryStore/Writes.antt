-- ===== src/RetryStore/Writes.antt =====
-- retry-store.ts: the methods that write a file, which return what it then holds with the answer.
use miracle_agent.Prelude.{
  String, Bool, not, Option, none, some, List, [], ◌∷◌, ◌++◌, map, length, filter, ◌==◌, nat_eq,
  string_eq, if◌then◌else◌, Error, ok, throw,
}
use miracle_agent.Prelude.Json.{Json, array}
use miracle_agent.Prelude.Actions.{Action, lift, reads, returns, ◌>>=◌, ◌>>◌}
use miracle_agent.Schemas.Values.{items_of}
use miracle_agent.RetryStore.Files.{File, holds, Host, Kind, list_records}

-- The calls of the file system that fail in a write, if any.
pub record WriteFaults : Type 0 where
  pub mkdir : Option Error
  pub write : Option Error
  pub rename : Option Error

-- A call that may fail.
abbrev pub unless_fails : {S : Type 0} → Option Error → Action S (Unit {0})
unless_fails none s = (s, ok tt)
unless_fails (some e) s = (s, throw e)

module _ {Text : Type 0} (host : Host Text) where
  -- The temporary file is written first and then takes the place of the target. What is left of it
  -- is removed, and no method reads it.
  unfoldable pub write_atomically : WriteFaults → Json → Action (File Text) (Unit {0})
  write_atomically faults value = do
    unless_fails faults.mkdir
    unless_fails faults.write
    unless_fails faults.rename
    λ target. (holds (host.stringify value), ok tt)

  module _ {R : Type 0} (kind : Kind R) where
    abbrev pub other_than : String → R → Bool
    other_than operation_id item = not (kind.operation_id item == operation_id)

    abbrev pub records_json : List R → Json
    records_json records = array (items_of (map kind.to_json records))

    -- `upsert`
    unfoldable pub upsert_record : WriteFaults → String → R → Action (File Text) R
    upsert_record faults run_id item = do
      parsed ← lift (kind.schema (kind.to_json item))
      current ← reads (list_records host kind run_id)
      write_atomically faults
          (records_json (filter (other_than (kind.operation_id parsed)) current ++ parsed ∷ []))
      returns parsed

    -- `remove`
    unfoldable pub remove_record : WriteFaults → String → String → Action (File Text) (Unit {0})
    remove_record faults run_id operation_id = do
      current ← reads (list_records host kind run_id)
      let next = filter (other_than operation_id) current
      if length next == length current
          then returns tt
          else write_atomically faults (records_json next)
