-- ===== src/DraftStore/Transactions.antt =====
-- run-draft-store.ts: the lock of a draft, and the transaction that a method runs in. The disk is
-- the directory of the draft and the transaction directory; a call that stops half way leaves what
-- its first calls of the file system did.
use miracle_agent.Prelude.{
  ℕ, String, Bool, true, false, not, ◌&&◌, ◌||◌, Option, none, some, is_some, List, [], ◌∷◌, ◌++◌,
  ltb, leb, if◌then◌else◌, ◌+++◌, Error, Result, ok, throw,
}
use miracle_agent.Prelude.Actions.{Action, continue, returns, lift, ◌>>◌}
use miracle_agent.DraftStore.Files.{Files, store_error, no_entry}

-- `metadata` is the `existed` of metadata.json, if it is there and can be read.
pub record Disk : Type 0 where
  pub draft_dir : Option Files
  pub backup : Option Files
  pub metadata : Option Bool

-- One call of the file system. `work` stands for any write to the directory of the draft.
pub data Call : Type 0 where
  remove_draft restore copy_backup remove_metadata remove_backup : Call
  write_metadata : Bool → Call
  work : Option Files → Call

-- `cp(source, target, { recursive: true })` fails if the source is missing.
abbrev pub copy : Option Files → (Files → Disk) → Disk → Disk × Result (Unit {0})
copy none change d = (d, throw no_entry)
copy (some files) change d = (change files, ok tt)

unfoldable pub perform : Call → Action Disk (Unit {0})
perform Call.remove_draft d = (record d { draft_dir = none }, ok tt)
perform Call.restore d = copy d.backup (λ files. record d { draft_dir = some files }) d
perform Call.copy_backup d = copy d.draft_dir (λ files. record d { backup = some files }) d
perform Call.remove_metadata d = (record d { metadata = none }, ok tt)
perform Call.remove_backup d = (record d { backup = none }, ok tt)
perform (Call.write_metadata existed) d = (record d { metadata = some existed }, ok tt)
perform (Call.work files) d = (record d { draft_dir = files }, ok tt)

-- The calls up to the first one that fails.
unfoldable pub perform_all : List Call → Action Disk (Unit {0})
perform_all [] = returns tt
perform_all (c ∷ cs) = perform c >> perform_all cs

-- `rm` with `recursive` removes the two entries of the transaction directory in an order that it
-- does not promise.
pub data RemovalOrder : Type 0 where
  metadata_first backup_first : RemovalOrder

-- `rm(transactionDir, { recursive: true, force: true })`
unfoldable pub remove_transaction : RemovalOrder → List Call
remove_transaction metadata_first = Call.remove_metadata ∷ Call.remove_backup ∷ []
remove_transaction backup_first = Call.remove_backup ∷ Call.remove_metadata ∷ []

abbrev pub when_existed : Bool → Call → List Call
when_existed true call = call ∷ []
when_existed false call = []

-- `beginTransaction` after the recovery, for whether the directory exists.
unfoldable pub beginning : Bool → List Call
beginning existed = when_existed existed Call.copy_backup ++ Call.write_metadata existed ∷ []

-- What `recoverTransaction` does to the directory of the draft.
unfoldable pub undo : Bool → List Call
undo existed = Call.remove_draft ∷ when_existed existed Call.restore

module _ (order : RemovalOrder) where
  -- `recoverTransaction`, for what metadata.json holds.
  unfoldable pub recovery : Option Bool → List Call
  recovery none = remove_transaction order
  recovery (some existed) = undo existed ++ remove_transaction order

  unfoldable pub recover_transaction : Action Disk (Unit {0})
  recover_transaction d = perform_all (recovery d.metadata) d

  unfoldable pub begin_transaction : Action Disk (Unit {0})
  begin_transaction = recover_transaction >> λ d. perform_all (beginning (is_some d.draft_dir)) d

  -- The `try` of `withDraftLock`: the copy is dropped, or put back.
  unfoldable pub finish_transaction :
      {A : Type 0} → Disk → Option Files × Result A → Disk × Result A
  finish_transaction d (files, ok a) =
      continue (perform_all (remove_transaction order) (record d { draft_dir = files }))
        (λ done. returns a)
  finish_transaction d (files, throw e) =
      continue (recover_transaction (record d { draft_dir = files })) (λ done. lift (throw e))

  -- `withDraftLock`, once the lock is held.
  unfoldable pub with_draft_lock : {A : Type 0} → Action (Option Files) A → Action Disk A
  with_draft_lock operation d =
      continue (begin_transaction d)
        (λ done begun. finish_transaction begun (operation begun.draft_dir))

-- What one round of the loop for the lock sees.
pub record LockAttempt : Type 0 where
  pub made : Bool
  pub exists : Bool
  pub failure : Error
  pub owner_alive : Bool
  pub age_ms : ℕ
  pub now_ms : ℕ

pub data LockOutcome : Type 0 where
  acquired removed_stale wait : LockOutcome
  refused : Error → LockOutcome

unfoldable pub lock_round : (deadline : ℕ) (draft_id : String) → LockAttempt → LockOutcome
lock_round deadline draft_id a =
    if a.made
    then LockOutcome.acquired
    else if not a.exists
    then LockOutcome.refused a.failure
    else if not a.owner_alive && ltb 1000 a.age_ms || ltb 30000 a.age_ms
    then LockOutcome.removed_stale
    else if leb deadline a.now_ms
    then LockOutcome.refused
        (store_error "draft_lock_timeout" ("RunDraft lock timed out: " +++ draft_id))
    else LockOutcome.wait

-- The loop over what its rounds see; `none` means that it still waits.
unfoldable pub acquire_lock :
    (deadline : ℕ) (draft_id : String) → List LockAttempt → Option (Result (Unit {0}))
acquire_lock deadline draft_id [] = none
acquire_lock deadline draft_id (a ∷ more) = elim (lock_round deadline draft_id a) [
  | LockOutcome.acquired ↦ some (ok tt)
  | LockOutcome.refused e ↦ some (throw e)
  | LockOutcome.removed_stale ↦ acquire_lock deadline draft_id more
  | LockOutcome.wait ↦ acquire_lock deadline draft_id more
]
