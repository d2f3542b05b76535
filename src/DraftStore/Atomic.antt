-- ===== src/DraftStore/Atomic.antt =====
-- run-draft-store.ts: what a transaction makes of the disk, whole or stopped.
use miracle_agent.Prelude.{
  Bool, true, false, Option, none, some, Result, ok, throw, ◌≡◌, refl, sym, ◌∙◌, ap,
}
use miracle_agent.Prelude.Actions.{Action}
use miracle_agent.DraftStore.Files.{Files}
use miracle_agent.DraftStore.Transactions.{
  Disk, perform, perform_all, RemovalOrder, metadata_first, backup_first, remove_transaction,
  beginning, undo, recovery, recover_transaction, begin_transaction, finish_transaction,
  with_draft_lock,
}

-- No transaction is open.
abbrev pub clean : Option Files → Disk
clean dir = record { draft_dir = dir; backup = none; metadata = none }

-- A transaction has begun on the files.
abbrev pub prepared : Option Files → Disk
prepared none = record { draft_dir = none; backup = none; metadata = some false }
prepared (some f) = record { draft_dir = some f; backup = some f; metadata = some true }

-- The copy of the old files is complete.
abbrev pub IsPrepared : Option Files → Disk → Type 0
IsPrepared none d = d.metadata ≡ some false
IsPrepared (some f) d = (d.metadata ≡ some true) × (d.backup ≡ some f)

-- What a transaction makes of the old files and of the outcome of its operation.
abbrev pub settled : {A : Type 0} → Option Files → Option Files × Result A → Disk × Result A
settled old (files, ok a) = (clean files, ok a)
settled old (files, throw e) = (clean old, throw e)

pub recover-IsPrepared :
    (order : RemovalOrder) (old : Option Files) (d : Disk)
    → IsPrepared old d
    → recover_transaction order d ≡ (clean old, ok tt)
unfolding recover_transaction recovery undo perform_all perform remove_transaction
recover-IsPrepared metadata_first none d p = simp p
recover-IsPrepared backup_first none d p = simp p
recover-IsPrepared metadata_first (some f) d p = simp (p.0, p.1)
recover-IsPrepared backup_first (some f) d p = simp (p.0, p.1)

pub recover-no_metadata :
    (order : RemovalOrder) (d : Disk)
    → d.metadata ≡ none
    → recover_transaction order d ≡ (clean d.draft_dir, ok tt)
unfolding recover_transaction recovery perform_all perform remove_transaction
recover-no_metadata metadata_first d h = rw h refl
recover-no_metadata backup_first d h = rw h refl

begin-recovered :
    (order : RemovalOrder) (old : Option Files) (d : Disk)
    → recover_transaction order d ≡ (clean old, ok tt)
    → begin_transaction order d ≡ (prepared old, ok tt)
unfolding begin_transaction beginning perform_all perform
begin-recovered order none d h = rw h refl
begin-recovered order (some f) d h = rw h refl

prepared-IsPrepared :
    (old files : Option Files) → IsPrepared old (record (prepared old) { draft_dir = files })
prepared-IsPrepared none files = refl
prepared-IsPrepared (some f) files = (refl, refl)

pub finish-prepared :
    {A : Type 0} (order : RemovalOrder) (old : Option Files) (out : Option Files × Result A)
    → finish_transaction order (prepared old) out ≡ settled old out
unfolding finish_transaction perform_all perform remove_transaction
finish-prepared metadata_first old (files, ok a) = refl
finish-prepared backup_first old (files, ok a) = refl
finish-prepared order old (files, throw e) =
    rw
      (recover-IsPrepared order old (record (prepared old) { draft_dir = files })
        (prepared-IsPrepared old files))
      refl

pub locked-recovered :
    {A : Type 0} (order : RemovalOrder) (operation : Action (Option Files) A) (old : Option Files)
    (d : Disk)
    → recover_transaction order d ≡ (clean old, ok tt)
    → with_draft_lock order operation d ≡ settled old (operation old)
unfolding with_draft_lock
locked-recovered order operation none d h =
    rw (begin-recovered order none d h) (finish-prepared order none (operation none))
locked-recovered order operation (some f) d h =
    rw (begin-recovered order (some f) d h) (finish-prepared order (some f) (operation (some f)))

-- If a transaction on existing files is open, their copy is there.
abbrev pub IsIntact : Disk → Type 0
IsIntact d = d.metadata ≡ some true → (f : Files) × (d.backup ≡ some f)

-- The files of the draft, for what metadata.json holds.
abbrev pub dir_for : Option Bool → Disk → Option Files
dir_for none d = d.draft_dir
dir_for (some false) d = none
dir_for (some true) d = d.backup

recover-dir_for :
    (order : RemovalOrder) (metadata : Option Bool) (d : Disk)
    → d.metadata ≡ metadata
    → IsIntact d
    → recover_transaction order d ≡ (clean (dir_for metadata d), ok tt)
recover-dir_for order none d h intact = recover-no_metadata order d h
recover-dir_for order (some false) d h intact = recover-IsPrepared order none d h
recover-dir_for order (some true) d h intact =
    let (f, copied) = intact h in
    recover-IsPrepared order (some f) d (h, copied) ∙ ap (λ b. (clean b, ok tt)) (sym copied)

pub recover-IsIntact :
    (order : RemovalOrder) (d : Disk)
    → IsIntact d
    → recover_transaction order d ≡ (clean (dir_for d.metadata d), ok tt)
recover-IsIntact order d intact = recover-dir_for order d.metadata d refl intact

pub begin-IsIntact :
    (order : RemovalOrder) (d : Disk)
    → IsIntact d
    → begin_transaction order d ≡ (prepared (dir_for d.metadata d), ok tt)
begin-IsIntact order d intact =
    begin-recovered order (dir_for d.metadata d) d (recover-IsIntact order d intact)

-- A method runs on the files that an open transaction started from, or else on those that are there,
-- and leaves no transaction behind. If it returns, its files are kept; if it throws, the files it
-- started from are back and the error is passed on. The copy of an open transaction is not missing.
pub with_draft_lock-files :
    {A : Type 0} (order : RemovalOrder) (operation : Action (Option Files) A) (d : Disk)
    → IsIntact d
    → with_draft_lock order operation d
      ≡ settled (dir_for d.metadata d) (operation (dir_for d.metadata d))
with_draft_lock-files order operation d intact =
    locked-recovered order operation (dir_for d.metadata d) d (recover-IsIntact order d intact)
