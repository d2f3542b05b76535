-- ===== src/DraftStore/Stopped.antt =====
-- run-draft-store.ts: a method whose process stops between two calls of the file system.
use miracle_agent.Prelude.{
  ℕ, zero, suc, true, false, Option, none, some, is_some, List, [], ◌∷◌, ◌++◌, length, throw, ◌≡◌,
  refl,
}
use miracle_agent.Prelude.Actions.{Action}
use miracle_agent.DraftStore.Files.{Files, no_entry}
use miracle_agent.DraftStore.Transactions.{
  Disk, Call, perform, perform_all, RemovalOrder, backup_first, remove_transaction, beginning, undo,
  recovery, recover_transaction, begin_transaction, with_draft_lock,
}
use miracle_agent.DraftStore.Atomic.{
  clean, IsPrepared, settled, recover-IsPrepared, recover-no_metadata, locked-recovered,
}

-- The first calls, as many as were made before the process stopped.
abbrev pub take : ℕ → List Call → List Call
take zero cs = []
take (suc n) [] = []
take (suc n) (c ∷ cs) = c ∷ take n cs

abbrev pub works : List (Option Files) → List Call
works [] = []
works (w ∷ ws) = Call.work w ∷ works ws

-- The calls of a transaction until its directory is removed, if the method throws after its writes:
-- the copy, the writes, and the copy put back. If it returns, they are the first of these.
unfoldable pub attempt : Option Files → List (Option Files) → List Call
attempt old ws = beginning (is_some old) ++ (works ws ++ undo (is_some old))

undo-IsPrepared :
    (old : Option Files) (n : ℕ) (d : Disk)
    → IsPrepared old d
    → IsPrepared old (perform_all (take n (undo (is_some old))) d).0
unfolding undo perform_all perform
undo-IsPrepared none zero d p = p
undo-IsPrepared none (suc zero) d p = p
undo-IsPrepared none (suc (suc n)) d p = p
undo-IsPrepared (some f) zero d p = p
undo-IsPrepared (some f) (suc zero) d p = p
undo-IsPrepared (some f) (suc (suc zero)) d (m, b) = (simp (m, b), simp (m, b))
undo-IsPrepared (some f) (suc (suc (suc n))) d (m, b) = (simp (m, b), simp (m, b))

work-IsPrepared :
    (old w : Option Files) (d : Disk)
    → IsPrepared old d
    → IsPrepared old (record d { draft_dir = w })
work-IsPrepared none w d p = p
work-IsPrepared (some f) w d p = p

works-IsPrepared :
    (old : Option Files) (ws : List (Option Files)) (n : ℕ) (d : Disk)
    → IsPrepared old d
    → IsPrepared old (perform_all (take n (works ws ++ undo (is_some old))) d).0
unfolding perform_all perform
works-IsPrepared old [] n d p = undo-IsPrepared old n d p
works-IsPrepared old (w ∷ ws) zero d p = p
works-IsPrepared old (w ∷ ws) (suc n) d p =
    works-IsPrepared old ws n (record d { draft_dir = w }) (work-IsPrepared old w d p)

-- A method that starts with no transaction open and stops before its transaction directory is
-- removed, after any number of its calls of the file system, was not made: the next method, whatever
-- it is, runs on the old files, in the transaction of `with_draft_lock`. The method may have been
-- copying the old files, writing, or putting the copy back after an error; the order in which
-- directories are removed does not matter.
pub stopped-settled :
    {A : Type 0} (order : RemovalOrder) (operation : Action (Option Files) A) (old : Option Files)
    (ws : List (Option Files)) (n : ℕ)
    → let stopped = (perform_all (take n (attempt old ws)) (clean old)).0 in
      with_draft_lock order operation stopped ≡ settled old (operation old)
unfolding attempt beginning perform_all perform
stopped-settled order operation none ws zero =
    locked-recovered order operation none _ (recover-no_metadata order _ refl)
stopped-settled order operation none ws (suc n) = locked-recovered order operation none _ (
    recover-IsPrepared order none _ (
      works-IsPrepared none ws n (record { draft_dir = none; backup = none; metadata = some false })
        refl))
stopped-settled order operation (some f) ws zero =
    locked-recovered order operation (some f) _ (recover-no_metadata order _ refl)
stopped-settled order operation (some f) ws (suc zero) =
    locked-recovered order operation (some f) _ (recover-no_metadata order _ refl)
stopped-settled order operation (some f) ws (suc (suc n)) =
    locked-recovered order operation (some f) _ (
      recover-IsPrepared order (some f) _ (
        works-IsPrepared (some f) ws n
          (record { draft_dir = some f; backup = some f; metadata = some true }) (refl, refl)))

-- The directory of the draft is gone, and its transaction cannot be undone.
abbrev pub lost : Disk
lost = record { draft_dir = none; backup = none; metadata = some true }

no_copy-lost :
    {A : Type 0} (order : RemovalOrder) (operation : Action (Option Files) A) (d : Disk)
    → d.metadata ≡ some true
    → d.backup ≡ none
    → with_draft_lock order operation d ≡ (lost, throw no_entry)
unfolding with_draft_lock begin_transaction recover_transaction recovery undo perform_all perform
no_copy-lost order operation d m b = simp (m, b)

-- The calls of a method that returns, if the copy is removed before metadata.json.
unfoldable pub transaction : Option Files → List (Option Files) → List Call
transaction old ws = beginning (is_some old) ++ (works ws ++ remove_transaction backup_first)

works-no_copy :
    (ws : List (Option Files)) (d : Disk)
    → d.metadata ≡ some true
    → let e =
        (perform_all (take (suc (length ws)) (works ws ++ remove_transaction backup_first)) d).0 in
      (e.metadata ≡ some true) × (e.backup ≡ none)
unfolding perform_all perform remove_transaction
works-no_copy [] d m = (m, refl)
works-no_copy (w ∷ ws) d m = works-no_copy ws (record d { draft_dir = w }) m

-- If the recursive removal of the transaction directory removes the copy before metadata.json, a
-- method on existing files that stops between the two, after all its writes, loses the draft: the
-- next method, whatever it is, removes the directory of the draft and throws, and so does every
-- method after it.
pub backup_first-loses :
    {A : Type 0} (order : RemovalOrder) (operation : Action (Option Files) A) (old : Files)
    (ws : List (Option Files))
    → let stopped =
        (perform_all
          (take (suc (suc (suc (length ws)))) (transaction (some old) ws))
          (clean (some old))).0 in
      (with_draft_lock order operation stopped ≡ (lost, throw no_entry))
      × (with_draft_lock order operation lost ≡ (lost, throw no_entry))
unfolding transaction beginning perform_all perform
backup_first-loses order operation old ws =
    let (m, b) =
      works-no_copy ws (record { draft_dir = some old; backup = some old; metadata = some true })
        refl in
    (no_copy-lost order operation _ m b, no_copy-lost order operation lost refl refl)
