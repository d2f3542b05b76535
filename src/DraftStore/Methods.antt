-- ===== src/DraftStore/Methods.antt =====
-- run-draft-store.ts: `update`, `revise` and `cancel` keep the files readable and refuse a stale
-- revision.
use miracle_agent.Prelude.{
  ℕ, String, Option, some, get_or, [], ◌∷◌, ◌==◌, nat_eq, string_eq, show, ◌+++◌, Error, Result, ok,
  throw, ◌≡◌, refl, sym, ◌⊎◌, inl, inr, arith, Bool-cases,
}
use miracle_agent.Drafts.{
  Decision, DraftPatch, is_confirmed, is_terminal, reopened, patched, update_run_draft,
  patch_changes, revise_run_draft, cancel_run_draft, assert_mutable,
}
use miracle_agent.DraftStore.Files.{Files, RunDraftBundle, store_error}
use miracle_agent.DraftStore.Reading.{read_unlocked}
use miracle_agent.DraftStore.Workflows.{Env, Times}
use miracle_agent.DraftStore.Operations.{update_unlocked, patch_keys, assert_revision}
use miracle_agent.DraftStore.Decisions.{revise_unlocked, cancel_unlocked}
use miracle_agent.DraftStore.Durable.{IsDurable, reopened-IsDurable}
use miracle_agent.DraftStore.Cancelled.{cancelled-IsDurable}

-- The methods that change a draft without its workflow or its plan.
pub data Method : Type 0 where
  update : DraftPatch → Method
  revise cancel : Method

unfoldable pub run_method :
    Env
    → Times
    → (draft_id : String) (expected : ℕ) (actor : String) → Method
    → Option Files
    → Option Files × Result RunDraftBundle
run_method env times draft_id expected actor (update patch) =
    update_unlocked env times draft_id expected patch actor
run_method env times draft_id expected actor revise =
    revise_unlocked env times draft_id expected actor
run_method env times draft_id expected actor cancel =
    cancel_unlocked env times draft_id expected actor

module _ (env : Env) (times : Times) (draft_id : String) (expected : ℕ) (actor : String)
    (files after : Option Files) (b answer : RunDraftBundle)
    (read : read_unlocked draft_id files ≡ ok b) where
  conflict : Error
  conflict =
      store_error "revision_conflict"
        ("Expected revision " +++ show expected +++ ", found " +++ show b.draft.revision +++ ".")

  assert_revision-cases :
      ((e : Error) × (assert_revision b.draft expected ≡ throw e))
      ⊎ ((b.draft.revision ≡ expected) × (assert_revision b.draft expected ≡ ok tt))
  unfolding assert_revision conflict
  assert_revision-cases = elim (Bool-cases (b.draft.revision == expected)) [
    | inl same ↦ inr (ground arith, rw same)
    | inr other ↦ inl (conflict, rw other)
  ]

  revise-IsDurable :
      revise_unlocked env times draft_id expected actor files ≡ (after, ok answer)
      → IsDurable draft_id expected files after b answer
  unfolding revise_unlocked revise_run_draft
  revise-IsDurable h = elim assert_revision-cases [
    | inl (e, failed) ↦ cc (rw (read, failed) at h)
    | inr (same, passed) ↦ elim (Bool-cases (is_confirmed b.draft.status)) [
      | inr other ↦ cc (rw (read, passed, other) at h)
      | inl confirmed ↦
          reopened-IsDurable env times draft_id expected actor files b
            (reopened b.draft (get_or (some times.now) times.now)) Decision.superseded
            ("status" ∷ "latest_plan_hash" ∷ "confirmation_id" ∷ []) refl same read
            (record {
              draft_id = refl;
              workflow_id = refl;
              source = refl;
              revision = refl;
              status = refl;
              plan_id = refl;
              plan_hash = refl;
            })
            (rw (read, passed, confirmed) at h)
    ]
  ]

  update-IsDurable :
      (patch : DraftPatch)
      → update_unlocked env times draft_id expected patch actor files ≡ (after, ok answer)
      → IsDurable draft_id expected files after b answer
  unfolding update_unlocked update_run_draft assert_mutable
  update-IsDurable patch h = elim assert_revision-cases [
    | inl (e, failed) ↦ cc (rw (read, failed) at h)
    | inr (same, passed) ↦ elim (Bool-cases (is_terminal b.draft.status)) [
      | inl over ↦ cc (rw (read, passed, over) at h)
      | inr changeable ↦
          elim (Bool-cases (patch_changes env.host env.workflow_json patch b.draft)) [
            | inl changes ↦
                reopened-IsDurable env times draft_id expected actor files b
                  (reopened (patched env.host env.workflow_json patch b.draft) times.now)
                  Decision.superseded (patch_keys env times patch) refl same read
                  (record {
                    draft_id = refl;
                    workflow_id = refl;
                    source = refl;
                    revision = refl;
                    status = refl;
                    plan_id = refl;
                    plan_hash = refl;
                  })
                  (rw (read, passed, changeable, changes) at h)
            | inr same_patch ↦
                let g = rw (read, passed, changeable, same_patch) at h in
                let kept : files ≡ after = cc g in
                let e : b ≡ answer = cc g in
                record {
                  current = same;
                  audit = b.audit;
                  reread = rw (← kept, ← e) read;
                  progress = inl (sym kept, sym e, refl);
                }
          ]
    ]
  ]

  cancel-IsDurable :
      cancel_unlocked env times draft_id expected actor files ≡ (after, ok answer)
      → IsDurable draft_id expected files after b answer
  unfolding cancel_unlocked cancel_run_draft assert_mutable
  cancel-IsDurable h = elim assert_revision-cases [
    | inl (e, failed) ↦ cc (rw (read, failed) at h)
    | inr (same, passed) ↦ elim (Bool-cases (is_terminal b.draft.status)) [
      | inl over ↦ cc (rw (read, passed, over) at h)
      | inr changeable ↦
          cancelled-IsDurable env times draft_id expected actor times.now files b same read
            (rw (read, passed, changeable) at h)
    ]
  ]

-- `update`, `revise` and `cancel` return only if the caller names the stored revision. What they
-- return is what the next method reads, but for the audit. Either nothing changed, and the audit that
-- is read is the old one; or the revision is one higher, the audit that is read is the old one with
-- one line of this draft after it, and no confirmation is live any more.
pub run_method-IsDurable :
    (env : Env) (times : Times) (draft_id : String) (expected : ℕ) (actor : String) (m : Method)
    (files after : Option Files) (b answer : RunDraftBundle)
    → read_unlocked draft_id files ≡ ok b
    → run_method env times draft_id expected actor m files ≡ (after, ok answer)
    → IsDurable draft_id expected files after b answer
unfolding run_method
run_method-IsDurable env times draft_id expected actor (update patch) files after b answer r h =
    update-IsDurable env times draft_id expected actor files after b answer r patch h
run_method-IsDurable env times draft_id expected actor revise files after b answer r h =
    revise-IsDurable env times draft_id expected actor files after b answer r h
run_method-IsDurable env times draft_id expected actor cancel files after b answer r h =
    cancel-IsDurable env times draft_id expected actor files after b answer r h
