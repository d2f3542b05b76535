-- ===== src/DraftStore/Decisions.antt =====
-- run-draft-store.ts: `revise`, `cancel` and `confirm`, inside the transaction, and the methods of
-- the store with their lock.
use miracle_agent.Prelude.{
  ℕ, ◌+◌, String, Bool, false, ◌&&◌, Option, none, some, List, [], ◌∷◌, ◌==◌, string_eq,
  if◌then◌else◌, coded, Result, ok, throw,
}
use miracle_agent.Prelude.Actions.{Action, lift, reads, returns, ◌>>=◌, ◌>>◌}
use miracle_agent.Drafts.{
  RunDraft, LaunchConfirmation, DraftPatch, Change, revise_run_draft, cancel_run_draft,
  confirm_run_draft, confirms, is_live,
}
use miracle_agent.Drafts.Plan.{RunDraftDryRunPlan}
use miracle_agent.Drafts.DryRun.{summary_of}
use miracle_agent.DraftStore.Files.{
  Files, RunDraftBundle, launch_confirmation_recorded, run_draft_cancelled,
}
use miracle_agent.DraftStore.Transactions.{Disk, RemovalOrder, with_draft_lock}
use miracle_agent.DraftStore.Reading.{assert_draft_id, read_unlocked}
use miracle_agent.DraftStore.Workflows.{Env, Times}
use miracle_agent.DraftStore.Operations.{
  write_draft, write_confirmation, append_audit, audit_record, assert_revision, draft_hash,
  write_reopened, CreateInput, create_unlocked, update_unlocked, dry_run_unlocked,
}

-- `existing.plan?.plan_hash === hash`
abbrev pub is_plan_hash : Option RunDraftDryRunPlan → String → Bool
is_plan_hash none hash = false
is_plan_hash (some plan) hash = plan.plan_hash == hash

abbrev pub is_confirmed_hash : Option LaunchConfirmation → String → Bool
is_confirmed_hash none hash = false
is_confirmed_hash (some c) hash = is_live c.decision && c.plan_hash == hash

-- The confirmation that the caller asks for is there.
abbrev pub is_replay : RunDraftBundle → String → Bool
is_replay b hash = is_confirmed_hash b.confirmation hash && is_plan_hash b.plan hash

abbrev pub plan_of_hash : Option RunDraftDryRunPlan → String → Result RunDraftDryRunPlan
plan_of_hash none hash = throw (
    coded "plan_hash_mismatch"
      "The confirmation must reference the stored latest RunDraft plan hash.")
plan_of_hash (some plan) hash =
    if plan.plan_hash == hash
    then ok plan
    else throw (
        coded "plan_hash_mismatch"
          "The confirmation must reference the stored latest RunDraft plan hash.")

module _ (env : Env) (times : Times) where
  -- `revise`
  unfoldable pub revise_unlocked :
      (draft_id : String) (expected_revision : ℕ) (actor : String)
      → Action (Option Files) RunDraftBundle
  revise_unlocked draft_id expected_revision actor = do
    existing ← reads (read_unlocked draft_id)
    lift (assert_revision existing.draft expected_revision)
    revised ←
        lift (revise_run_draft times.now existing.draft existing.confirmation (some times.now))
    write_reopened env times actor existing revised
        ("status" ∷ "latest_plan_hash" ∷ "confirmation_id" ∷ [])

  -- The files of a draft that is cancelled.
  abbrev pub write_cancelled :
      (actor : String) → RunDraftBundle → Change → Action (Option Files) RunDraftBundle
  write_cancelled actor existing (d, confirmation) = do
    write_draft d
    write_confirmation confirmation
    append_audit (
        audit_record actor times.audited_at d run_draft_cancelled
          (some (draft_hash env times existing.draft)) (some (draft_hash env times d))
          ("status" ∷ []))
    returns (record existing { draft = d; confirmation = confirmation })

  -- `cancel`
  unfoldable pub cancel_unlocked :
      (draft_id : String) (expected_revision : ℕ) (actor : String)
      → Action (Option Files) RunDraftBundle
  cancel_unlocked draft_id expected_revision actor = do
    existing ← reads (read_unlocked draft_id)
    lift (assert_revision existing.draft expected_revision)
    cancelled ←
        lift (cancel_run_draft times.now existing.draft existing.confirmation (some times.now))
    write_cancelled actor existing cancelled

  abbrev pub recorded : RunDraft → ℕ → RunDraft
  recorded d revision = record d { revision = revision + 1; updated_at = times.updated_at }

  abbrev pub confirmed_hash : Option LaunchConfirmation → Option String
  confirmed_hash none = none
  confirmed_hash (some c) = some c.plan_hash

  -- `confirm`
  unfoldable pub confirm_unlocked :
      (draft_id : String) (expected_revision : ℕ) (plan_hash actor : String)
      → (acknowledgements : List String) → Action (Option Files) RunDraftBundle
  confirm_unlocked draft_id expected_revision plan_hash actor acknowledgements = do
    existing ← reads (read_unlocked draft_id)
    if is_replay existing plan_hash
        then returns existing
        else (lift (assert_revision existing.draft expected_revision)
            >> lift (plan_of_hash existing.plan plan_hash)
            >>= λ plan.
                lift (
                  confirm_run_draft times.now existing.draft (summary_of plan) existing.confirmation
                    actor acknowledgements (some times.now))
                >>= λ confirmed.
                    if confirms existing.confirmation (summary_of plan)
                    then returns existing
                    else (write_draft (recorded confirmed.0 existing.draft.revision)
                        >> write_confirmation confirmed.1
                        >> append_audit (
                            audit_record actor times.audited_at
                              (recorded confirmed.0 existing.draft.revision)
                              launch_confirmation_recorded existing.draft.latest_plan_hash
                              (confirmed_hash confirmed.1) ("status" ∷ "confirmation_id" ∷ []))
                        >> returns (record existing {
                          draft = recorded confirmed.0 existing.draft.revision;
                          confirmation = confirmed.1;
                        })))

  module _ (order : RemovalOrder) where
    -- `withDraftLock(draft_id, operation)`: the paths of the draft are made first.
    abbrev pub locked : {A : Type 0} → String → Action (Option Files) A → Action Disk A
    locked draft_id operation = lift (assert_draft_id draft_id) >> with_draft_lock order operation

    unfoldable pub create : CreateInput → Action Disk RunDraftBundle
    create input = locked input.draft_id (create_unlocked env times input)

    unfoldable pub read : (draft_id : String) → Action Disk RunDraftBundle
    read draft_id = locked draft_id (reads (read_unlocked draft_id))

    unfoldable pub update :
        (draft_id : String) → ℕ → DraftPatch → String → Action Disk RunDraftBundle
    update draft_id expected patch actor =
        locked draft_id (update_unlocked env times draft_id expected patch actor)

    unfoldable pub dry_run :
        (draft_id : String) → ℕ → String → Option (List String) → Action Disk RunDraftBundle
    dry_run draft_id expected actor available =
        locked draft_id (dry_run_unlocked env times draft_id expected actor available)

    unfoldable pub revise : (draft_id : String) → ℕ → String → Action Disk RunDraftBundle
    revise draft_id expected actor = locked draft_id (revise_unlocked draft_id expected actor)

    unfoldable pub cancel : (draft_id : String) → ℕ → String → Action Disk RunDraftBundle
    cancel draft_id expected actor = locked draft_id (cancel_unlocked draft_id expected actor)

    unfoldable pub confirm :
        (draft_id : String)
        → ℕ
        → (plan_hash actor : String) → List String
        → Action Disk RunDraftBundle
    confirm draft_id expected plan_hash actor acknowledgements =
        locked draft_id (confirm_unlocked draft_id expected plan_hash actor acknowledgements)
