-- ===== src/DraftStore/Stale.antt =====
-- run-draft-store.ts: a caller that names an old revision is refused.
use miracle_agent.Prelude.{
  ℕ, ◌+◌, String, false, Option, none, some, List, ◌==◌, nat_eq, string_eq, show, ◌+++◌, Error,
  Result, ok, throw, ◌≡◌, ◌≢◌, refl, ap, inl, inr, arith, Bool-cases,
}
use miracle_agent.Drafts.{RunDraft, LaunchConfirmation, Decision, is_live}
use miracle_agent.DraftStore.Files.{Files, RunDraftBundle, store_error}
use miracle_agent.DraftStore.Reading.{read_unlocked}
use miracle_agent.DraftStore.Workflows.{Env, Times}
use miracle_agent.DraftStore.Operations.{update_unlocked, dry_run_unlocked, assert_revision}
use miracle_agent.DraftStore.Decisions.{
  revise_unlocked, cancel_unlocked, confirm_unlocked, is_confirmed_hash,
}
use miracle_agent.DraftStore.Methods.{
  Method, update, revise, cancel, run_method, run_method-IsDurable,
}

-- What a caller that names a revision asks for.
pub data Request : Type 0 where
  change : Method → Request
  dry_run : (available : Option (List String)) → Request
  confirm : (plan_hash : String) (acknowledgements : List String) → Request

unfoldable pub run_request :
    Env
    → Times
    → (draft_id : String) (expected : ℕ) (actor : String) → Request
    → Option Files
    → Option Files × Result RunDraftBundle
run_request env times draft_id expected actor (change m) =
    run_method env times draft_id expected actor m
run_request env times draft_id expected actor (dry_run available) =
    dry_run_unlocked env times draft_id expected actor available
run_request env times draft_id expected actor (confirm plan_hash acknowledgements) =
    confirm_unlocked env times draft_id expected plan_hash actor acknowledgements

assert_revision-stale :
    (d : RunDraft) (expected : ℕ)
    → d.revision ≡ expected + 1
    → (e : Error) × (assert_revision d expected ≡ throw e)
unfolding assert_revision
assert_revision-stale d expected h = elim (Bool-cases (d.revision == expected)) [
  | inl same ↦ absurd (ground arith)
  | inr other ↦ (
    store_error "revision_conflict"
        ("Expected revision " +++ show expected +++ ", found " +++ show d.revision +++ "."),
    rw other,
  )
]

-- A stored revision that is one ahead of the caller's refuses every method.
stale_method :
    (env : Env) (times : Times) (draft_id : String) (expected : ℕ) (actor : String) (m : Method)
    (files : Option Files) (b : RunDraftBundle)
    → read_unlocked draft_id files ≡ ok b
    → b.draft.revision ≡ expected + 1
    → (e : Error) × (run_method env times draft_id expected actor m files ≡ (files, throw e))
unfolding run_method update_unlocked revise_unlocked cancel_unlocked
stale_method env times draft_id expected actor (update patch) files b read h =
    let (e, failed) = assert_revision-stale b.draft expected h in (e, rw (read, failed))
stale_method env times draft_id expected actor revise files b read h =
    let (e, failed) = assert_revision-stale b.draft expected h in (e, rw (read, failed))
stale_method env times draft_id expected actor cancel files b read h =
    let (e, failed) = assert_revision-stale b.draft expected h in (e, rw (read, failed))

-- No confirmation of the bundle is live.
abbrev pub IsWithdrawn : RunDraftBundle → Type 0
IsWithdrawn b = (c : LaunchConfirmation) → b.confirmation ≡ some c → c.decision ≢ Decision.confirmed

is_live-false : (d : Decision) → d ≢ Decision.confirmed → is_live d ≡ false
is_live-false Decision.confirmed h = absurd (h refl)
is_live-false Decision.superseded h = refl
is_live-false Decision.cancelled h = refl

no_replay :
    (o : Option LaunchConfirmation) (hash : String)
    → ((c : LaunchConfirmation) → o ≡ some c → c.decision ≢ Decision.confirmed)
    → is_confirmed_hash o hash ≡ false
no_replay none hash h = refl
no_replay (some c) hash h = rw (is_live-false c.decision (h c refl)) refl

stale_request :
    (env : Env) (times : Times) (draft_id : String) (expected : ℕ) (actor : String) (r : Request)
    (files : Option Files) (b : RunDraftBundle)
    → read_unlocked draft_id files ≡ ok b
    → b.draft.revision ≡ expected + 1
    → IsWithdrawn b
    → (e : Error) × (run_request env times draft_id expected actor r files ≡ (files, throw e))
unfolding run_request dry_run_unlocked confirm_unlocked
stale_request env times draft_id expected actor (change m) files b read h free =
    stale_method env times draft_id expected actor m files b read h
stale_request env times draft_id expected actor (dry_run available) files b read h free =
    let (e, failed) = assert_revision-stale b.draft expected h in (e, rw (read, failed))
stale_request env times draft_id expected actor (confirm hash acknowledgements) files b read h
      free =
    let (e, failed) = assert_revision-stale b.draft expected h in
    (e, rw (read, no_replay b.confirmation hash free, failed))

-- No update is lost: when an update, a revision or a cancellation has changed the draft at a revision,
-- a next call by any caller that names the same revision is refused and leaves the files alone,
-- whether it is an update, a revision, a cancellation, a dry run or a confirmation of any plan.
pub run_method-no_lost_update :
    (env : Env) (times times' : Times) (draft_id : String) (expected : ℕ) (actor actor' : String)
    (first : Method) (second : Request) (files after : Option Files) (b answer : RunDraftBundle)
    → read_unlocked draft_id files ≡ ok b
    → run_method env times draft_id expected actor first files ≡ (after, ok answer)
    → answer.draft ≢ b.draft
    → (e : Error) × (run_request env times' draft_id expected actor' second after
        ≡ (after, throw e))
run_method-no_lost_update env times times' draft_id expected actor actor' first second files after b
      answer r h changed =
    let d = run_method-IsDurable env times draft_id expected actor first files after b answer r h in
    elim d.progress [
      | inl (_, same, _) ↦ absurd (changed (ap (λ x. x.draft) same))
      | inr next ↦
          let later : answer.draft.revision ≡ expected + 1 =
            omega (arith, next.revision, d.current) in
          stale_request env times' draft_id expected actor' second after
            (record answer { audit = d.audit }) d.reread later next.withdrawn
    ]
