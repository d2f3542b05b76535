-- ===== src/DraftStore/Cancelled.antt =====
-- run-draft-store.ts: what `cancel` writes can be read.
use miracle_agent.Prelude.{
  ℕ, ◌+◌, String, Option, none, some, [], ◌∷◌, ◌++◌, ◌==◌, nat_eq, string_eq, ok, ◌≡◌, refl, sym,
  ◌∙◌, inr, ==_refl,
}
use miracle_agent.Drafts.{
  RunDraft, RunDraftStatus, LaunchConfirmation, Decision, replace_confirmation,
}
use miracle_agent.DraftStore.Files.{
  stored, StoredPlan, not_generated, generated, StoredConfirmation, RunDraftAuditRecord, Files,
  RunDraftBundle, append_to, run_draft_cancelled,
}
use miracle_agent.DraftStore.Reading.{validate_snapshot, validate_plan, read_unlocked}
use miracle_agent.DraftStore.Workflows.{Env, Times}
use miracle_agent.DraftStore.Operations.{draft_hash, audit_record}
use miracle_agent.DraftStore.Decisions.{write_cancelled}
use miracle_agent.DraftStore.Readback.{Fits, read_unlocked-Holds, Holds-read_unlocked}
use miracle_agent.DraftStore.Durable.{
  kept_or, replaced-valid, validate_draft-next, all-append_one, file_after, file_after-kept,
  IsDurable, replace_confirmation-withdrawn,
}

-- The draft after a cancellation.
abbrev cancelled_draft : RunDraft → String → RunDraft
cancelled_draft d at = record d {
  status = RunDraftStatus.cancelled;
  revision = d.revision + 1;
  updated_at = at;
}

write_cancelled_lem :
    (env : Env) (times : Times) (actor : String) (b : RunDraftBundle) (d : RunDraft)
    (c : Option LaunchConfirmation) (f : Files)
    → write_cancelled env times actor b (d, c) (some f) ≡ (
      some (record f {
        draft = stored d;
        confirmation = file_after c f.confirmation;
        audit = append_to f.audit (
            audit_record actor times.audited_at d run_draft_cancelled
              (some (draft_hash env times b.draft))
              (some (draft_hash env times d))
              ("status" ∷ []));
      }),
      ok (record b { draft = d; confirmation = c }),
    )
unfolding file_after
write_cancelled_lem env times actor b d none f = refl
write_cancelled_lem env times actor b d (some c) f = refl

validate_plan-same :
    (d d' : RunDraft) (pv : StoredPlan)
    → d'.draft_id ≡ d.draft_id
    → validate_plan d' pv ≡ validate_plan d pv
unfolding validate_plan
validate_plan-same d d' (not_generated id) h = rw h
validate_plan-same d d' (generated plan) h = rw h

Fits-cancelled :
    (b : RunDraftBundle) (pv : StoredPlan) (cv : StoredConfirmation) (at : String)
    (line : RunDraftAuditRecord)
    → Fits b.draft b.snapshot pv cv b.audit b
    → line.draft_id ≡ b.draft.draft_id
    → let d' = cancelled_draft b.draft at in
      let next = replace_confirmation Decision.cancelled (b.draft.revision + 1) b.confirmation in
      let after : RunDraftBundle = record b {
        draft = d';
        confirmation = next;
        audit = b.audit ++ line ∷ [];
      } in
      Fits d' b.snapshot pv (kept_or cv next) (b.audit ++ line ∷ []) after
unfolding validate_snapshot
Fits-cancelled b pv cv at line f l = record {
  same_draft = refl;
  same_snapshot = refl;
  same_audit = refl;
  draft_ok =
      validate_draft-next b.draft (cancelled_draft b.draft at) refl refl refl refl f.draft_ok;
  snapshot_ok = f.snapshot_ok;
  plan_ok = validate_plan-same b.draft (cancelled_draft b.draft at) pv refl ∙ f.plan_ok;
  confirmation_ok =
      replaced-valid b.draft (cancelled_draft b.draft at) cv b.confirmation Decision.cancelled
        (b.draft.revision + 1) refl f.confirmation_ok;
  plan_fits = f.plan_fits;
  confirmation_fits = refl;
  audit_ok =
      all-append_one (λ x. x.draft_id == b.draft.draft_id) b.audit line f.audit_ok
        (rw (l, ==_refl b.draft.draft_id));
}

pub cancelled-IsDurable :
    (env : Env) (times : Times) (id : String) (expected : ℕ) (actor at : String)
    (files : Option Files) (b : RunDraftBundle) {after : Option Files} {answer : RunDraftBundle}
    → b.draft.revision ≡ expected
    → read_unlocked id files ≡ ok b
    → write_cancelled env times actor b
        (
          cancelled_draft b.draft at,
          replace_confirmation Decision.cancelled (b.draft.revision + 1) b.confirmation,
        )
        files
      ≡ (after, ok answer)
    → IsDurable id expected files after b answer
cancelled-IsDurable env times id expected actor at files b {after} {answer} current read h =
    let holds = read_unlocked-Holds id files b read in
    let f = holds.found in
    let d' = cancelled_draft b.draft at in
    let next = replace_confirmation Decision.cancelled (b.draft.revision + 1) b.confirmation in
    let line =
      audit_record actor times.audited_at d' run_draft_cancelled
        (some (draft_hash env times b.draft)) (some (draft_hash env times d')) ("status" ∷ []) in
    let g = sym (write_cancelled_lem env times actor b d' next f) ∙ (rw holds.there at h) in
    let e : after
        ≡ some (record f {
          draft = stored d';
          confirmation = file_after next f.confirmation;
          audit = append_to f.audit line;
        }) =
      cc g in
    let a : answer ≡ record b { draft = d'; confirmation = next } = cc g in
    record {
      current = current;
      audit = b.audit ++ line ∷ [];
      reread =
          rw (e, a)
            (Holds-read_unlocked id _ _ (record {
              found = _;
              there = refl;
              plan_value = holds.plan_value;
              confirmation_value = kept_or holds.confirmation_value next;
              draft_file = refl;
              snapshot_file = holds.snapshot_file;
              plan_file = holds.plan_file;
              confirmation_file =
                  rw holds.confirmation_file (file_after-kept next holds.confirmation_value);
              audit_file = rw holds.audit_file;
              fits =
                  Fits-cancelled b holds.plan_value holds.confirmation_value at line holds.fits
                    refl;
            }));
      progress = rw a (
          inr (record {
            revision = refl;
            line = line;
            appended = refl;
            of_draft = refl;
            withdrawn = λ c.
                replace_confirmation-withdrawn Decision.cancelled (b.draft.revision + 1)
                  b.confirmation c refl;
          }));
    }
