-- ===== src/DraftStore/Durable.antt =====
-- run-draft-store.ts: the draft that a method returns is the one that the next method reads.
use miracle_agent.Prelude.{
  ℕ, ◌+◌, String, Bool, true, Option, none, some, List, [], ◌∷◌, ◌++◌, all, ◌==◌, nat_eq, string_eq,
  ok, ◌≡◌, refl, sym, ap, false, ◌≢◌, ◌∙◌, ◌⊎◌, inl, inr, arith, ==_refl, Bool-cases,
}
use miracle_agent.Drafts.{
  RunDraft, RunDraftStatus, LaunchConfirmation, Decision, is_live, replace_confirmation,
}
use miracle_agent.DraftStore.Files.{
  Stored, stored, StoredPlan, not_generated, StoredConfirmation, pending, decided,
  RunDraftAuditRecord, Files, RunDraftBundle, append_to, run_draft_updated,
}
use miracle_agent.DraftStore.Reading.{
  is_sha256, validate_draft, validate_snapshot, validate_plan, validate_confirmation, read_unlocked,
}
use miracle_agent.DraftStore.Workflows.{Env, Times}
use miracle_agent.DraftStore.Operations.{write_reopened, draft_hash, audit_record}
use miracle_agent.DraftStore.Readback.{Fits, read_unlocked-Holds, Holds-read_unlocked}

-- The confirmation that the file holds after a write, if there is one to write.
abbrev pub kept_or : StoredConfirmation → Option LaunchConfirmation → StoredConfirmation
kept_or old none = old
kept_or old (some c) = decided c

validate_confirmation-some :
    (d : RunDraft) (cv : StoredConfirmation) {c : LaunchConfirmation}
    → validate_confirmation d cv ≡ ok (some c)
    → ((c.draft_id == d.draft_id) ≡ true) × (is_sha256 c.plan_hash ≡ true)
unfolding validate_confirmation
validate_confirmation-some d (pending id) h = ground arith
validate_confirmation-some d (decided a) h = ground arith

-- A replaced confirmation is as valid as the old one.
pub replaced-valid :
    (d d' : RunDraft) (cv : StoredConfirmation) (c : Option LaunchConfirmation)
    (decision : Decision) (revision : ℕ)
    → d'.draft_id ≡ d.draft_id
    → validate_confirmation d cv ≡ ok c
    → let next = replace_confirmation decision revision c in
      validate_confirmation d' (kept_or cv next) ≡ ok next
unfolding validate_confirmation
replaced-valid d d' (pending id) none decision revision same h = rw same h
replaced-valid d d' (decided a) none decision revision same h = rw same h
replaced-valid d d' cv (some c) decision revision same h =
    let (k, hash) = validate_confirmation-some d cv h in
    elim (Bool-cases (is_live c.decision)) [
      | inl live ↦ rw (live, same, k, hash)
      | inr dead ↦ rw (dead, same, k, hash)
    ]

pub validate_draft-next :
    (d d' : RunDraft)
    → d'.draft_id ≡ d.draft_id
    → d'.workflow_id ≡ d.workflow_id
    → d'.workflow_source_hash ≡ d.workflow_source_hash
    → d'.revision ≡ d.revision + 1
    → validate_draft d ≡ ok tt
    → validate_draft d' ≡ ok tt
unfolding validate_draft
validate_draft-next d d' a b c r h = rw (a, b, c) (ground arith)

pub all-append_one :
    {A : Type 0} (p : A → Bool) (xs : List A) (x : A)
    → all p xs ≡ true
    → p x ≡ true
    → all p (xs ++ x ∷ []) ≡ true
all-append_one p [] x h k = rw k
all-append_one p (y ∷ ys) x h k = ground (arith, all-append_one p ys x)

-- A draft that goes back to planning, with its confirmation replaced, fits its snapshot.
Fits-reopened :
    (b : RunDraftBundle) (pv : StoredPlan) (cv : StoredConfirmation) (d' : RunDraft)
    (decision : Decision) (line : RunDraftAuditRecord)
    → Fits b.draft b.snapshot pv cv b.audit b
    → d'.draft_id ≡ b.draft.draft_id
    → d'.workflow_id ≡ b.draft.workflow_id
    → d'.workflow_source_hash ≡ b.draft.workflow_source_hash
    → d'.revision ≡ b.draft.revision + 1
    → d'.status ≡ RunDraftStatus.ready_for_dry_run
    → d'.latest_plan_id ≡ none
    → d'.latest_plan_hash ≡ none
    → line.draft_id ≡ b.draft.draft_id
    → let next = replace_confirmation decision (b.draft.revision + 1) b.confirmation in
      let after : RunDraftBundle = record {
        draft = d';
        snapshot = b.snapshot;
        plan = none;
        confirmation = next;
        audit = b.audit ++ line ∷ [];
      } in
      Fits d' b.snapshot (not_generated d'.draft_id) (kept_or cv next) (b.audit ++ line ∷ []) after
unfolding validate_snapshot validate_plan
Fits-reopened b pv cv d' decision line f a w s r status i h l = record {
  same_draft = refl;
  same_snapshot = refl;
  same_audit = refl;
  draft_ok = validate_draft-next b.draft d' a w s r f.draft_ok;
  snapshot_ok = rw (a, w, s) f.snapshot_ok;
  plan_ok = rw (==_refl d'.draft_id);
  confirmation_ok =
      replaced-valid b.draft d' cv b.confirmation decision (b.draft.revision + 1) a
        f.confirmation_ok;
  plan_fits = rw (i, h);
  confirmation_fits = rw status;
  audit_ok = rw a (
      all-append_one (λ x. x.draft_id == b.draft.draft_id) b.audit line f.audit_ok
        (rw (l, ==_refl b.draft.draft_id)));
}

-- The draft went on by one revision; the audit has one more line, at its end; and no confirmation is
-- live any more.
pub record IsChanged (b answer : RunDraftBundle) (audit : List RunDraftAuditRecord) : Type 0 where
  pub revision : answer.draft.revision ≡ b.draft.revision + 1
  pub line : RunDraftAuditRecord
  pub appended : audit ≡ b.audit ++ line ∷ []
  pub of_draft : line.draft_id ≡ answer.draft.draft_id
  pub withdrawn :
      (c : LaunchConfirmation) → answer.confirmation ≡ some c → c.decision ≢ Decision.confirmed

pub replace_confirmation-withdrawn :
    (decision : Decision) (revision : ℕ) (o : Option LaunchConfirmation) (c : LaunchConfirmation)
    → is_live decision ≡ false
    → replace_confirmation decision revision o ≡ some c
    → c.decision ≢ Decision.confirmed
replace_confirmation-withdrawn decision revision none c dead h e = cc h
replace_confirmation-withdrawn decision revision (some a) c dead h e =
    let same : is_live c.decision ≡ true = rw e refl in
    elim (Bool-cases (is_live a.decision)) [
      | inl live ↦
          let k : record a { decision = decision; superseded_by_revision = some revision } ≡ c =
            let g = rw live at h in cc g in
          let d : decision ≡ c.decision = ap (λ x. x.decision) k in cc (rw (d, same) at dead)
      | inr gone ↦ let k : a ≡ c = let g = rw gone at h in cc g in cc (rw (k, same) at gone)
    ]

-- What a method that returned did to the files.
pub record IsDurable (draft_id : String) (expected : ℕ) (files after : Option Files)
    (b answer : RunDraftBundle) : Type 0 where
  pub current : b.draft.revision ≡ expected
  pub audit : List RunDraftAuditRecord
  pub reread : read_unlocked draft_id after ≡ ok (record answer { audit = audit })
  pub progress : ((after ≡ files) × (answer ≡ b) × (audit ≡ b.audit)) ⊎ IsChanged b answer audit

-- The confirmation file after a write.
unfoldable pub file_after :
    Option LaunchConfirmation → Stored StoredConfirmation → Stored StoredConfirmation
file_after none old = old
file_after (some c) old = stored (decided c)

pub file_after-kept :
    (c : Option LaunchConfirmation) (cv : StoredConfirmation)
    → file_after c (stored cv) ≡ stored (kept_or cv c)
unfolding file_after
file_after-kept none cv = refl
file_after-kept (some c) cv = refl

write_reopened_lem :
    (env : Env) (times : Times) (actor : String) (b : RunDraftBundle) (d : RunDraft)
    (c : Option LaunchConfirmation) (fields : List String) (f : Files)
    → write_reopened env times actor b (d, c) fields (some f) ≡ (
      some (record f {
        draft = stored d;
        plan = stored (not_generated d.draft_id);
        confirmation = file_after c f.confirmation;
        audit = append_to f.audit (
            audit_record actor times.audited_at d run_draft_updated
              (some (draft_hash env times b.draft))
              (some (draft_hash env times d))
              fields);
      }),
      ok (record b { draft = d; plan = none; confirmation = c }),
    )
unfolding file_after
write_reopened_lem env times actor b d none fields f = refl
write_reopened_lem env times actor b d (some c) fields f = refl

-- A draft that a method sends back to planning.
pub record IsReopened (d d' : RunDraft) : Type 0 where
  pub draft_id : d'.draft_id ≡ d.draft_id
  pub workflow_id : d'.workflow_id ≡ d.workflow_id
  pub source : d'.workflow_source_hash ≡ d.workflow_source_hash
  pub revision : d'.revision ≡ d.revision + 1
  pub status : d'.status ≡ RunDraftStatus.ready_for_dry_run
  pub plan_id : d'.latest_plan_id ≡ none
  pub plan_hash : d'.latest_plan_hash ≡ none

pub reopened-IsDurable :
    (env : Env) (times : Times) (id : String) (expected : ℕ) (actor : String) (files : Option Files)
    (b : RunDraftBundle) (d' : RunDraft) (decision : Decision) (fields : List String)
    {after : Option Files} {answer : RunDraftBundle}
    → is_live decision ≡ false
    → b.draft.revision ≡ expected
    → read_unlocked id files ≡ ok b
    → IsReopened b.draft d'
    → write_reopened env times actor b
        (d', replace_confirmation decision (b.draft.revision + 1) b.confirmation)
        fields
        files
      ≡ (after, ok answer)
    → IsDurable id expected files after b answer
reopened-IsDurable env times id expected actor files b d' decision fields {after} {answer} dead
      current read r h =
    let holds = read_unlocked-Holds id files b read in
    let f = holds.found in
    let next = replace_confirmation decision (b.draft.revision + 1) b.confirmation in
    let line =
      audit_record actor times.audited_at d' run_draft_updated (some (draft_hash env times b.draft))
        (some (draft_hash env times d')) fields in
    let g = sym (write_reopened_lem env times actor b d' next fields f) ∙ (rw holds.there at h) in
    let e : after
        ≡ some (record f {
          draft = stored d';
          plan = stored (not_generated d'.draft_id);
          confirmation = file_after next f.confirmation;
          audit = append_to f.audit line;
        }) =
      cc g in
    let a : answer ≡ record b { draft = d'; plan = none; confirmation = next } = cc g in
    record {
      current = current;
      audit = b.audit ++ line ∷ [];
      reread =
          rw (e, a)
            (Holds-read_unlocked id _ _ (record {
              found = _;
              there = refl;
              plan_value = not_generated d'.draft_id;
              confirmation_value = kept_or holds.confirmation_value next;
              draft_file = refl;
              snapshot_file = holds.snapshot_file;
              plan_file = refl;
              confirmation_file =
                  rw holds.confirmation_file (file_after-kept next holds.confirmation_value);
              audit_file = rw holds.audit_file;
              fits =
                  Fits-reopened b holds.plan_value holds.confirmation_value d' decision line
                    holds.fits r.draft_id r.workflow_id r.source r.revision r.status r.plan_id
                    r.plan_hash r.draft_id;
            }));
      progress = rw a (
          inr (record {
            revision = r.revision;
            line = line;
            appended = refl;
            of_draft = refl;
            withdrawn = λ c.
                replace_confirmation-withdrawn decision (b.draft.revision + 1) b.confirmation c
                  dead;
          }));
    }
