-- ===== src/DraftStore/Readback.antt =====
-- run-draft-store.ts: what a method writes, the next method reads.
use miracle_agent.Prelude.{
  String, true, not, ◌||◌, Option, none, some, List, all, ◌==◌, nat_eq, string_eq, Error, ok, throw,
  ◌≡◌, refl, inl, inr, arith, Result-cases,
}
use miracle_agent.Drafts.{RunDraft, WorkflowSnapshotDraft, is_confirmed}
use miracle_agent.DraftStore.Files.{
  Stored, missing, refused, stored, StoredPlan, StoredConfirmation, RunDraftAuditRecord, Files,
  RunDraftBundle, read_file,
}
use miracle_agent.DraftStore.Reading.{
  validate_draft, validate_snapshot, validate_plan, validate_confirmation, validate_audit,
  plan_agrees, confirmation_agrees, bundle_of, incomplete, read_files, read_unlocked,
}

-- What the checks of a bundle ask of its parts.
pub record Fits (d : RunDraft) (snapshot : WorkflowSnapshotDraft) (plan_value : StoredPlan)
    (confirmation_value : StoredConfirmation) (lines : List RunDraftAuditRecord)
    (b : RunDraftBundle) : Type 0 where
  pub same_draft : b.draft ≡ d
  pub same_snapshot : b.snapshot ≡ snapshot
  pub same_audit : b.audit ≡ lines
  pub draft_ok : validate_draft d ≡ ok tt
  pub snapshot_ok : validate_snapshot d snapshot ≡ ok tt
  pub plan_ok : validate_plan d plan_value ≡ ok b.plan
  pub confirmation_ok : validate_confirmation d confirmation_value ≡ ok b.confirmation
  pub plan_fits : plan_agrees d b.plan ≡ true
  pub confirmation_fits :
      (not (is_confirmed d.status) || confirmation_agrees d b.confirmation) ≡ true
  pub audit_ok : all (λ r. r.draft_id == d.draft_id) lines ≡ true

bundle_of-Fits :
    (d : RunDraft) (snapshot : WorkflowSnapshotDraft) (plan_value : StoredPlan)
    (confirmation_value : StoredConfirmation) (lines : List RunDraftAuditRecord)
    (b : RunDraftBundle)
    → bundle_of d snapshot plan_value confirmation_value lines ≡ ok b
    → Fits d snapshot plan_value confirmation_value lines b
unfolding bundle_of validate_audit
bundle_of-Fits d s p c lines b h = elim (Result-cases (validate_plan d p)) [
  | inl (e, failed) ↦ absurd (ground arith)
  | inr (plan, found) ↦ elim (Result-cases (validate_confirmation d c)) [
    | inl (e, failed) ↦ absurd (ground arith)
    | inr (confirmation, seen) ↦
        let e : b ≡ record {
          draft = d;
          snapshot = s;
          plan = plan;
          confirmation = confirmation;
          audit = lines;
        } =
          ground arith in
        rw e (record {
          same_draft = refl;
          same_snapshot = refl;
          same_audit = refl;
          draft_ok = ground arith;
          snapshot_ok = ground arith;
          plan_ok = found;
          confirmation_ok = seen;
          plan_fits = ground arith;
          confirmation_fits = ground arith;
          audit_ok = ground arith;
        })
  ]
]

pub Fits-bundle_of :
    (d : RunDraft) (snapshot : WorkflowSnapshotDraft) (plan_value : StoredPlan)
    (confirmation_value : StoredConfirmation) (lines : List RunDraftAuditRecord)
    (b : RunDraftBundle)
    → Fits d snapshot plan_value confirmation_value lines b
    → bundle_of d snapshot plan_value confirmation_value lines ≡ ok b
unfolding bundle_of validate_audit
Fits-bundle_of d s p c lines b f =
    rw
      (
        f.draft_ok, f.snapshot_ok, f.plan_ok, f.confirmation_ok, f.plan_fits, f.confirmation_fits,
        f.audit_ok,
      )
      (ground arith)

-- The files that hold a bundle.
pub record Holds (files : Option Files) (b : RunDraftBundle) : Type 0 where
  pub found : Files
  pub there : files ≡ some found
  pub plan_value : StoredPlan
  pub confirmation_value : StoredConfirmation
  pub draft_file : found.draft ≡ stored b.draft
  pub snapshot_file : found.snapshot ≡ stored b.snapshot
  pub plan_file : found.plan ≡ stored plan_value
  pub confirmation_file : found.confirmation ≡ stored confirmation_value
  pub audit_file : found.audit ≡ stored b.audit
  pub fits : Fits b.draft b.snapshot plan_value confirmation_value b.audit b

read_file-eq-ok : {A : Type 0} (s : Stored A) {a : A} → read_file s ≡ ok a → s ≡ stored a
read_file-eq-ok missing h = cc
read_file-eq-ok (refused e) h = cc
read_file-eq-ok (stored b) h = cc

-- The results of the five reads.
read_files-Holds : (f : Files) (b : RunDraftBundle) → read_files f ≡ ok b → Holds (some f) b
unfolding read_files
read_files-Holds f b h = elim (Result-cases (read_file f.draft)) [
  | inl (e, failed) ↦ absurd (ground arith)
  | inr (d, r1) ↦ elim (Result-cases (read_file f.snapshot)) [
    | inl (e, failed) ↦ absurd (ground arith)
    | inr (s, r2) ↦ elim (Result-cases (read_file f.plan)) [
      | inl (e, failed) ↦ absurd (ground arith)
      | inr (p, r3) ↦ elim (Result-cases (read_file f.confirmation)) [
        | inl (e, failed) ↦ absurd (ground arith)
        | inr (c, r4) ↦ elim (Result-cases (read_file f.audit)) [
          | inl (e, failed) ↦ absurd (ground arith)
          | inr (lines, r5) ↦
              let fits = bundle_of-Fits d s p c lines b (rw (r1, r2, r3, r4, r5) at h) in
              record {
                found = f;
                there = refl;
                plan_value = p;
                confirmation_value = c;
                draft_file = rw fits.same_draft (read_file-eq-ok f.draft r1);
                snapshot_file = rw fits.same_snapshot (read_file-eq-ok f.snapshot r2);
                plan_file = read_file-eq-ok f.plan r3;
                confirmation_file = read_file-eq-ok f.confirmation r4;
                audit_file = rw fits.same_audit (read_file-eq-ok f.audit r5);
                fits = simp (fits.same_draft, fits.same_snapshot, fits.same_audit) fits;
              }
        ]
      ]
    ]
  ]
]

still_throws :
    (draft_id : String) (e : Error) {b : RunDraftBundle} → incomplete draft_id (throw e) ≡ ok b → ⊥
still_throws draft_id e h = ground arith

pub read_unlocked-Holds :
    (draft_id : String) (files : Option Files) (b : RunDraftBundle)
    → read_unlocked draft_id files ≡ ok b
    → Holds files b
unfolding read_unlocked
read_unlocked-Holds draft_id none b h = cc
read_unlocked-Holds draft_id (some f) b h = elim (Result-cases (read_files f)) [
  | inl (e, failed) ↦ absurd (still_throws draft_id e (rw failed at h))
  | inr (a, read) ↦ let e : a ≡ b = cc (rw read at h) in read_files-Holds f b (rw (← e) read)
]

pub Holds-read_unlocked :
    (draft_id : String) (files : Option Files) (b : RunDraftBundle)
    → Holds files b
    → read_unlocked draft_id files ≡ ok b
unfolding read_unlocked read_files
Holds-read_unlocked draft_id files b h = rw (
  h.there,
  h.draft_file,
  h.snapshot_file,
  h.plan_file,
  h.confirmation_file,
  h.audit_file,
  Fits-bundle_of b.draft b.snapshot h.plan_value h.confirmation_value b.audit b h.fits,
)
