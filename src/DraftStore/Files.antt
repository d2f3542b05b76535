-- ===== src/DraftStore/Files.antt =====
-- run-draft-store.ts: the files of a draft, and what a method returns of them.
use miracle_agent.Prelude.{String, Option, List, [], ◌∷◌, ◌++◌, Error, Result, ok, throw, coded}
use miracle_agent.Drafts.{RunDraft, WorkflowSnapshotDraft, LaunchConfirmation}
use miracle_agent.Drafts.Plan.{RunDraftDryRunPlan}

-- A file: missing, with a content that `readJson` refuses or whose properties do not have the types
-- of the record (the error that reading it then throws), or with a value.
pub data Stored (A : Type 0) : Type 0 where
  missing : Stored A
  refused : Error → Stored A
  stored : A → Stored A

pub data StoredPlan : Type 0 where
  not_generated : (draft_id : String) → StoredPlan
  generated : RunDraftDryRunPlan → StoredPlan

pub data StoredConfirmation : Type 0 where
  pending : (draft_id : String) → StoredConfirmation
  decided : LaunchConfirmation → StoredConfirmation

pub data AuditType : Type 0 where
  run_draft_created run_draft_updated dry_run_generated : AuditType
  launch_confirmation_recorded run_draft_cancelled run_draft_converted : AuditType

pub record RunDraftAuditRecord : Type 0 where
  pub type : AuditType
  pub draft_id : String
  pub actor : String
  pub timestamp : String
  pub previous_hash : Option String
  pub next_hash : Option String
  pub changed_fields : List String
  pub correlation_id : String

-- The directory of a draft.
pub record Files : Type 0 where
  pub draft : Stored RunDraft
  pub snapshot : Stored WorkflowSnapshotDraft
  pub plan : Stored StoredPlan
  pub confirmation : Stored StoredConfirmation
  pub audit : Stored (List RunDraftAuditRecord)

abbrev pub no_files : Files
no_files = record {
  draft = missing;
  snapshot = missing;
  plan = missing;
  confirmation = missing;
  audit = missing;
}

pub record RunDraftBundle : Type 0 where
  pub draft : RunDraft
  pub snapshot : WorkflowSnapshotDraft
  pub plan : Option RunDraftDryRunPlan
  pub confirmation : Option LaunchConfirmation
  pub audit : List RunDraftAuditRecord

abbrev pub store_error : String → String → Error
store_error code message = coded code message

abbrev pub invalid_state : String → Error
invalid_state message = store_error "draft_state_invalid" message

-- Reading a missing file fails with the code ENOENT.
abbrev pub no_entry : Error
no_entry = coded "ENOENT" "no such file or directory"

abbrev pub read_file : {A : Type 0} → Stored A → Result A
read_file missing = throw no_entry
read_file (refused e) = throw e
read_file (stored a) = ok a

-- `appendFile` of one line.
abbrev pub append_to :
    Stored (List RunDraftAuditRecord) → RunDraftAuditRecord → Stored (List RunDraftAuditRecord)
append_to missing line = stored (line ∷ [])
append_to (refused e) line = refused e
append_to (stored lines) line = stored (lines ++ line ∷ [])
