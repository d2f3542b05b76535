-- ===== src/Types/Draft.antt =====
-- run-drafts.ts: a draft of a run, its snapshot and its confirmation.
use miracle_agent.Prelude.{ℕ, String, Bool, Option, List}
use miracle_agent.Prelude.Json.{Fields}
use miracle_agent.Types.Run.{ExecutionPolicy}
use miracle_agent.Types.Workflow.{WorkflowSpec}

pub data RunDraftStatus : Type 0 where
  draft ready_for_dry_run ready_for_confirmation confirmed : RunDraftStatus
  launch_pending converted cancelled expired : RunDraftStatus

pub record RunDraft : Type 0 where
  pub draft_id : String
  pub workflow_id : String
  pub workflow_source_hash : String
  pub status : RunDraftStatus
  pub inputs : Fields
  pub enabled_optional_paths : List String
  pub execution_policy : ExecutionPolicy
  pub latest_plan_id : Option String
  pub latest_plan_hash : Option String
  pub confirmation_id : Option String
  pub converted_run_id : Option String
  pub revision : ℕ
  pub created_at : String
  pub updated_at : String

pub record WorkflowSnapshotDraft : Type 0 where
  pub snapshot_id : String
  pub draft_id : String
  pub workflow_source_hash : String
  pub snapshot_hash : String
  pub frozen_at : String
  pub workflow : WorkflowSpec

pub data Decision : Type 0 where
  confirmed superseded cancelled : Decision

pub record LaunchConfirmation : Type 0 where
  pub confirmation_id : String
  pub draft_id : String
  pub draft_plan_id : String
  pub plan_hash : String
  pub decision : Decision
  pub required_acknowledgements : List String
  pub actor : String
  pub decided_at : String
  pub superseded_by_revision : Option ℕ

-- What `confirmRunDraft` reads of a `RunDraftDryRunPlan`.
pub record PlanSummary : Type 0 where
  pub draft_plan_id : String
  pub draft_id : String
  pub required_path_ready : Bool
  pub required_acknowledgements : List String
  pub plan_hash : String
