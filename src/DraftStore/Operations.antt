-- ===== src/DraftStore/Operations.antt =====
-- run-draft-store.ts: the methods of the store, inside the transaction.
use miracle_agent.Prelude.{
  ℕ, ◌+◌, String, Bool, true, false, not, Option, none, some, is_some, List, [], ◌∷◌, ◌++◌, ◌==◌,
  nat_eq, string_eq, show, if◌then◌else◌, ◌+++◌, Result, ok, guard,
}
use miracle_agent.Prelude.Json.{Fields}
use miracle_agent.Prelude.Actions.{Action, lift, reads, returns, ◌>>=◌, ◌>>◌}
use miracle_agent.Types.{ExecutionPolicy, WorkflowSpec}
use miracle_agent.Canonical.{canonical_plan_hash}
use miracle_agent.Drafts.{
  RunDraft, RunDraftStatus, WorkflowSnapshotDraft, LaunchConfirmation, DraftPatch, Change,
  create_run_draft, update_run_draft, patch_changes, refresh_run_draft_workflow_source,
}
use miracle_agent.Drafts.Plan.{RunDraftDryRunPlan, PlanStatus}
use miracle_agent.Drafts.DryRun.{create_workflow_snapshot_draft, create_run_draft_dry_run_plan}
use miracle_agent.DraftStore.Files.{
  missing, stored, StoredPlan, not_generated, generated, pending, decided, AuditType,
  run_draft_created, run_draft_updated, dry_run_generated, launch_confirmation_recorded,
  run_draft_cancelled, run_draft_converted, RunDraftAuditRecord, Files, no_files, RunDraftBundle,
  store_error, append_to,
}
use miracle_agent.DraftStore.Reading.{read_unlocked}
use miracle_agent.DraftStore.Workflows.{Env, Times, read_workflow}

abbrev pub audit_text : AuditType → String
audit_text run_draft_created = "run_draft_created"
audit_text run_draft_updated = "run_draft_updated"
audit_text dry_run_generated = "dry_run_generated"
audit_text launch_confirmation_recorded = "launch_confirmation_recorded"
audit_text run_draft_cancelled = "run_draft_cancelled"
audit_text run_draft_converted = "run_draft_converted"

abbrev pub files_of : Option Files → Files
files_of none = no_files
files_of (some f) = f

-- `writeJson` and `appendFile`: the directory is made where it is missing.
abbrev pub write : (Files → Files) → Action (Option Files) (Unit {0})
write change files = (some (change (files_of files)), ok tt)

abbrev pub write_draft : RunDraft → Action (Option Files) (Unit {0})
write_draft d = write (λ f. record f { draft = stored d })

abbrev pub write_snapshot : WorkflowSnapshotDraft → Action (Option Files) (Unit {0})
write_snapshot s = write (λ f. record f { snapshot = stored s })

abbrev pub write_plan : StoredPlan → Action (Option Files) (Unit {0})
write_plan p = write (λ f. record f { plan = stored p })

-- A confirmation is written if there is one.
abbrev pub write_confirmation : Option LaunchConfirmation → Action (Option Files) (Unit {0})
write_confirmation none = returns tt
write_confirmation (some c) = write (λ f. record f { confirmation = stored (decided c) })

abbrev pub audit_record :
    (actor timestamp : String)
    → RunDraft
    → AuditType
    → (previous_hash next_hash : Option String) → List String
    → RunDraftAuditRecord
audit_record actor timestamp d type previous_hash next_hash changed_fields = record {
  type = type;
  draft_id = d.draft_id;
  actor = actor;
  timestamp = timestamp;
  previous_hash = previous_hash;
  next_hash = next_hash;
  changed_fields = changed_fields;
  correlation_id = d.draft_id +++ ":" +++ show d.revision +++ ":" +++ audit_text type;
}

-- `appendAudit`
abbrev pub append_audit : RunDraftAuditRecord → Action (Option Files) (Unit {0})
append_audit line = write (λ f. record f { audit = append_to f.audit line })

unfoldable pub assert_revision : RunDraft → ℕ → Result (Unit {0})
assert_revision d expected = guard (d.revision == expected) (
    store_error "revision_conflict"
      ("Expected revision " +++ show expected +++ ", found " +++ show d.revision +++ "."))

abbrev pub has_draft : Option Files → Bool
has_draft none = false
has_draft (some f) = elim f.draft [ missing ↦ false | _ ↦ true ]

pub record CreateInput : Type 0 where
  pub draft_id : String
  pub workflow_id : String
  pub inputs : Option Fields
  pub enabled_optional_paths : Option (List String)
  pub execution_policy : Option ExecutionPolicy
  pub actor : String

module _ (env : Env) (times : Times) where
  abbrev pub draft_hash : RunDraft → String
  draft_hash d = canonical_plan_hash env.host (env.draft_json d)

  abbrev pub snapshot_of : RunDraft → WorkflowSpec → String → WorkflowSnapshotDraft
  snapshot_of d workflow at =
      create_workflow_snapshot_draft env.host env.workflow_json env.hash_json env.safe_parse at d
        workflow (some at)

  -- `create`
  unfoldable pub create_unlocked : CreateInput → Action (Option Files) RunDraftBundle
  create_unlocked input = do
    reads (λ files.
        guard (not (has_draft files))
          (store_error "draft_already_exists" ("RunDraft already exists: " +++ input.draft_id)))
    workflow ← lift (read_workflow env.registry input.workflow_id)
    let d =
        create_run_draft env.host env.workflow_json input.draft_id times.now workflow input.inputs
          input.enabled_optional_paths input.execution_policy (some times.now)
    let snapshot = snapshot_of d workflow d.created_at
    write_draft d
    write_snapshot snapshot
    write_plan (not_generated d.draft_id)
    write (λ f. record f { confirmation = stored (pending d.draft_id) })
    append_audit (
        audit_record input.actor times.audited_at d run_draft_created none (some (draft_hash d))
          ("created" ∷ []))
    returns
        (record { draft = d; snapshot = snapshot; plan = none; confirmation = none; audit = [] })

  -- The files of a draft that goes back to an earlier stage.
  abbrev pub write_reopened :
      (actor : String)
      → RunDraftBundle
      → Change
      → (changed_fields : List String) → Action (Option Files) RunDraftBundle
  write_reopened actor existing (d, confirmation) changed_fields = do
    write_draft d
    write_plan (not_generated d.draft_id)
    write_confirmation confirmation
    append_audit (
        audit_record actor times.audited_at d run_draft_updated (some (draft_hash existing.draft))
          (some (draft_hash d)) changed_fields)
    returns (record existing { draft = d; plan = none; confirmation = confirmation })

  -- `Object.keys(patch)`
  abbrev pub patch_keys : DraftPatch → List String
  patch_keys patch =
      (if is_some patch.inputs then "inputs" ∷ [] else [])
      ++ ((if is_some patch.enabled_optional_paths then "enabled_optional_paths" ∷ [] else [])
          ++ (if is_some patch.execution_policy then "execution_policy" ∷ [] else []))

  -- `update`: an update that changes nothing writes nothing.
  unfoldable pub update_unlocked :
      (draft_id : String) (expected_revision : ℕ)
      → DraftPatch
      → (actor : String) → Action (Option Files) RunDraftBundle
  update_unlocked draft_id expected_revision patch actor = do
    existing ← reads (read_unlocked draft_id)
    lift (assert_revision existing.draft expected_revision)
    changed ← lift (
        update_run_draft env.host env.workflow_json times.now existing.draft existing.confirmation
          patch (some times.now))
    if patch_changes env.host env.workflow_json patch existing.draft
        then write_reopened actor existing changed (patch_keys patch)
        else returns existing

  abbrev pub status_of_plan : PlanStatus → RunDraftStatus
  status_of_plan PlanStatus.ready_for_confirmation = RunDraftStatus.ready_for_confirmation
  status_of_plan PlanStatus.ready_for_dry_run = RunDraftStatus.ready_for_dry_run

  abbrev pub planned : RunDraft → RunDraftDryRunPlan → RunDraft
  planned d plan = record d {
    status = status_of_plan plan.status;
    latest_plan_id = some plan.draft_plan_id;
    latest_plan_hash = some plan.plan_hash;
    revision = d.revision + 1;
    updated_at = times.updated_at;
  }

  -- `dryRun`
  unfoldable pub dry_run_unlocked :
      (draft_id : String) (expected_revision : ℕ) (actor : String)
      → (available_credentials : Option (List String)) → Action (Option Files) RunDraftBundle
  dry_run_unlocked draft_id expected_revision actor available = do
    existing ← reads (read_unlocked draft_id)
    lift (assert_revision existing.draft expected_revision)
    workflow ← lift (read_workflow env.registry existing.draft.workflow_id)
    let refreshed =
        refresh_run_draft_workflow_source env.host env.workflow_json times.now existing.draft
          existing.confirmation workflow (some times.now)
    let plan =
        create_run_draft_dry_run_plan env.host env.workflow_json env.hash_json env.safe_parse
          times.planned_at times.checked_at times.stamp refreshed.0 workflow available
          (some times.planned_at)
    let d = planned refreshed.0 plan
    let snapshot = snapshot_of d workflow d.updated_at
    write_draft d
    write_snapshot snapshot
    write_plan (generated plan)
    write_confirmation refreshed.1
    append_audit (
        audit_record actor times.audited_at d dry_run_generated (some (draft_hash existing.draft))
          (some plan.plan_hash) ("latest_plan_hash" ∷ "status" ∷ []))
    returns (record existing {
      draft = d;
      snapshot = snapshot;
      plan = some plan;
      confirmation = refreshed.1;
    })
