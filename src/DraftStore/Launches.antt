-- ===== src/DraftStore/Launches.antt =====
-- run-draft-store.ts: `requestLaunch`, which hands a confirmed draft to the launch of a run. The
-- launch is a function of the caller; what it and its rollback do to runs is a list of events.
use miracle_agent.Prelude.{
  ◌+◌, String, Bool, true, false, not, ◌&&◌, ◌||◌, Option, none, some, get_or, List, [], ◌∷◌, ◌==◌,
  string_eq, is_text, truthy, if◌then◌else◌, Error, Result, ok, throw, guard, ◌>>=◌, ◌>>◌,
}
use miracle_agent.Canonical.{canonical_plan_hash}
use miracle_agent.Drafts.{RunDraft, RunDraftStatus, LaunchConfirmation, is_confirmed, is_live}
use miracle_agent.Drafts.Plan.{RunDraftDryRunPlan}
use miracle_agent.DraftStore.Files.{
  Files, RunDraftBundle, stored, append_to, run_draft_converted, store_error,
}
use miracle_agent.DraftStore.Transactions.{
  Disk, RemovalOrder, begin_transaction, finish_transaction,
}
use miracle_agent.DraftStore.Reading.{assert_draft_id, read_unlocked}
use miracle_agent.DraftStore.Workflows.{Env, Times, read_workflow}
use miracle_agent.DraftStore.Operations.{files_of, audit_record, draft_hash}

pub record LaunchRequest : Type 0 where
  pub draft_id : String
  pub adapter_ready : Bool
  pub draft_plan_id : String
  pub plan_hash : String
  pub confirmation_id : String
  pub actor : Option String

-- What the launch function answers; `can_roll_back` tells whether it gave a rollback.
pub record Launched : Type 0 where
  pub run_id : String
  pub reused : Option Bool
  pub can_roll_back : Bool

pub data RunEvent : Type 0 where
  run_launched run_rolled_back : String → RunEvent

pub record LaunchAnswer : Type 0 where
  pub run_id : String
  pub reused : Bool

-- A write of the record of the launch that fails: the draft is written before the audit.
pub data WriteFault : Type 0 where
  draft_fault audit_fault : Error → WriteFault

abbrev pub is_converted : RunDraftStatus → Bool
is_converted RunDraftStatus.converted = true
is_converted _ = false

-- The long condition of `requestLaunch`, negated.
abbrev pub references_match :
    LaunchRequest
    → RunDraftBundle
    → Option String
    → Option RunDraftDryRunPlan
    → Option LaunchConfirmation
    → Bool
references_match input b current (some plan) (some c) =
    input.draft_plan_id == plan.draft_plan_id
    && input.plan_hash == plan.plan_hash
    && input.confirmation_id == c.confirmation_id
    && is_live c.decision
    && c.plan_hash == plan.plan_hash
    && is_text b.draft.latest_plan_hash plan.plan_hash
    && is_text b.draft.confirmation_id c.confirmation_id
    && b.snapshot.workflow_source_hash == b.draft.workflow_source_hash
    && (not (is_confirmed b.draft.status) || is_text current b.draft.workflow_source_hash)
references_match input b current plan confirmation = false

abbrev handoff_required : String → Error
handoff_required message = store_error "launch_handoff_required" message

-- The run that a converted draft was launched as.
abbrev pub earlier_run : RunDraft → Option String
earlier_run d =
    if is_converted d.status && truthy d.converted_run_id then d.converted_run_id else none

-- `launched?.rollback?.()`
abbrev pub rolled_back : Launched → List RunEvent
rolled_back l = if l.can_roll_back then run_rolled_back l.run_id ∷ [] else []

module _ (env : Env) (times : Times) where
  -- The hash of the workflow as it is now, for a draft that is still to be launched.
  unfoldable pub current_workflow_hash : RunDraft → Result (Option String)
  current_workflow_hash d =
      if is_confirmed d.status
      then (read_workflow env.registry d.workflow_id >>= λ w.
          ok (some (canonical_plan_hash env.host (env.workflow_json w))))
      else ok none

  -- `requestLaunch` up to the launch: the draft to launch, or the run that it was launched as.
  unfoldable pub launch_checks :
      LaunchRequest → Option Files → Result (RunDraftBundle × Option String)
  launch_checks input files = do
    b ← read_unlocked input.draft_id files
    guard (is_confirmed b.draft.status || is_converted b.draft.status)
        (handoff_required "Only a confirmed RunDraft may be handed to the Run launch service.")
    current ← current_workflow_hash b.draft
    guard (references_match input b current b.plan b.confirmation) (
        handoff_required
          "RunDraft launch references do not match the latest frozen plan and confirmation.")
    elim (earlier_run b.draft) [
      | some run_id ↦ ok (b, some run_id)
      | none ↦
          (guard input.adapter_ready (
              store_error "adapter_not_ready"
                "Adapter is not ready; the confirmed RunDraft remains unchanged.")
            >> ok (b, none))
    ]

  abbrev pub converted : RunDraft → String → RunDraft
  converted d run_id = record d {
    status = RunDraftStatus.converted;
    converted_run_id = some run_id;
    revision = d.revision + 1;
    updated_at = times.updated_at;
  }

  -- The files after the draft is written, and before the audit is.
  abbrev pub marked_files : RunDraft → String → Option Files → Option Files
  marked_files d run_id files =
      some (record (files_of files) { draft = stored (converted d run_id) })

  -- The files after the draft is marked as converted.
  abbrev pub converted_files : LaunchRequest → RunDraft → String → Option Files → Option Files
  converted_files input d run_id files =
      let f = files_of files in
      some (record f {
        draft = stored (converted d run_id);
        audit = append_to f.audit (
            audit_record (get_or input.actor "system") times.audited_at (converted d run_id)
              run_draft_converted (some (draft_hash env times d))
              (some (draft_hash env times (converted d run_id)))
              ("status" ∷ "converted_run_id" ∷ []));
      })

  -- The launch, for what it answers and for the later write that fails.
  unfoldable pub launch_run :
      LaunchRequest
      → RunDraftBundle
      → Result Launched
      → (write_fault : Option WriteFault) → Option Files
      → (Option Files × Result LaunchAnswer) × List RunEvent
  launch_run input b (throw e) write_fault files = ((files, throw e), [])
  launch_run input b (ok l) (some (draft_fault e)) files =
      ((files, throw e), run_launched l.run_id ∷ rolled_back l)
  launch_run input b (ok l) (some (audit_fault e)) files =
      ((marked_files b.draft l.run_id files, throw e), run_launched l.run_id ∷ rolled_back l)
  launch_run input b (ok l) none files = (
    (
      converted_files input b.draft l.run_id files,
      ok (record { run_id = l.run_id; reused = get_or l.reused false }),
    ),
    run_launched l.run_id ∷ [],
  )

  -- `if (!input.launch) throw`, and the launch.
  unfoldable pub launch_or_refuse :
      LaunchRequest
      → Option (RunDraftBundle → Result Launched)
      → RunDraftBundle
      → (write_fault : Option WriteFault) → Option Files
      → (Option Files × Result LaunchAnswer) × List RunEvent
  launch_or_refuse input none b write_fault files = (
    (
      files,
      throw (handoff_required "Run launch wiring belongs to the unified POST /runs service."),
    ),
    [],
  )
  launch_or_refuse input (some launch) b write_fault files =
      launch_run input b (launch b) write_fault files

  unfoldable pub request_launch_unlocked :
      LaunchRequest
      → Option (RunDraftBundle → Result Launched)
      → (write_fault : Option WriteFault) → Option Files
      → (Option Files × Result LaunchAnswer) × List RunEvent
  request_launch_unlocked input launch write_fault files = elim (launch_checks input files) [
    | ok (b, some run_id) ↦ ((files, ok (record { run_id = run_id; reused = true })), [])
    | ok (b, none) ↦ launch_or_refuse input launch b write_fault files
    | throw e ↦ ((files, throw e), [])
  ]

  -- `requestLaunch` within its lock, for what the begin of the transaction gives.
  unfoldable pub run_locked :
      RemovalOrder
      → LaunchRequest
      → Option (RunDraftBundle → Result Launched)
      → (write_fault : Option WriteFault) → Disk × Result (Unit {0})
      → (Disk × Result LaunchAnswer) × List RunEvent
  run_locked order input launch write_fault (begun, throw e) = ((begun, throw e), [])
  run_locked order input launch write_fault (begun, ok done) =
      let (out, events) = request_launch_unlocked input launch write_fault begun.draft_dir in
      (finish_transaction order begun out, events)

  -- `requestLaunch`: the disk after it, its answer, and what happened to runs.
  unfoldable pub request_launch :
      RemovalOrder
      → LaunchRequest
      → Option (RunDraftBundle → Result Launched)
      → (write_fault : Option WriteFault) → Disk
      → (Disk × Result LaunchAnswer) × List RunEvent
  request_launch order input launch write_fault d = elim (assert_draft_id input.draft_id) [
    | throw e ↦ ((d, throw e), [])
    | ok valid ↦ run_locked order input launch write_fault (begin_transaction order d)
  ]
