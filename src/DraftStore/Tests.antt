-- ===== src/DraftStore/Tests.antt =====
-- A small draft in the store, and the theorems applied to it.
use Prim.Native.String.{compare}
use miracle_agent.Prelude.{
  ℕ, String, Bool, true, false, Option, none, some, List, [], ◌∷◌, ◌≡◌, ◌≢◌, ◌⊎◌, ap, refl, Error,
  Result, ok, throw, ◌==◌, string_eq,
}
use miracle_agent.Prelude.Json.{string, end}
use miracle_agent.Types.{ExecutionPolicy}
use miracle_agent.Canonical.{Host}
use miracle_agent.Validation.{parsed}
use miracle_agent.Drafts.{RunDraft, RunDraftStatus, LaunchConfirmation, Decision, DraftPatch}
use miracle_agent.DraftStore.Files.{
  stored, not_generated, generated, pending, decided, Files, RunDraftBundle, no_files, no_entry,
}
use miracle_agent.DraftStore.Transactions.{
  Disk, Call, metadata_first, backup_first, perform_all, with_draft_lock,
}
use miracle_agent.DraftStore.Reading.{
  is_draft_id, is_workflow_id, is_sha256, assert_draft_id, assert_workflow_id, validate_draft,
  validate_snapshot, validate_plan, validate_confirmation, validate_audit, bundle_of, read_files,
  read_unlocked,
}
use miracle_agent.DraftStore.Workflows.{Registry, Env, Times}
use miracle_agent.DraftStore.Operations.{assert_revision}
use miracle_agent.DraftStore.Decisions.{cancel_unlocked}
use miracle_agent.DraftStore.Launches.{
  LaunchRequest, Launched, LaunchAnswer, request_launch, request_launch_unlocked, launch_checks,
}
use miracle_agent.DraftStore.Atomic.{clean, settled, with_draft_lock-files}
use miracle_agent.DraftStore.Stopped.{
  take, attempt, transaction, lost, stopped-settled, backup_first-loses,
}
use miracle_agent.DraftStore.Durable.{IsDurable}
use miracle_agent.DraftStore.Methods.{cancel, run_method, run_method-IsDurable}
use miracle_agent.DraftStore.Stale.{confirm, run_request, run_method-no_lost_update}
use miracle_agent.Drafts.Plan.{RunDraftDryRunPlan}
use miracle_agent.Drafts.DryRun.{create_run_draft_dry_run_plan}
use miracle_agent.Samples.{workflow}

program : Unit {0}
unfolding is_draft_id is_workflow_id is_sha256 assert_draft_id assert_workflow_id validate_draft
    validate_snapshot validate_plan validate_confirmation validate_audit bundle_of read_files
    read_unlocked assert_revision cancel_unlocked run_method miracle_agent.Drafts.cancel_run_draft
    miracle_agent.Drafts.assert_mutable miracle_agent.Prelude.codes
program = tt

abbrev zeros : String
zeros = "0000000000000000000000000000000000000000000000000000000000000000"

abbrev digest : String
digest = "sha256:0000000000000000000000000000000000000000000000000000000000000000"

abbrev host : Host
host = record { stringify = λ _. "_"; key_order = compare; sha256 = λ _. zeros }

abbrev registry : Registry
registry = record {
  workflows_dir = "/workflows";
  separator = "/";
  realpath = λ p. ok p;
  resolve = λ dir name. name;
  starts_with = λ p dir. true;
  read = λ p. ok workflow;
}

abbrev env : Env
env = record {
  host = host;
  workflow_json = λ w. string w.id;
  draft_json = λ d. string d.draft_id;
  hash_json = λ d p. string "plan";
  safe_parse = parsed;
  registry = registry;
}

abbrev times : Times
times = record {
  now = "t1";
  planned_at = "t1";
  checked_at = "t1";
  stamp = 1;
  updated_at = "t1";
  audited_at = "t1";
}

abbrev draft : RunDraft
draft = record {
  draft_id = "rundraft_1";
  workflow_id = "wf";
  workflow_source_hash = digest;
  status = RunDraftStatus.draft;
  inputs = end;
  enabled_optional_paths = [];
  execution_policy = ExecutionPolicy.hybrid;
  latest_plan_id = none;
  latest_plan_hash = none;
  confirmation_id = none;
  converted_run_id = none;
  revision = 1;
  created_at = "t0";
  updated_at = "t0";
}

abbrev bundle : RunDraftBundle
bundle = record {
  draft = draft;
  snapshot = record {
    snapshot_id = "draftsnap_rundraft_1";
    draft_id = "rundraft_1";
    workflow_source_hash = digest;
    snapshot_hash = digest;
    frozen_at = "t0";
    workflow = workflow;
  };
  plan = none;
  confirmation = none;
  audit = [];
}

abbrev files : Files
files = record {
  draft = stored draft;
  snapshot = stored bundle.snapshot;
  plan = stored (not_generated "rundraft_1");
  confirmation = stored (pending "rundraft_1");
  audit = stored [];
}

found : read_unlocked "rundraft_1" (some files) ≡ ok bundle
unfolding program
found = refl

not_an_id : is_draft_id "rundraft_../other" ≡ false
unfolding program
not_an_id = refl

-- What a cancellation leaves, and what it returns.
abbrev after_cancel : Option Files × Result RunDraftBundle
after_cancel = cancel_unlocked env times "rundraft_1" 1 "me" (some files)

abbrev cancelled : RunDraftBundle
cancelled = record bundle {
  draft = record draft { status = RunDraftStatus.cancelled; revision = 2; updated_at = "t1" };
}

returned : after_cancel.1 ≡ ok cancelled
unfolding program
returned = refl

ran : run_method env times "rundraft_1" 1 "me" cancel (some files) ≡ (after_cancel.0, ok cancelled)
unfolding program
ran = refl

run_method-IsDurable_example : IsDurable "rundraft_1" 1 (some files) after_cancel.0 bundle cancelled
run_method-IsDurable_example =
    run_method-IsDurable env times "rundraft_1" 1 "me" cancel (some files) after_cancel.0 bundle
      cancelled found ran

changed : cancelled.draft ≢ bundle.draft
changed h = let e : 2 ≡ 1 = ap (λ d. d.revision) h in cc e

run_method-no_lost_update_example :
    (e : Error) × (run_request env times "rundraft_1" 1 "you" (confirm digest []) after_cancel.0
      ≡ (after_cancel.0, throw e))
run_method-no_lost_update_example =
    run_method-no_lost_update env times times "rundraft_1" 1 "me" "you" cancel (confirm digest [])
      (some files) after_cancel.0 bundle cancelled found ran changed

-- The method throws after its first write and stops while the copy is put back.
stopped-settled_example :
    let stopped =
      (perform_all
        (take 4 (attempt (some files) (some no_files ∷ some files ∷ [])))
        (clean (some files))).0 in
    with_draft_lock backup_first (cancel_unlocked env times "rundraft_1" 1 "me") stopped
    ≡ settled (some files) (cancel_unlocked env times "rundraft_1" 1 "me" (some files))
stopped-settled_example =
    stopped-settled backup_first (cancel_unlocked env times "rundraft_1" 1 "me") (some files)
      (some no_files ∷ some files ∷ []) 4

backup_first-loses_example :
    let stopped =
      (perform_all
        (take 4 (transaction (some no_files) (some files ∷ [])))
        (clean (some no_files))).0 in
    (with_draft_lock metadata_first (cancel_unlocked env times "rundraft_1" 1 "me") stopped
      ≡ (lost, throw no_entry))
    × (with_draft_lock metadata_first (cancel_unlocked env times "rundraft_1" 1 "me") lost
        ≡ (lost, throw no_entry))
backup_first-loses_example =
    backup_first-loses metadata_first (cancel_unlocked env times "rundraft_1" 1 "me") no_files
      (some files ∷ [])

-- A transaction that an earlier call left half way.
abbrev left : Disk
left = record { draft_dir = some no_files; backup = some files; metadata = some true }

with_draft_lock-files_example :
    with_draft_lock metadata_first (cancel_unlocked env times "rundraft_1" 1 "me") left
    ≡ settled (some files) (cancel_unlocked env times "rundraft_1" 1 "me" (some files))
with_draft_lock-files_example =
    with_draft_lock-files metadata_first (cancel_unlocked env times "rundraft_1" 1 "me") left
      (λ _. (files, refl))

abbrev input : LaunchRequest
input = record {
  draft_id = "rundraft_1";
  adapter_ready = true;
  draft_plan_id = "draftplan_rundraft_1_1";
  plan_hash = digest;
  confirmation_id = "confirmation_1";
  actor = none;
}

abbrev launch : RunDraftBundle → Result Launched
launch b = ok (record { run_id = "run_1"; reused = none; can_roll_back = true })

abbrev plan : RunDraftDryRunPlan
plan =
    record (create_run_draft_dry_run_plan env.host env.workflow_json env.hash_json env.safe_parse
      "t1" "t1" 1 draft workflow none none) {
        draft_id = "rundraft_1";
        draft_plan_id = "draftplan_rundraft_1_1";
        plan_hash = digest;
      }

abbrev confirmation : LaunchConfirmation
confirmation = record {
  confirmation_id = "confirmation_1";
  draft_id = "rundraft_1";
  draft_plan_id = "draftplan_rundraft_1_1";
  plan_hash = digest;
  decision = Decision.confirmed;
  required_acknowledgements = [];
  actor = "me";
  decided_at = "t1";
  superseded_by_revision = none;
}

abbrev confirmed : RunDraft
confirmed = record draft {
  status = RunDraftStatus.confirmed;
  latest_plan_id = some "draftplan_rundraft_1_1";
  latest_plan_hash = some digest;
  confirmation_id = some "confirmation_1";
}

-- The disk of a draft that is confirmed.
abbrev ready : Disk
ready = record {
  draft_dir = some (record files {
    draft = stored confirmed;
    plan = stored (generated plan);
    confirmation = stored (decided confirmation);
  });
  backup = none;
  metadata = none;
}

launched :
    (request_launch env times metadata_first input (some launch) none ready).0.1
    ≡ ok (record { run_id = "run_1"; reused = false })
unfolding program request_launch request_launch_unlocked launch_checks
    miracle_agent.DraftStore.Launches.launch_run miracle_agent.DraftStore.Launches.launch_or_refuse
    miracle_agent.DraftStore.Launches.current_workflow_hash
    miracle_agent.DraftStore.Workflows.read_workflow
    miracle_agent.DraftStore.Workflows.find_workflow miracle_agent.Canonical.canonical_plan_hash
    miracle_agent.DraftStore.Transactions.begin_transaction
    miracle_agent.DraftStore.Transactions.recover_transaction
    miracle_agent.DraftStore.Launches.run_locked miracle_agent.DraftStore.Transactions.recovery
    miracle_agent.DraftStore.Transactions.undo miracle_agent.DraftStore.Transactions.beginning
    miracle_agent.DraftStore.Transactions.perform_all miracle_agent.DraftStore.Transactions.perform
    miracle_agent.DraftStore.Transactions.remove_transaction
    miracle_agent.DraftStore.Transactions.finish_transaction
launched = refl
