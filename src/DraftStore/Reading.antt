-- ===== src/DraftStore/Reading.antt =====
-- run-draft-store.ts: the checks of what the files of a draft hold, and `readUnlocked`.
use Prim.Native.Nat.{ℕ}
use miracle_agent.Prelude.{
  String, Bool, false, not, ◌&&◌, ◌||◌, Option, none, some, List, [], ◌∷◌, all, length, codes, leb,
  ◌==◌, nat_eq, string_eq, truthy, is_text, is_id_char, if◌then◌else◌, ◌+++◌, Error, Result, ok,
  throw, guard, ◌>>=◌, ◌>>◌,
}
use miracle_agent.Drafts.{
  RunDraft, WorkflowSnapshotDraft, LaunchConfirmation, is_confirmed, is_live,
}
use miracle_agent.Drafts.Plan.{RunDraftDryRunPlan}
use miracle_agent.DraftStore.Files.{
  StoredPlan, not_generated, generated, StoredConfirmation, pending, decided, RunDraftAuditRecord,
  Files, RunDraftBundle, invalid_state, store_error, read_file,
}

abbrev is_digit : ℕ → Bool
is_digit c = leb b'0' c && leb c b'9'

abbrev is_alnum : ℕ → Bool
is_alnum c = is_digit c || (leb b'a' c && leb c b'z' || leb b'A' c && leb c b'Z')

-- `[a-f0-9]`
abbrev is_hex : ℕ → Bool
is_hex c = is_digit c || leb b'a' c && leb c b'f'

-- What stands after a prefix.
abbrev after_prefix : List ℕ → List ℕ → Option (List ℕ)
after_prefix [] cs = some cs
after_prefix (p ∷ ps) [] = none
after_prefix (p ∷ ps) (c ∷ cs) = if p == c then after_prefix ps cs else none

abbrev some_ids : Option (List ℕ) → Bool
some_ids (some (c ∷ cs)) = all is_id_char (c ∷ cs)
some_ids _ = false

abbrev is_digest : Option (List ℕ) → Bool
is_digest (some cs) = all is_hex cs && length cs == 64
is_digest none = false

abbrev starts_alnum : List ℕ → Bool
starts_alnum [] = false
starts_alnum (c ∷ cs) = is_alnum c && all is_id_char cs

-- `/^rundraft_[a-zA-Z0-9_-]+$/`
unfoldable pub is_draft_id : String → Bool
unfolding codes
is_draft_id s = some_ids (after_prefix (codes "rundraft_") (codes s))

-- `/^[a-zA-Z0-9][a-zA-Z0-9_-]*$/`
unfoldable pub is_workflow_id : String → Bool
unfolding codes
is_workflow_id s = starts_alnum (codes s)

-- `/^sha256:[a-f0-9]{64}$/`
unfoldable pub is_sha256 : String → Bool
unfolding codes
is_sha256 s = is_digest (after_prefix (codes "sha256:") (codes s))

unfoldable pub assert_draft_id : String → Result (Unit {0})
assert_draft_id draft_id =
    guard (is_draft_id draft_id)
      (store_error "invalid_draft_id" ("Invalid RunDraft id: " +++ draft_id))

unfoldable pub assert_workflow_id : String → Result (Unit {0})
assert_workflow_id workflow_id =
    guard (is_workflow_id workflow_id)
      (store_error "invalid_workflow_id" ("Invalid workflow id: " +++ workflow_id))

unfoldable pub validate_draft : RunDraft → Result (Unit {0})
validate_draft d = do
  guard (leb 1 d.revision) (invalid_state "run_draft.json is missing required fields")
  assert_draft_id d.draft_id
  assert_workflow_id d.workflow_id
  guard (is_sha256 d.workflow_source_hash)
      (invalid_state "run_draft.json contains invalid status or workflow hash")

unfoldable pub validate_snapshot : RunDraft → WorkflowSnapshotDraft → Result (Unit {0})
validate_snapshot d s =
    guard
      (s.draft_id == d.draft_id
        && s.workflow_source_hash == d.workflow_source_hash
        && s.workflow.id == d.workflow_id)
      (invalid_state "workflow_snapshot_draft.json does not match run_draft.json")

unfoldable pub validate_plan : RunDraft → StoredPlan → Result (Option RunDraftDryRunPlan)
validate_plan d (not_generated id) = do
  guard (id == d.draft_id)
      (invalid_state "run_draft_dry_run_plan.json does not belong to this draft")
  ok none
validate_plan d (generated plan) = do
  guard (plan.draft_id == d.draft_id)
      (invalid_state "run_draft_dry_run_plan.json does not belong to this draft")
  guard (is_sha256 plan.plan_hash) (invalid_state "run_draft_dry_run_plan.json is incomplete")
  ok (some plan)

unfoldable pub validate_confirmation :
    RunDraft → StoredConfirmation → Result (Option LaunchConfirmation)
validate_confirmation d (pending id) = do
  guard (id == d.draft_id) (invalid_state "launch_confirmation.json does not belong to this draft")
  ok none
validate_confirmation d (decided c) = do
  guard (c.draft_id == d.draft_id)
      (invalid_state "launch_confirmation.json does not belong to this draft")
  guard (is_sha256 c.plan_hash) (invalid_state "launch_confirmation.json is incomplete")
  ok (some c)

unfoldable pub validate_audit :
    (draft_id : String) → List RunDraftAuditRecord → Result (List RunDraftAuditRecord)
validate_audit draft_id records = do
  guard (all (λ r. r.draft_id == draft_id) records)
      (invalid_state "draft_audit.jsonl contains an invalid record")
  ok records

-- `value !== reference` for a reference that may be missing.
abbrev pub refers : Option String → String → Bool
refers reference value = is_text reference value

-- The plan is the one that the draft refers to.
abbrev pub plan_agrees : RunDraft → Option RunDraftDryRunPlan → Bool
plan_agrees d none = not (truthy d.latest_plan_id || truthy d.latest_plan_hash)
plan_agrees d (some plan) =
    (truthy d.latest_plan_id || truthy d.latest_plan_hash)
    && refers d.latest_plan_id plan.draft_plan_id
    && refers d.latest_plan_hash plan.plan_hash

abbrev pub confirmation_agrees : RunDraft → Option LaunchConfirmation → Bool
confirmation_agrees d none = false
confirmation_agrees d (some c) =
    is_live c.decision
    && refers d.confirmation_id c.confirmation_id
    && refers d.latest_plan_hash c.plan_hash

abbrev plan_message : Option RunDraftDryRunPlan → RunDraft → String
plan_message plan d =
    if truthy d.latest_plan_id || truthy d.latest_plan_hash
    then "RunDraft latest plan references are inconsistent"
    else "RunDraft has a generated plan without latest plan references"

-- The checks of `readUnlocked`, once the files are read.
unfoldable pub bundle_of :
    RunDraft
    → WorkflowSnapshotDraft
    → StoredPlan
    → StoredConfirmation
    → List RunDraftAuditRecord
    → Result RunDraftBundle
bundle_of d snapshot plan_value confirmation_value lines = do
  validate_draft d
  validate_snapshot d snapshot
  plan ← validate_plan d plan_value
  confirmation ← validate_confirmation d confirmation_value
  guard (plan_agrees d plan) (invalid_state (plan_message plan d))
  guard (not (is_confirmed d.status) || confirmation_agrees d confirmation)
      (invalid_state "Confirmed RunDraft does not match launch_confirmation.json")
  audit ← validate_audit d.draft_id lines
  ok (record {
    draft = d;
    snapshot = snapshot;
    plan = plan;
    confirmation = confirmation;
    audit = audit;
  })

-- The `catch` of `readUnlocked`: a missing file of a directory that is there.
abbrev pub incomplete : {A : Type 0} → String → Result A → Result A
incomplete draft_id (ok a) = ok a
incomplete draft_id (throw (Error.coded code message)) =
    if code == "ENOENT"
    then throw (
        invalid_state
          ("RunDraft " +++ draft_id +++ " is incomplete; one or more state files are missing."))
    else throw (Error.coded code message)
incomplete draft_id (throw e) = throw e

unfoldable pub read_files : Files → Result RunDraftBundle
read_files files = do
  d ← read_file files.draft
  snapshot ← read_file files.snapshot
  plan ← read_file files.plan
  confirmation ← read_file files.confirmation
  audit ← read_file files.audit
  bundle_of d snapshot plan confirmation audit

-- `readUnlocked`
unfoldable pub read_unlocked : (draft_id : String) → Option Files → Result RunDraftBundle
read_unlocked draft_id none =
    throw (store_error "draft_not_found" ("RunDraft not found: " +++ draft_id))
read_unlocked draft_id (some files) = incomplete draft_id (read_files files)
