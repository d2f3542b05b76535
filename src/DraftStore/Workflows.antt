-- ===== src/DraftStore/Workflows.antt =====
-- run-draft-store.ts: `readWorkflow`, and what the store takes from elsewhere.
use miracle_agent.Prelude.{
  ℕ, String, Bool, ◌==◌, string_eq, if◌then◌else◌, ◌+++◌, Error, Result, ok, throw, guard, ◌>>=◌,
  ◌>>◌,
}
use miracle_agent.Prelude.Json.{Json}
use miracle_agent.Types.{WorkflowSpec}
use miracle_agent.Validation.{Parsed}
use miracle_agent.Canonical.{Host}
use miracle_agent.Drafts.{RunDraft}
use miracle_agent.Drafts.Plan.{RunDraftDryRunPlan}
use miracle_agent.DraftStore.Files.{store_error}
use miracle_agent.DraftStore.Reading.{assert_workflow_id}

-- The file system and the path functions, as the registry of workflows uses them. A missing file is
-- an error with the code ENOENT; `read` is `readJson`.
pub record Registry : Type 0 where
  pub workflows_dir : String
  pub separator : String
  pub realpath : String → Result String
  pub resolve : String → String → String
  pub starts_with : String → String → Bool
  pub read : String → Result WorkflowSpec

-- The runtime of run-drafts.ts, with the JSON values that it hashes, and the registry.
pub record Env : Type 0 where
  pub host : Host
  pub workflow_json : WorkflowSpec → Json
  pub draft_json : RunDraft → Json
  pub hash_json : RunDraft → RunDraftDryRunPlan → Json
  pub safe_parse : WorkflowSpec → Parsed
  pub registry : Registry

-- What the clock shows at the successive calls of a method.
pub record Times : Type 0 where
  pub now : String
  pub planned_at : String
  pub checked_at : String
  pub stamp : ℕ
  pub updated_at : String
  pub audited_at : String

unfoldable pub find_workflow : Registry → String → Result WorkflowSpec
find_workflow r workflow_id = do
  assert_workflow_id workflow_id
  root ← r.realpath r.workflows_dir
  let candidate = r.resolve root (workflow_id +++ ".json")
  guard (r.starts_with candidate (root +++ r.separator))
      (store_error "invalid_workflow_id" ("Workflow path escapes registry: " +++ workflow_id))
  resolved ← r.realpath candidate
  guard (r.starts_with resolved (root +++ r.separator)) (
      store_error "invalid_workflow_id"
        ("Workflow path resolves outside registry: " +++ workflow_id))
  r.read resolved

-- The `catch` of `readWorkflow`.
abbrev pub not_found : String → Result WorkflowSpec → Result WorkflowSpec
not_found workflow_id (ok w) = ok w
not_found workflow_id (throw (Error.coded code message)) =
    if code == "ENOENT"
    then throw (store_error "workflow_not_found" ("Workflow not found: " +++ workflow_id))
    else throw (Error.coded code message)
not_found workflow_id (throw e) = throw e

-- `readWorkflow`
unfoldable pub read_workflow : Registry → String → Result WorkflowSpec
read_workflow r workflow_id = not_found workflow_id (find_workflow r workflow_id)
