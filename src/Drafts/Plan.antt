-- ===== src/Drafts/Plan.antt =====
-- packages/core/src/run-drafts.ts: the parts of a draft's dry-run plan, its credentials and its
-- branches.
use miracle_agent.Prelude.{
  ℕ, String, Bool, true, false, not, ◌&&◌, ◌||◌, Option, none, some, get_or, List, [], ◌∷◌, ◌++◌,
  map, filter, find, any, reverse, includes, unique, ◌==◌, string_eq, if◌then◌else◌, ◌+++◌,
}
use miracle_agent.Types.{
  EdgeSpec, ArtifactSelector, CredentialScope, BlockingScope, WorkflowSpec, DryRunPlan,
}
use miracle_agent.Drafts.{RunDraft}

abbrev picks_video : Option ArtifactSelector → Bool
picks_video none = false
picks_video (some selector) = elim selector.artifact_type [
  | none ↦ false
  | some type ↦ type == "video"
]

unfoldable pub optional_branch_id : EdgeSpec → String
optional_branch_id edge = get_or edge.optional_path_id (
    if picks_video edge.artifact_selector
    then "video_package"
    else "optional_" +++ edge.from +++ "_to_" +++ edge.to)

abbrev pub optional_edges : WorkflowSpec → List EdgeSpec
optional_edges workflow = filter (λ e. not e.required) workflow.edges

abbrev pub is_optional_scope : BlockingScope → Bool
is_optional_scope BlockingScope.optional_branch = true
is_optional_scope BlockingScope.required_path = false

-- `new Map(scopes.map(…)).get(ref)`: the last scope of a credential counts.
abbrev pub declared_scope : WorkflowSpec → String → Option CredentialScope
declared_scope workflow ref =
    find (λ s. s.credential_ref == ref)
      (reverse (get_or workflow.provider_policy.credential_scopes []))

abbrev is_nonempty_list {ℓ} : {A : Type ℓ} → List A → Bool
is_nonempty_list [] = false
is_nonempty_list (x ∷ xs) = true

abbrev pub branch_edges : WorkflowSpec → CredentialScope → List EdgeSpec
branch_edges workflow scope =
    filter (λ e. optional_branch_id e == scope.required_for_branch) workflow.edges

abbrev pub is_optional_only : WorkflowSpec → CredentialScope → Bool
is_optional_only workflow scope =
    is_optional_scope scope.blocking_scope
    && (includes (unique (map optional_branch_id (optional_edges workflow)))
          scope.required_for_branch
        && (is_nonempty_list (branch_edges workflow scope)
            && any (λ e. not e.required) (branch_edges workflow scope)))

abbrev pub required_scope : String → CredentialScope
required_scope ref = record {
  credential_ref = ref;
  required_for_branch = "required_path";
  blocking_scope = BlockingScope.required_path;
}

abbrev pub scope_or_required : WorkflowSpec → String → Option CredentialScope → CredentialScope
scope_or_required workflow ref none = required_scope ref
scope_or_required workflow ref (some scope) =
    if is_optional_only workflow scope then scope else required_scope ref

unfoldable pub credential_scope : WorkflowSpec → String → CredentialScope
credential_scope workflow ref = scope_or_required workflow ref (declared_scope workflow ref)

unfoldable pub default_credential_scopes : WorkflowSpec → List CredentialScope
default_credential_scopes workflow =
    map (credential_scope workflow) workflow.provider_policy.required_credentials

pub data CheckStatus : Type 0 where
  configured missing : CheckStatus

pub record CredentialCheck : Type 0 where
  pub scope : CredentialScope
  pub status : CheckStatus

pub data BranchReadiness : Type 0 where
  ready blocked not_selected : BranchReadiness

-- Its `selection` is "optional" always.
pub record BranchImpact : Type 0 where
  pub branch_id : String
  pub enabled : Bool
  pub readiness : BranchReadiness

pub data PathState : Type 0 where
  ready blocked : PathState

pub data RecommendedAction : Type 0 where
  start start_without_optional_branches resolve_required_blockers : RecommendedAction

pub record Startability : Type 0 where
  pub required_path : PathState
  pub full_workflow : PathState
  pub recommended_action : RecommendedAction

pub record GatePlan : Type 0 where
  pub gate_spec_id : String
  pub required_before : List String
  pub actions : List String

pub record ExecutionSummary : Type 0 where
  pub node_count : ℕ
  pub enabled_optional_branch_count : ℕ
  pub min_minutes : ℕ
  pub max_minutes : ℕ

pub data PlanStatus : Type 0 where
  ready_for_confirmation ready_for_dry_run : PlanStatus

pub record RunDraftDryRunPlan : Type 0 where
  pub draft_plan_id : String
  pub draft_id : String
  pub status : PlanStatus
  pub workflow_snapshot_draft_hash : String
  pub resolved_at : String
  pub core_plan : DryRunPlan
  pub credential_checks : List CredentialCheck
  pub gate_plan : List GatePlan
  pub branch_impact : List BranchImpact
  pub provider_resolution : List (String × String)
  pub execution_summary : ExecutionSummary
  pub startability : Startability
  pub required_acknowledgements : List String
  pub plan_hash : String

abbrev pub check_of : List String → CredentialScope → CredentialCheck
check_of available scope = record {
  scope = scope;
  status =
      if includes available scope.credential_ref
      then CheckStatus.configured
      else CheckStatus.missing;
}

abbrev pub is_missing : CheckStatus → Bool
is_missing CheckStatus.missing = true
is_missing CheckStatus.configured = false

abbrev pub blocks_required : CredentialCheck → Bool
blocks_required check =
    not (is_optional_scope check.scope.blocking_scope) && is_missing check.status

abbrev pub blocks_branch : String → CredentialCheck → Bool
blocks_branch branch_id check =
    is_optional_scope check.scope.blocking_scope
    && (check.scope.required_for_branch == branch_id && is_missing check.status)

abbrev pub branch_impact_of : RunDraft → List CredentialCheck → String → BranchImpact
branch_impact_of draft checks branch_id =
    let enabled = includes draft.enabled_optional_paths branch_id in
    record {
      branch_id = branch_id;
      enabled = enabled;
      readiness =
          if not enabled
          then BranchReadiness.not_selected
          else if any (blocks_branch branch_id) checks
          then BranchReadiness.blocked
          else BranchReadiness.ready;
    }

abbrev pub is_blocked_branch : BranchReadiness → Bool
is_blocked_branch BranchReadiness.blocked = true
is_blocked_branch _ = false

-- The credentials that the core plan counts as there: the available ones, and those that only an
-- optional branch needs.
abbrev pub core_credentials : WorkflowSpec → List String → List String
core_credentials workflow available = unique (
    available
    ++ map (λ s. s.credential_ref)
        (filter (λ s. is_optional_scope s.blocking_scope) (default_credential_scopes workflow)))

abbrev pub path_state : Bool → PathState
path_state true = PathState.blocked
path_state false = PathState.ready

abbrev pub startability_of : (required_blocked optional_blocked : Bool) → Startability
startability_of required_blocked optional_blocked = record {
  required_path = path_state required_blocked;
  full_workflow = path_state (required_blocked || optional_blocked);
  recommended_action =
      if required_blocked
      then RecommendedAction.resolve_required_blockers
      else if optional_blocked
      then RecommendedAction.start_without_optional_branches
      else RecommendedAction.start;
}
