-- ===== src/Validation.antt =====
-- packages/core/src/validation.ts: the cross-references of a workflow, and the plan of a dry run.
pub mod WellFormed
pub mod Exact
mod DryRun
mod Tests
use miracle_agent.Prelude.{
  ℕ, ◌*◌, String, Bool, true, false, not, ◌&&◌, Option, none, some, get_or, List, [], ◌∷◌, ◌++◌,
  map, filter, flat_map, includes, length, truthy, show, string_eq, if◌then◌else◌, ◌+++◌, ltb,
}
use miracle_agent.Types.{
  NodeSpec, NodePortSpec, EdgeSpec, OnNoQualifiedArtifact, ArtifactSpec, ReviewMode, GateSpec,
  WorkflowSpec, ValidationIssue, ValidationResult, Severity, Risk, NodeReadiness, DryRunPlan,
}

abbrev pub issue : (code object_type object_id message : String) → ValidationIssue
issue code object_type object_id message = record {
  code = code;
  object_type = object_type;
  object_id = object_id;
  message = message;
}

-- `if (test) issues.push(i)`
abbrev pub when {ℓ} : {A : Type ℓ} → Bool → A → List A
when true i = i ∷ []
when false i = []

-- `ref && !ids.has(ref)`
abbrev pub dangling : List String → Option String → Bool
dangling ids ref = truthy ref && not (includes ids (get_or ref ""))

abbrev pub edge_name : EdgeSpec → String
edge_name edge = edge.from +++ "->" +++ edge.to

unfoldable pub output_errors : List String → NodeSpec → NodePortSpec → List ValidationIssue
output_errors artifact_ids node output = when (dangling artifact_ids output.artifact_spec_ref) (
    issue "missing_artifact_ref" "NodeSpec" node.id
      ("节点输出引用了不存在的 ArtifactSpec " +++ get_or output.artifact_spec_ref ""))

-- The loop over the nodes; `seen` is `nodeIds` before the round.
unfoldable pub node_errors :
    (artifact_ids gate_ids seen : List String) → List NodeSpec → List ValidationIssue
node_errors artifact_ids gate_ids seen [] = []
node_errors artifact_ids gate_ids seen (node ∷ nodes) =
    when (includes seen node.id) (issue "duplicate_node" "NodeSpec" node.id ("重复节点 " +++ node.id))
    ++ (flat_map (output_errors artifact_ids node) node.outputs
        ++ (when (dangling gate_ids node.review_gate_ref) (
              issue "missing_gate_ref" "NodeSpec" node.id
                ("节点引用了不存在的 GateSpec " +++ get_or node.review_gate_ref ""))
            ++ node_errors artifact_ids gate_ids (node.id ∷ seen) nodes))

unfoldable pub edge_errors : List String → EdgeSpec → List ValidationIssue
edge_errors node_ids edge =
    when (not (includes node_ids edge.from))
      (issue "missing_edge_from" "EdgeSpec" (edge_name edge) ("边起点不存在：" +++ edge.from))
    ++ when (not (includes node_ids edge.to))
        (issue "missing_edge_to" "EdgeSpec" (edge_name edge) ("边终点不存在：" +++ edge.to))

abbrev blocks_downstream : OnNoQualifiedArtifact → Bool
blocks_downstream OnNoQualifiedArtifact.block_downstream = true
blocks_downstream _ = false

unfoldable pub edge_warnings : EdgeSpec → List ValidationIssue
edge_warnings edge =
    when (not edge.required && blocks_downstream edge.join_policy.on_no_qualified_artifact) (
      issue "optional_edge_blocks_downstream" "EdgeSpec" (edge_name edge)
        "optional edge 使用 block_downstream 可能阻塞主链路")

abbrev pub is_reviewed : ReviewMode → Bool
is_reviewed ReviewMode.none = false
is_reviewed _ = true

unfoldable pub artifact_errors :
    (node_ids gate_ids : List String) → ArtifactSpec → List ValidationIssue
artifact_errors node_ids gate_ids artifact =
    when (not (includes node_ids artifact.produced_by)) (
      issue "missing_artifact_producer" "ArtifactSpec" artifact.id
        ("ArtifactSpec producer 不存在：" +++ artifact.produced_by))
    ++ when
        (is_reviewed artifact.review_policy.mode
          && dangling gate_ids artifact.review_policy.gate_spec_id)
        (issue "missing_artifact_gate" "ArtifactSpec" artifact.id
          ("ArtifactSpec 审核 gate 不存在：" +++ get_or artifact.review_policy.gate_spec_id ""))

unfoldable pub gate_errors : List String → GateSpec → List ValidationIssue
gate_errors artifact_ids gate = when (not (includes artifact_ids gate.target_artifact_ref)) (
    issue "missing_gate_artifact" "GateSpec" gate.id
      ("GateSpec 目标 ArtifactSpec 不存在：" +++ gate.target_artifact_ref))

abbrev pub node_ids_of : WorkflowSpec → List String
node_ids_of w = map (λ n. n.id) w.nodes

abbrev pub artifact_ids_of : WorkflowSpec → List String
artifact_ids_of w = map (λ a. a.id) w.artifacts

abbrev pub gate_ids_of : WorkflowSpec → List String
gate_ids_of w = map (λ g. g.id) w.gates

unfoldable pub workflow_errors : WorkflowSpec → List ValidationIssue
workflow_errors w =
    node_errors (artifact_ids_of w) (gate_ids_of w) [] w.nodes
    ++ (flat_map (edge_errors (node_ids_of w)) w.edges
        ++ (flat_map (artifact_errors (node_ids_of w) (gate_ids_of w)) w.artifacts
            ++ flat_map (gate_errors (artifact_ids_of w)) w.gates))

abbrev pub is_empty {ℓ} : {A : Type ℓ} → List A → Bool
is_empty [] = true
is_empty (x ∷ xs) = false

-- What `workflowSpecSchema.safeParse` answers: the issues, each with its path joined by dots and
-- its message, or the workflow.
pub data Parsed : Type 0 where
  refused : List (String × String) → Parsed
  parsed : WorkflowSpec → Parsed

abbrev pub schema_issue : String × String → ValidationIssue
schema_issue (path, message) = issue "schema_error" "WorkflowSpec" path message

-- `checked_at` is what `now()` returns.
unfoldable pub validate_parsed : (checked_at : String) → Parsed → ValidationResult
validate_parsed checked_at (refused issues) = record {
  valid = false;
  errors = map schema_issue issues;
  warnings = [];
  checked_at = checked_at;
}
validate_parsed checked_at (parsed w) = record {
  valid = is_empty (workflow_errors w);
  errors = workflow_errors w;
  warnings = flat_map edge_warnings w.edges;
  checked_at = checked_at;
}

unfoldable pub validate_workflow_spec {ℓ} :
    {A : Type ℓ} → (safe_parse : A → Parsed) → (checked_at : String) → A → ValidationResult
validate_workflow_spec safe_parse checked_at input = validate_parsed checked_at (safe_parse input)

abbrev pub error_risk : ValidationIssue → Risk
error_risk e = record {
  severity = Severity.p0;
  code = e.code;
  message = e.message;
  recovery_actions = "fix_workflow_spec" ∷ [];
}

abbrev pub credential_risk : String → Risk
credential_risk credential = record {
  severity = Severity.p0;
  code = "missing_credential";
  message = "缺少凭证 " +++ credential;
  recovery_actions = "configure_credential" ∷ "switch_provider" ∷ "skip_optional_branch" ∷ [];
}

abbrev pub gate_risk : ℕ → Risk
gate_risk count = record {
  severity = Severity.p1;
  code = "manual_gate_required";
  message = "存在 " +++ show count +++ " 个审核门";
  recovery_actions = "prepare_reviewer" ∷ "confirm_gate_policy" ∷ [];
}

abbrev pub branch_risk : ℕ → Risk
branch_risk count = record {
  severity = Severity.p2;
  code = "optional_branch_detected";
  message = "存在 " +++ show count +++ " 条可选分支，主链路可独立推进";
  recovery_actions = "review_join_policy" ∷ [];
}

abbrev pub missing_credentials : WorkflowSpec → List String → List String
missing_credentials w available =
    filter (λ c. not (includes available c)) w.provider_policy.required_credentials

-- `stamp` is `Date.now()`.
unfoldable pub create_dry_run_plan :
    (safe_parse : WorkflowSpec → Parsed)
    → (checked_at : String) → (stamp : ℕ) → WorkflowSpec
    → List String
    → DryRunPlan
create_dry_run_plan safe_parse checked_at stamp w available =
    let validation = validate_workflow_spec safe_parse checked_at w in
    let missing = missing_credentials w available in
    let gates = length w.gates in
    let optional = length (filter (λ e. not e.required) w.edges) in
    record {
      plan_id = "dryrun_" +++ w.id +++ "_" +++ show stamp;
      workflow_id = w.id;
      valid = validation.valid && is_empty missing;
      estimated_cost = record {
        min = length w.nodes * 2;
        max = length w.nodes * 6;
        currency = "CNY";
      };
      risks =
          map error_risk validation.errors
          ++ (map credential_risk missing
              ++ (when (ltb 0 gates) (gate_risk gates)
                  ++ when (ltb 0 optional) (branch_risk optional)));
      nodes =
          map
            (λ node. record {
              node_id = node.id;
              status =
                  if truthy node.review_gate_ref
                  then NodeReadiness.requires_review
                  else NodeReadiness.ready;
            })
            w.nodes;
    }
