-- ===== src/Execution/Edges.antt =====
-- execution-plan.ts: what the edges to a node, and its inputs, let it do.
use miracle_agent.Prelude.{
  String, Bool, true, false, not, ◌&&◌, Option, none, some, List, [], ◌∷◌, filter, find, any, map,
  ◌==◌, string_eq, if◌then◌else◌, ◌+++◌,
}
use miracle_agent.Types.{
  EdgeSpec, OnTimeout, OnNoQualifiedArtifact, NodePortSpec, NodeSpec, NodeRun, ExecutionDecision,
  RequiredEdgeStatus, ResolvedNodeInput, CalculateExecutionPlanInput,
}
use miracle_agent.Execution.Artifacts.{Runtime, is_active, edge_id, node_run_for_node_id}
use miracle_agent.Execution.Inputs.{
  is_artifact, input_matches_edge, qualified_artifacts_for_destination_edge,
}
use miracle_agent.Execution.Joins.{join_timed_out, before_arrow}

abbrev pub run_id_of : Option NodeRun → String
run_id_of none = ""
run_id_of (some r) = r.node_run_id

abbrev is_nonempty_list {ℓ} : {A : Type ℓ} → List A → Bool
is_nonempty_list [] = false
is_nonempty_list (x ∷ xs) = true

unfoldable pub is_satisfied : Runtime → CalculateExecutionPlanInput → NodeSpec → EdgeSpec → Bool
is_satisfied rt i node edge =
    is_nonempty_list
      (qualified_artifacts_for_destination_edge rt i.workflow node edge i.node_runs i.artifacts)

abbrev pub edge_status :
    Runtime → CalculateExecutionPlanInput → NodeSpec → EdgeSpec → RequiredEdgeStatus
edge_status rt i node edge = record {
  edge_id = edge_id edge;
  source_node_run_id = run_id_of (node_run_for_node_id rt i.node_runs edge.from);
  satisfied = is_satisfied rt i node edge;
}

-- `activeStatuses.has(sourceRun?.status ?? "blocked")`
abbrev pub is_active_run : Option NodeRun → Bool
is_active_run none = false
is_active_run (some r) = is_active r.status

abbrev pub is_source_active : Runtime → CalculateExecutionPlanInput → RequiredEdgeStatus → Bool
is_source_active rt i s =
    is_active_run (node_run_for_node_id rt i.node_runs (before_arrow s.edge_id))

abbrev pub edges_block : Runtime → CalculateExecutionPlanInput → List RequiredEdgeStatus → Bool
edges_block rt i statuses = any (λ s. not s.satisfied && not (is_source_active rt i s)) statuses

abbrev pub edges_wait : Runtime → CalculateExecutionPlanInput → List RequiredEdgeStatus → Bool
edges_wait rt i statuses = any (λ s. not s.satisfied && is_source_active rt i s) statuses

-- A required artifact input with no artifact.
abbrev pub is_missing : List ResolvedNodeInput → NodePortSpec → Bool
is_missing resolved input =
    is_artifact input.kind && (input.required && not (any (λ r. r.input_id == input.id) resolved))

-- `sourceRun && activeStatuses.has(sourceRun.status) && !joinTimedOut(…)`, with an edge that waits.
abbrev pub is_awaited : Runtime → EdgeSpec → (calculated_at : String) → Option NodeRun → Bool
is_awaited rt edge calculated_at none = false
is_awaited rt edge calculated_at (some source) =
    is_active source.status && not (join_timed_out rt edge source calculated_at)

abbrev pub input_waits :
    Runtime
    → CalculateExecutionPlanInput
    → List EdgeSpec
    → List ResolvedNodeInput
    → NodePortSpec
    → Bool
input_waits rt i incoming resolved input =
    is_missing resolved input
    && any
        (λ edge.
          (input_matches_edge i.workflow input edge && edge.join_policy.wait_if_active)
          && is_awaited rt edge i.calculated_at (node_run_for_node_id rt i.node_runs edge.from))
        incoming

pub data OptionalState : Type 0 where
  continue wait blocked : OptionalState

abbrev pub on_timeout_state : OnTimeout → OptionalState
on_timeout_state OnTimeout.continue_if_required_inputs_ready = OptionalState.continue
on_timeout_state _ = OptionalState.blocked

abbrev pub on_none_state : OnNoQualifiedArtifact → OptionalState
on_none_state OnNoQualifiedArtifact.ignore_optional = OptionalState.continue
on_none_state _ = OptionalState.blocked

-- `sourceRun && wait_if_active && activeStatuses.has(sourceRun.status)`
abbrev pub may_wait : EdgeSpec → Option NodeRun → Bool
may_wait edge source = edge.join_policy.wait_if_active && is_active_run source

abbrev pub is_timed_out : Runtime → EdgeSpec → (calculated_at : String) → Option NodeRun → Bool
is_timed_out rt edge calculated_at none = false
is_timed_out rt edge calculated_at (some source) = join_timed_out rt edge source calculated_at

unfoldable pub optional_state :
    Runtime → CalculateExecutionPlanInput → NodeSpec → EdgeSpec → OptionalState
optional_state rt i node edge =
    let source = node_run_for_node_id rt i.node_runs edge.from in
    if is_satisfied rt i node edge
    then OptionalState.continue
    else if may_wait edge source
    then if is_timed_out rt edge i.calculated_at source
      then on_timeout_state edge.join_policy.on_timeout
      else OptionalState.wait
    else on_none_state edge.join_policy.on_no_qualified_artifact

abbrev pub is_blocked_state : OptionalState → Bool
is_blocked_state OptionalState.blocked = true
is_blocked_state _ = false

abbrev pub is_wait_state : OptionalState → Bool
is_wait_state OptionalState.wait = true
is_wait_state _ = false

abbrev on_timeout_text : OnTimeout → String
on_timeout_text OnTimeout.continue_if_required_inputs_ready = "continue_if_required_inputs_ready"
on_timeout_text OnTimeout.blocked = "blocked"
on_timeout_text OnTimeout.failed = "failed"
on_timeout_text OnTimeout.require_decision = "require_decision"

abbrev on_none_text : OnNoQualifiedArtifact → String
on_none_text OnNoQualifiedArtifact.ignore_optional = "ignore_optional"
on_none_text OnNoQualifiedArtifact.block_downstream = "block_downstream"
on_none_text OnNoQualifiedArtifact.require_decision = "require_decision"

unfoldable pub blocked_reason : Runtime → CalculateExecutionPlanInput → EdgeSpec → String
blocked_reason rt i edge =
    let source = node_run_for_node_id rt i.node_runs edge.from in
    if may_wait edge source && is_timed_out rt edge i.calculated_at source
    then "optional_edge_timeout_" +++ on_timeout_text edge.join_policy.on_timeout
    else "optional_edge_no_qualified_artifact_"
      +++ on_none_text edge.join_policy.on_no_qualified_artifact

abbrev pub required_edges : List EdgeSpec → List EdgeSpec
required_edges incoming = filter (λ e. e.required) incoming

abbrev pub optional_edges : List EdgeSpec → List EdgeSpec
optional_edges incoming = filter (λ e. not e.required) incoming

abbrev pub Verdict : Type 0
Verdict = ExecutionDecision × String

abbrev pub ready : Verdict
ready = (ExecutionDecision.execute, "ready")

-- The first optional edge that blocks, or the rest.
abbrev pub blocked_by : Runtime → CalculateExecutionPlanInput → Option EdgeSpec → Verdict → Verdict
blocked_by rt i none rest = rest
blocked_by rt i (some edge) rest = (ExecutionDecision.blocked, blocked_reason rt i edge)

-- The edges and inputs of a node whose run is queued or running.
unfoldable pub edge_verdict :
    Runtime
    → CalculateExecutionPlanInput
    → NodeSpec
    → List EdgeSpec
    → List ResolvedNodeInput
    → Verdict
edge_verdict rt i node incoming resolved =
    let statuses = map (edge_status rt i node) (required_edges incoming) in
    let missing = any (is_missing resolved) node.inputs in
    let missing_waits = any (input_waits rt i incoming resolved) node.inputs in
    let optional = optional_edges incoming in
    if edges_block rt i statuses
    then (
      ExecutionDecision.blocked,
      if missing then "required_input_missing" else "required_edge_unsatisfied",
    )
    else if missing && (not (edges_wait rt i statuses) && not missing_waits)
    then (ExecutionDecision.blocked, "required_input_missing")
    else blocked_by rt i (find (λ e. is_blocked_state (optional_state rt i node e)) optional) (
        if edges_wait rt i statuses
        then (ExecutionDecision.wait, "required_edge_active")
        else if any (λ e. is_wait_state (optional_state rt i node e)) optional
        then (ExecutionDecision.wait, "optional_edge_active")
        else ready)
