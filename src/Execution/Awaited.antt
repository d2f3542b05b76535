-- ===== src/Execution/Awaited.antt =====
-- execution-plan.ts: a node that executes has every required input.
use miracle_agent.Prelude.{
  String, true, false, not, ◌&&◌, Option, none, List, [], ◌∷◌, filter, find, any, map, string_eq,
  ◌≡◌, refl, inl, inr, arith, Memᴰ, All, any→Memᴰ, any-eq-false→All, All-Memᴰ, Memᴰ-filter,
  Bool-cases, flat_map, Option-cases,
}
use miracle_agent.Types.{
  EdgeSpec, NodeSpec, NodeRun, ArtifactManifest, ArtifactSpec, WorkflowSpec, ExecutionDecision,
  ResolvedNodeInput, CalculateExecutionPlanInput,
}
use miracle_agent.Execution.Artifacts.{Runtime, is_active, is_done, node_run_for_node_id}
use miracle_agent.Execution.Inputs.{
  input_matches_edge, artifact_qualifies, qualified_artifacts_for_input,
  qualified_artifacts_for_destination_edge,
}
use miracle_agent.Execution.Edges.{
  is_satisfied, edge_status, is_active_run, edges_block, edges_wait, is_missing, is_awaited,
  input_waits, OptionalState, optional_state, is_blocked_state, is_wait_state, required_edges,
  optional_edges, edge_verdict, is_timed_out,
}

active-not_done : (r : NodeRun) → is_active r.status ≡ true → is_done r.status ≡ false
active-not_done r h = ground arith

-- No artifact qualifies from a source whose run is active.
active-qualifies :
    (rt : Runtime) (workflow : WorkflowSpec) (source : String) (node_runs : List NodeRun)
    (artifacts : List ArtifactManifest) (spec : Option ArtifactSpec) (type : Option String)
    (edge : EdgeSpec)
    → is_active_run (node_run_for_node_id rt node_runs source) ≡ true
    → artifact_qualifies rt workflow source node_runs artifacts spec type edge ≡ []
unfolding artifact_qualifies
active-qualifies rt workflow source node_runs artifacts spec type edge h =
    elim (Option-cases (node_run_for_node_id rt node_runs source)) [
      | inl missing ↦ rw missing refl
      | inr (r, found) ↦ let idle = active-not_done r (rw found at h) in rw (found, idle) refl
    ]

flat_map-nil {ℓ κ} :
    {A : Type ℓ} {B : Type κ} (f : A → List B) (xs : List A)
    → ((x : A) → f x ≡ [])
    → flat_map f xs ≡ []
flat_map-nil f [] h = refl
flat_map-nil f (x ∷ xs) h = rw (h x, flat_map-nil f xs h) refl

-- So an edge whose source is active is not satisfied.
active-unsatisfied :
    (rt : Runtime) (i : CalculateExecutionPlanInput) (node : NodeSpec) (edge : EdgeSpec)
    → is_active_run (node_run_for_node_id rt i.node_runs edge.from) ≡ true
    → is_satisfied rt i node edge ≡ false
unfolding is_satisfied qualified_artifacts_for_destination_edge qualified_artifacts_for_input
active-unsatisfied rt i node edge h =
    rw
      (flat_map-nil
        (λ input. qualified_artifacts_for_input rt i.workflow input edge i.node_runs i.artifacts)
        (filter (λ input. input_matches_edge i.workflow input edge) node.inputs)
        (λ input. active-qualifies rt i.workflow edge.from i.node_runs i.artifacts _ _ edge h))
      refl

-- What a verdict of "execute" says of the edges and the inputs.
pub record MayStart (rt : Runtime) (i : CalculateExecutionPlanInput) (node : NodeSpec)
    (incoming : List EdgeSpec) (resolved : List ResolvedNodeInput) : Type 0 where
  pub satisfied : All (λ e. is_satisfied rt i node e ≡ true) (required_edges incoming)
  pub unblocked :
      All (λ e. optional_state rt i node e ≡ OptionalState.continue) (optional_edges incoming)
  pub complete : All (λ input. is_missing resolved input ≡ false) node.inputs

module _ (rt : Runtime) (i : CalculateExecutionPlanInput) (node : NodeSpec) where
  all-satisfied :
      (edges : List EdgeSpec)
      → edges_block rt i (map (edge_status rt i node) edges) ≡ false
      → edges_wait rt i (map (edge_status rt i node) edges) ≡ false
      → All (λ e. is_satisfied rt i node e ≡ true) edges
  all-satisfied [] b w = tt
  all-satisfied (e ∷ edges) b w = (ground arith, all-satisfied edges (ground arith) (ground arith))

  all-continue :
      (edges : List EdgeSpec)
      → find (λ e. is_blocked_state (optional_state rt i node e)) edges ≡ none
      → any (λ e. is_wait_state (optional_state rt i node e)) edges ≡ false
      → All (λ e. optional_state rt i node e ≡ OptionalState.continue) edges
  all-continue [] b w = tt
  all-continue (e ∷ edges) b w = (ground arith, all-continue edges (ground arith) (ground arith))

  awaited-optional :
      (edge : EdgeSpec)
      → edge.join_policy.wait_if_active ≡ true
      → is_awaited rt edge i.calculated_at (node_run_for_node_id rt i.node_runs edge.from) ≡ true
      → optional_state rt i node edge ≡ OptionalState.wait
  unfolding optional_state
  awaited-optional edge waits awaited =
      elim (Option-cases (node_run_for_node_id rt i.node_runs edge.from)) [
        | inl missing ↦ absurd (ground arith)
        | inr (r, found) ↦
            let active : is_active_run (node_run_for_node_id rt i.node_runs edge.from) ≡ true =
              ground arith in
            let unsatisfied = active-unsatisfied rt i node edge active in
            let early : is_timed_out rt edge i.calculated_at
                  (node_run_for_node_id rt i.node_runs edge.from)
                ≡ false =
              ground arith in
            rw (unsatisfied, early, waits, active) refl
      ]

  -- An input that is missing and waited for contradicts what lets the node execute.
  awaited-edge :
      (incoming : List EdgeSpec) (edge : EdgeSpec)
      → Memᴰ edge incoming
      → All (λ e. is_satisfied rt i node e ≡ true) (required_edges incoming)
      → All (λ e. optional_state rt i node e ≡ OptionalState.continue) (optional_edges incoming)
      → edge.join_policy.wait_if_active ≡ true
      → is_awaited rt edge i.calculated_at (node_run_for_node_id rt i.node_runs edge.from) ≡ true
      → ⊥
  awaited-edge incoming edge m satisfied unblocked waits awaited = elim (Bool-cases edge.required) [
    | inl required ↦
        let active : is_active_run (node_run_for_node_id rt i.node_runs edge.from) ≡ true =
          ground arith in
        let no = active-unsatisfied rt i node edge active in
        let yes =
          All-Memᴰ (λ e. is_satisfied rt i node e ≡ true) (required_edges incoming) satisfied
            (Memᴰ-filter (λ e. e.required) incoming m required) in
        cc
    | inr optional ↦
        let wait = awaited-optional edge waits awaited in
        let continue =
          All-Memᴰ (λ e. optional_state rt i node e ≡ OptionalState.continue)
            (optional_edges incoming) unblocked
            (Memᴰ-filter (λ e. not e.required) incoming m (rw optional refl)) in
        cc
  ]

  nothing_waits :
      (incoming : List EdgeSpec) (resolved : List ResolvedNodeInput)
      → All (λ e. is_satisfied rt i node e ≡ true) (required_edges incoming)
      → All (λ e. optional_state rt i node e ≡ OptionalState.continue) (optional_edges incoming)
      → any (input_waits rt i incoming resolved) node.inputs ≡ false
  nothing_waits incoming resolved satisfied unblocked =
      elim (Bool-cases (any (input_waits rt i incoming resolved) node.inputs)) [
        | inr idle ↦ idle
        | inl busy ↦
            let (input, m, w) = any→Memᴰ (input_waits rt i incoming resolved) node.inputs busy in
            let (edge, k, e) =
              any→Memᴰ
                (λ edge.
                  (input_matches_edge i.workflow input edge && edge.join_policy.wait_if_active)
                  && is_awaited rt edge i.calculated_at
                      (node_run_for_node_id rt i.node_runs edge.from))
                incoming (ground arith) in
            absurd (awaited-edge incoming edge k satisfied unblocked (ground arith) (ground arith))
      ]

  pub edge_verdict-execute :
      (incoming : List EdgeSpec) (resolved : List ResolvedNodeInput)
      → (edge_verdict rt i node incoming resolved).0 ≡ ExecutionDecision.execute
      → MayStart rt i node incoming resolved
  unfolding edge_verdict
  edge_verdict-execute incoming resolved h =
      let satisfied = all-satisfied (required_edges incoming) (ground arith) (ground arith) in
      let unblocked = all-continue (optional_edges incoming) (ground arith) (ground arith) in
      let idle = nothing_waits incoming resolved satisfied unblocked in
      record {
        satisfied = satisfied;
        unblocked = unblocked;
        complete = any-eq-false→All (is_missing resolved) node.inputs (ground arith);
      }
