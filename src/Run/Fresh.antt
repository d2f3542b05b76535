-- ===== src/Run/Fresh.antt =====
-- run.ts with execution-plan.ts: which nodes a new run starts with.
use miracle_agent.Prelude.{
  ℕ, ◌+◌, String, true, get_or, List, [], ◌∷◌, foldl, All, Memᴰ, ◌≡◌, refl, sym, ap, subst, inl,
  inr, ◌⊎◌, ◌↔◌, arith, ◌==◌, string_eq, nat_eq, Bool-cases, eq_iff, ◌∙◌,
}
use mathlib.Core.List.Memᴰ
use miracle_agent.Types.{
  NodeSpec, EdgeSpec, WorkflowSpec, NodeRun, NodeRunStatus, CalculateExecutionPlanInput,
}
use miracle_agent.Run.{
  RunOptions, Counts, set, no_counts, count_edge, incoming, node_run_of, create_run_from_workflow,
}
use miracle_agent.Execution.{Runtime, calculate_execution_plan}
use miracle_agent.Execution.Plan.{ready-MayExecute}

-- An edge that a node must wait for.
abbrev pub Needs : String → EdgeSpec → Type 0
Needs node_id edge = (edge.required ≡ true) × (edge.to ≡ node_id)

abbrev at : Counts → String → ℕ
at counts node_id = get_or (counts node_id) 0

count_edge-at :
    (node_id : String) (counts : Counts) (edge : EdgeSpec)
    → ((at (count_edge counts edge) node_id ≡ at counts node_id + 1) × Needs node_id edge)
      ⊎ ((at (count_edge counts edge) node_id ≡ at counts node_id) × ¬ Needs node_id edge)
count_edge-at node_id counts edge = elim (Bool-cases edge.required) [
  | inr optional ↦ inr (rw optional refl, λ (r, _). cc)
  | inl required ↦ elim (Bool-cases (node_id == edge.to)) [
    | inl here ↦
        let same = (eq_iff node_id edge.to).0 here in
        inl (rw (required, here, same) refl, (required, sym same))
    | inr there ↦
        inr (
          rw (required, there) refl,
          λ (_, t). let again = (eq_iff node_id edge.to).1 (sym t) in cc,
        )
  ]
]

counted-zero_iff :
    (node_id : String) (counts : Counts) (edges : List EdgeSpec)
    → (at (foldl count_edge counts edges) node_id ≡ 0)
      ↔ ((at counts node_id ≡ 0) × All (λ e. ¬ Needs node_id e) edges)
counted-zero_iff node_id counts [] = (λ h. (h, tt), λ h. h.0)
counted-zero_iff node_id counts (edge ∷ edges) =
    let (there, back) = counted-zero_iff node_id (count_edge counts edge) edges in
    elim (count_edge-at node_id counts edge) [
      | inl (more, needs) ↦
          (λ h. absurd (let z = (there h).0 in omega arith), λ (_, (free, _)). absurd (free needs))
      | inr (same, free) ↦ (
        λ h. let (z, rest) = there h in (omega arith, (free, rest)),
        λ (z, (_, rest)). back (omega arith, rest),
      )
    ]

nodes-zero :
    (node_id : String) (counts : Counts) (nodes : List NodeSpec)
    → at counts node_id ≡ 0
    → at (foldl (λ c node. set node.id 0 c) counts nodes) node_id ≡ 0
nodes-zero node_id counts [] h = h
nodes-zero node_id counts (node ∷ nodes) h =
    nodes-zero node_id (set node.id 0 counts) nodes
      (elim (Bool-cases (node_id == node.id)) [ inl here ↦ rw here refl | inr there ↦ rw there h ])

free_iff :
    (workflow : WorkflowSpec) (node_id : String)
    → (at (incoming workflow) node_id ≡ 0) ↔ All (λ e. ¬ Needs node_id e) workflow.edges
unfolding incoming
free_iff workflow node_id =
    let start = foldl (λ c n. set n.id 0 c) no_counts workflow.nodes in
    let zero_first = nodes-zero node_id no_counts workflow.nodes refl in
    let counted = counted-zero_iff node_id start workflow.edges in
    (λ h. (counted.0 h).1, λ free. counted.1 (zero_first, free))

-- A node of a new run is queued exactly when no required edge leads to it, and waits exactly when
-- that is not so.
pub node_run_of-queued_iff :
    (workflow : WorkflowSpec) (options : RunOptions) (created_at : String) (node : NodeSpec)
    → let status = (node_run_of workflow options created_at node).status in
      let free = All (λ e. ¬ Needs node.id e) workflow.edges in
      ((status ≡ NodeRunStatus.queued) ↔ free) × ((status ≡ NodeRunStatus.waiting) ↔ ¬ free)
unfolding node_run_of
node_run_of-queued_iff workflow options created_at node =
    let (to, from) = free_iff workflow node.id in
    elim (Bool-cases (at (incoming workflow) node.id == 0)) [
      | inl none_left ↦
          let free = to (ground arith) in
          (
            (λ _. free, λ _. rw none_left refl),
            (λ h. cc (rw none_left at h), λ not_free. absurd (not_free free)),
          )
      | inr some_left ↦ (
        (λ h. cc (rw some_left at h), λ free. let z = from free in ground arith),
        (λ _ free. let z = from free in ground arith, λ _. rw some_left refl),
      )
    ]

queued_first :
    (workflow : WorkflowSpec) (options : RunOptions) (created_at : String) (node : NodeSpec)
    {run : NodeRun}
    → node_run_of workflow options created_at node ≡ run
    → ((run.status ≡ NodeRunStatus.queued) ⊎ (run.status ≡ NodeRunStatus.running))
    → (node_run_of workflow options created_at node).status ≡ NodeRunStatus.queued
unfolding node_run_of
queued_first workflow options created_at node made (inl queued) = ap (λ r. r.status) made ∙ queued
queued_first workflow options created_at node made (inr running) =
    let busy = ap (λ r. r.status) made ∙ running in ground arith

-- The first plan of a new run, whatever artifacts and gates it is given, names as ready only runs
-- of nodes of the workflow that no required edge leads to.
pub fresh-ready :
    (rt : Runtime) (current : String) (workflow : WorkflowSpec) (options : RunOptions)
    (i : CalculateExecutionPlanInput) (id : String)
    → i.node_runs ≡ (create_run_from_workflow current workflow options).node_runs
    → Memᴰ id (calculate_execution_plan rt i).ready_node_run_ids
    → (node : NodeSpec) × Memᴰ node workflow.nodes
      × ((node_run_of workflow options (get_or options.created_at current) node).node_run_id ≡ id)
      × All (λ e. ¬ Needs node.id e) workflow.edges
unfolding create_run_from_workflow
fresh-ready rt current workflow options i id fresh m =
    let created_at = get_or options.created_at current in
    let (_, _, may, named, _, here) = ready-MayExecute rt i id m in
    let (node, k, made) =
      Memᴰ.of_map (node_run_of workflow options created_at) workflow.nodes
        (subst (λ l. Memᴰ may.run l) fresh here) in
    let queued = queued_first workflow options created_at node made may.status in
    (
      node,
      k,
      ap (λ r. r.node_run_id) made ∙ named,
      (node_run_of-queued_iff workflow options created_at node).0.0 queued,
    )
