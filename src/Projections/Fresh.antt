-- ===== src/Projections/Fresh.antt =====
-- packages/core/src/projections.ts and run.ts: the graph of a run that was just created.
use miracle_agent.Prelude.{
  String, true, false, get_or, List, [], ◌∷◌, map, ◌==◌, nat_eq, string_eq, eq_iff, ==_refl,
  Bool-cases, inl, inr, ◌≡◌, refl, ◌⊎◌, Memᴰ, All, ◌↔◌,
}
use miracle_agent.Types.{NodeSpec, WorkflowSpec, NodeRunStatus}
use miracle_agent.Run.Fresh.{Needs, node_run_of-queued_iff}
use miracle_agent.Run.{RunOptions, node_run_of, create_run_from_workflow}
use miracle_agent.Projections.{DagNode, run_of, status_or_queued, dag_node, build_dag_projection}

Memᴰ-split : {A : Type 0} {x y : A} {ys : List A} → Memᴰ x (y ∷ ys) → (x ≡ y) ⊎ Memᴰ x ys
Memᴰ-split (Memᴰ.head e) = inl e
Memᴰ-split (Memᴰ.tail m) = inr m

differs : {m n : NodeSpec} → n ≡ m → (m.id == n.id) ≡ false → ⊥
differs {m} {n} e h = let same : (m.id == n.id) ≡ true = rw e (==_refl m.id) in cc

map-map :
    {A : Type 0} {B : Type 0} {C : Type 0} (f : B → C) (g : A → B) (xs : List A)
    → map f (map g xs) ≡ map (λ x. f (g x)) xs
map-map f g [] = refl
map-map f g (x ∷ xs) = rw (map-map f g xs) refl

module _ (workflow : WorkflowSpec) (options : RunOptions) (at : String) where
  fresh_status :
      (nodes : List NodeSpec) (node : NodeSpec)
      → Memᴰ node nodes
      → status_or_queued (run_of node.id (map (node_run_of workflow options at) nodes))
        ≡ (node_run_of workflow options at node).status
  unfolding node_run_of
  fresh_status [] node m = elim m [ ]
  fresh_status (n ∷ nodes) node m = elim (Bool-cases (n.id == node.id)) [
    | inl same ↦ let e : n.id ≡ node.id = (eq_iff n.id node.id).0 same in rw (same, e) refl
    | inr other ↦ elim (Memᴰ-split m) [
      | inl here ↦ absurd (differs here other)
      | inr there ↦ rw other (fresh_status nodes node there)
    ]
  ]

-- A node of the graph of a run that was just created.
abbrev pub IsFirst : WorkflowSpec → DagNode → Type 0
IsFirst workflow d =
    let free = All (λ e. ¬ Needs d.id e) workflow.edges in
    ((d.status ≡ NodeRunStatus.queued) ↔ free) × ((d.status ≡ NodeRunStatus.waiting) ↔ ¬ free)

All-map :
    {A : Type 0} {B : Type 0} (P : B → Type 0) (f : A → B) (xs : List A)
    → ((x : A) → Memᴰ x xs → P (f x))
    → All P (map f xs)
All-map P f [] h = tt
All-map P f (x ∷ xs) h = (h x (Memᴰ.head refl), All-map P f xs (λ y m. h y (Memᴰ.tail m)))

-- The graph of a run that was just created has the nodes of the workflow in their order. It shows a
-- node as queued exactly when no required edge leads to the node's id, and as waiting exactly when
-- that is not so, also if two nodes share an id.
pub create_run_from_workflow-dag :
    (current : String) (workflow : WorkflowSpec) (options : RunOptions)
    → let dag =
        build_dag_projection workflow
          (create_run_from_workflow current workflow options).node_runs in
      (map (λ d. d.id) dag.nodes ≡ map (λ n. n.id) workflow.nodes)
      × All (IsFirst workflow) dag.nodes
unfolding build_dag_projection create_run_from_workflow dag_node
create_run_from_workflow-dag current workflow options =
    let created_at = get_or options.created_at current in
    let runs = map (node_run_of workflow options created_at) workflow.nodes in
    (
      map-map (λ d. d.id) (dag_node workflow runs) workflow.nodes,
      All-map (IsFirst workflow) (dag_node workflow runs) workflow.nodes λ node m.
          rw (fresh_status workflow options created_at workflow.nodes node m)
            (node_run_of-queued_iff workflow options created_at node),
    )
