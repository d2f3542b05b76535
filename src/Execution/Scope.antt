-- ===== src/Execution/Scope.antt =====
-- execution-plan.ts: a plan reads the records of its own run only.
use miracle_agent.Prelude.{
  String, false, List, [], ◌∷◌, ◌++◌, filter, All, ◌==◌, string_eq, ◌≡◌, ◌≢◌, refl, eq_iff, inl,
  inr, Bool-cases,
}
use miracle_agent.Types.{NodeRun, ArtifactManifest, GateInstance, CalculateExecutionPlanInput}
use miracle_agent.Execution.Artifacts.{Runtime}
use miracle_agent.Execution.Decision.{calculate_execution_plan}

different : (a b : String) → a ≢ b → (a == b) ≡ false
different a b h = elim (Bool-cases (a == b)) [
  | inl same ↦ absurd (h ((eq_iff a b).0 same))
  | inr other ↦ other
]

filter-foreign {ℓ} :
    {A : Type ℓ} (key : A → String) (id : String) (foreign own : List A)
    → All (λ x. key x ≢ id) foreign
    → filter (λ x. key x == id) (foreign ++ own) ≡ filter (λ x. key x == id) own
filter-foreign key id [] own h = refl
filter-foreign key id (x ∷ foreign) own (here, there) =
    rw (different (key x) id here) (filter-foreign key id foreign own there)

-- Node runs, artifacts and gates of other runs, put in front of the records of a run, change
-- nothing in its plan.
pub foreign-ignored :
    (rt : Runtime) (i : CalculateExecutionPlanInput) (node_runs : List NodeRun)
    (artifacts : List ArtifactManifest) (gates : List GateInstance)
    → All (λ r. r.run_id ≢ i.run_id) node_runs
    → All (λ a. a.run_id ≢ i.run_id) artifacts
    → All (λ g. g.run_id ≢ i.run_id) gates
    → calculate_execution_plan rt (record i {
      node_runs = node_runs ++ i.node_runs;
      artifacts = artifacts ++ i.artifacts;
      gates = gates ++ i.gates;
    })
      ≡ calculate_execution_plan rt i
unfolding calculate_execution_plan
foreign-ignored rt i node_runs artifacts gates r a g =
    rw
      (
        filter-foreign (λ r. r.run_id) i.run_id node_runs i.node_runs r,
        filter-foreign (λ a. a.run_id) i.run_id artifacts i.artifacts a,
        filter-foreign (λ g. g.run_id) i.run_id gates i.gates g,
      )
      refl
