-- ===== src/Execution/Sources.antt =====
-- execution-plan.ts: where the resolved inputs of a node come from.
use miracle_agent.Prelude.{
  String, true, false, Option, none, some, List, [], ◌∷◌, filter, flat_map, ◌==◌, string_eq, ◌≡◌,
  refl, inl, inr, arith, Memᴰ, Memᴰ-cons, filter-Memᴰ, Bool-cases, Option-cases, eq_iff,
  sort_by-Memᴰ, first_by-Memᴰ,
}
use mathlib.Core.List.Memᴰ
use miracle_agent.Types.{
  EdgeSpec, NodePortSpec, PortKind, NodeRun, NodeRunStatus, ArtifactManifest, ArtifactStatus,
  WorkflowSpec, ResolvedNodeInput, ResolveNodeInputsInput,
}
use miracle_agent.Execution.Artifacts.{
  Runtime, is_done, is_created, compare_artifacts, newest_artifact, node_run_for_node_id,
  artifact_metadata_valid, sorted_edges,
}
use miracle_agent.Execution.Inputs.{
  artifact_qualifies, qualified_artifacts_for_input, input_matches_edge, is_artifact,
  input_candidates, incoming_edges, resolved_artifact_input, resolved_parameter, resolved_from,
  resolve_node_input, resolve_node_inputs,
}

-- An artifact that an edge offers: created, with valid metadata, by the source's latest run, which
-- is done.
pub record IsOffered (rt : Runtime) (node_runs : List NodeRun) (artifacts : List ArtifactManifest)
    (edge : EdgeSpec) (a : ArtifactManifest) : Type 0 where
  pub listed : Memᴰ a artifacts
  pub created : a.status ≡ ArtifactStatus.created
  pub valid : artifact_metadata_valid a ≡ true
  pub source : NodeRun
  pub found : node_run_for_node_id rt node_runs edge.from ≡ some source
  pub done : source.status ≡ NodeRunStatus.done
  pub made : a.node_run_id ≡ source.node_run_id

is_created-eq : (s : ArtifactStatus) → is_created s ≡ true → s ≡ ArtifactStatus.created
is_created-eq s h = ground arith

is_done-eq : (s : NodeRunStatus) → is_done s ≡ true → s ≡ NodeRunStatus.done
is_done-eq s h = ground arith

flat_map-Memᴰ {ℓ κ} :
    {A : Type ℓ} {B : Type κ} (f : A → List B) (xs : List A) {b : B}
    → Memᴰ b (flat_map f xs)
    → (a : A) × Memᴰ a xs × Memᴰ b (f a)
flat_map-Memᴰ f [] m = elim m [ ]
flat_map-Memᴰ f (x ∷ xs) m = elim (Memᴰ.append_cases (f x) m) [
  | inl here ↦ (x, Memᴰ.head refl, here)
  | inr there ↦ let (a, k, n) = flat_map-Memᴰ f xs there in (a, Memᴰ.tail k, n)
]

module _ (rt : Runtime) (workflow : WorkflowSpec) (node_runs : List NodeRun)
    (artifacts : List ArtifactManifest) where
  qualified-IsOffered :
      (input : NodePortSpec) (edge : EdgeSpec) {a : ArtifactManifest}
      → Memᴰ a (qualified_artifacts_for_input rt workflow input edge node_runs artifacts)
      → IsOffered rt node_runs artifacts edge a
  unfolding qualified_artifacts_for_input artifact_qualifies
  qualified-IsOffered input edge {a} m =
      elim (Option-cases (node_run_for_node_id rt node_runs edge.from)) [
        | inl missing ↦ elim (rw missing at m) [ ]
        | inr (source, found) ↦ elim (Bool-cases (is_done source.status)) [
          | inr busy ↦ elim (rw (found, busy) at m) [ ]
          | inl done ↦
              let (listed, fits) = filter-Memᴰ _ artifacts (rw (found, done) at m) in
              record {
                listed = listed;
                created = is_created-eq a.status (ground arith);
                valid = ground arith;
                source = source;
                found = found;
                done = is_done-eq source.status done;
                made = (eq_iff a.node_run_id source.node_run_id).0 (ground arith);
              }
        ]
      ]

-- What a resolved input is taken from: a parameter of the node, or an artifact of this run that an
-- edge of the workflow to this node offers.
pub data IsSourced (rt : Runtime) (i : ResolveNodeInputsInput) (r : ResolvedNodeInput)
    : Type 0 where
  parameter :
      (input : NodePortSpec)
      → Memᴰ input i.node.inputs
      → input.kind ≡ PortKind.parameter
      → r ≡ resolved_parameter input i.calculated_at
      → IsSourced rt i r
  artifact :
      (input : NodePortSpec) (edge : EdgeSpec) (a : ArtifactManifest)
      → Memᴰ input i.node.inputs
      → Memᴰ edge i.workflow.edges
      → edge.to ≡ i.node.id
      → a.run_id ≡ i.run_id
      → IsOffered rt (filter (λ x. x.run_id == i.run_id) i.node_runs) i.artifacts edge a
      → r ≡ resolved_artifact_input input a i.calculated_at
      → IsSourced rt i r

resolved_from-Memᴰ :
    (input : NodePortSpec) (at : String) (found : Option ArtifactManifest) {r : ResolvedNodeInput}
    → Memᴰ r (resolved_from input at found)
    → (a : ArtifactManifest) × (found ≡ some a) × (r ≡ resolved_artifact_input input a at)
resolved_from-Memᴰ input at none m = elim m [ ]
resolved_from-Memᴰ input at (some a) {r} m = Memᴰ-cons _ m (λ e. (a, refl, e)) (λ k. elim k [ ])

is_artifact-parameter : (k : PortKind) → is_artifact k ≡ false → k ≡ PortKind.parameter
is_artifact-parameter k h = ground arith

-- Every resolved input is a parameter of the node, or a created artifact of this run with valid
-- metadata, made by the latest run of the source of an edge to the node, which is done.
pub resolve_node_inputs-IsSourced :
    (rt : Runtime) (i : ResolveNodeInputsInput) (r : ResolvedNodeInput)
    → Memᴰ r (resolve_node_inputs rt i)
    → IsSourced rt i r
unfolding resolve_node_inputs resolve_node_input input_candidates newest_artifact incoming_edges
    sorted_edges
resolve_node_inputs-IsSourced rt i r m =
    let runs = filter (λ x. x.run_id == i.run_id) i.node_runs in
    let artifacts = filter (λ a. a.run_id == i.run_id) i.artifacts in
    let incoming = incoming_edges rt i.workflow i.node in
    let (input, k, n) =
      flat_map-Memᴰ (resolve_node_input rt i.workflow incoming runs artifacts i.calculated_at)
        i.node.inputs m in
    elim (Bool-cases (is_artifact input.kind)) [
      | inr given ↦
          Memᴰ-cons _ (rw given at n)
            (λ e. IsSourced.parameter input k (is_artifact-parameter input.kind given) e)
            (λ x. elim x [ ])
      | inl read ↦
          let candidates = input_candidates rt i.workflow incoming runs artifacts input in
          let (a, newest, made) =
            resolved_from-Memᴰ input i.calculated_at (newest_artifact rt candidates)
              (rw read at n) in
          let (edge, here, offered) =
            flat_map-Memᴰ
              (λ edge. qualified_artifacts_for_input rt i.workflow input edge runs artifacts)
              (filter (λ edge. input_matches_edge i.workflow input edge) incoming)
              (first_by-Memᴰ (compare_artifacts rt) candidates newest) in
          let o = qualified-IsOffered rt i.workflow runs artifacts input edge offered in
          let (listed, own) = filter-Memᴰ (λ a. a.run_id == i.run_id) i.artifacts o.listed in
          let (member, _) =
            filter-Memᴰ (λ edge. input_matches_edge i.workflow input edge) incoming here in
          let (known, to) =
            filter-Memᴰ (λ edge. edge.to == i.node.id) i.workflow.edges (sort_by-Memᴰ _ _ member) in
          IsSourced.artifact input edge a k known ((eq_iff edge.to i.node.id).0 to)
            ((eq_iff a.run_id i.run_id).0 own)
            (record {
              listed = listed;
              created = o.created;
              valid = o.valid;
              source = o.source;
              found = o.found;
              done = o.done;
              made = o.made;
            })
            made
    ]
