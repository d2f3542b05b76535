-- ===== src/Validation/Exact.antt =====
-- validation.ts: `validateWorkflowSpec` accepts exactly the well-formed workflows.
use miracle_agent.Prelude.{
  String, Bool, true, false, ◌&&◌, List, [], ◌∷◌, string_eq, ◌≡◌, refl, ◌↔◌, Memᴰ,
}
use miracle_agent.Types.{EdgeSpec, ArtifactSpec, GateSpec, WorkflowSpec}
use miracle_agent.Validation.{
  dangling, edge_errors, artifact_errors, gate_errors, node_ids_of, artifact_ids_of, gate_ids_of,
  workflow_errors, is_reviewed, is_empty, parsed, validate_parsed,
}
use miracle_agent.Validation.WellFormed.{
  Resolves, EdgeRefers, ArtifactRefers, IsWellFormed, append-nil_iff, flat_map-nil_iff,
  when-nil_iff, missing_iff, dangling_iff, node_errors-nil_iff,
}

module _ (w : WorkflowSpec) where
  edge_errors-nil_iff : (e : EdgeSpec) → (edge_errors (node_ids_of w) e ≡ []) ↔ EdgeRefers w e
  unfolding edge_errors
  edge_errors-nil_iff e =
      let known = missing_iff (node_ids_of w) in
      (
        λ h.
            let (a, b) = (append-nil_iff _ _).0 h in
            record {
              from = (known e.from).0 ((when-nil_iff _ _).0 a);
              to = (known e.to).0 ((when-nil_iff _ _).0 b);
            },
        λ r. (append-nil_iff _ _).1 (
          (when-nil_iff _ _).1 ((known e.from).1 r.from),
          (when-nil_iff _ _).1 ((known e.to).1 r.to),
        ),
      )

  reviewed_iff :
      (b : Bool) (ids : List String) (a : ArtifactSpec)
      → (b && dangling ids a.review_policy.gate_spec_id ≡ false)
        ↔ (b ≡ true → Resolves ids a.review_policy.gate_spec_id)
  reviewed_iff true ids a =
      let known = dangling_iff ids a.review_policy.gate_spec_id in
      (λ h _. known.0 h, λ h. known.1 (h refl))
  reviewed_iff false ids a = (λ h e. cc, λ h. refl)

  artifact_errors-nil_iff :
      (a : ArtifactSpec)
      → (artifact_errors (node_ids_of w) (gate_ids_of w) a ≡ []) ↔ ArtifactRefers w a
  unfolding artifact_errors
  artifact_errors-nil_iff a =
      let known = missing_iff (node_ids_of w) a.produced_by in
      let gate = reviewed_iff (is_reviewed a.review_policy.mode) (gate_ids_of w) a in
      (
        λ h.
            let (p, q) = (append-nil_iff _ _).0 h in
            record {
              producer = known.0 ((when-nil_iff _ _).0 p);
              gate = gate.0 ((when-nil_iff _ _).0 q);
            },
        λ r.
            (append-nil_iff _ _).1
              ((when-nil_iff _ _).1 (known.1 r.producer), (when-nil_iff _ _).1 (gate.1 r.gate)),
      )

  gate_errors-nil_iff :
      (g : GateSpec)
      → (gate_errors (artifact_ids_of w) g ≡ []) ↔ Memᴰ g.target_artifact_ref (artifact_ids_of w)
  unfolding gate_errors
  gate_errors-nil_iff g =
      let known = missing_iff (artifact_ids_of w) g.target_artifact_ref in
      (λ h. known.0 ((when-nil_iff _ _).0 h), λ m. (when-nil_iff _ _).1 (known.1 m))

  workflow_errors-nil_iff : (workflow_errors w ≡ []) ↔ IsWellFormed w
  unfolding workflow_errors
  workflow_errors-nil_iff =
      let nodes = node_errors-nil_iff (artifact_ids_of w) (gate_ids_of w) [] w.nodes in
      let edges = flat_map-nil_iff (edge_errors (node_ids_of w)) _ edge_errors-nil_iff w.edges in
      let artifacts =
        flat_map-nil_iff (artifact_errors (node_ids_of w) (gate_ids_of w)) _ artifact_errors-nil_iff
          w.artifacts in
      let gates =
        flat_map-nil_iff (gate_errors (artifact_ids_of w)) _ gate_errors-nil_iff w.gates in
      (
        λ h.
            let (a, h₁) = (append-nil_iff _ _).0 h in
            let (b, h₂) = (append-nil_iff _ _).0 h₁ in
            let (c, d) = (append-nil_iff _ _).0 h₂ in
            let (distinct, refer) = nodes.0 a in
            record {
              distinct = distinct;
              nodes = refer;
              edges = edges.0 b;
              artifacts = artifacts.0 c;
              gates = gates.0 d;
            },
        λ r. (append-nil_iff _ _).1 (
          nodes.1 (r.distinct, r.nodes),
          (append-nil_iff _ _).1
              (edges.1 r.edges, (append-nil_iff _ _).1 (artifacts.1 r.artifacts, gates.1 r.gates)),
        ),
      )

is_empty_iff {ℓ} : {A : Type ℓ} (xs : List A) → (is_empty xs ≡ true) ↔ (xs ≡ [])
is_empty_iff [] = (λ h. refl, λ h. refl)
is_empty_iff (x ∷ xs) = (λ h. cc, λ h. cc)

-- A workflow that the schema accepts is valid exactly when the ids of its nodes differ, the artifact
-- of every node output and the review gate of every node are declared where they are named, every
-- edge joins two of its nodes, every artifact is produced by one of its nodes and, if it is reviewed,
-- names no undeclared gate, and every gate reviews one of its artifacts.
pub validate_parsed-valid_iff :
    (checked_at : String) (w : WorkflowSpec)
    → ((validate_parsed checked_at (parsed w)).valid ≡ true) ↔ IsWellFormed w
unfolding validate_parsed
validate_parsed-valid_iff checked_at w =
    let none_left = is_empty_iff (workflow_errors w) in
    let fine = workflow_errors-nil_iff w in
    (λ h. fine.0 (none_left.0 h), λ r. none_left.1 (fine.1 r))
