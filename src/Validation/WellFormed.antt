-- ===== src/Validation/WellFormed.antt =====
-- validation.ts: a workflow is valid exactly when its references resolve.
use miracle_agent.Prelude.{
  String, Bool, true, false, not, Option, none, some, List, [], ◌∷◌, ◌++◌, flat_map, All, includes,
  string_eq, ◌==◌, eq_iff, ◌≡◌, refl, ◌≢◌, ◌↔◌, arith, Memᴰ, Bool-cases, inl, inr, includes→Memᴰ,
  Memᴰ→includes,
}
use miracle_agent.Types.{NodeSpec, NodePortSpec, EdgeSpec, ArtifactSpec, GateSpec, WorkflowSpec}
use miracle_agent.Validation.{
  dangling, output_errors, node_errors, node_ids_of, artifact_ids_of, gate_ids_of, is_reviewed,
  when,
}

-- An id that is given, and is not empty, is one of `ids`.
abbrev pub Resolves : List String → Option String → Type 0
Resolves ids none = Unit
Resolves ids (some ref) = ref ≢ "" → Memᴰ ref ids

-- No id is among those before it.
abbrev pub AreFresh : List String → List NodeSpec → Type 0
AreFresh seen [] = Unit
AreFresh seen (n ∷ ns) = ¬ Memᴰ n.id seen × AreFresh (n.id ∷ seen) ns

pub record NodeRefers (artifact_ids gate_ids : List String) (n : NodeSpec) : Type 0 where
  pub outputs : All (λ (o : NodePortSpec). Resolves artifact_ids o.artifact_spec_ref) n.outputs
  pub gate : Resolves gate_ids n.review_gate_ref

pub record EdgeRefers (w : WorkflowSpec) (e : EdgeSpec) : Type 0 where
  pub from : Memᴰ e.from (node_ids_of w)
  pub to : Memᴰ e.to (node_ids_of w)

pub record ArtifactRefers (w : WorkflowSpec) (a : ArtifactSpec) : Type 0 where
  pub producer : Memᴰ a.produced_by (node_ids_of w)
  pub gate :
      is_reviewed a.review_policy.mode ≡ true
      → Resolves (gate_ids_of w) a.review_policy.gate_spec_id

-- Every id that the workflow mentions is declared, and the ids of its nodes differ.
pub record IsWellFormed (w : WorkflowSpec) : Type 0 where
  pub distinct : AreFresh [] w.nodes
  pub nodes : All (NodeRefers (artifact_ids_of w) (gate_ids_of w)) w.nodes
  pub edges : All (EdgeRefers w) w.edges
  pub artifacts : All (ArtifactRefers w) w.artifacts
  pub gates : All (λ (g : GateSpec). Memᴰ g.target_artifact_ref (artifact_ids_of w)) w.gates

pub append-nil_iff {ℓ} : {A : Type ℓ} (xs ys : List A) → (xs ++ ys ≡ []) ↔ ((xs ≡ []) × (ys ≡ []))
append-nil_iff [] ys = (λ h. (refl, h), λ h. h.1)
append-nil_iff (x ∷ xs) ys = (λ h. cc, λ h. cc)

pub flat_map-nil_iff {ℓ κ μ} :
    {A : Type ℓ} {B : Type κ} (f : A → List B) (P : A → Type μ)
    → ((x : A) → (f x ≡ []) ↔ P x)
    → (xs : List A) → (flat_map f xs ≡ []) ↔ All P xs
flat_map-nil_iff f P each [] = (λ h. tt, λ h. refl)
flat_map-nil_iff f P each (x ∷ xs) =
    let both = append-nil_iff (f x) (flat_map f xs) in
    let rest = flat_map-nil_iff f P each xs in
    (
      λ h. let (a, b) = both.0 h in ((each x).0 a, rest.0 b),
      λ (a, b). both.1 ((each x).1 a, rest.1 b),
    )

pub when-nil_iff {ℓ} : {A : Type ℓ} (b : Bool) (i : A) → (when b i ≡ []) ↔ (b ≡ false)
when-nil_iff true i = (λ h. cc, λ h. cc)
when-nil_iff false i = (λ h. refl, λ h. refl)

pub missing_iff : (ids : List String) (x : String) → (not (includes ids x) ≡ false) ↔ Memᴰ x ids
missing_iff ids x = (λ h. includes→Memᴰ ids x (ground arith), λ m. rw (Memᴰ→includes ids x m))

pub dangling_iff :
    (ids : List String) (ref : Option String) → (dangling ids ref ≡ false) ↔ Resolves ids ref
dangling_iff ids none = (λ h. tt, λ h. refl)
dangling_iff ids (some ref) = (
  λ h ne. includes→Memᴰ ids ref (ground (arith, eq_iff ref "")),
  λ h. elim (Bool-cases (ref == "")) [
    | inl empty ↦ ground arith
    | inr full ↦
        let m = Memᴰ→includes ids ref (h (λ e. ground (arith, eq_iff ref ""))) in ground arith
  ],
)

fresh_iff : (seen : List String) (x : String) → (includes seen x ≡ false) ↔ (¬ Memᴰ x seen)
fresh_iff seen x = (
  λ h m. let known = Memᴰ→includes seen x m in cc,
  λ h. elim (Bool-cases (includes seen x)) [
    | inl known ↦ absurd (h (includes→Memᴰ seen x known))
    | inr new ↦ new
  ],
)

module _ (artifact_ids gate_ids : List String) where
  outputs_iff :
      (n : NodeSpec)
      → (flat_map (output_errors artifact_ids n) n.outputs ≡ [])
        ↔ All (λ (o : NodePortSpec). Resolves artifact_ids o.artifact_spec_ref) n.outputs
  unfolding output_errors
  outputs_iff n =
      flat_map-nil_iff (output_errors artifact_ids n) _
        (λ o.
          let quiet = when-nil_iff (dangling artifact_ids o.artifact_spec_ref) _ in
          let known = dangling_iff artifact_ids o.artifact_spec_ref in
          (λ h. known.0 (quiet.0 h), λ r. quiet.1 (known.1 r)))
        n.outputs

  pub node_errors-nil_iff :
      (seen : List String) (nodes : List NodeSpec)
      → (node_errors artifact_ids gate_ids seen nodes ≡ [])
        ↔ (AreFresh seen nodes × All (NodeRefers artifact_ids gate_ids) nodes)
  unfolding node_errors
  node_errors-nil_iff seen [] = (λ h. (tt, tt), λ h. refl)
  node_errors-nil_iff seen (n ∷ ns) =
      let new = when-nil_iff (includes seen n.id) _ in
      let fresh = fresh_iff seen n.id in
      let outs = outputs_iff n in
      let quiet = when-nil_iff (dangling gate_ids n.review_gate_ref) _ in
      let gate = dangling_iff gate_ids n.review_gate_ref in
      let rest = node_errors-nil_iff (n.id ∷ seen) ns in
      (
        λ h.
            let (a, h₁) = (append-nil_iff _ _).0 h in
            let (b, h₂) = (append-nil_iff _ _).0 h₁ in
            let (c, d) = (append-nil_iff _ _).0 h₂ in
            let (f, all) = rest.0 d in
            (
              (fresh.0 (new.0 a), f),
              (record { outputs = outs.0 b; gate = gate.0 (quiet.0 c) }, all),
            ),
        λ ((f, fs), (r, rs)). (append-nil_iff _ _).1 (
          new.1 (fresh.1 f),
          (append-nil_iff _ _).1
              (outs.1 r.outputs, (append-nil_iff _ _).1 (quiet.1 (gate.1 r.gate), rest.1 (fs, rs))),
        ),
      )
