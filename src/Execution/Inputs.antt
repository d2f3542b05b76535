-- ===== src/Execution/Inputs.antt =====
-- execution-plan.ts: the artifacts that qualify for an edge, and the inputs that they resolve.
use miracle_agent.Prelude.{
  String, Bool, true, false, not, ◌&&◌, ◌||◌, Option, none, some, get_or, List, [], ◌∷◌, filter,
  find, any, flat_map, ◌==◌, string_eq, truthy, is_text, or_else, if◌then◌else◌,
}
use miracle_agent.Types.{
  EdgeSpec, ArtifactSelector, ArtifactReviewStatus, NodePortSpec, PortKind, NodeSpec, NodeRun,
  ArtifactManifest, ArtifactSpec, WorkflowSpec, SourceKind, ResolvedNodeInput,
  ResolveNodeInputsInput,
}
use miracle_agent.Execution.Artifacts.{
  Runtime, is_done, is_created, sorted_edges, node_run_for_node_id, newest_artifact,
  artifact_metadata_valid, artifact_matches_spec,
}

abbrev pub review_status_eq : ArtifactReviewStatus → ArtifactReviewStatus → Bool
review_status_eq ArtifactReviewStatus.none_required ArtifactReviewStatus.none_required = true
review_status_eq ArtifactReviewStatus.pending_review ArtifactReviewStatus.pending_review = true
review_status_eq ArtifactReviewStatus.approved ArtifactReviewStatus.approved = true
review_status_eq ArtifactReviewStatus.rejected ArtifactReviewStatus.rejected = true
review_status_eq _ _ = false

abbrev pub fits_spec : WorkflowSpec → Option ArtifactSpec → ArtifactManifest → Bool
fits_spec workflow none artifact = true
fits_spec workflow (some spec) artifact = artifact_matches_spec workflow artifact spec

-- `!(type && artifact.type !== type)`
abbrev pub fits_type : Option String → ArtifactManifest → Bool
fits_type type artifact = not (truthy type) || is_text type artifact.type

abbrev pub fits_review : Option ArtifactReviewStatus → ArtifactManifest → Bool
fits_review none artifact = true
fits_review (some status) artifact = review_status_eq artifact.review_status status

abbrev pub fits_selector : Option ArtifactSelector → ArtifactManifest → Bool
fits_selector none artifact = true
fits_selector (some selector) artifact =
    fits_type selector.artifact_type artifact && fits_review selector.review_status artifact

-- `artifactQualifies`, called with an edge from the source node.
abbrev pub qualifies_from :
    WorkflowSpec
    → Option NodeRun
    → List ArtifactManifest
    → Option ArtifactSpec
    → Option String
    → EdgeSpec
    → List ArtifactManifest
qualifies_from workflow none artifacts spec type edge = []
qualifies_from workflow (some source) artifacts spec type edge =
    let found =
      filter
        (λ a.
          (a.node_run_id == source.node_run_id
            && (is_created a.status && artifact_metadata_valid a))
          && (fits_spec workflow spec a
              && (fits_type type a && fits_selector edge.artifact_selector a)))
        artifacts in
    if is_done source.status then found else []

unfoldable pub artifact_qualifies :
    Runtime
    → WorkflowSpec
    → (source_node_id : String) → List NodeRun
    → List ArtifactManifest
    → Option ArtifactSpec
    → (artifact_type : Option String) → EdgeSpec
    → List ArtifactManifest
artifact_qualifies rt workflow source_node_id node_runs artifacts spec type edge =
    qualifies_from workflow (node_run_for_node_id rt node_runs source_node_id) artifacts spec type
      edge

unfoldable pub input_artifact_spec : WorkflowSpec → NodePortSpec → Option ArtifactSpec
input_artifact_spec workflow input =
    if truthy input.artifact_spec_ref
    then find (λ item. is_text input.artifact_spec_ref item.id) workflow.artifacts
    else none

abbrev pub is_artifact : PortKind → Bool
is_artifact PortKind.artifact = true
is_artifact PortKind.parameter = false

abbrev pub produced_at : Option ArtifactSpec → String → Bool
produced_at none source = true
produced_at (some spec) source = spec.produced_by == source

unfoldable pub input_matches_edge : WorkflowSpec → NodePortSpec → EdgeSpec → Bool
input_matches_edge workflow input edge =
    is_artifact input.kind && produced_at (input_artifact_spec workflow input) edge.from

abbrev pub type_of : Option ArtifactSpec → Option String
type_of none = none
type_of (some spec) = some spec.type

unfoldable pub qualified_artifacts_for_input :
    Runtime
    → WorkflowSpec
    → NodePortSpec
    → EdgeSpec
    → List NodeRun
    → List ArtifactManifest
    → List ArtifactManifest
qualified_artifacts_for_input rt workflow input edge node_runs artifacts =
    let spec = input_artifact_spec workflow input in
    artifact_qualifies rt workflow edge.from node_runs artifacts spec
      (or_else input.artifact_type (type_of spec)) edge

-- `candidates.filter((a, index) => candidates.findIndex(…) === index)`: the first of each id.
first_of_each : (seen : List ArtifactManifest) → List ArtifactManifest → List ArtifactManifest
first_of_each seen [] = []
first_of_each seen (a ∷ rest) =
    let later = first_of_each (a ∷ seen) rest in
    if any (λ item. item.artifact_id == a.artifact_id) seen then later else a ∷ later

unfoldable pub qualified_artifacts_for_destination_edge :
    Runtime
    → WorkflowSpec
    → NodeSpec
    → EdgeSpec
    → List NodeRun
    → List ArtifactManifest
    → List ArtifactManifest
unfolding first_of_each
qualified_artifacts_for_destination_edge rt workflow node edge node_runs artifacts =
    first_of_each [] (
      flat_map (λ input. qualified_artifacts_for_input rt workflow input edge node_runs artifacts)
        (filter (λ input. input_matches_edge workflow input edge) node.inputs))

abbrev pub resolved_artifact_input :
    NodePortSpec → ArtifactManifest → (calculated_at : String) → ResolvedNodeInput
resolved_artifact_input input artifact calculated_at = record {
  input_id = input.id;
  source_kind = SourceKind.artifact;
  source_ref = artifact.path;
  artifact_id = some artifact.artifact_id;
  artifact_version = some artifact.version;
  artifact_hash = some artifact.hash;
  media_type = artifact.type;
  required = input.required;
  resolved_at = calculated_at;
}

abbrev pub resolved_parameter : NodePortSpec → (calculated_at : String) → ResolvedNodeInput
resolved_parameter input calculated_at = record {
  input_id = input.id;
  source_kind = SourceKind.parameter;
  source_ref = input.id;
  artifact_id = none;
  artifact_version = none;
  artifact_hash = none;
  media_type = get_or input.artifact_type "application/json";
  required = input.required;
  resolved_at = calculated_at;
}

abbrev pub resolved_from :
    NodePortSpec → (calculated_at : String) → Option ArtifactManifest → List ResolvedNodeInput
resolved_from input calculated_at none = []
resolved_from input calculated_at (some a) = resolved_artifact_input input a calculated_at ∷ []

-- The candidates of one input, edge by edge.
unfoldable pub input_candidates :
    Runtime
    → WorkflowSpec
    → (incoming : List EdgeSpec) → List NodeRun
    → List ArtifactManifest
    → NodePortSpec
    → List ArtifactManifest
input_candidates rt workflow incoming node_runs artifacts input =
    flat_map (λ edge. qualified_artifacts_for_input rt workflow input edge node_runs artifacts)
      (filter (λ edge. input_matches_edge workflow input edge) incoming)

-- The edges to a node, in the order of their ids.
unfoldable pub incoming_edges : Runtime → WorkflowSpec → NodeSpec → List EdgeSpec
incoming_edges rt workflow node =
    sorted_edges rt (filter (λ edge. edge.to == node.id) workflow.edges)

unfoldable pub resolve_node_input :
    Runtime
    → WorkflowSpec
    → (incoming : List EdgeSpec) → List NodeRun
    → List ArtifactManifest
    → (calculated_at : String) → NodePortSpec
    → List ResolvedNodeInput
resolve_node_input rt workflow incoming node_runs artifacts calculated_at input =
    if is_artifact input.kind
    then resolved_from input calculated_at
        (newest_artifact rt (input_candidates rt workflow incoming node_runs artifacts input))
    else resolved_parameter input calculated_at ∷ []

unfoldable pub resolve_node_inputs : Runtime → ResolveNodeInputsInput → List ResolvedNodeInput
resolve_node_inputs rt i =
    flat_map
      (resolve_node_input rt i.workflow (incoming_edges rt i.workflow i.node)
        (filter (λ r. r.run_id == i.run_id) i.node_runs)
        (filter (λ a. a.run_id == i.run_id) i.artifacts) i.calculated_at)
      i.node.inputs
