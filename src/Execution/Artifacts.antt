-- ===== src/Execution/Artifacts.antt =====
-- execution-plan.ts: the node run and the artifact of a kind that count, by date or version.
use Prim.Native.Nat.{compare}
use Prim.Native.Char.{code}
use Prim.Native.String.{String, [], ◌∷◌}
use miracle_agent.Prelude.{
  ℕ, Ordering, Bool, true, false, not, ◌&&◌, ◌||◌, Option, List, filter, length, sort_by, first_by,
  ltb, leb, ◌==◌, nat_eq, string_eq, truthy, is_text, if◌then◌else◌, ◌+++◌,
}
use miracle_agent.Types.{
  EdgeSpec, NodeRun, NodeRunStatus, ArtifactManifest, ArtifactStatus, ArtifactSpec, WorkflowSpec,
}

-- What the source takes from its runtime: `String.prototype.localeCompare`, and `Date.parse` in
-- milliseconds, `none` for `NaN`.
pub record Runtime : Type 0 where
  pub locale_compare : String → String → Ordering
  pub parse_date : String → Option ℕ

-- activeStatuses
abbrev pub is_active : NodeRunStatus → Bool
is_active NodeRunStatus.queued = true
is_active NodeRunStatus.running = true
is_active NodeRunStatus.waiting = true
is_active NodeRunStatus.reviewing = true
is_active _ = false

-- terminalStatuses
abbrev pub is_over : NodeRunStatus → Bool
is_over NodeRunStatus.done = true
is_over NodeRunStatus.failed = true
is_over NodeRunStatus.skipped = true
is_over _ = false

abbrev pub is_done : NodeRunStatus → Bool
is_done NodeRunStatus.done = true
is_done _ = false

abbrev pub is_created : ArtifactStatus → Bool
is_created ArtifactStatus.created = true
is_created _ = false

unfoldable pub edge_id : EdgeSpec → String
edge_id edge = edge.from +++ "->" +++ edge.to

unfoldable pub sorted_edges : Runtime → List EdgeSpec → List EdgeSpec
sorted_edges rt edges =
    sort_by (λ left right. rt.locale_compare (edge_id left) (edge_id right)) edges

unfoldable pub compare_node_runs : Runtime → NodeRun → NodeRun → Ordering
compare_node_runs rt left right =
    if left.updated_at == right.updated_at
    then rt.locale_compare left.node_run_id right.node_run_id
    else rt.locale_compare right.updated_at left.updated_at

unfoldable pub node_run_for_node_id : Runtime → List NodeRun → String → Option NodeRun
node_run_for_node_id rt node_runs node_id =
    first_by (compare_node_runs rt) (filter (λ r. r.node_id == node_id) node_runs)

unfoldable pub compare_artifacts : Runtime → ArtifactManifest → ArtifactManifest → Ordering
compare_artifacts rt left right =
    if left.version == right.version
    then if left.created_at == right.created_at
      then rt.locale_compare left.artifact_id right.artifact_id
      else rt.locale_compare right.created_at left.created_at
    else compare right.version left.version

unfoldable pub newest_artifact : Runtime → List ArtifactManifest → Option ArtifactManifest
newest_artifact rt artifacts = first_by (compare_artifacts rt) artifacts

-- The white space and the line ends that `trim` removes.
abbrev is_space : ℕ → Bool
is_space c =
    (leb 9 c && leb c 13)
    || c == 32
    || c == 160
    || c == 5760
    || (leb 8192 c && leb c 8202)
    || c == 8232
    || c == 8233
    || c == 8239
    || c == 8287
    || c == 12288
    || c == 65279

-- `text.trim().length > 0`
unfoldable pub has_text : String → Bool
has_text [] = false
has_text (c ∷ s) = not (is_space (code c)) || has_text s

-- A version is a whole number here, so `Number.isInteger` holds of it.
unfoldable pub artifact_metadata_valid : ArtifactManifest → Bool
artifact_metadata_valid artifact =
    ltb 0 artifact.version && (has_text artifact.hash && has_text artifact.path)

unfoldable pub artifact_matches_spec : WorkflowSpec → ArtifactManifest → ArtifactSpec → Bool
artifact_matches_spec workflow artifact spec =
    artifact.type == spec.type
    && (if truthy artifact.artifact_spec_ref
        then is_text artifact.artifact_spec_ref spec.id
        else length (
            filter (λ item. item.produced_by == spec.produced_by && item.type == spec.type)
              workflow.artifacts)
          == 1)
