-- ===== src/Samples.antt =====
-- A small workflow and its run, which the tests of several parts share: a writer whose document a
-- reviewer approves and an editor reads.
use Prim.Native.String.{compare, count}
use miracle_agent.Prelude.{String, true, none, some, List, [], ◌∷◌}
use miracle_agent.Types.{
  NodeSpec, NodeType, NodePortSpec, PortKind, OnFailure, EdgeSpec, OnTimeout, OnNoQualifiedArtifact,
  ArtifactSpec, ReviewMode, CompareBy, GateSpec, WorkflowSpec, NodeRun, NodeRunStatus,
  ArtifactManifest, ArtifactStatus, ArtifactReviewStatus, GateInstance, GateStatus, GateVerdict,
  CalculateExecutionPlanInput,
}
use miracle_agent.Execution.{Runtime}

abbrev pub runtime : Runtime
runtime = record { locale_compare = compare; parse_date = λ s. some (count s) }

abbrev pub port : String → NodePortSpec
port id = record {
  id = id;
  kind = PortKind.artifact;
  artifact_type = none;
  required = true;
  artifact_spec_ref = some "doc";
}

abbrev pub node : String → List NodePortSpec → List NodePortSpec → NodeSpec
node id inputs outputs = record {
  id = id;
  name = id;
  type = NodeType.agent;
  domain_tags = none;
  capability_requirements = [];
  recommended_libraries = [];
  agent_candidates = [];
  inputs = inputs;
  outputs = outputs;
  review_gate_ref = none;
  runtime_policy = none;
  failure_policy = record {
    retry = 1;
    cost_budget = none;
    retry_policy = none;
    on_missing_input = OnFailure.blocked;
    on_provider_failure = OnFailure.failed;
  };
}

abbrev pub writer : NodeSpec
writer = node "writer" [] (port "out" ∷ [])

abbrev pub editor : NodeSpec
editor = node "editor" (port "in" ∷ []) []

abbrev pub edge : EdgeSpec
edge = record {
  from = "writer";
  to = "editor";
  required = true;
  optional_path_id = none;
  artifact_selector = none;
  join_policy = record {
    wait_if_active = true;
    max_wait = some "PT1M";
    on_timeout = OnTimeout.blocked;
    on_no_qualified_artifact = OnNoQualifiedArtifact.block_downstream;
  };
}

abbrev pub document : ArtifactSpec
document = record {
  id = "doc";
  type = "text/markdown";
  produced_by = "writer";
  review_policy = record { mode = ReviewMode.manual; gate_spec_id = some "review" };
  required_for = "editor" ∷ [];
  versioning = record { immutable = true; compare_by = CompareBy.hash };
}

abbrev pub review : GateSpec
review = record {
  id = "review";
  name = "Review";
  target_artifact_ref = "doc";
  required_before = "editor" ∷ [];
  actions = "approve" ∷ "reject" ∷ [];
}

abbrev pub workflow : WorkflowSpec
workflow = record {
  id = "wf";
  name = "Write and edit";
  version = "1";
  domain = "docs";
  category = "text";
  nodes = writer ∷ editor ∷ [];
  edges = edge ∷ [];
  gates = review ∷ [];
  artifacts = document ∷ [];
  provider_policy = record {
    default_provider = "codex";
    allowed_providers = "codex" ∷ [];
    required_credentials = "key" ∷ [];
    fallback_providers = [];
    credential_scopes = none;
  };
  layouts = record { dag = []; canvas = none };
  registry_meta = record { source = "builtin"; status = "active" };
}

abbrev pub node_run : (node_run_id run_id node_id : String) → NodeRunStatus → NodeRun
node_run node_run_id run_id node_id status = record {
  node_run_id = node_run_id;
  run_id = run_id;
  node_id = node_id;
  status = status;
  agent_id = none;
  provider = none;
  started_at = none;
  updated_at = "|";
  blocked_reason = none;
  upstream_artifacts = [];
  output_artifacts = [];
}

abbrev pub draft_text : ArtifactManifest
draft_text = record {
  artifact_id = "a_1";
  artifact_spec_ref = some "doc";
  run_id = "run";
  node_run_id = "nr_writer";
  type = "text/markdown";
  version = 1;
  path = "out/doc.md";
  hash = "h1";
  status = ArtifactStatus.created;
  review_status = ArtifactReviewStatus.approved;
  producer = "writer";
  created_at = "|";
  supersedes_artifact_id = none;
  rework_of_gate_instance_id = none;
}

abbrev pub approval : GateInstance
approval = record {
  gate_instance_id = "g_1";
  run_id = "run";
  gate_spec_id = "review";
  target = record { type = "ArtifactManifest"; id = "a_1" };
  status = GateStatus.decided;
  required_before = "editor" ∷ [];
  decisions =
      record {
        decision_id = "d_1";
        actor = "ann";
        decision = GateVerdict.approve;
        comment = "fine";
        created_at = "||";
      }
      ∷ [];
}

abbrev pub input : CalculateExecutionPlanInput
input = record {
  run_id = "run";
  workflow_snapshot_id = "snap";
  workflow = workflow;
  node_runs =
      node_run "nr_writer" "run" "writer" NodeRunStatus.done
      ∷ node_run "nr_editor" "run" "editor" NodeRunStatus.queued
      ∷ [];
  artifacts = draft_text ∷ [];
  gates = approval ∷ [];
  calculated_at = "|||";
  revision = none;
}
