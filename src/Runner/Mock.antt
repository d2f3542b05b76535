-- ===== src/Runner/Mock.antt =====
-- packages/core/src/runner.ts: `executeMockAdapter`. `pretty` is `JSON.stringify(value, null, 2)`.
use miracle_agent.Prelude.{
  ℕ, suc, ◌-◌, String, Bool, true, false, Option, none, some, get_or, List, [], ◌∷◌, find, includes,
  ◌==◌, string_eq, is_text, normalize_id, show, if◌then◌else◌, ◌+++◌, Result, ok, throw,
  schema_error, ◌>>=◌,
}
use miracle_agent.Prelude.Json.{Json, Items, Fields}
use miracle_agent.Prelude.Dates.{Dates}
use miracle_agent.Types.{
  ExpectedOutput, AdapterInvocation, AdapterResult, AdapterArtifactDescriptor, ProviderReceipt,
  NodeSpec, ArtifactStatus, ArtifactReviewStatus, ArtifactSpec, WorkflowSpec, AttemptStatus,
  ReviewMode,
}
use miracle_agent.Schemas.{adapter_result_schema}
use miracle_agent.Runner.{find_node}

unfoldable pub extension_for_type : String → String
extension_for_type type =
    if includes ("json" ∷ "dataset" ∷ []) type
    then "json"
    else if includes
        ("markdown" ∷ "script" ∷ "document" ∷ "report" ∷ "publish_package" ∷ "prompt" ∷ "outline"
          ∷ "episode_script" ∷ [])
        type
    then "md"
    else if type == "image"
    then "txt"
    else if type == "audio"
    then "wav"
    else if type == "video"
    then "mp4"
    else "txt"

abbrev pub is_media : String → Bool
is_media type = includes ("audio" ∷ "video" ∷ []) type

abbrev is_manual : ReviewMode → Bool
is_manual ReviewMode.manual = true
is_manual _ = false

abbrev pub status_of_spec : Option ArtifactSpec → ArtifactReviewStatus
status_of_spec none = ArtifactReviewStatus.none_required
status_of_spec (some spec) =
    if is_manual spec.review_policy.mode
    then ArtifactReviewStatus.pending_review
    else ArtifactReviewStatus.none_required

unfoldable pub review_status_for_output : WorkflowSpec → Option String → ArtifactReviewStatus
review_status_for_output workflow ref =
    status_of_spec (find (λ a. is_text ref a.id) workflow.artifacts)

module _ (dates : Dates) (pretty : Json → String) where
  unfoldable pub content_for_descriptor : AdapterArtifactDescriptor → String → Option String
  content_for_descriptor d node_name =
      if includes ("json" ∷ "dataset" ∷ []) d.type
      then some (
          pretty (
            Json.object (
              Fields.field "artifact_id" (Json.string d.artifact_id) (
                Fields.field "generated_by" (Json.string node_name) (
                  Fields.field "status" (Json.string "mock")
                    (Fields.field "items" (Json.array Items.nil) Fields.end))))))
      else if is_media d.type
      then none
      else some (
          "# " +++ node_name +++ "\n\nMock Runner 生成的 " +++ d.type +++ " 产物。\n\n- artifact_id: "
          +++ d.artifact_id +++ "\n- output_id: " +++ d.output_id +++ "\n")

  unfoldable pub descriptor_of :
      AdapterInvocation
      → WorkflowSpec
      → (node_name : String) (index : ℕ) → ExpectedOutput
      → AdapterArtifactDescriptor
  descriptor_of i workflow node_name index output =
      let artifact_id =
        "art_"
        +++ normalize_id i.run_id
        +++ "_"
        +++ normalize_id i.node_id
        +++ "_"
        +++ normalize_id output.output_id
        +++ "_v1" in
      let d : AdapterArtifactDescriptor = record {
        artifact_id = artifact_id;
        output_id = output.output_id;
        artifact_spec_ref = output.artifact_spec_ref;
        type = output.artifact_type;
        path = "artifacts/" +++ artifact_id +++ "." +++ extension_for_type output.artifact_type;
        hash = "sha256:mock-" +++ normalize_id i.operation_id +++ "-" +++ show index;
        status =
            if is_media output.artifact_type
            then ArtifactStatus.pending
            else ArtifactStatus.created;
        review_status = review_status_for_output workflow output.artifact_spec_ref;
        content = none;
      } in
      record d { content = content_for_descriptor d node_name }

  -- `expected_outputs.map((output, index) => ...)`, from an index on.
  unfoldable pub descriptors_from :
      AdapterInvocation
      → WorkflowSpec
      → (node_name : String) (index : ℕ) → List ExpectedOutput
      → List AdapterArtifactDescriptor
  descriptors_from i workflow node_name index [] = []
  descriptors_from i workflow node_name index (output ∷ more) =
      descriptor_of i workflow node_name index output
      ∷ descriptors_from i workflow node_name (suc index) more

  -- `Math.max(0, received - dispatched)`; the schema of a receipt refuses `NaN`.
  abbrev pub latency : Option ℕ → Option ℕ → Result ℕ
  latency (some received) (some dispatched) = ok (received - dispatched)
  latency _ _ = throw schema_error

  abbrev pub mock_receipt :
      AdapterInvocation → (model : Option String) (cost latency_ms : Option ℕ) → ProviderReceipt
  mock_receipt i model cost latency_ms = record {
    provider = i.provider;
    provider_profile_id = none;
    adapter_kind = i.adapter_kind;
    adapter_id = i.adapter_id;
    model = model;
    operation_id = i.operation_id;
    external_session_id = none;
    cost = cost;
    latency_ms = latency_ms;
    raw_receipt_id = some ("receipt_" +++ i.operation_id);
    usage = none;
  }

  abbrev pub missing_node_result : AdapterInvocation → (received_at : String) → AdapterResult
  missing_node_result i received_at = record {
    operation_id = i.operation_id;
    attempt_id = i.attempt_id;
    node_run_id = i.node_run_id;
    status = AttemptStatus.failed;
    provider_receipt = mock_receipt i none none none;
    artifact_descriptors = [];
    error = some (record {
      code = "node_spec_not_found";
      message = "NodeSpec not found: " +++ i.node_id;
      recoverable = false;
    });
    received_at = received_at;
  }

  abbrev pub mock_result :
      AdapterInvocation → WorkflowSpec → NodeSpec → (received_at : String) → ℕ → AdapterResult
  mock_result i workflow node received_at latency_ms = record {
    operation_id = i.operation_id;
    attempt_id = i.attempt_id;
    node_run_id = i.node_run_id;
    status = AttemptStatus.succeeded;
    provider_receipt = mock_receipt i (some "mock-runner-v0") (some 0) (some latency_ms);
    artifact_descriptors = descriptors_from i workflow node.name 0 i.expected_outputs;
    error = none;
    received_at = received_at;
  }

  -- The result for the node that the invocation names, if the workflow has it.
  unfoldable pub answer_of :
      AdapterInvocation
      → WorkflowSpec
      → (received_at : String) → Option NodeSpec
      → Result AdapterResult
  answer_of i workflow received_at none = adapter_result_schema (missing_node_result i received_at)
  answer_of i workflow received_at (some node) = do
    latency_ms ← latency (dates.parse received_at) (dates.parse i.dispatched_at)
    adapter_result_schema (mock_result i workflow node received_at latency_ms)

  -- `executeMockAdapter`
  unfoldable pub execute_mock_adapter :
      (current : String)
      → AdapterInvocation
      → WorkflowSpec
      → (received_at : Option String) → Result AdapterResult
  execute_mock_adapter current i workflow received_at =
      answer_of i workflow (get_or received_at current) (find_node workflow i.node_id)
