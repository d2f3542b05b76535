-- ===== src/Runner/Records.antt =====
-- packages/core/src/runner.ts: what is recorded of a result: an attempt, the artifacts, the events.
use miracle_agent.Prelude.{
  ℕ, String, Option, none, some, get_or, List, [], ◌∷◌, map, ◌==◌, nat_eq, if◌then◌else◌, ◌+++◌,
  Result, ok, error, guard, ◌>>=◌, ◌>>◌,
}
use miracle_agent.Prelude.Int.{pos}
use miracle_agent.Prelude.Json.{Json, Number, Fields}
use miracle_agent.Types.{
  AdapterInvocation, AdapterResult, AdapterArtifactDescriptor, ProviderReceipt, ModelApiUsage,
  NodeRun, NodeRunStatus, NodeAttempt, AttemptKind, AttemptStatus, ArtifactManifest, TraceEvent,
}
use miracle_agent.Schemas.{adapter_result_schema}
use miracle_agent.Schemas.Invocations.{kind_text}
use miracle_agent.Outcome.{classify_adapter_outcome}
use miracle_agent.Runner.{is_attempt_number}

-- A property that is left out where it is `undefined`.
abbrev pub optional_entry : String → Option Json → List (String × Json) → List (String × Json)
optional_entry key none rest = rest
optional_entry key (some value) rest = (key, value) ∷ rest

abbrev pub optional_text : Option String → Option Json
optional_text none = none
optional_text (some s) = some (Json.string s)

abbrev pub optional_number : Option ℕ → Option Json
optional_number none = none
optional_number (some n) = some (Json.number (Number.finite (pos n)))

abbrev pub optional_field : String → Option Json → Fields → Fields
optional_field key none rest = rest
optional_field key (some value) rest = Fields.field key value rest

abbrev pub usage_json : Option ModelApiUsage → Option Json
usage_json none = none
usage_json (some u) = some (
    Json.object (
      optional_field "input_tokens" (optional_number u.input_tokens) (
        optional_field "output_tokens" (optional_number u.output_tokens)
          (optional_field "total_tokens" (optional_number u.total_tokens) Fields.end))))

-- The receipt of an attempt is a `Record<string, unknown>`.
unfoldable pub receipt_entries : ProviderReceipt → List (String × Json)
receipt_entries r =
    ("provider", Json.string r.provider)
    ∷ optional_entry "provider_profile_id" (optional_text r.provider_profile_id) (
        ("adapter_kind", Json.string (kind_text r.adapter_kind))
        ∷ ("adapter_id", Json.string r.adapter_id)
        ∷ optional_entry "model" (optional_text r.model) (
            ("operation_id", Json.string r.operation_id)
            ∷ optional_entry "external_session_id" (optional_text r.external_session_id) (
                optional_entry "cost" (optional_number r.cost) (
                  optional_entry "latency_ms" (optional_number r.latency_ms) (
                    optional_entry "raw_receipt_id" (optional_text r.raw_receipt_id)
                      (optional_entry "usage" (usage_json r.usage) []))))))

pub record Timing : Type 0 where
  pub started_at : String
  pub dispatched_at : String

abbrev pub started : Option Timing → Option String
started none = none
started (some t) = some t.started_at

abbrev pub dispatched : Option Timing → Option String
dispatched none = none
dispatched (some t) = some t.dispatched_at

-- `createNodeAttemptFromAdapterResult`
unfoldable pub create_node_attempt_from_adapter_result :
    AdapterResult → (attempt_number : ℕ) → Option Timing → Result NodeAttempt
create_node_attempt_from_adapter_result result attempt_number timing = do
  parsed ← adapter_result_schema result
  outcome ← classify_adapter_outcome parsed
  guard (is_attempt_number attempt_number) (error "attemptNumber must be a positive integer")
  ok (record {
    attempt_id = parsed.attempt_id;
    node_run_id = parsed.node_run_id;
    operation_id = parsed.operation_id;
    attempt_number = some attempt_number;
    attempt_kind = some AttemptKind.execute;
    status = outcome.attempt_status;
    provider_receipt = some (receipt_entries parsed.provider_receipt);
    error = outcome.normalized_error;
    started_at = started timing;
    dispatched_at = dispatched timing;
    created_at = some parsed.received_at;
  })

unfoldable pub manifest_of :
    (run_id : String)
    → NodeRun
    → (producer created_at : String) → AdapterArtifactDescriptor
    → ArtifactManifest
manifest_of run_id node_run producer created_at d = record {
  artifact_id = d.artifact_id;
  artifact_spec_ref = d.artifact_spec_ref;
  run_id = run_id;
  node_run_id = node_run.node_run_id;
  type = d.type;
  version = 1;
  path = d.path;
  hash = d.hash;
  status = d.status;
  review_status = d.review_status;
  producer = producer;
  created_at = created_at;
  supersedes_artifact_id = none;
  rework_of_gate_instance_id = none;
}

-- `createArtifactManifestsFromAdapterResult`
unfoldable pub create_artifact_manifests_from_adapter_result :
    AdapterResult
    → (run_id : String) → NodeRun
    → (producer : String) (created_at : Option String) → List ArtifactManifest
create_artifact_manifests_from_adapter_result result run_id node_run producer created_at =
    map (manifest_of run_id node_run producer (get_or created_at result.received_at))
      result.artifact_descriptors

abbrev pub node_status_text : NodeRunStatus → String
node_status_text NodeRunStatus.queued = "queued"
node_status_text NodeRunStatus.running = "running"
node_status_text NodeRunStatus.waiting = "waiting"
node_status_text NodeRunStatus.blocked = "blocked"
node_status_text NodeRunStatus.reviewing = "reviewing"
node_status_text NodeRunStatus.done = "done"
node_status_text NodeRunStatus.failed = "failed"
node_status_text NodeRunStatus.skipped = "skipped"

abbrev pub attempt_status_text : AttemptStatus → String
attempt_status_text AttemptStatus.succeeded = "succeeded"
attempt_status_text AttemptStatus.failed = "failed"
attempt_status_text AttemptStatus.timed_out = "timed_out"
attempt_status_text AttemptStatus.cancelled = "cancelled"
attempt_status_text AttemptStatus.aborted = "aborted"
attempt_status_text AttemptStatus.unknown = "unknown"

abbrev pub event_scope : AdapterInvocation → String
event_scope i = if get_or i.attempt_number 1 == 1 then i.operation_id else i.attempt_id

abbrev pub runner_event : AdapterInvocation → (suffix type message created_at : String) → TraceEvent
runner_event i suffix type message created_at = record {
  event_id = "evt_" +++ event_scope i +++ "_" +++ suffix;
  run_id = i.run_id;
  type = type;
  subject = record { type = "NodeRun"; id = i.node_run_id };
  message = message;
  created_at = created_at;
}

-- `createRunnerTraceEvents`
unfoldable pub create_runner_trace_events :
    AdapterInvocation → AdapterResult → NodeRunStatus → List TraceEvent
create_runner_trace_events i result status =
    runner_event i "dispatched" "runner_operation_dispatched"
      ("Runner operation dispatched to " +++ kind_text i.adapter_kind) i.dispatched_at
    ∷ runner_event i "received" "adapter_result_received"
        ("AdapterResult "
          +++ attempt_status_text result.status
          +++ " received from "
          +++ result.provider_receipt.provider)
        result.received_at
    ∷ runner_event i "committed" "node_run_committed"
        ("Orchestrator committed NodeRun as " +++ node_status_text status) result.received_at
    ∷ []
