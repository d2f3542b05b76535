-- ===== src/Runner/Tests.antt =====
-- The invocation of a small node, its mock result, and the theorems applied to them.
use Prim.Native.String.{count}
use miracle_agent.Prelude.{String, true, none, some, [], all, ok, ◌≡◌, refl}
use miracle_agent.Prelude.Json.{Json}
use miracle_agent.Prelude.Dates.{Dates}
use miracle_agent.Types.{
  AdapterInvocation, AdapterResult, RunStatus, RunMode, ExecutionPolicy, NodeRun, NodeRunStatus,
}
use miracle_agent.Schemas.{retry_policy_ok, retry_policy_schema}
use miracle_agent.Schemas.Invocations.{
  adapter_invocation_ok, runtime_control_ok, expected_output_ok, resolved_node_input_ok,
}
use miracle_agent.Retry.{resolve_node_retry_policy}
use miracle_agent.Runner.{
  millis, InvocationInput, find_node, invocation_of, create_adapter_invocation,
}
use miracle_agent.Runner.Mock.{execute_mock_adapter}
use miracle_agent.Runner.Budget.{IsTimed, create_adapter_invocation-IsTimed}
use miracle_agent.Runner.Answers.{ref_ok, IsAnswer, execute_mock_adapter-IsAnswer}
use miracle_agent.Samples.{workflow, writer}

abbrev dates : Dates
dates = record { parse = λ s. some (count s); to_iso = λ ms. "later" }

abbrev node_run : NodeRun
node_run = record {
  node_run_id = "nr_writer";
  run_id = "run_1";
  node_id = "writer";
  status = NodeRunStatus.queued;
  agent_id = none;
  provider = some "local";
  started_at = none;
  updated_at = "t0";
  blocked_reason = none;
  upstream_artifacts = [];
  output_artifacts = [];
}

abbrev input : InvocationInput
input = record {
  run_spec = record {
    run_id = "run_1";
    workflow_id = "wf";
    workflow_version = "1";
    workflow_snapshot_id = "snap_1";
    status = RunStatus.running;
    run_mode = RunMode.executable ExecutionPolicy.hybrid;
    role_profile = "editor";
    resolved_components = [];
    resolved_provider_policy = workflow.provider_policy;
    created_at = "t0";
  };
  workflow = workflow;
  node_run = node_run;
  created_at = some "t1";
  adapter_kind = none;
  adapter_id = none;
  provider_profile_id = none;
  resolved_inputs = none;
  operation_id = some "op_1";
  attempt_number = none;
  remaining_total_budget_ms = some (millis 5000 true);
}

abbrev invocation : AdapterInvocation
invocation = invocation_of input writer "t1" "op_1" 1 5000

created : create_adapter_invocation dates "t1" input ≡ ok invocation
unfolding create_adapter_invocation resolve_node_retry_policy retry_policy_schema retry_policy_ok
created = refl

create_adapter_invocation-IsTimed_example : IsTimed input invocation
create_adapter_invocation-IsTimed_example =
    create_adapter_invocation-IsTimed dates "t1" input invocation created

valid : adapter_invocation_ok invocation ≡ true
unfolding adapter_invocation_ok invocation_of runtime_control_ok expected_output_ok
    resolved_node_input_ok
valid = refl

-- Less than a millisecond is left: the time limit is 0.
no_time :
    create_adapter_invocation dates "t1"
      (record input { remaining_total_budget_ms = some (millis 0 true) })
    ≡ ok (invocation_of input writer "t1" "op_1" 1 0)
unfolding create_adapter_invocation resolve_node_retry_policy retry_policy_schema retry_policy_ok
    invocation_of
no_time = refl

abbrev pretty : Json → String
pretty value = "{}"

refs : all ref_ok invocation.expected_outputs ≡ true
unfolding invocation_of
refs = refl

dispatched : dates.parse invocation.dispatched_at ≡ some 2
unfolding invocation_of
dispatched = refl

execute_mock_adapter-IsAnswer_example :
    (r : AdapterResult) × (execute_mock_adapter dates pretty "t2" invocation workflow none ≡ ok r)
    × IsAnswer invocation (find_node workflow invocation.node_id) r
execute_mock_adapter-IsAnswer_example =
    execute_mock_adapter-IsAnswer dates pretty "t2" invocation workflow none 2 2 valid refs refl
      refl dispatched
