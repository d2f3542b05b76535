-- ===== src/Runner/Answers.antt =====
-- packages/core/src/runner.ts and schemas.ts: the mock adapter answers its invocation.
use miracle_agent.Prelude.{
  ℕ, suc, ◌-◌, String, Bool, true, false, ◌&&◌, Option, none, some, get_or, List, [], ◌∷◌, map, all,
  string_eq, ==_refl, is_nonempty, ◌+++◌, normalize_id, show, ok, ◌≡◌, refl, ◌⊎◌, inl, inr, arith,
  Option-cases,
}
use miracle_agent.Prelude.Nonempty.{is_nonempty-append}
use miracle_agent.Prelude.Json.{Json}
use miracle_agent.Prelude.Dates.{Dates}
use miracle_agent.Types.{
  ExpectedOutput, AdapterInvocation, AdapterResult, AttemptStatus, NodeSpec, WorkflowSpec,
}
use miracle_agent.Schemas.{
  optional_nonempty, artifact_descriptor_ok, provider_receipt_ok, adapter_result_ok,
  adapter_result_schema,
}
use miracle_agent.Schemas.Invocations.{
  expected_output_ok, adapter_invocation_ok, parse_adapter_result_for_invocation,
}
use miracle_agent.Schemas.Matching.{accepted}
use miracle_agent.Runner.{find_node}
use miracle_agent.Runner.Mock.{
  extension_for_type, descriptor_of, descriptors_from, missing_node_result, mock_result, answer_of,
  execute_mock_adapter,
}

-- The result belongs to the invocation, and names its outputs in their order if the node is known.
pub record IsAnswer (i : AdapterInvocation) (node : Option NodeSpec) (r : AdapterResult)
    : Type 0 where
  pub accepted : parse_adapter_result_for_invocation i r ≡ ok r
  pub outcome :
      ((r.status ≡ AttemptStatus.succeeded)
        × (map (λ d. d.output_id) r.artifact_descriptors
            ≡ map (λ o. o.output_id) i.expected_outputs))
      ⊎ ((node ≡ none) × (r.status ≡ AttemptStatus.failed) × (r.artifact_descriptors ≡ []))

-- The outputs that the schema of a result can name.
abbrev pub ref_ok : ExpectedOutput → Bool
ref_ok o = optional_nonempty o.artifact_spec_ref

module _ (dates : Dates) (pretty : Json → String) (i : AdapterInvocation) (workflow : WorkflowSpec)
    (node_name : String) where
  descriptor_of-ok :
      (index : ℕ) (o : ExpectedOutput)
      → expected_output_ok o ≡ true
      → ref_ok o ≡ true
      → artifact_descriptor_ok (descriptor_of dates pretty i workflow node_name index o) ≡ true
  unfolding expected_output_ok artifact_descriptor_ok descriptor_of
  descriptor_of-ok index o h k =
      let named : is_nonempty o.output_id ≡ true = ground arith in
      let typed : is_nonempty o.artifact_type ≡ true = ground arith in
      rw (
        is_nonempty-append "art_"
            (normalize_id i.run_id
              +++ "_"
              +++ normalize_id i.node_id
              +++ "_"
              +++ normalize_id o.output_id
              +++ "_v1")
            refl,
        is_nonempty-append "artifacts/"
            (("art_"
                +++ normalize_id i.run_id
                +++ "_"
                +++ normalize_id i.node_id
                +++ "_"
                +++ normalize_id o.output_id
                +++ "_v1")
              +++ "."
              +++ extension_for_type o.artifact_type)
            refl,
        is_nonempty-append "sha256:mock-" (normalize_id i.operation_id +++ "-" +++ show index) refl,
        named,
        typed,
        k,
      )

  descriptors_from-ok :
      (index : ℕ) (outputs : List ExpectedOutput)
      → all expected_output_ok outputs ≡ true
      → all ref_ok outputs ≡ true
      → all artifact_descriptor_ok
          (descriptors_from dates pretty i workflow node_name index outputs)
        ≡ true
  unfolding descriptors_from
  descriptors_from-ok index [] h k = refl
  descriptors_from-ok index (o ∷ more) h k =
      let d = descriptor_of-ok index o (ground arith) (ground arith) in
      let rest = descriptors_from-ok (suc index) more (ground arith) (ground arith) in rw (d, rest)

  descriptors_from-outputs :
      (index : ℕ) (outputs : List ExpectedOutput)
      → map (λ d. d.output_id) (descriptors_from dates pretty i workflow node_name index outputs)
        ≡ map (λ o. o.output_id) outputs
  unfolding descriptors_from descriptor_of
  descriptors_from-outputs index [] = refl
  descriptors_from-outputs index (o ∷ more) = rw (descriptors_from-outputs (suc index) more)

and-split : {a b : Bool} → (a && b) ≡ true → (a ≡ true) × (b ≡ true)
and-split {a = true} {b} h = (refl, h)
and-split {a = false} {b} h = cc h

record Named (i : AdapterInvocation) : Type 0 where
  operation : is_nonempty i.operation_id ≡ true
  attempt : is_nonempty i.attempt_id ≡ true
  node_run : is_nonempty i.node_run_id ≡ true
  provider : is_nonempty i.provider ≡ true
  adapter : is_nonempty i.adapter_id ≡ true
  outputs : all expected_output_ok i.expected_outputs ≡ true

adapter_invocation_ok-Named : (i : AdapterInvocation) → adapter_invocation_ok i ≡ true → Named i
unfolding adapter_invocation_ok
adapter_invocation_ok-Named i h =
    let (h, dispatched) = and-split h in
    let (h, schema) = and-split h in
    let (h, prompt) = and-split h in
    let (h, control) = and-split h in
    let (h, outputs) = and-split h in
    let (h, resolved) = and-split h in
    let (h, profile) = and-split h in
    let (h, provider) = and-split h in
    let (h, adapter) = and-split h in
    let (h, node) = and-split h in
    let (h, node_run) = and-split h in
    let (h, run) = and-split h in
    let (h, version) = and-split h in
    let (operation, attempt) = and-split h in
    record {
      operation = operation;
      attempt = attempt;
      node_run = node_run;
      provider = provider;
      adapter = adapter;
      outputs = outputs;
    }

missing_node_result-ok :
    (dates : Dates) (pretty : Json → String) (i : AdapterInvocation) (received_at : String)
    → adapter_invocation_ok i ≡ true
    → is_nonempty received_at ≡ true
    → adapter_result_ok (missing_node_result dates pretty i received_at) ≡ true
unfolding adapter_invocation_ok adapter_result_ok provider_receipt_ok
missing_node_result-ok dates pretty i received_at h k =
    let ids = adapter_invocation_ok-Named i h in
    rw (
      is_nonempty-append "receipt_" i.operation_id refl,
      is_nonempty-append "NodeSpec not found: " i.node_id refl,
      k,
      ==_refl i.operation_id,
      ids.operation,
      ids.attempt,
      ids.node_run,
      ids.provider,
      ids.adapter,
    )

mock_result-ok :
    (dates : Dates) (pretty : Json → String) (i : AdapterInvocation) (workflow : WorkflowSpec)
    (node : NodeSpec) (received_at : String) (latency_ms : ℕ)
    → adapter_invocation_ok i ≡ true
    → all ref_ok i.expected_outputs ≡ true
    → is_nonempty received_at ≡ true
    → adapter_result_ok (mock_result dates pretty i workflow node received_at latency_ms) ≡ true
unfolding adapter_invocation_ok adapter_result_ok provider_receipt_ok
mock_result-ok dates pretty i workflow node received_at latency_ms h refs k =
    let ids = adapter_invocation_ok-Named i h in
    let outputs =
      descriptors_from-ok dates pretty i workflow node.name 0 i.expected_outputs ids.outputs refs in
    rw (
      is_nonempty-append "receipt_" i.operation_id refl,
      outputs,
      k,
      ==_refl i.operation_id,
      ids.operation,
      ids.attempt,
      ids.node_run,
      ids.provider,
      ids.adapter,
    )

-- The mock adapter returns a result for every invocation that its schema accepts, if the references
-- of the expected outputs are not empty and the dates can be read. The result is accepted for the
-- invocation; it succeeds and names the expected outputs in order, or the workflow has no such node
-- and it fails without artifacts.
pub execute_mock_adapter-IsAnswer :
    (dates : Dates) (pretty : Json → String) (current : String) (i : AdapterInvocation)
    (workflow : WorkflowSpec) (received_at : Option String) (received sent : ℕ)
    → adapter_invocation_ok i ≡ true
    → all ref_ok i.expected_outputs ≡ true
    → is_nonempty (get_or received_at current) ≡ true
    → dates.parse (get_or received_at current) ≡ some received
    → dates.parse i.dispatched_at ≡ some sent
    → (r : AdapterResult) × (execute_mock_adapter dates pretty current i workflow received_at
        ≡ ok r)
      × IsAnswer i (find_node workflow i.node_id) r
unfolding execute_mock_adapter answer_of adapter_result_schema
execute_mock_adapter-IsAnswer dates pretty current i workflow received_at received sent hi refs time
      got gone =
    elim (Option-cases (find_node workflow i.node_id)) [
      | inl missing ↦
          let r = missing_node_result dates pretty i (get_or received_at current) in
          let fine = missing_node_result-ok dates pretty i (get_or received_at current) hi time in
          (
            r,
            rw (missing, fine),
            record {
              accepted = accepted i r hi fine refl refl refl refl refl refl;
              outcome = inr (missing, refl, refl);
            },
          )
      | inr (node, found) ↦
          let r =
            mock_result dates pretty i workflow node (get_or received_at current)
              (received - sent) in
          let fine =
            mock_result-ok dates pretty i workflow node (get_or received_at current)
              (received - sent) hi refs time in
          (
            r,
            rw (found, got, gone, fine),
            record {
              accepted = accepted i r hi fine refl refl refl refl refl refl;
              outcome = inl (
                refl,
                descriptors_from-outputs dates pretty i workflow node.name 0 i.expected_outputs,
              );
            },
          )
    ]
