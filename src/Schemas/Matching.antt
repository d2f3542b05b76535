-- ===== src/Schemas/Matching.antt =====
-- packages/core/src/schemas.ts: which results `parseAdapterResultForInvocation` lets through.
use miracle_agent.Prelude.{
  String, true, List, [], ◌∷◌, All, ◌==◌, string_eq, ==_refl, eq_iff, if◌then◌else◌, ok, ◌≡◌, ◌↔◌,
  refl, sym, ap, ◌∙◌, Bool-cases, inl, inr,
}
use miracle_agent.Prelude.Ensures.{
  Ensures, returned, thrown, Ensures-guard, Ensures-then, Ensures-weaken, Ensures-ok,
}
use miracle_agent.Types.{
  AdapterKind, mock_local, codex, hermes, openclaw, official_api, AdapterInvocation, AdapterResult,
}
use miracle_agent.Schemas.{adapter_result_ok, adapter_result_schema}
use miracle_agent.Schemas.Invocations.{
  adapter_invocation_ok, adapter_invocation_schema, kind_text, check_associations, associations,
  parse_adapter_result_for_invocation,
}

-- A result with the fields of the invocation is accepted if its schema accepts it.
pub accepted :
    (i : AdapterInvocation) (r : AdapterResult)
    → adapter_invocation_ok i ≡ true
    → adapter_result_ok r ≡ true
    → r.operation_id ≡ i.operation_id
    → r.attempt_id ≡ i.attempt_id
    → r.node_run_id ≡ i.node_run_id
    → r.provider_receipt.adapter_id ≡ i.adapter_id
    → r.provider_receipt.adapter_kind ≡ i.adapter_kind
    → r.provider_receipt.provider ≡ i.provider
    → parse_adapter_result_for_invocation i r ≡ ok r
unfolding parse_adapter_result_for_invocation adapter_invocation_schema adapter_result_schema
    check_associations
accepted i r hi hr a b c d e f = rw (
  hi,
  hr,
  a,
  b,
  c,
  d,
  e,
  f,
  ==_refl i.operation_id,
  ==_refl i.attempt_id,
  ==_refl i.node_run_id,
  ==_refl i.adapter_id,
  ==_refl (kind_text i.adapter_kind),
  ==_refl i.provider,
)

abbrev kind_of_text : String → AdapterKind
kind_of_text s =
    if s == "mock-local"
    then mock_local
    else if s == "codex"
    then codex
    else if s == "hermes"
    then hermes
    else if s == "openclaw"
    then openclaw
    else if s == "official-api"
    then official_api
    else AdapterKind.model_api

kind_of_text-kind_text : (k : AdapterKind) → kind_of_text (kind_text k) ≡ k
kind_of_text-kind_text mock_local = refl
kind_of_text-kind_text codex = refl
kind_of_text-kind_text hermes = refl
kind_of_text-kind_text openclaw = refl
kind_of_text-kind_text official_api = refl
kind_of_text-kind_text AdapterKind.model_api = refl

kind_text-same : (k l : AdapterKind) → kind_text k ≡ kind_text l → k ≡ l
kind_text-same k l h = sym (kind_of_text-kind_text k) ∙ ap kind_of_text h ∙ kind_of_text-kind_text l

abbrev Agrees : String × String × String → Type 0
Agrees (name, expected, actual) = expected ≡ actual

check_associations-Agrees :
    (xs : List (String × String × String)) → Ensures (λ _. All Agrees xs) (check_associations xs)
unfolding check_associations
check_associations-Agrees [] = returned tt tt
check_associations-Agrees ((name, expected, actual) ∷ more) =
    Ensures-guard (expected == actual) _ λ h.
      Ensures-weaken (λ u rest. ((eq_iff expected actual).0 h, rest))
        (check_associations-Agrees more)

-- The result and the invocation are well formed, and the result is one of this invocation.
pub record IsMatch (i : AdapterInvocation) (r : AdapterResult) : Type 0 where
  pub invocation : adapter_invocation_ok i ≡ true
  pub result : adapter_result_ok r ≡ true
  pub operation : r.operation_id ≡ i.operation_id
  pub attempt : r.attempt_id ≡ i.attempt_id
  pub node_run : r.node_run_id ≡ i.node_run_id
  pub adapter : r.provider_receipt.adapter_id ≡ i.adapter_id
  pub kind : r.provider_receipt.adapter_kind ≡ i.adapter_kind
  pub provider : r.provider_receipt.provider ≡ i.provider

returned-IsMatch :
    (i : AdapterInvocation) (r : AdapterResult)
    → Ensures (λ _. IsMatch i r) (parse_adapter_result_for_invocation i r)
unfolding parse_adapter_result_for_invocation adapter_invocation_schema adapter_result_schema
returned-IsMatch i r = elim (Bool-cases (adapter_invocation_ok i)) [
  | inr bad ↦ rw bad (thrown _)
  | inl hi ↦ elim (Bool-cases (adapter_result_ok r)) [
    | inr bad ↦ rw (hi, bad) (thrown _)
    | inl hr ↦
        rw (hi, hr)
          (Ensures-then (check_associations-Agrees (associations i r))
            λ (a, (b, (c, (d, (e, (f, _)))))). returned r (record {
              invocation = hi;
              result = hr;
              operation = sym a;
              attempt = sym b;
              node_run = sym c;
              adapter = sym d;
              kind = sym (kind_text-same i.adapter_kind r.provider_receipt.adapter_kind e);
              provider = sym f;
            }))
  ]
]

-- A result is let through for an invocation if and only if both are well formed and they name the
-- same operation, attempt, node run, adapter, kind of adapter and provider.
pub parse_adapter_result_for_invocation-ok_iff :
    (i : AdapterInvocation) (r : AdapterResult)
    → (parse_adapter_result_for_invocation i r ≡ ok r) ↔ IsMatch i r
parse_adapter_result_for_invocation-ok_iff i r = (
  λ h. Ensures-ok (returned-IsMatch i r) h,
  λ m.
      accepted i r m.invocation m.result m.operation m.attempt m.node_run m.adapter m.kind
        m.provider,
)
