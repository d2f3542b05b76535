-- ===== src/Drafts/Confirmation.antt =====
-- run-drafts.ts: what `confirmRunDraft` accepts, and what it records.
use miracle_agent.Prelude.{
  String, true, false, not, Option, some, get_or, List, [], ◌∷◌, filter, All, includes, string_eq,
  ◌≡◌, refl, ◌↔◌, inl, inr, Memᴰ, ok, arith, eq_iff, nat_eq, ==_refl, Memᴰ→includes, includes→Memᴰ,
  Bool-cases,
}
use miracle_agent.Drafts.{
  RunDraft, LaunchConfirmation, PlanSummary, Change, is_terminal, assert_mutable, is_nil,
  stale_hash, confirms, new_confirmation, confirmed_draft, confirm_run_draft,
}

-- Why a launch may be confirmed.
pub record MayConfirm (d : RunDraft) (plan : PlanSummary) (acknowledgements : List String)
    : Type 0 where
  pub changeable : is_terminal d.status ≡ false
  pub same_draft : plan.draft_id ≡ d.draft_id
  pub latest : stale_hash d.latest_plan_hash plan.plan_hash ≡ false
  pub ready : plan.required_path_ready ≡ true
  pub acknowledged : All (λ a. Memᴰ a acknowledgements) plan.required_acknowledgements

missing-nil_iff :
    (given required : List String)
    → (is_nil (filter (λ a. not (includes given a)) required) ≡ true)
      ↔ All (λ a. Memᴰ a given) required
missing-nil_iff given [] = (λ h. tt, λ h. refl)
missing-nil_iff given (a ∷ rest) =
    let (there, back) = missing-nil_iff given rest in
    (
      λ h. (includes→Memᴰ given a (ground arith), there (ground arith)),
      λ (m, h). let known = Memᴰ→includes given a m in let tail = back h in ground arith,
    )

-- A plan that no live confirmation covers is confirmed exactly when the draft is not in a terminal
-- status, the plan is the draft's own and has the latest hash that the draft records, if it records
-- one, its required path is ready and every acknowledgement that it requires is given; the draft and
-- the confirmation then record this plan.
pub confirm_run_draft-ok_iff :
    (current : String) (d : RunDraft) (plan : PlanSummary) (existing : Option LaunchConfirmation)
    (actor : String) (acknowledgements : List String) (now : Option String) (after : Change)
    → confirms existing plan ≡ false
    → (confirm_run_draft current d plan existing actor acknowledgements now ≡ ok after) ↔ (
        MayConfirm d plan acknowledgements
        × (after ≡ (
          confirmed_draft d plan (get_or now current),
          some (new_confirmation d plan actor (get_or now current)),
        )))
unfolding confirm_run_draft assert_mutable
confirm_run_draft-ok_iff current d plan existing actor acknowledgements now after fresh =
    let acks = missing-nil_iff acknowledgements plan.required_acknowledgements in
    (
      λ h. (
        record {
          changeable = ground arith;
          same_draft = (eq_iff _ _).0 (ground arith);
          latest = ground arith;
          ready = ground arith;
          acknowledged = acks.0 (ground arith);
        },
        ground arith,
      ),
      λ (may, same).
          let known = (eq_iff plan.draft_id d.draft_id).1 may.same_draft in
          let given = acks.1 may.acknowledged in
          rw (fresh, may.changeable, known, may.latest, may.ready, given, same) refl,
    )

-- Confirming a plan again, with the confirmation that the first call gave, changes nothing,
-- whoever asks and whatever they acknowledge.
pub confirm_run_draft-idempotent :
    (current : String) (d : RunDraft) (plan : PlanSummary) (existing : Option LaunchConfirmation)
    (actor : String) (acknowledgements : List String) (now : Option String) (after : Change)
    → confirm_run_draft current d plan existing actor acknowledgements now ≡ ok after
    → (later actor' : String) (given : List String) (now' : Option String)
    → confirm_run_draft later after.0 plan after.1 actor' given now' ≡ ok after
unfolding confirm_run_draft
confirm_run_draft-idempotent current d plan existing actor acknowledgements now after h later actor'
      given now' =
    elim (Bool-cases (confirms existing plan)) [
      | inl live ↦ let same : after ≡ (d, existing) = ground arith in rw (same, live) refl
      | inr fresh ↦
          let decided =
            confirm_run_draft-ok_iff current d plan existing actor acknowledgements now after
              fresh in
          let (_, same) = decided.0 h in rw (same, ==_refl plan.plan_hash) refl
    ]
