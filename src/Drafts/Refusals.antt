-- ===== src/Drafts/Refusals.antt =====
-- run-drafts.ts: `assertMutable`, and the operations that call it.
use miracle_agent.Prelude.{
  String, List, Bool, true, false, Option, ◌≡◌, refl, Result, ok, throw, arith,
}
use miracle_agent.Prelude.Json.{Json}
use miracle_agent.Types.{WorkflowSpec}
use miracle_agent.Canonical.{Host}
use miracle_agent.Drafts.{
  RunDraft, RunDraftStatus, LaunchConfirmation, PlanSummary, DraftPatch, is_terminal, is_confirmed,
  assert_mutable, confirms, update_run_draft, revise_run_draft, cancel_run_draft, confirm_run_draft,
}

abbrev pub is_throw {ℓ} : {A : Type ℓ} → Result A → Bool
is_throw (ok a) = false
is_throw (throw e) = true

-- The statuses that a draft does not leave.
abbrev pub IsOver : RunDraftStatus → Type 0
IsOver RunDraftStatus.cancelled = Unit
IsOver RunDraftStatus.converted = Unit
IsOver RunDraftStatus.expired = Unit
IsOver RunDraftStatus.launch_pending = Unit
IsOver RunDraftStatus.draft = ⊥
IsOver RunDraftStatus.ready_for_dry_run = ⊥
IsOver RunDraftStatus.ready_for_confirmation = ⊥
IsOver RunDraftStatus.confirmed = ⊥

over-terminal : (s : RunDraftStatus) → IsOver s → is_terminal s ≡ true
over-terminal RunDraftStatus.cancelled h = refl
over-terminal RunDraftStatus.converted h = refl
over-terminal RunDraftStatus.expired h = refl
over-terminal RunDraftStatus.launch_pending h = refl
over-terminal RunDraftStatus.draft h = absurd h
over-terminal RunDraftStatus.ready_for_dry_run h = absurd h
over-terminal RunDraftStatus.ready_for_confirmation h = absurd h
over-terminal RunDraftStatus.confirmed h = absurd h

terminal-unconfirmed : (s : RunDraftStatus) → is_terminal s ≡ true → is_confirmed s ≡ false
terminal-unconfirmed s h = ground arith

-- A cancelled, converted, expired or launching draft that has no live confirmation of a plan refuses
-- to be updated, revised, cancelled or, with that plan, confirmed.
pub terminal-refuses :
    (host : Host) (json : WorkflowSpec → Json) (d : RunDraft) (c : Option LaunchConfirmation)
    (current : String) (now : Option String) (patch : DraftPatch) (plan : PlanSummary)
    (actor : String) (acknowledgements : List String)
    → IsOver d.status
    → confirms c plan ≡ false
    → (is_throw (update_run_draft host json current d c patch now) ≡ true)
      × (is_throw (revise_run_draft current d c now) ≡ true)
      × (is_throw (cancel_run_draft current d c now) ≡ true)
      × (is_throw (confirm_run_draft current d plan c actor acknowledgements now) ≡ true)
unfolding update_run_draft revise_run_draft cancel_run_draft confirm_run_draft assert_mutable
terminal-refuses host json d c current now patch plan actor acknowledgements h fresh =
    let over = over-terminal d.status h in
    (
      rw over refl,
      rw (terminal-unconfirmed d.status over) refl,
      rw over refl,
      rw (fresh, over) refl,
    )
