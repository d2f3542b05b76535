-- ===== src/DraftStore/Launching.antt =====
-- run-draft-store.ts: what `requestLaunch` does to the draft and to runs.
use miracle_agent.Prelude.{
  String, true, false, ◌||◌, get_or, Option, none, some, List, [], ◌∷◌, string_eq, is_text, Error,
  Result, ok, throw, ◌≡◌, refl, sym, ◌∙◌, ap, inl, inr, arith, eq_iff, Option-cases, Result-cases,
}
use miracle_agent.Prelude.Ensures.{
  Ensures, returned, Ensures-bind, Ensures-guard, Ensures-any, Ensures-of, Ensures-ok,
}
use miracle_agent.Drafts.{RunDraft, LaunchConfirmation, Decision, is_live, is_confirmed}
use miracle_agent.Drafts.Plan.{RunDraftDryRunPlan}
use miracle_agent.DraftStore.Files.{Files, RunDraftBundle}
use miracle_agent.DraftStore.Reading.{read_unlocked}
use miracle_agent.DraftStore.Workflows.{Env, Times}
use miracle_agent.DraftStore.Launches.{
  LaunchRequest, Launched, RunEvent, run_launched, LaunchAnswer, references_match,
  current_workflow_hash, launch_checks, WriteFault, draft_fault, audit_fault, marked_files,
  converted_files, rolled_back, launch_run, launch_or_refuse, request_launch_unlocked, is_converted,
  earlier_run,
}

-- The draft has a live confirmation of the plan that the request names, and it is its latest plan.
pub record IsConfirmedPlan (input : LaunchRequest) (b : RunDraftBundle) : Type 0 where
  pub plan : RunDraftDryRunPlan
  pub confirmation : LaunchConfirmation
  pub has_plan : b.plan ≡ some plan
  pub has_confirmation : b.confirmation ≡ some confirmation
  pub live : confirmation.decision ≡ Decision.confirmed
  pub asked_plan : input.plan_hash ≡ confirmation.plan_hash
  pub asked_confirmation : input.confirmation_id ≡ confirmation.confirmation_id
  pub latest : b.draft.latest_plan_hash ≡ some input.plan_hash
  pub source : b.snapshot.workflow_source_hash ≡ b.draft.workflow_source_hash

is_text-eq : (o : Option String) (s : String) → is_text o s ≡ true → o ≡ some s
is_text-eq none s h = cc
is_text-eq (some t) s h = let e = (eq_iff t s).0 h in rw e

is_live-eq : (d : Decision) → is_live d ≡ true → d ≡ Decision.confirmed
is_live-eq Decision.confirmed h = refl
is_live-eq Decision.superseded h = cc
is_live-eq Decision.cancelled h = cc

references_match-IsConfirmedPlan :
    (input : LaunchRequest) (b : RunDraftBundle) (current : Option String)
    (plan : Option RunDraftDryRunPlan) (c : Option LaunchConfirmation)
    → b.plan ≡ plan
    → b.confirmation ≡ c
    → references_match input b current plan c ≡ true
    → IsConfirmedPlan input b
references_match-IsConfirmedPlan input b current none c hp hc h = cc
references_match-IsConfirmedPlan input b current (some plan) none hp hc h = cc
references_match-IsConfirmedPlan input b current (some plan) (some c) hp hc h =
    let e : input.plan_hash ≡ plan.plan_hash =
      (eq_iff input.plan_hash plan.plan_hash).0 (ground arith) in
    let f : c.plan_hash ≡ plan.plan_hash = (eq_iff c.plan_hash plan.plan_hash).0 (ground arith) in
    record {
      plan = plan;
      confirmation = c;
      has_plan = hp;
      has_confirmation = hc;
      live = is_live-eq c.decision (ground arith);
      asked_plan = e ∙ sym f;
      asked_confirmation = (eq_iff input.confirmation_id c.confirmation_id).0 (ground arith);
      latest = is_text-eq b.draft.latest_plan_hash plan.plan_hash (ground arith) ∙ ap some (sym e);
      source =
          (eq_iff b.snapshot.workflow_source_hash b.draft.workflow_source_hash).0 (ground arith);
    }

module _ (env : Env) (times : Times) (input : LaunchRequest) (found : Option Files) where
  -- The effects of a request on the files, its answer, and what happened to runs. `Left` tells what
  -- an error leaves of the files.
  pub data LaunchEffect (Left : Option Files → Type 0)
      : Option Files → Result LaunchAnswer → List RunEvent → Type 0 where
    refused : (e : Error) (files : Option Files) → Left files → LaunchEffect Left files (throw e) []
    reused :
        (b : RunDraftBundle) (run_id : String)
        → read_unlocked input.draft_id found ≡ ok b
        → IsConfirmedPlan input b
        → b.draft.converted_run_id ≡ some run_id
        → LaunchEffect Left found (ok (record { run_id = run_id; reused = true })) []
    recorded :
        (b : RunDraftBundle) (l : Launched)
        → read_unlocked input.draft_id found ≡ ok b
        → IsConfirmedPlan input b
        → LaunchEffect Left
            (converted_files env times input b.draft l.run_id found)
            (ok (record { run_id = l.run_id; reused = get_or l.reused false }))
            (run_launched l.run_id ∷ [])
    undone :
        (l : Launched) (e : Error) (files : Option Files)
        → Left files
        → LaunchEffect Left files (throw e) (run_launched l.run_id ∷ rolled_back l)

  -- Within the transaction an error may leave any files.
  abbrev pub OpenEffect : Option Files → Result LaunchAnswer → List RunEvent → Type 0
  OpenEffect = LaunchEffect (λ _. Unit {0})

  -- After it, an error leaves the files that were found.
  abbrev pub ClosedEffect : Option Files → Result LaunchAnswer → List RunEvent → Type 0
  ClosedEffect = LaunchEffect (λ files. files ≡ found)

  -- What passes the checks.
  Checked : RunDraftBundle × Option String → Type 0
  Checked (b, run_id) =
      (read_unlocked input.draft_id found ≡ ok b)
      × IsConfirmedPlan input b
      × (run_id ≡ earlier_run b.draft)

  launch_checks-Checked : Ensures Checked (launch_checks env times input found)
  unfolding launch_checks Checked
  launch_checks-Checked =
      Ensures-bind (λ b. read_unlocked input.draft_id found ≡ ok b)
        (Ensures-of (read_unlocked input.draft_id found) (λ b h. h))
        λ b read. Ensures-guard (is_confirmed b.draft.status || is_converted b.draft.status) _ λ _.
          Ensures-bind _ (Ensures-any (current_workflow_hash env times b.draft)) λ current _.
            Ensures-guard (references_match input b current b.plan b.confirmation) _ λ h.
              let confirmed =
                references_match-IsConfirmedPlan input b current b.plan b.confirmation refl refl
                  h in
              elim (Option-cases (earlier_run b.draft)) [
                | inr (run_id, early) ↦
                    rw early (returned (b, some run_id) (read, confirmed, sym early))
                | inl new ↦ rw new (
                    Ensures-guard input.adapter_ready _
                      λ _. returned (b, none) (read, confirmed, sym new))
              ]

  launch_run-LaunchEffect :
      (b : RunDraftBundle) (answer : Result Launched) (fault : Option WriteFault)
      → read_unlocked input.draft_id found ≡ ok b
      → IsConfirmedPlan input b
      → let ((files, given), events) = launch_run env times input b answer fault found in
        OpenEffect files given events
  unfolding launch_run
  launch_run-LaunchEffect b (throw e) fault h k = refused e found tt
  launch_run-LaunchEffect b (ok l) (some (draft_fault e)) h k = undone l e found tt
  launch_run-LaunchEffect b (ok l) (some (audit_fault e)) h k =
      undone l e (marked_files env times b.draft l.run_id found) tt
  launch_run-LaunchEffect b (ok l) none h k = recorded b l h k

  launch_or_refuse-LaunchEffect :
      (launch : Option (RunDraftBundle → Result Launched)) (b : RunDraftBundle)
      (fault : Option WriteFault)
      → read_unlocked input.draft_id found ≡ ok b
      → IsConfirmedPlan input b
      → let ((files, given), events) = launch_or_refuse env times input launch b fault found in
        OpenEffect files given events
  unfolding launch_or_refuse
  launch_or_refuse-LaunchEffect none b fault h k = refused _ found tt
  launch_or_refuse-LaunchEffect (some launch) b fault h k =
      launch_run-LaunchEffect b (launch b) fault h k

  earlier_run-eq :
      (d : RunDraft) {run_id : String}
      → earlier_run d ≡ some run_id
      → d.converted_run_id ≡ some run_id
  earlier_run-eq d h = ground arith

  pub request_launch_unlocked-LaunchEffect :
      (launch : Option (RunDraftBundle → Result Launched)) (fault : Option WriteFault)
      → let ((files, given), events) = request_launch_unlocked env times input launch fault found in
        OpenEffect files given events
  unfolding request_launch_unlocked Checked
  request_launch_unlocked-LaunchEffect launch fault =
      elim (Result-cases (launch_checks env times input found)) [
        | inl (e, failed) ↦ rw (failed, request_launch_unlocked) (refused e found tt)
        | inr ((b, none), passed) ↦
            let (h, k, _) = Ensures-ok {P = Checked} launch_checks-Checked passed in
            rw (passed, request_launch_unlocked) (launch_or_refuse-LaunchEffect launch b fault h k)
        | inr ((b, some run_id), passed) ↦
            let (h, k, e) = Ensures-ok {P = Checked} launch_checks-Checked passed in
            rw (passed, request_launch_unlocked)
              (reused b run_id h k (earlier_run-eq b.draft (sym e)))
      ]
