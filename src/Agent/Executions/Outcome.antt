-- ===== src/Agent/Executions/Outcome.antt =====
-- What the actions' results make of an execution.
use Prim.Native.String.{String}
use easy_job.Prelude.{
  ◌≡◌, ◌⊎◌, ◌∙◌, refl, ap, sym, subst, Bool, true, false, if◌then◌else◌, Option, none, some, List,
  [], ◌∷◌, ◌++◌, All, arith, inl, inr, keep_if,
}
use easy_job.Domain.Execution.{ExecutionStatus, succeeded, failed}
use easy_job.Domain.Task.{Action}
use easy_job.Agent.Executions.{
  ActionResult, ran, failed_to_run, Progress, is_succeeded, first_progress, absorb,
}

abbrev pub has_succeeded : ActionResult → Bool
has_succeeded (ran r) = is_succeeded r.status
has_succeeded (failed_to_run _) = false

abbrev pub status_of : ActionResult → ExecutionStatus
status_of (ran r) = r.status
status_of (failed_to_run _) = failed

abbrev pub message_of : ActionResult → Option String
message_of (ran r) = r.error_message
message_of (failed_to_run e) = some e

abbrev pub is_enabled : Action → Bool
is_enabled a = a.enabled

module _ (result : Action → ActionResult) where
  -- The whole loop over the actions, where `result a` is what `run_action` answers for `a`: the actions
  -- that were run, in their order, and the progress at the end.
  unfoldable pub run_actions : List Action → Progress → List Action × Progress
  run_actions [] p = ([], record p { left = [] })
  run_actions (a ∷ actions) p =
      let skipped = run_actions actions p in
      let next = absorb (result a) actions p in
      let (others, end) = run_actions actions next in
      if a.enabled
      then (if has_succeeded (result a) then (a ∷ others, end) else (a ∷ [], next))
      else skipped

  -- The first enabled action that does not succeed, with those before it and after it.
  pub record Stops (actions : List Action) (r : List Action × Progress) : Type 0 where
    pub before : List Action
    pub bad : Action
    pub unrun : List Action
    pub split : keep_if is_enabled actions ≡ before ++ bad ∷ unrun
    pub succeed : All (λ a. has_succeeded (result a) ≡ true) before
    pub fails : has_succeeded (result bad) ≡ false
    pub run_until : r.0 ≡ before ++ bad ∷ []
    pub status : r.1.final_status ≡ status_of (result bad)
    pub message : r.1.error_message ≡ message_of (result bad)

  pub record Completes (actions : List Action) (p : Progress) (r : List Action × Progress)
      : Type 0 where
    pub succeed : All (λ a. has_succeeded (result a) ≡ true) (keep_if is_enabled actions)
    pub run_all : r.0 ≡ keep_if is_enabled actions
    pub status : r.1.final_status ≡ p.final_status
    pub message : r.1.error_message ≡ p.error_message

  absorb-status :
      (x : ActionResult) (rest : List Action) (p : Progress)
      → has_succeeded x ≡ true
      → ((absorb x rest p).final_status ≡ p.final_status)
        × ((absorb x rest p).error_message ≡ p.error_message)
  unfolding absorb
  absorb-status (ran r) rest p h = rw h (refl, refl)
  absorb-status (failed_to_run e) rest p h = cc

  absorb-failed :
      (x : ActionResult) (rest : List Action) (p : Progress)
      → has_succeeded x ≡ false
      → ((absorb x rest p).final_status ≡ status_of x)
        × ((absorb x rest p).error_message ≡ message_of x)
  unfolding absorb
  absorb-failed (ran r) rest p h = rw h (refl, refl)
  absorb-failed (failed_to_run e) rest p h = (refl, refl)

  abbrev Ends : List Action → Progress → List Action × Progress → Type 0
  Ends actions p r = Completes actions p r ⊎ Stops actions r

  stopped :
      (a : Action) (actions : List Action) (p : Progress)
      → a.enabled ≡ true
      → has_succeeded (result a) ≡ false
      → Stops (a ∷ actions) (a ∷ [], absorb (result a) actions p)
  stopped a actions p on bad = record {
    before = [];
    bad = a;
    unrun = keep_if is_enabled actions;
    split = ground arith;
    succeed = tt;
    fails = bad;
    run_until = refl;
    status = (absorb-failed (result a) actions p bad).0;
    message = (absorb-failed (result a) actions p bad).1;
  }

  kept :
      (a : Action) (actions : List Action)
      → a.enabled ≡ true
      → keep_if is_enabled (a ∷ actions) ≡ a ∷ keep_if is_enabled actions
  kept a actions on = ground arith

  dropped :
      (a : Action) (actions : List Action)
      → a.enabled ≡ false
      → keep_if is_enabled (a ∷ actions) ≡ keep_if is_enabled actions
  dropped a actions off = ground arith

  skipped :
      (a : Action) (actions : List Action) (p : Progress) (r : List Action × Progress)
      → a.enabled ≡ false
      → Ends actions p r
      → Ends (a ∷ actions) p r
  skipped a actions p r off (inl c) = inl (record {
    succeed = subst (All _) (sym (dropped a actions off)) c.succeed;
    run_all = c.run_all ∙ sym (dropped a actions off);
    status = c.status;
    message = c.message;
  })
  skipped a actions p r off (inr s) = inr (record {
    before = s.before;
    bad = s.bad;
    unrun = s.unrun;
    split = dropped a actions off ∙ s.split;
    succeed = s.succeed;
    fails = s.fails;
    run_until = s.run_until;
    status = s.status;
    message = s.message;
  })

  went_on :
      (a : Action) (actions : List Action) (p : Progress) (r : List Action × Progress)
      → a.enabled ≡ true
      → has_succeeded (result a) ≡ true
      → Ends actions (absorb (result a) actions p) r
      → Ends (a ∷ actions) p (a ∷ r.0, r.1)
  went_on a actions p r on good (inl c) = inl (record {
    succeed = subst (All _) (sym (kept a actions on)) (good, c.succeed);
    run_all = ap (λ xs. a ∷ xs) c.run_all ∙ sym (kept a actions on);
    status = c.status ∙ (absorb-status (result a) actions p good).0;
    message = c.message ∙ (absorb-status (result a) actions p good).1;
  })
  went_on a actions p r on good (inr s) = inr (record {
    before = a ∷ s.before;
    bad = s.bad;
    unrun = s.unrun;
    split = kept a actions on ∙ ap (λ xs. a ∷ xs) s.split;
    succeed = (good, s.succeed);
    fails = s.fails;
    run_until = ap (λ xs. a ∷ xs) s.run_until;
    status = s.status;
    message = s.message;
  })

  branch-Ends :
      (a : Action) (actions : List Action) (p : Progress) (on good : Bool)
      (skip others : List Action × Progress)
      → a.enabled ≡ on
      → has_succeeded (result a) ≡ good
      → Ends actions p skip
      → Ends actions (absorb (result a) actions p) others
      → Ends (a ∷ actions) p (
          if on
          then (if good then (a ∷ others.0, others.1) else (a ∷ [], absorb (result a) actions p))
          else skip)
  branch-Ends a actions p false good skip others e g s o = skipped a actions p skip e s
  branch-Ends a actions p true true skip others e g s o = went_on a actions p others e g o
  branch-Ends a actions p true false skip others e g s o = inr (stopped a actions p e g)

  run_actions-Ends : (actions : List Action) (p : Progress) → Ends actions p (run_actions actions p)
  unfolding run_actions
  run_actions-Ends [] p =
      inl (record { succeed = tt; run_all = refl; status = refl; message = refl })
  run_actions-Ends (a ∷ actions) p =
      branch-Ends a actions p a.enabled (has_succeeded (result a)) _ _ refl refl
        (run_actions-Ends actions p) (run_actions-Ends actions (absorb (result a) actions p))

  -- An execution either runs all its enabled actions, each with success, and ends as succeeded with no
  -- error, or it runs them up to and including the first that does not succeed, none after that, and
  -- ends with that action's status and error, where failing to start counts as failed. Disabled actions
  -- are never run.
  pub run_actions_lem :
      (actions : List Action)
      → let r = run_actions actions (first_progress actions) in
        (All (λ a. has_succeeded (result a) ≡ true) (keep_if is_enabled actions)
          × (r.0 ≡ keep_if is_enabled actions)
          × (r.1.final_status ≡ succeeded)
          × (r.1.error_message ≡ none))
        ⊎ Stops actions r
  unfolding first_progress
  run_actions_lem actions = finished (run_actions-Ends actions (first_progress actions))
    where
      finished :
          {r : List Action × Progress}
          → Ends actions (first_progress actions) r
          → (All (λ a. has_succeeded (result a) ≡ true) (keep_if is_enabled actions)
              × (r.0 ≡ keep_if is_enabled actions)
              × (r.1.final_status ≡ succeeded)
              × (r.1.error_message ≡ none))
            ⊎ Stops actions r
      finished (inl c) = inl (c.succeed, c.run_all, c.status, c.message)
      finished (inr s) = inr s
