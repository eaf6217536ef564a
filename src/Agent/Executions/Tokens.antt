-- ===== src/Agent/Executions/Tokens.antt =====
-- Over every interleaving `active_executions` keeps no token of an execution that has ended.
use easy_job.Prelude.{
  ◌≡◌, ◌∙◌, refl, subst, Bool-cases, Bool, true, false, Option, none, some, List, ◌∷◌, ◌++◌, arith,
  inl, inr,
}
use easy_job.Prelude.Map
use easy_job.Prelude.Map.{Map, get, get-insert, get-remove}
use easy_job.Domain.Trigger.{DateTime}
use easy_job.Domain.Execution.{ExecutionId, Execution}
use easy_job.Domain.Task.{Task}
use easy_job.Scheduler.Loop.{TriggerEvent}
use easy_job.Executor.Manager.{try_acquire_slot}
use easy_job.Agent.Semaphore.{Semaphore}
use easy_job.Agent.Executions.{
  Phase, Origin, from_event, by_hand, permitted, waiting, recorded, working, finished, closing,
  leaving, Run, Shared, World, Moved, Lookup, found, not_found, lookup_failed, permit_taken,
  dispatch, acquire_slot, create, register, act, finish, unregister, give_back, leave, trigger_now,
  cancel, cancel_token,
}
use easy_job.Agent.Executions.Steps.{moved, Move, Step, Steps}
use easy_job.Agent.Executions.Active.{
  WorksOn, AllWorkedOn, inserted, removed, registered, replaced, dropped, stopped,
}

module _ {S : Type 0} (sem : Semaphore S) where
  -- Each execution that can be cancelled is at work.
  abbrev pub IsTracked : World S → Type 0
  IsTracked w = AllWorkedOn w.shared.active_executions w.runs

  permit_taken-IsTracked :
      (task : Task) (origin : Origin) (o : Option S) (w : World S)
      → IsTracked w
      → IsTracked (permit_taken sem task origin o w)
  permit_taken-IsTracked task origin none w v = v
  permit_taken-IsTracked task origin (some held) w v = λ id h. inr (v id h)

  dispatch-IsTracked :
      (l : Lookup) (e : TriggerEvent) (w : World S) → IsTracked w → IsTracked (dispatch sem l e w)
  unfolding dispatch
  dispatch-IsTracked not_found e w v = v
  dispatch-IsTracked lookup_failed e w v = v
  dispatch-IsTracked (found task) e w v = permit_taken-IsTracked task (from_event e) _ w v

  trigger_now-IsTracked :
      (l : Lookup) (w : World S) → IsTracked w → IsTracked (trigger_now sem l w).0
  unfolding trigger_now
  trigger_now-IsTracked not_found w v = v
  trigger_now-IsTracked lookup_failed w v = v
  trigger_now-IsTracked (found task) w v = permit_taken-IsTracked task by_hand _ w v

  same_work : (id : ExecutionId) (p q : Phase) → p ≡ q → WorksOn id p → WorksOn id q
  same_work id p q e w = subst (WorksOn id) e w

  -- A run that is not at work may become any other.
  idle_moves :
      (active : Map Bool) (run next : Run) (before after : List Run) (p : Phase)
      → run.phase ≡ p
      → ((id : ExecutionId) → WorksOn id p → ⊥)
      → AllWorkedOn active (before ++ run ∷ after)
      → AllWorkedOn active (before ++ next ∷ after)
  idle_moves active run next before after p e idle v =
      replaced active before run next after
        (λ id w. absurd (idle id (same_work id run.phase p e w))) v

  acquire_slot-IsTracked :
      (run : Run) (before after : List Run) (s : Shared S)
      → run.phase ≡ permitted
      → AllWorkedOn s.active_executions (before ++ run ∷ after)
      → IsTracked (moved (acquire_slot sem run s) before after)
  unfolding acquire_slot
  acquire_slot-IsTracked run before after s e v =
      let policy = run.task.execution_policy.concurrency_policy in
      let idle : (next : Run) → AllWorkedOn s.active_executions (before ++ next ∷ after) =
        λ next. idle_moves s.active_executions run next before after permitted e (λ j w. w) v in
      elim (Bool-cases (try_acquire_slot run.task.id policy s.counts).1) [
        | inl yes_ ↦ rw yes_ (idle _)
        | inr no_ ↦ rw no_ (idle _)
      ]

  create-IsTracked :
      (id : ExecutionId) (due now : DateTime) (created : Bool) (run : Run) (before after : List Run)
      (s : Shared S)
      → run.phase ≡ waiting
      → AllWorkedOn s.active_executions (before ++ run ∷ after)
      → IsTracked (moved (create sem id due now created run s) before after)
  unfolding create
  create-IsTracked id due now true run before after s e v =
      idle_moves s.active_executions run _ before after waiting e (λ j w. w) v
  create-IsTracked id due now false run before after s e v =
      idle_moves s.active_executions run _ before after waiting e (λ j w. w) v

  register-IsTracked :
      (exec : Execution) (origin : Origin) (run : Run) (before after : List Run) (s : Shared S)
      → run.origin ≡ origin
      → run.phase ≡ recorded exec
      → AllWorkedOn s.active_executions (before ++ run ∷ after)
      → IsTracked (moved (register sem true exec run s) before after)
  unfolding register
  register-IsTracked exec by_hand run before after s o e v = rw o (
      registered exec.id s.active_executions before _ after refl
        (idle_moves s.active_executions run _ before after (recorded exec) e (λ j w. w) v))
  register-IsTracked exec (from_event ev) run before after s o e v = rw o (
      registered exec.id s.active_executions before _ after refl
        (idle_moves s.active_executions run _ before after (recorded exec) e (λ j w. w) v))

  unregister-IsTracked :
      (exec : Execution) (run : Run) (before after : List Run) (s : Shared S)
      → run.phase ≡ finished exec
      → AllWorkedOn s.active_executions (before ++ run ∷ after)
      → IsTracked (moved (unregister sem exec run s) before after)
  unfolding unregister
  unregister-IsTracked exec run before after s works v =
      stopped (Map.remove exec.id s.active_executions) before run _ after
        (λ j w.
          let same : exec.id ≡ j = same_work j run.phase (finished exec) works w in
          get-remove exec.id j s.active_executions ∙ ground arith)
        λ j h. v j (removed exec.id j s.active_executions h).1

  cancel-IsTracked :
      (id : ExecutionId) (o : Option Bool) (s : Shared S) (runs : List Run)
      → get id s.active_executions ≡ o
      → AllWorkedOn s.active_executions runs
      → AllWorkedOn (cancel_token sem id o s).0.active_executions runs
  cancel-IsTracked id none s runs e v j h = v j h
  cancel-IsTracked id (some b) s runs e v j h = elim (inserted id j true s.active_executions h) [
    | inl same ↦ v j (λ absent. let here : get j s.active_executions ≡ some b = ground arith in cc)
    | inr old ↦ v j old
  ]

  tracked_runs :
      {runs : List Run} (w : World S)
      → w.runs ≡ runs
      → IsTracked w
      → AllWorkedOn w.shared.active_executions runs
  tracked_runs w e v = subst (AllWorkedOn w.shared.active_executions) e v

  moved-IsTracked :
      (run : Run) (before after : List Run) (s : Shared S) (p : Phase) (m : Moved S)
      → run.phase ≡ p
      → Move sem run s p m
      → AllWorkedOn s.active_executions (before ++ run ∷ after)
      → IsTracked (moved m before after)
  unfolding act finish give_back leave
  moved-IsTracked run before after s p m e Move.asks v =
      acquire_slot-IsTracked run before after s e v
  moved-IsTracked run before after s p m e (Move.creates id due now created) v =
      create-IsTracked id due now created run before after s e v
  moved-IsTracked run before after s p m e (Move.registers exec) v =
      register-IsTracked exec run.origin run before after s refl e v
  moved-IsTracked run before after s p m e (Move.acts result action rest exec q _) v =
      replaced s.active_executions before run _ after
        (λ j w. same_work j run.phase (working exec q) e w) v
  moved-IsTracked run before after s p m e (Move.finishes at exec q _) v =
      replaced s.active_executions before run _ after
        (λ j w. same_work j run.phase (working exec q) e w) v
  moved-IsTracked run before after s p m e (Move.unregisters exec) v =
      unregister-IsTracked exec run before after s e v
  moved-IsTracked run before after s p m e Move.gives_back v =
      idle_moves s.active_executions run _ before after closing e (λ j w. w) v
  moved-IsTracked run before after s p m e Move.leaves v =
      dropped s.active_executions before run after
        (λ j w. absurd (same_work j run.phase leaving e w)) v

  step-IsTracked : {w v : World S} → Step sem w v → IsTracked w → IsTracked v
  unfolding cancel
  step-IsTracked (Step.event l e w) v = dispatch-IsTracked l e w v
  step-IsTracked (Step.asked l w) v = trigger_now-IsTracked l w v
  step-IsTracked (Step.cancels id w) v =
      cancel-IsTracked id (get id w.shared.active_executions) w.shared w.runs refl v
  step-IsTracked (Step.moves run before after m w e move) v =
      moved-IsTracked run before after w.shared run.phase m refl move (tracked_runs w e v)

  -- In every interleaving of the agent's tasks, each execution that has a token in
  -- `active_executions` is being worked on by a spawned run, if that was so at the start and the
  -- answers of `task.trigger_now` serialise: an
  -- execution that has ended, or whose record could not be created, cannot be cancelled any more.
  pub Steps-IsTracked : (w v : World S) → Steps sem w v → IsTracked w → IsTracked v
  Steps-IsTracked w v Steps.done t = t
  Steps-IsTracked w v (Steps.then_ before step) t =
      step-IsTracked step (Steps-IsTracked w _ before t)
