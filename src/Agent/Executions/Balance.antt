-- ===== src/Agent/Executions/Balance.antt =====
-- Every permit is held by exactly one run and every slot by one run of its task, in every interleaving.
use easy_job.Prelude.{
  ℕ, ◌-◌, ◌^◌, ◌<◌, ◌≡◌, refl, ap, Bool, true, false, Option, none, some, List, ◌∷◌, ◌++◌,
}
use easy_job.Prelude.Map.{get}
use easy_job.Domain.Trigger.{DateTime}
use easy_job.Domain.Execution.{ExecutionId}
use easy_job.Scheduler.Loop.{TriggerEvent}
use easy_job.Agent.Semaphore.{Semaphore, IsSemaphore}
use easy_job.Agent.Executions.{
  Phase, Origin, from_event, by_hand, waiting, recorded, Run, Shared, World, Moved, Lookup, found,
  not_found, lookup_failed, dispatch, create, register, act, finish, unregister, trigger_now,
  cancel, cancel_token,
}
use easy_job.Agent.Executions.Holding.{
  IsBalanced, Even, slots_of, permit_taken-Even, swap-Even, at_runs, give_back-Even, leave-Even,
  acquire_slot-Even,
}
use easy_job.Agent.Executions.Steps.{moved, Move, Step, Steps}

module _ {S : Type 0} (sem : Semaphore S) where
  module _ (laws : IsSemaphore sem) (limit : ℕ) (small : limit < 2 ^ 64 - 1) where
    dispatch-IsBalanced :
        (l : Lookup) (e : TriggerEvent) (w : World S)
        → IsBalanced sem limit w
        → IsBalanced sem limit (dispatch sem l e w)
    unfolding dispatch
    dispatch-IsBalanced not_found e w v = v
    dispatch-IsBalanced lookup_failed e w v = v
    dispatch-IsBalanced (found task) e w v =
        permit_taken-Even sem laws limit task (from_event e) _ w refl v

    trigger_now-IsBalanced :
        (l : Lookup) (w : World S)
        → IsBalanced sem limit w
        → IsBalanced sem limit (trigger_now sem l w).0
    unfolding trigger_now
    trigger_now-IsBalanced not_found w v = v
    trigger_now-IsBalanced lookup_failed w v = v
    trigger_now-IsBalanced (found task) w v =
        permit_taken-Even sem laws limit task by_hand _ w refl v

    cancelled-IsBalanced :
        (id : ExecutionId) (o : Option Bool) (w : World S)
        → IsBalanced sem limit w
        → IsBalanced sem limit (record w { shared = (cancel_token sem id o w.shared).0 })
    cancelled-IsBalanced id none w v = v
    cancelled-IsBalanced id (some _) w v = record { permits = v.permits; slots = v.slots }

    create-Even :
        (id : ExecutionId) (due now : DateTime) (created : Bool) (run : Run)
        (before after : List Run) (s : Shared S)
        → run.phase ≡ waiting
        → Even sem limit s (before ++ run ∷ after)
        → IsBalanced sem limit (moved (create sem id due now created run s) before after)
    unfolding create
    create-Even id due now true run before after s e v =
        swap-Even sem limit run _ before after s s refl (rw e refl) refl refl v
    create-Even id due now false run before after s e v =
        swap-Even sem limit run _ before after s s refl (rw e refl) refl refl v

    register-Even :
        (exec : _) (origin : Origin) (run : Run) (before after : List Run) (s : Shared S)
        → run.origin ≡ origin
        → run.phase ≡ recorded exec
        → Even sem limit s (before ++ run ∷ after)
        → IsBalanced sem limit (moved (register sem true exec run s) before after)
    unfolding register
    register-Even exec by_hand run before after s o e v =
        rw o (swap-Even sem limit run _ before after s _ refl (rw e refl) refl refl v)
    register-Even exec (from_event ev) run before after s o e v =
        rw o (swap-Even sem limit run _ before after s _ refl (rw e refl) refl refl v)

    moved-Even :
        (run : Run) (before after : List Run) (s : Shared S) (p : Phase) (m : Moved S)
        → run.phase ≡ p
        → Move sem run s p m
        → Even sem limit s (before ++ run ∷ after)
        → IsBalanced sem limit (moved m before after)
    unfolding act finish unregister
    moved-Even run before after s p m e Move.asks v =
        acquire_slot-Even sem laws limit small run before after s (ap slots_of e) v
    moved-Even run before after s p m e (Move.creates id due now created) v =
        create-Even id due now created run before after s e v
    moved-Even run before after s p m e (Move.registers exec) v =
        register-Even exec run.origin run before after s refl e v
    moved-Even run before after s p m e (Move.acts result action rest exec q _) v =
        swap-Even sem limit run _ before after s _ refl (rw e refl) refl refl v
    moved-Even run before after s p m e (Move.finishes at exec q _) v =
        swap-Even sem limit run _ before after s _ refl (rw e refl) refl refl v
    moved-Even run before after s p m e (Move.unregisters exec) v =
        swap-Even sem limit run _ before after s _ refl (rw e refl) refl refl v
    moved-Even run before after s p m e Move.gives_back v =
        give_back-Even sem laws limit run before after s (ap slots_of e) v
    moved-Even run before after s p m e Move.leaves v =
        leave-Even sem laws limit run before after s (ap slots_of e) v

    step-IsBalanced :
        {w v : World S} → Step sem w v → IsBalanced sem limit w → IsBalanced sem limit v
    unfolding cancel
    step-IsBalanced (Step.event l e w) v = dispatch-IsBalanced l e w v
    step-IsBalanced (Step.asked l w) v = trigger_now-IsBalanced l w v
    step-IsBalanced (Step.cancels id w) v =
        cancelled-IsBalanced id (get id w.shared.active_executions) w v
    step-IsBalanced (Step.moves run before after m w e move) v =
        moved-Even run before after w.shared run.phase m refl move (at_runs sem limit w e v)

    -- Starting balanced, every sequence of steps of the dispatcher, of calls of `task.trigger_now` and
    -- `execution.cancel` and of the spawned executions, in any interleaving and with any
    -- failures of the repositories and of the actions, stays balanced: the permits that are out are
    -- as many as the admissions and executions that are under way, and the running count of every task
    -- is the number of its own that have been granted a slot and have not given it back. The answers
    -- of `task.trigger_now` serialise, and the limit is below 2^64 - 1.
    pub Steps-IsBalanced :
        (w v : World S) → Steps sem w v → IsBalanced sem limit w → IsBalanced sem limit v
    Steps-IsBalanced w v Steps.done b = b
    Steps-IsBalanced w v (Steps.then_ before step) b =
        step-IsBalanced step (Steps-IsBalanced w _ before b)
