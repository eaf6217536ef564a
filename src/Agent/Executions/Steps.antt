-- ===== src/Agent/Executions/Steps.antt =====
-- The steps of the tasks that share the executions' state.
use easy_job.Prelude.{◌≡◌, Bool, true, Option, none, some, List, [], ◌∷◌, ◌++◌}
use easy_job.Domain.Trigger.{DateTime}
use easy_job.Domain.Execution.{ExecutionId, Execution}
use easy_job.Domain.Task.{Action}
use easy_job.Scheduler.Loop.{TriggerEvent}
use easy_job.Agent.Semaphore.{Semaphore}
use easy_job.Agent.Executions.{
  ActionResult, Progress, Phase, Moved, skip_disabled, permitted, waiting, recorded, working,
  finished, closing, leaving, Run, Shared, World, Lookup, dispatch, trigger_now, acquire_slot,
  create, register, act, finish, unregister, give_back, leave, cancel,
}

abbrev pub maybe_run : Option Run → List Run → List Run
maybe_run none runs = runs
maybe_run (some r) runs = r ∷ runs

abbrev pub moved : {S : Type 0} → Moved S → List Run → List Run → World S
moved m before after = record { shared = m.shared; runs = before ++ maybe_run m.next after }

module _ {S : Type 0} (sem : Semaphore S) where
  -- What a run may do next, by its phase. The answer of `task.trigger_now` serialises.
  pub data Move (run : Run) (s : Shared S) : Phase → Moved S → Type 0 where
    asks : Move run s permitted (acquire_slot sem run s)
    creates :
        (id : ExecutionId) (due now : DateTime) (created : Bool)
        → Move run s waiting (create sem id due now created run s)
    registers : (exec : Execution) → Move run s (recorded exec) (register sem true exec run s)
    acts :
        (result : ActionResult) (action : Action) (rest : List Action) (exec : Execution)
        (p : Progress)
        → skip_disabled p.left ≡ action ∷ rest
        → Move run s (working exec p) (act sem result rest exec p run s)
    finishes :
        (at : DateTime) (exec : Execution) (p : Progress)
        → skip_disabled p.left ≡ []
        → Move run s (working exec p) (finish sem at exec p run s)
    unregisters : (exec : Execution) → Move run s (finished exec) (unregister sem exec run s)
    gives_back : Move run s closing (give_back sem run s)
    leaves : Move run s leaving (leave sem run s)

  -- One step of one of the tasks that share the state; any run may be the next to move.
  pub data Step : World S → World S → Type 0 where
    event : (l : Lookup) (e : TriggerEvent) (w : World S) → Step w (dispatch sem l e w)
    asked : (l : Lookup) (w : World S) → Step w (trigger_now sem l w).0
    cancels :
        (id : ExecutionId) (w : World S) → Step w (record w { shared = (cancel sem id w.shared).0 })
    moves :
        (run : Run) (before after : List Run) (m : Moved S) (w : World S)
        → w.runs ≡ before ++ run ∷ after
        → Move run w.shared run.phase m
        → Step w (moved m before after)

  pub data Steps (w : World S) : World S → Type 0 where
    done : Steps w w
    then_ : {u v : World S} → Steps w u → Step u v → Steps w v
