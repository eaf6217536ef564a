-- ===== src/Agent/Handler/Overlap.antt =====
-- Requests that overlap, as the server runs each in a task of its own.
use Prim.Native.String.{String}
use easy_job.Prelude.{◌≡◌, subst, if-both, List, ◌∷◌, ◌++◌}
use easy_job.Prelude.Result.{Result}
use easy_job.Persistence.Interface.{
  TaskRepository, ExecutionRepository, SettingsRepository, IsTaskStore, IsApart,
}
use easy_job.Agent.Handler.{SchedulerCommand, Serde, Server, announce}
use easy_job.Agent.Handler.Words.{IsSingle, IsSingle-drop}
use easy_job.Agent.Handler.Announcements.{IsTold, announce-IsTold, handle_method-IsTold}
use easy_job.Agent.Handler.Requests.{Outside, handle_request}
use easy_job.Ipc.Protocol.{IpcRequest}

module _ {Value : Type 0} (serde : Serde Value) {D : Type 0} (tasks : TaskRepository D)
    (runs : ExecutionRepository D) (settings : SettingsRepository D)
    (task_laws : IsTaskStore tasks) where
  module _ (executions : String → Value → Server D → Server D × Result String Value) where
    -- One step of one of the requests that overlap: up to its answer, or to the command that it has to
    -- send; or the command is sent. No request changes a task while the command about another change
    -- of that task still waits.
    pub data Step : Server D → Server D → Type 0 where
      requested :
          (out : Outside) (req : IpcRequest Value) (s : Server D)
          → IsSingle (handle_request serde tasks runs settings executions out req s).0.announcing
          → Step s (handle_request serde tasks runs settings executions out req s).0
      announced :
          (before : List SchedulerCommand) (c : SchedulerCommand) (after : List SchedulerCommand)
          (s : Server D)
          → s.announcing ≡ before ++ c ∷ after
          → Step s (announce before c after s)

    pub data Steps (s : Server D) : Server D → Type 0 where
      done : Steps s s
      then_ : {t u : Server D} → Steps s t → Step t u → Steps s u

    step-IsTold :
        IsApart tasks settings
        → ((method : String) (params : Value) (s : Server D)
            → IsTold tasks s
            → IsTold tasks (executions method params s).0)
        → {s t : Server D} → Step s t
        → IsTold tasks s × IsSingle s.announcing
        → IsTold tasks t × IsSingle t.announcing
    unfolding handle_request announce
    step-IsTold apart runs_keep (Step.requested out req s single) h = (
      handle_method-IsTold serde tasks runs settings task_laws executions apart runs_keep out
          req.method req.params s h.0,
      single,
    )
    step-IsTold apart runs_keep (Step.announced before c after s e) h =
        let (fresh, later) = IsSingle-drop before c after (subst IsSingle e h.1) in
        (
          announce-IsTold serde tasks runs settings task_laws before c after s e fresh h.0,
          if-both (λ (t : Server D). IsSingle t.announcing) s.scheduler_open _ _ later later,
        )

    -- In every interleaving of overlapping requests of which no two change the same task at a time, the
    -- last word on each task among the commands that wait to be sent and those sent is what the
    -- repository finds, if that held at the start, the scheduler receives, the repositories keep
    -- tasks under their ids and the settings apart, and `task.trigger_now` and `execution.cancel` keep it.
    pub Steps-IsTold :
        IsApart tasks settings
        → ((method : String) (params : Value) (s : Server D)
            → IsTold tasks s
            → IsTold tasks (executions method params s).0)
        → (s t : Server D) → Steps s t
        → IsTold tasks s × IsSingle s.announcing
        → IsTold tasks t × IsSingle t.announcing
    Steps-IsTold apart runs_keep s t Steps.done h = h
    Steps-IsTold apart runs_keep s t (Steps.then_ before step) h =
        step-IsTold apart runs_keep step (Steps-IsTold apart runs_keep s _ before h)
