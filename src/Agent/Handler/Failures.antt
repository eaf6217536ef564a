-- ===== src/Agent/Handler/Failures.antt =====
-- Requests that are answered with an error.
use Prim.Native.String.{String}
use text.Mathlib.Text.{◌==◌}
use easy_job.Prelude.{◌≡◌, refl, false, if-both, Option, none, some, ◌∷◌}
use easy_job.Prelude.Result.{Result, ok, err}
use easy_job.Domain.Trigger.{TaskId, TriggerId, DateTime}
use easy_job.Domain.Policy.{SystemSettings}
use easy_job.Domain.Task.{Task}
use easy_job.Common.Error.{Error}
use easy_job.Persistence.Interface.{
  TaskRepository, ExecutionRepository, SettingsRepository, IsTaskStore, IsSettingsStore,
}
use easy_job.Ipc.Protocol.{IpcRequest, success, error}
use easy_job.Agent.Handler.{
  SchedulerCommand, Serde, Server, answer, send, announces, settings_saved, settings_parsed,
  settings_set, task_saved, task_parsed, task_save, task_deleted, task_named, task_delete,
  reroll_parsed, rerolled, trigger_reroll, reroll_trigger, add_task,
}
use easy_job.Agent.Handler.Requests.{Outside, handle_method, handle_request}

module _ {D Value : Type 0} where
  -- An error leaves the database as it was.
  abbrev pub Unchanged : Server D → Server D × Result String Value → Type 0
  Unchanged s (s', ok value) = Unit
  Unchanged s (s', err msg) = s'.database ≡ s.database

  reading-Unchanged : (s : Server D) (r : Result String Value) → Unchanged s (s, r)
  reading-Unchanged s (ok value) = tt
  reading-Unchanged s (err msg) = refl

  succeeding-Unchanged :
      (s s' : Server D) (r : Result String Value) (v : Value) → r ≡ ok v → Unchanged s (s', r)
  succeeding-Unchanged s s' (ok value) v e = tt
  succeeding-Unchanged s s' (err msg) v e = cc

answered :
    {D Value : Type 0} (s : Server D) (id : String) (p : Server D × Result String Value)
    → Unchanged s p
    → (answer id p.1).ok ≡ false
    → p.0.database ≡ s.database
unfolding answer success error
answered s id (s', ok value) u h = cc
answered s id (s', err msg) u h = u

-- What the handler writes can be written as JSON.
pub record Serializes {Value : Type 0} (serde : Serde Value) : Type 0 where
  pub settings : (s : SystemSettings) → (v : Value) × (serde.settings_to s ≡ ok v)
  pub task : (t : Task) → (v : Value) × (serde.task_to t ≡ ok v)

module _ {Value : Type 0} (serde : Serde Value) {D : Type 0} (tasks : TaskRepository D)
    (runs : ExecutionRepository D) (settings : SettingsRepository D) (writes : Serializes serde)
    (task_laws : IsTaskStore tasks) (settings_laws : IsSettingsStore settings) where
  settings_parsed-Unchanged :
      (r : Result String SystemSettings) (s : Server D)
      → Unchanged s (settings_parsed serde tasks runs settings r s)
  settings_parsed-Unchanged (err msg) s = refl
  settings_parsed-Unchanged (ok new) s = go _ refl
    where
      go :
          (o : Result Error (Unit {0}) × D)
          → settings.save_system_settings new s.database ≡ o
          → Unchanged s (settings_saved serde tasks runs settings new o s)
      go (ok _, d) e =
          let (v, w) = writes.settings new in
          succeeding-Unchanged s (record s { database = d }) (serde.settings_to new) v w
      go (err x, d) e = settings_laws.save_failed new s.database d x e

  task_parsed-Unchanged :
      (r : Result String Task) (s : Server D)
      → Unchanged s (task_parsed serde tasks runs settings r s)
  task_parsed-Unchanged (err msg) s = refl
  task_parsed-Unchanged (ok task) s = go _ refl
    where
      go :
          (o : Result Error (Unit {0}) × D)
          → tasks.save task s.database ≡ o
          → Unchanged s (task_saved serde tasks runs settings task o s)
      go (ok _, d) e =
          let (v, w) = writes.task task in
          succeeding-Unchanged s (announces (add_task task) (record s { database = d }))
            (serde.task_to task) v w
      go (err x, d) e = task_laws.save_failed task s.database d x e

  task_named-Unchanged :
      (r : Result String TaskId) (s : Server D)
      → Unchanged s (task_named serde tasks runs settings r s)
  task_named-Unchanged (err msg) s = refl
  task_named-Unchanged (ok id) s = go _ refl
    where
      go :
          (o : Result Error (Unit {0}) × D)
          → tasks.delete id s.database ≡ o
          → Unchanged s (task_deleted serde tasks runs settings id o s)
      go (ok _, d) e = tt
      go (err x, d) e = task_laws.delete_failed id s.database d x e

  send-database :
      (command : SchedulerCommand) (s : Server D) → (send command s).database ≡ s.database
  send-database command s =
      if-both (λ t. t.database ≡ s.database) s.scheduler_open (record s { sent = command ∷ s.sent })
        s refl refl

  rerolled-Unchanged :
      (reply : Option (Result String (Option DateTime))) (s s' : Server D)
      → s'.database ≡ s.database
      → Unchanged s (s', rerolled serde tasks runs settings reply)
  rerolled-Unchanged none s s' e = e
  rerolled-Unchanged (some (err msg)) s s' e = e
  rerolled-Unchanged (some (ok at)) s s' e = tt

  reroll_parsed-Unchanged :
      (r : Result String (TaskId × TriggerId)) (reply : Option (Result String (Option DateTime)))
      (s : Server D)
      → Unchanged s (reroll_parsed serde tasks runs settings r reply s)
  reroll_parsed-Unchanged (err msg) reply s = refl
  reroll_parsed-Unchanged (ok (task_id, trigger_id)) reply s =
      if-both (Unchanged s) s.scheduler_open _ _
        (rerolled-Unchanged reply s (send (reroll_trigger task_id trigger_id) s)
          (send-database (reroll_trigger task_id trigger_id) s))
        refl

  module _ (executions : String → Value → Server D → Server D × Result String Value) where
    handle_method-Unchanged :
        ((method : String) (params : Value) (s : Server D)
          → Unchanged s (executions method params s))
        → (out : Outside) (method : String) (params : Value) (s : Server D)
        → Unchanged s (handle_method serde tasks runs settings executions out method params s)
    unfolding handle_method settings_set task_save task_delete trigger_reroll
    handle_method-Unchanged runs_keep out method params s =
        let both = if-both (Unchanged {Value = Value} s) in
        let reads = reading-Unchanged {Value = Value} s in
        both (method == "agent.status") _ _ (reads _) (
          both (method == "agent.shutdown") _ _ tt (
            both (method == "settings.get") _ _ (reads _) (
              both (method == "settings.set") _ _ (settings_parsed-Unchanged _ s) (
                both (method == "task.list") _ _ (reads _) (
                  both (method == "task.get") _ _ (reads _) (
                    both (method == "task.save") _ _ (task_parsed-Unchanged _ s) (
                      both (method == "task.delete") _ _ (task_named-Unchanged _ s) (
                        both (method == "task.trigger_now") _ _ (runs_keep method params s) (
                          both (method == "task.overview") _ _ (reads _) (
                            both (method == "execution.list") _ _ (reads _) (
                              both (method == "execution.get") _ _ (reads _) (
                                both (method == "execution.get_output") _ _ (reads _) (
                                  both (method == "execution.cancel") _ _
                                    (runs_keep method params s)
                                    (both (method == "trigger.reroll") _ _
                                      (reroll_parsed-Unchanged _ out.reply s) refl))))))))))))))

    -- A request that is answered with an error has itself left the database as it was, if the settings
    -- and tasks that the handler answers with can be written as JSON, the repositories leave the
    -- database as it was where they fail, and `task.trigger_now` and `execution.cancel` keep to it.
    pub handle_request-failed :
        ((method : String) (params : Value) (s : Server D)
          → Unchanged s (executions method params s))
        → (out : Outside) (req : IpcRequest Value) (s : Server D)
        → (handle_request serde tasks runs settings executions out req s).1.ok ≡ false
        → (handle_request serde tasks runs settings executions out req s).0.database ≡ s.database
    unfolding handle_request
    handle_request-failed runs_keep out req s h =
        answered s req.id
          (handle_method serde tasks runs settings executions out req.method req.params s)
          (handle_method-Unchanged runs_keep out req.method req.params s) h
