-- ===== src/Agent/Handler/Announcements.antt =====
-- What the scheduler has been told of the tasks.
use Prim.Native.String.{String}
use text.Mathlib.Text.{◌==◌}
use easy_job.Prelude.{
  ◌≡◌, ◌≢◌, ◌∙◌, ap, refl, sym, subst, true, Bool-cases, All, ◌++◌, inl, inr, if-both, arith,
  Option, none, some, List, ◌∷◌, if◌then◌else◌,
}
use easy_job.Prelude.Tests as Tests
use easy_job.Prelude.Result.{Result, ok, err, Holds}
use easy_job.Domain.Trigger.{TaskId, TriggerId, DateTime}
use easy_job.Domain.Policy.{SystemSettings}
use easy_job.Domain.Task.{Task}
use easy_job.Common.Error.{Error}
use easy_job.Persistence.Interface.{
  TaskRepository, ExecutionRepository, SettingsRepository, IsTaskStore, IsApart, plan, planned,
}
use easy_job.Agent.Handler.{
  SchedulerCommand, Serde, Server, send, announces, announce, settings_saved, settings_parsed,
  settings_set, task_saved, task_parsed, task_save, task_deleted, task_named, task_delete,
  reroll_parsed, trigger_reroll, reroll_trigger, remove_task, add_task,
}
use easy_job.Agent.Handler.Words.{told, Apart, told-announced, told-reroll}
use easy_job.Agent.Handler.Requests.{Outside, handle_method}

module _ {D : Type 0} (tasks : TaskRepository D) where
  -- The scheduler receives, and the last word on each task among the commands that wait and those that
  -- were sent, a waiting one before any that was sent, is what the repository finds. So where none
  -- about a task waits, it is the last word that was sent.
  pub record IsTold (s : Server D) : Type 0 where
    pub receives : s.scheduler_open ≡ true
    pub words :
        (id : TaskId)
        → Holds
            (λ o. told id (s.announcing ++ s.sent) ≡ o)
            (planned (tasks.find_by_id id s.database))

module _ {Value : Type 0} (serde : Serde Value) {D : Type 0} (tasks : TaskRepository D)
    (runs : ExecutionRepository D) (settings : SettingsRepository D)
    (task_laws : IsTaskStore tasks) where
  saved-IsTold :
      (task : Task) (d : D) (s : Server D)
      → tasks.save task s.database ≡ (ok tt, d)
      → IsTold tasks s
      → IsTold tasks (announces (add_task task) (record s { database = d }))
  saved-IsTold task d s e h = record {
    receives = h.receives;
    words = λ id. elim (Bool-cases (Tests.◌==◌ task.id id)) [
      | inl t ↦
          let same : task.id ≡ id = ground arith in
          rw t (
            subst (λ j. Holds (λ o. some (plan task) ≡ o) (planned (tasks.find_by_id j d))) same
              (task_laws.save_found task s.database d e))
      | inr n ↦
          let apart : id ≢ task.id = ground arith in
          rw n (
            subst (λ r. Holds (λ o. told id (s.announcing ++ s.sent) ≡ o) (planned r))
              (sym (task_laws.save_other task id s.database apart)
                ∙ ap (λ p. tasks.find_by_id id p.1) e)
              (h.words id))
    ];
  }

  failed-IsTold :
      (d : D) (s : Server D)
      → d ≡ s.database
      → IsTold tasks s
      → IsTold tasks (record s { database = d })
  failed-IsTold d s e h = record {
    receives = h.receives;
    words = λ id.
        subst
          (λ x. Holds (λ o. told id (s.announcing ++ s.sent) ≡ o) (planned (tasks.find_by_id id x)))
          (sym e) (h.words id);
  }

  task_parsed-IsTold :
      (r : Result String Task) (s : Server D)
      → IsTold tasks s
      → IsTold tasks (task_parsed serde tasks runs settings r s).0
  task_parsed-IsTold (err msg) s h = h
  task_parsed-IsTold (ok task) s h = go _ refl
    where
      go :
          (o : Result Error (Unit {0}) × D)
          → tasks.save task s.database ≡ o
          → IsTold tasks (task_saved serde tasks runs settings task o s).0
      go (ok _, d) e = saved-IsTold task d s e h
      go (err x, d) e = failed-IsTold d s (task_laws.save_failed task s.database d x e) h

  deleted-IsTold :
      (gone : TaskId) (d : D) (s : Server D)
      → tasks.delete gone s.database ≡ (ok tt, d)
      → IsTold tasks s
      → IsTold tasks (announces (remove_task gone) (record s { database = d }))
  deleted-IsTold gone d s e h = record {
    receives = h.receives;
    words = λ id. elim (Bool-cases (Tests.◌==◌ gone id)) [
      | inl t ↦
          let same : gone ≡ id = ground arith in
          rw t (
            subst (λ j. Holds (λ o. none ≡ o) (planned (tasks.find_by_id j d))) same
              (rw (task_laws.delete_gone gone s.database d e) refl))
      | inr n ↦
          let apart : id ≢ gone = ground arith in
          rw n (
            subst (λ r. Holds (λ o. told id (s.announcing ++ s.sent) ≡ o) (planned r))
              (sym (task_laws.delete_other gone id s.database apart)
                ∙ ap (λ p. tasks.find_by_id id p.1) e)
              (h.words id))
    ];
  }

  task_named-IsTold :
      (r : Result String TaskId) (s : Server D)
      → IsTold tasks s
      → IsTold tasks (task_named serde tasks runs settings r s).0
  task_named-IsTold (err msg) s h = h
  task_named-IsTold (ok id) s h = go _ refl
    where
      go :
          (o : Result Error (Unit {0}) × D)
          → tasks.delete id s.database ≡ o
          → IsTold tasks (task_deleted serde tasks runs settings id o s).0
      go (ok _, d) e = deleted-IsTold id d s e h
      go (err x, d) e = failed-IsTold d s (task_laws.delete_failed id s.database d x e) h

  shutdown-IsTold :
      (s : Server D) → IsTold tasks s → IsTold tasks (record s { shutdown_notified = true })
  shutdown-IsTold s h = record { receives = h.receives; words = h.words }

  sent-IsTold :
      (task_id : TaskId) (trigger_id : TriggerId) (s : Server D)
      → IsTold tasks s
      → IsTold tasks (send (reroll_trigger task_id trigger_id) s)
  sent-IsTold task_id trigger_id s h =
      let c = reroll_trigger task_id trigger_id in
      subst (λ b. IsTold tasks (if b then record s { sent = c ∷ s.sent } else s)) (sym h.receives)
        (record {
          receives = h.receives;
          words = λ id.
              subst (λ w. Holds (λ o. w ≡ o) (planned (tasks.find_by_id id s.database)))
                (sym (told-reroll id s.announcing task_id trigger_id s.sent)) (h.words id);
        })

  pub announce-IsTold :
      (before : List SchedulerCommand) (c : SchedulerCommand) (after : List SchedulerCommand)
      (s : Server D)
      → s.announcing ≡ before ++ c ∷ after
      → All (Apart c) after
      → IsTold tasks s
      → IsTold tasks (announce before c after s)
  unfolding announce
  announce-IsTold before c after s e apart h =
      let left = before ++ after in
      subst
        (λ b. IsTold tasks (
          if b
          then record s { announcing = left; sent = c ∷ s.sent }
          else record s { announcing = left }))
        (sym h.receives)
        (record {
          receives = h.receives;
          words = λ id.
              subst (λ w. Holds (λ o. w ≡ o) (planned (tasks.find_by_id id s.database)))
                (ap (λ l. told id (l ++ s.sent)) e ∙ told-announced id before c after s.sent apart)
                (h.words id);
        })

  reroll_parsed-IsTold :
      (r : Result String (TaskId × TriggerId)) (reply : Option (Result String (Option DateTime)))
      (s : Server D)
      → IsTold tasks s
      → IsTold tasks (reroll_parsed serde tasks runs settings r reply s).0
  reroll_parsed-IsTold (err msg) reply s h = h
  reroll_parsed-IsTold (ok (task_id, trigger_id)) reply s h =
      if-both (λ (p : Server D × Result String Value). IsTold tasks p.0) s.scheduler_open _ _
        (sent-IsTold task_id trigger_id s h) h

  settings_parsed-IsTold :
      IsApart tasks settings
      → (r : Result String SystemSettings) (s : Server D) → IsTold tasks s
      → IsTold tasks (settings_parsed serde tasks runs settings r s).0
  settings_parsed-IsTold apart (err msg) s h = h
  settings_parsed-IsTold apart (ok new) s h = go _ refl
    where
      kept :
          (o : Result Error (Unit {0}) × D)
          → settings.save_system_settings new s.database ≡ o
          → IsTold tasks (record s { database = o.1 })
      kept o e = record {
        receives = h.receives;
        words = λ id.
            subst (λ r. Holds (λ w. told id (s.announcing ++ s.sent) ≡ w) (planned r))
              (sym (apart.same_tasks new id s.database) ∙ ap (λ p. tasks.find_by_id id p.1) e)
              (h.words id);
      }

      go :
          (o : Result Error (Unit {0}) × D)
          → settings.save_system_settings new s.database ≡ o
          → IsTold tasks (settings_saved serde tasks runs settings new o s).0
      go (ok u, d) e = kept (ok u, d) e
      go (err x, d) e = kept (err x, d) e

  module _ (executions : String → Value → Server D → Server D × Result String Value) where
    pub handle_method-IsTold :
        IsApart tasks settings
        → ((method : String) (params : Value) (s : Server D)
            → IsTold tasks s
            → IsTold tasks (executions method params s).0)
        → (out : Outside) (method : String) (params : Value) (s : Server D) → IsTold tasks s
        → IsTold tasks (handle_method serde tasks runs settings executions out method params s).0
    unfolding handle_method settings_set task_save task_delete trigger_reroll
    handle_method-IsTold apart runs_keep out method params s h =
        let both = if-both (λ (p : Server D × Result String Value). IsTold tasks p.0) in
        both (method == "agent.status") _ _ h (
          both (method == "agent.shutdown") _ _ (shutdown-IsTold s h) (
            both (method == "settings.get") _ _ h (
              both (method == "settings.set") _ _ (settings_parsed-IsTold apart _ s h) (
                both (method == "task.list") _ _ h (
                  both (method == "task.get") _ _ h (
                    both (method == "task.save") _ _ (task_parsed-IsTold _ s h) (
                      both (method == "task.delete") _ _ (task_named-IsTold _ s h) (
                        both (method == "task.trigger_now") _ _ (runs_keep method params s h) (
                          both (method == "task.overview") _ _ h (
                            both (method == "execution.list") _ _ h (
                              both (method == "execution.get") _ _ h (
                                both (method == "execution.get_output") _ _ h (
                                  both (method == "execution.cancel") _ _
                                    (runs_keep method params s h)
                                    (both (method == "trigger.reroll") _ _
                                      (reroll_parsed-IsTold _ out.reply s h) h))))))))))))))
