-- ===== src/Persistence/Sqlite.antt =====
-- The repositories over SQLite fill the interface that the agent uses.
use easy_job.Prelude.{◌≡◌, ◌≢◌, ◌∙◌, refl, ap, sym, subst, Option, none, some}
use easy_job.Prelude.Int.{ℤ}
use easy_job.Prelude.Result.{Result, ok, err, Holds, ◌>>=◌}
use easy_job.Domain.Task.{Task}
use easy_job.Common.Error.{Error}
use easy_job.Persistence.Codec.{Codec, IsFaithful}
use easy_job.Persistence.Tables.{Database, TaskRow, Version, integer, real}
use easy_job.Persistence.Tasks.{
  find_all, find_all_enabled, find_by_id, save, delete, commit, transact, row_of, next_version,
  read_version,
}
use easy_job.Persistence.Tasks.RoundTrip.{stored, in_sequence, if_any, save-find_by_id}
use easy_job.Persistence.Tasks.Frame.{
  find_by_id-Agree, Saved-Agree, delete-Agree, find_by_id-delete,
}
use easy_job.Persistence.Tasks.Commit.{save-Saved}
use easy_job.Persistence.Runs.{
  find_run_by_id, find_recent_runs, get_outputs, purge_expired_runs, find_latest_run_per_task,
}
use easy_job.Persistence.Settings.{get_system_settings, save_system_settings}
use easy_job.Persistence.Interface.{
  TaskRepository, ExecutionRepository, SettingsRepository, IsTaskStore, IsSettingsStore, IsApart,
  plan, planned,
}

module _ {Json : Type 0} (c : Codec Json) where
  abbrev pub task_repository : TaskRepository (Database Json)
  task_repository = record {
    find_all = find_all c;
    find_all_enabled = find_all_enabled c;
    find_by_id = find_by_id c;
    save = save c;
    delete = λ id db. (ok tt, delete id db);
  }

  abbrev pub execution_repository : ExecutionRepository (Database Json)
  execution_repository = record {
    find_run_by_id = λ id db. ok (find_run_by_id id db);
    find_recent_runs = λ limit db. ok (find_recent_runs limit db);
    get_outputs = λ id db. ok (get_outputs id db);
    purge_expired_runs = λ id before db.
        (ok (purge_expired_runs id before db).0, (purge_expired_runs id before db).1);
    find_latest_run_per_task = λ ids db. ok (find_latest_run_per_task ids db);
  }

  abbrev pub settings_repository : SettingsRepository (Database Json)
  settings_repository = record {
    get_system_settings = get_system_settings c;
    save_system_settings = λ new db. (ok tt, save_system_settings c new db);
  }

  stored-plan :
      (task : Task) (row : Option (TaskRow Json))
      → Holds (λ o. some (plan task) ≡ o) (planned (if_any (stored task row)))
  stored-plan task none = refl
  stored-plan task (some row) = versioned (next_version row.version)
    where
      versioned :
          (v : Version)
          → Holds
              (λ o. some (plan task) ≡ o)
              (planned (
                if_any (
                  read_version v >>= λ (version : ℤ). ok (record task {
                    actions = in_sequence task.actions;
                    version = version;
                    created_at = row.created_at;
                  }))))
      versioned (integer v) = refl
      versioned real = tt

  commit_failed :
      (r : Result Error (Database Json)) (db db' : Database Json) (e : Error)
      → commit c r db ≡ (err e, db')
      → db' ≡ db
  commit_failed (ok d) db db' e h = cc
  commit_failed (err x) db db' e h = cc

  commit_other :
      (task : Task) (db : Database Json) (r : Result Error (Database Json)) (id : _)
      → transact c task db ≡ r
      → id ≢ task.id
      → find_by_id c id (commit c r db).1 ≡ find_by_id c id db
  unfolding save
  commit_other task db (ok db') id e n =
      find_by_id-Agree c id db db'
        (Saved-Agree c task id db db' n (save-Saved c task db db' (ap (λ r. commit c r db) e)))
  commit_other task db (err x) id e n = refl

  pub task_repository-IsTaskStore : IsFaithful c → IsTaskStore task_repository
  unfolding save
  task_repository-IsTaskStore f = record {
    save_found = λ task d d' h.
        subst (λ r. Holds (λ o. some (plan task) ≡ o) (planned r))
          (sym (save-find_by_id c task d d' f h)) (stored-plan task (row_of task.id d.tasks));
    save_other = λ task id d n. commit_other task d (transact c task d) id refl n;
    save_failed = λ task d d' e h. commit_failed (transact c task d) d d' e h;
    delete_gone =
        λ id d d' h. ap planned (ap (λ p. find_by_id c id p.1) (sym h) ∙ find_by_id-delete c id d);
    delete_other = λ id j d n. find_by_id-Agree c j d (delete id d) (delete-Agree c id j d n);
    delete_failed = λ id d d' e h. absurd (let no = ap (λ p. p.0) h in cc);
  }

  pub settings_repository-IsSettingsStore : IsSettingsStore settings_repository
  settings_repository-IsSettingsStore = record {
    save_failed = λ new d d' e h. absurd (let no = ap (λ p. p.0) h in cc);
  }

  pub repositories-IsApart : IsApart task_repository settings_repository
  unfolding save_system_settings
  repositories-IsApart = record {
    same_tasks = λ new id d.
        find_by_id-Agree c id d (save_system_settings c new d)
          (record { row = refl; triggers = refl; actions = refl });
  }
