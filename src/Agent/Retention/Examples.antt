-- ===== src/Agent/Retention/Examples.antt =====
-- Tests of the retention, and its theorem at a concrete database.
use mathlib.Core.List.{Memᴰ}
use easy_job.Prelude.{ℕ, ◌≡◌, ◌*◌, refl, none, [], ◌∷◌}
use easy_job.Prelude.Outcome.{returns, panics}
use easy_job.Domain.Policy.{LogRetentionPolicy}
use easy_job.Domain.Task.{Task}
use easy_job.Domain.Execution.{ExecutionStatus, succeeded, running}
use easy_job.Persistence.Tables.{Database, RunRow, empty_database}
use easy_job.Persistence.Sample.{Text, codec, build}
use easy_job.Persistence.Sqlite.{execution_repository, settings_repository}
use easy_job.Persistence.Tasks.{cascade_runs}
use easy_job.Persistence.Runs.{purge_expired_runs, is_expired}
use easy_job.Agent.Retention.{
  Purged, day, retention_days, trigger_log_retention_purge, trigger_log_retention_purge-keeps,
}

abbrev row : ℕ → ℕ → ExecutionStatus → RunRow
row id days status = record {
  id = id;
  task_id = 1;
  trigger_id = none;
  status = status;
  scheduled_at = none;
  started_at = days * day;
  finished_at = none;
  duration_ms = none;
  exit_code = none;
  error_message = none;
}

abbrev db : Database Text
db = record empty_database {
  task_runs = row 1 1 succeeded ∷ row 2 1 running ∷ row 3 9 succeeded ∷ [];
}

abbrev kept_for : ℕ → Task
kept_for days = record build {
  execution_policy = record build.execution_policy {
    log_retention = LogRetentionPolicy.keep_days days;
  };
}

ended_run_goes :
    trigger_log_retention_purge
      (execution_repository codec)
      (settings_repository codec)
      (kept_for 7)
      (10 * day)
      db
    ≡ returns (record db { task_runs = row 2 1 running ∷ row 3 9 succeeded ∷ [] })
unfolding trigger_log_retention_purge retention_days purge_expired_runs cascade_runs is_expired
ended_run_goes = refl

-- A cutoff before chrono's earliest time.
long_retention_panics :
    trigger_log_retention_purge
      (execution_repository codec)
      (settings_repository codec)
      (kept_for 11)
      (10 * day)
      db
    ≡ panics
unfolding trigger_log_retention_purge retention_days
long_retention_panics = refl

trigger_log_retention_purge-keeps_example :
    Purged 1
      (retention_days
        (LogRetentionPolicy.keep_days 7)
        ((settings_repository codec).get_system_settings db))
      (10 * day)
      (row 1 1 succeeded)
      (trigger_log_retention_purge
        (execution_repository codec)
        (settings_repository codec)
        (kept_for 7)
        (10 * day)
        db)
trigger_log_retention_purge-keeps_example =
    trigger_log_retention_purge-keeps codec (kept_for 7) (10 * day) db (row 1 1 succeeded)
      (Memᴰ.head refl)
