-- ===== src/Agent/Retention.antt =====
-- apps/agent/src/service.rs: `trigger_log_retention_purge`, which ends each execution, with the warning
-- about cron expressions of a task that is saved.
mod Examples
use mathlib.Core.List.{Memᴰ}
use Prim.Native.String.{String}
use easy_job.Prelude.{
  ℕ, ◌≡◌, ◌≤◌, ◌<◌, ◌+◌, ◌-◌, ◌*◌, ◌⊎◌, inl, inr, leb, ltb, ◌==◌, ◌&&◌, not, Bool, true, false,
  Bool-cases, leb→le, refl, if◌then◌else◌, Option, none, some, List, [], ◌∷◌, Memᴰ-keep_if, arith,
  keep_if, keep_if-Memᴰ,
}
use easy_job.Prelude.Outcome.{Outcome, returns, panics}
use easy_job.Prelude.Result.{Result, ok, err}
use easy_job.Domain.Trigger.{TaskId, DateTime, Trigger, TriggerKind, cron}
use easy_job.Domain.Policy.{
  LogRetentionPolicy, SystemLogRetention, SystemSettings, default_settings,
}
use easy_job.Domain.Task.{Task}
use easy_job.Common.Error.{Error}
use easy_job.Persistence.Codec.{Codec}
use easy_job.Persistence.Interface.{ExecutionRepository, SettingsRepository}
use easy_job.Persistence.Tables.{Database, RunRow}
use easy_job.Persistence.Tasks.{cascade_runs}
use easy_job.Persistence.Runs.{purge_expired_runs, is_expired, is_running}
use easy_job.Persistence.Sqlite.{execution_repository, settings_repository}

-- `unwrap_or_default`
abbrev pub settings_or_default : Result Error SystemSettings → SystemSettings
settings_or_default (ok s) = s
settings_or_default (err _) = default_settings

abbrev pub system_days : SystemLogRetention → Option ℕ
system_days (SystemLogRetention.keep_days days) = some days
system_days SystemLogRetention.permanent = none

unfoldable pub retention_days : LogRetentionPolicy → Result Error SystemSettings → Option ℕ
retention_days LogRetentionPolicy.system_default sys =
    system_days (settings_or_default sys).default_log_retention
retention_days (LogRetentionPolicy.keep_days days) sys = some days
retention_days LogRetentionPolicy.permanent sys = none

-- A day in nanoseconds.
abbrev pub day : ℕ
day = 86400000000000

module _ {D : Type 0} (runs : ExecutionRepository D) (settings : SettingsRepository D) where
  -- chrono panics where the cutoff lies before its earliest time. What the purge answers is only told
  -- to the log.
  abbrev pub purge_before : TaskId → Option ℕ → DateTime → D → Outcome D
  purge_before id none now d = returns d
  purge_before id (some days) now d =
      if leb (days * day) now
      then returns (runs.purge_expired_runs id (now - days * day) d).1
      else panics

  unfoldable pub trigger_log_retention_purge : Task → DateTime → D → Outcome D
  trigger_log_retention_purge task now d =
      purge_before task.id
        (retention_days task.execution_policy.log_retention (settings.get_system_settings d)) now d

-- Why a run is gone: it is of the task, it has ended, and it started before the days that are kept.
abbrev pub IsOutdated : TaskId → Option ℕ → DateTime → RunRow → Type 0
IsOutdated id none now row = ⊥
IsOutdated id (some days) now row =
    (row.task_id ≡ id) × (is_running row.status ≡ false) × (row.started_at + days * day < now)

expired-IsOutdated :
    (id : TaskId) (days : ℕ) (now : DateTime) (row : RunRow)
    → leb (days * day) now ≡ true
    → is_expired id (now - days * day) row ≡ true
    → IsOutdated id (some days) now row
unfolding is_expired
expired-IsOutdated id days now row enough t = (ground arith, ground arith, ground arith)

-- The cutoff can be represented.
abbrev pub HasCutoff : Option ℕ → DateTime → Type 0
HasCutoff none now = Unit
HasCutoff (some days) now = days * day ≤ now

-- What a purge does to a run: it is kept unless it is outdated. A panic comes of a cutoff before
-- chrono's earliest time only.
abbrev pub Purged :
    {Json : Type 0} → TaskId → Option ℕ → DateTime → RunRow → Outcome (Database Json) → Type 0
Purged id days now row (returns db') =
    HasCutoff days now × (Memᴰ row db'.task_runs ⊎ IsOutdated id days now row)
Purged id days now row panics = ¬ HasCutoff days now

module _ {Json : Type 0} (c : Codec Json) where
  purge_before-Memᴰ :
      (id : TaskId) (days : Option ℕ) (now : DateTime) (db : Database Json) (row : RunRow)
      → Memᴰ row db.task_runs
      → Purged id days now row
          (purge_before (execution_repository c) (settings_repository c) id days now db)
  unfolding purge_expired_runs cascade_runs
  purge_before-Memᴰ id none now db row m = (tt, inl m)
  purge_before-Memᴰ id (some days) now db row m = elim (Bool-cases (leb (days * day) now)) [
    | inl enough ↦ rw enough (
      leb→le (days * day) now enough,
      elim (Bool-cases (is_expired id (now - days * day) row)) [
        | inl t ↦ inr (expired-IsOutdated id days now row enough t)
        | inr f ↦ inl (
            Memᴰ-keep_if (λ r. not (is_expired id (now - days * day) r)) db.task_runs row m
              (rw f refl))
      ],
    )
    | inr short ↦ rw short (λ cutoff. ground arith)
  ]

  -- A purge loses only ended runs of the task that started before the days that its policy keeps. It
  -- panics exactly where the time that many days ago is before chrono's earliest.
  pub trigger_log_retention_purge-keeps :
      (task : Task) (now : DateTime) (db : Database Json) (row : RunRow)
      → Memᴰ row db.task_runs
      → Purged task.id
          (retention_days task.execution_policy.log_retention
            ((settings_repository c).get_system_settings db))
          now
          row
          (trigger_log_retention_purge (execution_repository c) (settings_repository c) task now db)
  unfolding trigger_log_retention_purge
  trigger_log_retention_purge-keeps task now db row m = purge_before-Memᴰ task.id _ now db row m
