-- ===== src/Domain/Policy.antt =====
-- crates/domain/src/policy.rs: what a task asks of its executions, and the system's settings.
use easy_job.Prelude.{ℕ, Option}

pub data TaskNotificationPolicy : Type 0 where
  silent only_success only_failure all : TaskNotificationPolicy

pub data ConcurrencyPolicy : Type 0 where
  allow_parallel skip_if_running queue_one : ConcurrencyPolicy

pub data MissedRunPolicy : Type 0 where
  run_once skip : MissedRunPolicy

pub record RetryPolicy : Type 0 where
  pub max_retries : ℕ
  pub delay_secs : ℕ

pub data LogRetentionPolicy : Type 0 where
  system_default : LogRetentionPolicy
  keep_days : ℕ → LogRetentionPolicy
  permanent : LogRetentionPolicy

pub record ExecutionPolicy : Type 0 where
  pub concurrency_policy : ConcurrencyPolicy
  pub missed_run_policy : MissedRunPolicy
  pub retry_policy : RetryPolicy
  pub timeout_secs : Option ℕ
  pub notification : TaskNotificationPolicy
  pub log_retention : LogRetentionPolicy

pub data SystemLogRetention : Type 0 where
  keep_days : ℕ → SystemLogRetention
  permanent : SystemLogRetention

pub record SystemSettings : Type 0 where
  pub default_log_retention : SystemLogRetention

abbrev pub default_settings : SystemSettings
default_settings = record { default_log_retention = SystemLogRetention.keep_days 7 }
