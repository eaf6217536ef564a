-- ===== src/Scheduler/Calendar.antt =====
-- What the evaluator takes from the crates chrono, chrono-tz and croner: parameters of the model, with
-- what their documentation promises.
use Prim.Native.String.{String}
use easy_job.Prelude.{ℕ, suc, ◌+◌, ◌*◌, ◌^◌, ◌≤◌, ◌<◌, ◌≡◌, Option}
use easy_job.Prelude.Int.{ℤ, pos, negsuc}
use easy_job.Prelude.Outcome.{Outcome, returns, panics}
use easy_job.Domain.Trigger.{DateTime, NaiveDate, NaiveTime, Weekday}

-- `chrono::LocalResult`, each time converted to UTC.
pub data LocalResult : Type 0 where
  single : DateTime → LocalResult
  ambiguous : DateTime → DateTime → LocalResult
  gap : LocalResult

-- The result of croner's `find_next_occurrence`, converted to UTC.
pub data CronResult : Type 0 where
  candidate : DateTime → CronResult
  invalid_time : CronResult
  other_error : CronResult

pub record Calendar (Tz Cron : Type 0) : Type 0 where
  -- `Tz::from_str` and `chrono_tz::UTC`
  pub tz_from_str : String → Option Tz
  pub utc : Tz
  -- `DateTime::<Utc>::MAX_UTC`
  pub max_utc : DateTime
  -- `t.with_timezone(&tz).date_naive()` and `.time()`
  pub local_date : Tz → DateTime → NaiveDate
  pub local_time : Tz → DateTime → NaiveTime
  -- `tz.from_local_datetime(&date.and_time(time))`
  pub from_local : Tz → NaiveDate → NaiveTime → LocalResult
  -- a local date and time, plus minutes
  pub add_minutes : NaiveDate → NaiveTime → ℕ → Outcome (NaiveDate × NaiveTime)
  pub weekday : NaiveDate → Weekday
  pub succ_opt : NaiveDate → Option NaiveDate
  -- `(later - earlier).num_seconds()` for `earlier ≤ later`
  pub num_seconds : DateTime → DateTime → ℕ
  -- `t + Duration::seconds(n)`
  pub add_seconds : DateTime → ℤ → Outcome DateTime
  -- `(end - start).num_seconds()` of two times of day for `start < end`
  pub window_seconds : NaiveTime → NaiveTime → ℕ
  -- a time of day plus seconds
  pub time_add_seconds : NaiveTime → ℕ → NaiveTime
  -- `Cron::from_str` followed by `Cron::parse`
  pub parse_cron : String → Option Cron
  -- `cron.find_next_occurrence(&anchor, false)`
  pub find_next : Cron → Tz → DateTime → CronResult

abbrev pub nanos_per_sec : ℕ
nanos_per_sec = 1_000_000_000

-- `i64::MAX / 1000`: `Duration::seconds` panics beyond it.
abbrev pub max_seconds : ℕ
max_seconds = 9_223_372_036_854_775

-- The documented behaviour of chrono's arithmetic on points in time.
pub record IsChrono {Tz Cron : Type 0} (cal : Calendar Tz Cron) : Type 0 where
  -- chrono's years are fewer than 2^44 seconds
  pub max_utc_small : cal.max_utc < 2 ^ 44 * nanos_per_sec
  pub num_seconds_floor :
      (later earlier : DateTime)
      → earlier ≤ later
      → later ≤ cal.max_utc
      → (earlier + cal.num_seconds later earlier * nanos_per_sec ≤ later)
        × (later < earlier + (cal.num_seconds later earlier + 1) * nanos_per_sec)
  pub add_seconds_pos :
      (t : DateTime) (n : ℕ)
      → t + n * nanos_per_sec ≤ cal.max_utc
      → cal.add_seconds t (pos n) ≡ returns (t + n * nanos_per_sec)
  pub add_seconds_beyond :
      (t : DateTime) (n : ℕ)
      → cal.max_utc < t + n * nanos_per_sec
      → cal.add_seconds t (pos n) ≡ panics
  pub add_seconds_neg :
      (t : DateTime) (n : ℕ) (u : DateTime)
      → cal.add_seconds t (negsuc n) ≡ returns u
      → u + suc n * nanos_per_sec ≡ t
  pub add_seconds_panics :
      (t : DateTime) (n : ℕ) → max_seconds ≤ n → cal.add_seconds t (negsuc n) ≡ panics
