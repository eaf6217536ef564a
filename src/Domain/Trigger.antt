-- ===== src/Domain/Trigger.antt =====
-- crates/domain/src/trigger.rs: the kinds of triggers. The ids of crates/common/src/id.rs are UUIDs,
-- ordered as 128-bit numbers, and stand here as numbers. A `DateTime<Utc>` is its distance in
-- nanoseconds from chrono's earliest time, a `NaiveTime` its distance from midnight and a
-- `NaiveDate` the number of its day: all three are ordered as chrono orders them.
use Prim.Native.String.{String}
use easy_job.Prelude.{ℕ, Bool, true, false, not, List, Option, any, ◌==◌}

abbrev pub TaskId : Type 0
TaskId = ℕ

abbrev pub TriggerId : Type 0
TriggerId = ℕ

abbrev pub DateTime : Type 0
DateTime = ℕ

abbrev pub NaiveTime : Type 0
NaiveTime = ℕ

abbrev pub NaiveDate : Type 0
NaiveDate = ℕ

pub data Weekday : Type 0 where
  mon tue wed thu fri sat sun : Weekday

abbrev pub num_days_from_monday : Weekday → ℕ
num_days_from_monday mon = 0
num_days_from_monday tue = 1
num_days_from_monday wed = 2
num_days_from_monday thu = 3
num_days_from_monday fri = 4
num_days_from_monday sat = 5
num_days_from_monday sun = 6

abbrev pub weekday_eq : Weekday → Weekday → Bool
weekday_eq v w = num_days_from_monday v == num_days_from_monday w

abbrev pub contains_weekday : List Weekday → Weekday → Bool
contains_weekday days w = any (weekday_eq w) days

pub data FuzzyPeriod : Type 0 where
  daily weekdays weekends : FuzzyPeriod
  weekly : List Weekday → FuzzyPeriod

abbrev is_weekend : Weekday → Bool
is_weekend sat = true
is_weekend sun = true
is_weekend _ = false

unfoldable pub matches_weekday : FuzzyPeriod → Weekday → Bool
matches_weekday daily w = true
matches_weekday weekdays w = not (is_weekend w)
matches_weekday weekends w = is_weekend w
matches_weekday (weekly days_of_week) w = contains_weekday days_of_week w

pub data NetworkEventKind : Type 0 where
  connect disconnect online : NetworkEventKind

-- `interval` carries a `u64` of seconds and an optional start.
pub data TriggerKind : Type 0 where
  once : DateTime → TriggerKind
  every_day : NaiveTime → String → TriggerKind
  every_week : List Weekday → NaiveTime → String → TriggerKind
  interval : ℕ → Option DateTime → TriggerKind
  agent_started : TriggerKind
  cron : String → String → TriggerKind
  fuzzy : FuzzyPeriod → NaiveTime → NaiveTime → String → TriggerKind
  network : List NetworkEventKind → Option String → TriggerKind

unfoldable pub kind_name : TriggerKind → String
kind_name (once _) = "Once"
kind_name (every_day _ _) = "Daily"
kind_name (every_week _ _ _) = "Weekly"
kind_name (interval _ _) = "Interval"
kind_name agent_started = "AgentStarted"
kind_name (cron _ _) = "Cron"
kind_name (fuzzy _ _ _ _) = "Fuzzy"
kind_name (network _ _) = "Network"

pub record Trigger : Type 0 where
  pub id : TriggerId
  pub task_id : TaskId
  pub enabled : Bool
  pub kind : TriggerKind
  pub created_at : DateTime
  pub updated_at : DateTime
