-- ===== src/Scheduler/Evaluator.antt =====
-- crates/scheduler/src/evaluator.rs. What the crates do is the parameter `cal`; the random draws of
-- one evaluation are `roll`, by the round of the loop and the length of the range.
pub mod Cron
pub mod Steps
pub mod Days
pub mod Interval
pub mod Future
mod Examples
use Prim.Native.String.{String}
use easy_job.Prelude.{
  ℕ, zero, suc, ◌+◌, ◌-◌, Bool, true, false, ◌&&◌, ◌||◌, ltb, leb, ◌==◌, if◌then◌else◌, Option,
  none, some, List, [], ◌∷◌,
}
use easy_job.Prelude.Int.{ℤ, pos, as_i64, div_i64, suc_i64, mul_i64}
use easy_job.Prelude.Outcome.{Outcome, returns, panics, ◌>>=◌}
use easy_job.Domain.Trigger.{
  DateTime, NaiveDate, NaiveTime, Weekday, FuzzyPeriod, TriggerKind, Trigger, contains_weekday,
  matches_weekday, once, every_day, every_week, interval, agent_started, cron, fuzzy, network,
}
use easy_job.Scheduler.Calendar.{
  Calendar, LocalResult, single, ambiguous, gap, CronResult, candidate, invalid_time, other_error,
}
use Cron.{is_standard_cron}

abbrev pub unwrap_or {ℓ} : {A : Type ℓ} → Option A → A → A
unwrap_or none d = d
unwrap_or (some a) d = a

abbrev pub after_only : DateTime → DateTime → Option DateTime
after_only after t = if ltb after t then some t else none

abbrev pub Evaluation : Type 0
Evaluation = Outcome (Option DateTime)

abbrev pub is_empty : List Weekday → Bool
is_empty [] = true
is_empty (_ ∷ _) = false

abbrev pub is_some {ℓ} : {A : Type ℓ} → Option A → Bool
is_some none = false
is_some (some _) = true

module _ {Tz Cron : Type 0} (cal : Calendar Tz Cron) where
  -- The `for _ in 0..8` loop over a gap; the argument counts the rounds left.
  unfoldable pub shift_gap : ℕ → Tz → NaiveDate → NaiveTime → DateTime → Evaluation
  shift_gap zero tz date time after = returns none
  shift_gap (suc rounds) tz date time after =
      cal.add_minutes date time 15 >>= λ (shifted : NaiveDate × NaiveTime).
      elim (cal.from_local tz shifted.0 shifted.1) [
        | single utc ↦ returns (after_only after utc)
        | ambiguous utc _ ↦ returns (after_only after utc)
        | gap ↦ shift_gap rounds tz shifted.0 shifted.1 after
      ]

  unfoldable pub resolve_candidate : Tz → NaiveDate → NaiveTime → DateTime → Evaluation
  resolve_candidate tz date time after = elim (cal.from_local tz date time) [
    | single utc ↦ returns (after_only after utc)
    | ambiguous e_utc l_utc ↦
        returns (if ltb after e_utc then some e_utc else after_only after l_utc)
    | gap ↦ shift_gap 8 tz date time after
  ]

  -- The loops over days: `attempt` is the loop body up to `succ_opt()?`, given the rounds left.
  unfoldable pub search_days : ℕ → (ℕ → NaiveDate → Evaluation) → NaiveDate → Evaluation
  search_days zero attempt date = returns none
  search_days (suc rounds) attempt date = attempt rounds date >>= λ (found : Option DateTime).
      elim found [
        | some utc ↦ returns (some utc)
        | none ↦ elim (cal.succ_opt date) [
          | none ↦ returns none
          | some next ↦ search_days rounds attempt next
        ]
      ]

  unfoldable pub timezone_of : String → Tz
  timezone_of timezone = unwrap_or (cal.tz_from_str timezone) cal.utc

  -- `interval_secs` is a `u64`, cast to `i64`; the arithmetic on it wraps.
  unfoldable pub next_interval : ℕ → Option DateTime → DateTime → Evaluation
  next_interval interval_secs start_at after =
      let base = unwrap_or start_at after in
      let secs = as_i64 interval_secs in
      let count = suc_i64 (div_i64 (cal.num_seconds after base) secs) in
      if interval_secs == 0
      then returns none
      else if ltb after base
      then returns (some base)
      else cal.add_seconds base (mul_i64 count secs) >>= λ (t : DateTime). returns (some t)

  unfoldable pub next_daily : NaiveTime → String → DateTime → Evaluation
  next_daily time timezone after =
      let tz = timezone_of timezone in
      search_days 4 (λ _ date. resolve_candidate tz date time after) (cal.local_date tz after)

  unfoldable pub next_weekly : List Weekday → NaiveTime → String → DateTime → Evaluation
  next_weekly days_of_week time timezone after =
      let tz = timezone_of timezone in
      let attempt = λ (rounds : ℕ) (date : NaiveDate).
        (if contains_weekday days_of_week (cal.weekday date)
          then resolve_candidate tz date time after
          else returns none) in
      if is_empty days_of_week
      then returns none
      else search_days 14 attempt (cal.local_date tz after)

  -- The retry loop of `cron_next_occurrence`; the argument counts the rounds left.
  unfoldable pub cron_retry : ℕ → Cron → Tz → DateTime → DateTime → Evaluation
  cron_retry zero c tz after anchor = returns none
  cron_retry (suc rounds) c tz after anchor = elim (cal.find_next c tz anchor) [
    | candidate utc ↦ elim (ltb after utc) [
      | true ↦ returns (some utc)
      | false ↦ cron_retry rounds c tz after utc
    ]
    | invalid_time ↦
        cal.add_seconds anchor (pos 3600) >>= λ (next : DateTime). cron_retry rounds c tz after next
    | other_error ↦ returns none
  ]

  unfoldable pub cron_next_occurrence : Cron → Tz → DateTime → Evaluation
  cron_next_occurrence c tz after = cron_retry 240 c tz after after

  unfoldable pub parse_standard_cron : String → Option Cron
  parse_standard_cron expression =
      if is_standard_cron expression then cal.parse_cron expression else none

  unfoldable pub next_cron : String → String → DateTime → Evaluation
  next_cron expression timezone after = elim (parse_standard_cron expression) [
    | none ↦ returns none
    | some c ↦ cron_next_occurrence c (timezone_of timezone) after
  ]

  unfoldable pub validate_cron_expression : String → DateTime → Outcome Bool
  validate_cron_expression expression now = elim (parse_standard_cron expression) [
    | none ↦ returns false
    | some c ↦
        cron_next_occurrence c cal.utc now >>= λ (next : Option DateTime). returns (is_some next)
  ]

  -- The range of the draw: at least one second.
  abbrev pub span_of : NaiveTime → NaiveTime → ℕ
  span_of start end = elim (cal.window_seconds start end) [ zero ↦ 1 | suc n ↦ suc n ]

  unfoldable pub pick_random_time_in_window : (ℕ → ℕ) → NaiveTime → NaiveTime → NaiveTime
  pick_random_time_in_window roll start end = cal.time_add_seconds start (roll (span_of start end))

  -- Whether the day's window has not started yet at `after`.
  abbrev pub window_not_started : Tz → NaiveDate → NaiveTime → DateTime → Bool
  window_not_started tz date window_start after =
      ltb (cal.local_date tz after) date || ltb (cal.local_time tz after) window_start

  unfoldable pub try_fuzzy :
      FuzzyPeriod → NaiveTime → NaiveTime → Tz → (ℕ → ℕ → ℕ) → DateTime → ℕ → NaiveDate → Evaluation
  try_fuzzy period window_start window_end tz roll after rounds date =
      if matches_weekday period (cal.weekday date) && window_not_started tz date window_start after
      then resolve_candidate tz date
          (pick_random_time_in_window (roll rounds) window_start window_end) after
      else returns none

  unfoldable pub next_fuzzy :
      FuzzyPeriod → NaiveTime → NaiveTime → String → (ℕ → ℕ → ℕ) → DateTime → Evaluation
  next_fuzzy period window_start window_end timezone roll after =
      let tz = timezone_of timezone in
      if leb window_end window_start
      then returns none
      else search_days 14 (try_fuzzy period window_start window_end tz roll after)
          (cal.local_date tz after)

  unfoldable pub evaluate_next_occurrence : (ℕ → ℕ → ℕ) → TriggerKind → DateTime → Evaluation
  evaluate_next_occurrence roll (once fire_at) after = returns (after_only after fire_at)
  evaluate_next_occurrence roll (interval secs start_at) after = next_interval secs start_at after
  evaluate_next_occurrence roll (every_day time timezone) after = next_daily time timezone after
  evaluate_next_occurrence roll (every_week days time timezone) after =
      next_weekly days time timezone after
  evaluate_next_occurrence roll (cron expression timezone) after =
      next_cron expression timezone after
  evaluate_next_occurrence roll (network _ _) after = returns none
  evaluate_next_occurrence roll (fuzzy period start end timezone) after =
      next_fuzzy period start end timezone roll after
  evaluate_next_occurrence roll agent_started after = returns none

  -- `Trigger::next_occurrence`
  unfoldable pub next_occurrence : (ℕ → ℕ → ℕ) → Trigger → DateTime → Evaluation
  next_occurrence roll trigger after =
      if trigger.enabled then evaluate_next_occurrence roll trigger.kind after else returns none
