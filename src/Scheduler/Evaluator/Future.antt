-- ===== src/Scheduler/Evaluator/Future.antt =====
-- `evaluate_next_occurrence` of crates/scheduler/src/evaluator.rs: the result lies in the future.
use easy_job.Prelude.{ℕ, ◌^◌, ◌≤◌, ◌<◌, ◌≡◌, leb, ◌&&◌, Option, none, some}
use easy_job.Prelude.Outcome.{returns, panics, Yields, returned}
use easy_job.Scheduler.Calendar.{Calendar, IsChrono}
use easy_job.Domain.Trigger.{
  TriggerKind, contains_weekday, matches_weekday, once, every_day, every_week, interval,
  agent_started, cron, fuzzy, network,
}
use easy_job.Scheduler.Evaluator.{
  timezone_of, is_empty, pick_random_time_in_window, window_not_started, parse_standard_cron,
  Evaluation, unwrap_or, next_interval, next_daily, next_weekly, cron_next_occurrence, next_cron,
  try_fuzzy, next_fuzzy, evaluate_next_occurrence,
}
use easy_job.Scheduler.Evaluator.Days.{
  if-Yields, after_only-Yields, resolve_candidate-Yields, search_days-Yields, cron_retry-Yields,
}
use easy_job.Scheduler.Evaluator.Interval.{IsFirst, next_interval-Yields}

-- The intervals that stay positive as an `i64`.
abbrev pub HasSaneInterval : TriggerKind → Type 0
HasSaneInterval (interval secs _) = secs < 2 ^ 63
HasSaneInterval _ = Unit {0}

module _ {Tz Cron : Type 0} (cal : Calendar Tz Cron) where
  first_is_later :
      (base secs after : ℕ) (e : Evaluation)
      → Yields (IsFirst base secs after) e
      → Yields (λ t. after < t) e
  first_is_later base secs after (returns (some t)) h = h.0
  first_is_later base secs after (returns none) h = tt
  first_is_later base secs after panics h = tt

  parsed-Yields {ℓ} :
      (P : ℕ → Type ℓ) (o : Option Cron) (f : Cron → Evaluation)
      → ((c : Cron) → Yields P (f c))
      → Yields P (elim o [ none ↦ returns none | some c ↦ f c ])
  parsed-Yields P none f h = tt
  parsed-Yields P (some c) f h = h c

  evaluate-Yields :
      IsChrono cal
      → (roll : ℕ → ℕ → ℕ) (kind : TriggerKind) (after : ℕ) → after ≤ cal.max_utc
      → HasSaneInterval kind
      → Yields (λ t. after < t) (evaluate_next_occurrence cal roll kind after)
  unfolding evaluate_next_occurrence next_daily next_weekly next_cron next_fuzzy
      cron_next_occurrence try_fuzzy
  evaluate-Yields laws roll (once fire_at) after now h = after_only-Yields after fire_at
  evaluate-Yields laws roll (interval secs start_at) after now h =
      first_is_later (unwrap_or start_at after) secs after (next_interval cal secs start_at after)
        (next_interval-Yields cal laws secs start_at after now h)
  evaluate-Yields laws roll (every_day time timezone) after now h =
      search_days-Yields cal (λ t. after < t) 4 _
        (λ _ d. resolve_candidate-Yields cal (timezone_of cal timezone) d time after) _
  evaluate-Yields laws roll (every_week days time timezone) after now h =
      if-Yields (λ t. after < t) (is_empty days) _ _ tt
        (search_days-Yields cal (λ t. after < t) 14 _
          (λ _ d.
            if-Yields _ (contains_weekday days (cal.weekday d)) _ _
              (resolve_candidate-Yields cal (timezone_of cal timezone) d time after) tt)
          _)
  evaluate-Yields laws roll (cron expression timezone) after now h =
      parsed-Yields (λ t. after < t) (parse_standard_cron cal expression) _
        (λ c. cron_retry-Yields cal 240 c (timezone_of cal timezone) after after)
  evaluate-Yields laws roll (fuzzy period start end timezone) after now h =
      let tz = timezone_of cal timezone in
      if-Yields (λ t. after < t) (leb end start) _ _ tt
        (search_days-Yields cal (λ t. after < t) 14 _
          (λ r d.
            if-Yields _
              (matches_weekday period (cal.weekday d) && window_not_started cal tz d start after) _
              _
              (resolve_candidate-Yields cal tz d (pick_random_time_in_window cal (roll r) start end)
                after)
              tt)
          _)
  evaluate-Yields laws roll (network _ _) after now h = tt
  evaluate-Yields laws roll agent_started after now h = tt

-- Whatever the kind of the trigger, the zone's changes of clock, the answers of croner and the random
-- draws: a next occurrence lies strictly after the time it was asked for. The interval, if the trigger
-- has one, must be below 2^63 seconds.
pub evaluate_next_occurrence_later :
    {Tz Cron : Type 0} (cal : Calendar Tz Cron) (roll : ℕ → ℕ → ℕ) (kind : TriggerKind)
    (after t : ℕ)
    → IsChrono cal
    → after ≤ cal.max_utc
    → HasSaneInterval kind
    → evaluate_next_occurrence cal roll kind after ≡ returns (some t)
    → after < t
evaluate_next_occurrence_later cal roll kind after t laws now sane e =
    returned (λ u. after < u) _ t (evaluate-Yields cal laws roll kind after now sane) e
