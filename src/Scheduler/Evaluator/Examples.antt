-- ===== src/Scheduler/Evaluator/Examples.antt =====
-- The evaluator in a calendar without time zones, and its theorems there.
use native.Mathlib.Nat.{mod-lt, div-add-mod}
use easy_job.Prelude.{
  ℕ, ◌+◌, ◌-◌, ◌*◌, ◌/◌, ◌%◌, ◌^◌, ◌<◌, ◌≡◌, ◌≢◌, refl, arith, leb, ltb, if◌then◌else◌, none, some,
}
use easy_job.Prelude.Int.{ℤ, pos, negsuc, as_i64, div_i64, suc_i64, mul_i64, wrap_i64}
use easy_job.Prelude.Outcome.{Outcome, returns, panics}
use easy_job.Domain.Trigger.{mon, interval, DateTime}
use easy_job.Scheduler.Calendar.{
  Calendar, IsChrono, single, other_error, nanos_per_sec, max_seconds,
}
use easy_job.Scheduler.Evaluator.{next_interval, evaluate_next_occurrence}
use easy_job.Scheduler.Evaluator.Interval.{IsFirst, next_interval-IsFirst, huge_interval_past}
use easy_job.Scheduler.Evaluator.Future.{evaluate_next_occurrence_later}

abbrev last_time : DateTime
last_time = 10_000_000_000_000 * nanos_per_sec

unfoldable add_seconds : DateTime → ℤ → Outcome DateTime
add_seconds t (pos n) =
    if leb (t + n * nanos_per_sec) last_time then returns (t + n * nanos_per_sec) else panics
add_seconds t (negsuc n) =
    if ltb n max_seconds
    then (if leb ((n + 1) * nanos_per_sec) t then returns (t - (n + 1) * nanos_per_sec) else panics)
    else panics

-- UTC alone: every day is a Monday, and no cron expression is ever due.
abbrev plain : Calendar Unit Unit
plain = record {
  tz_from_str = λ _. none;
  utc = tt;
  max_utc = last_time;
  local_date = λ _ t. t / (86_400 * nanos_per_sec);
  local_time = λ _ t. t % (86_400 * nanos_per_sec);
  from_local = λ _ date time. single (date * (86_400 * nanos_per_sec) + time);
  add_minutes = λ date time n. returns (date, time + n * (60 * nanos_per_sec));
  weekday = λ _. mon;
  succ_opt = λ date. some (date + 1);
  num_seconds = λ later earlier. (later - earlier) / nanos_per_sec;
  add_seconds = add_seconds;
  window_seconds = λ start end. (end - start) / nanos_per_sec;
  time_add_seconds = λ time n. time + n * nanos_per_sec;
  parse_cron = λ _. none;
  find_next = λ _ _ _. other_error;
}

plain-IsChrono : IsChrono plain
unfolding add_seconds
plain-IsChrono = record {
  max_utc_small = omega arith;
  num_seconds_floor = λ later earlier h now. omega (
    arith,
    mod-lt (later - earlier) (let z : 0 < nanos_per_sec = omega arith in z),
    div-add-mod (later - earlier) nanos_per_sec,
  );
  add_seconds_pos = λ t n h. ground arith;
  add_seconds_beyond = λ t n h. ground arith;
  add_seconds_neg = λ t n u h. ground arith;
  add_seconds_panics = λ t n h. ground arith;
}

-- Every ten seconds from 100 s on: after 125 s comes 130 s.
interval_test :
    next_interval plain 10 (some (100 * nanos_per_sec)) (125 * nanos_per_sec)
    ≡ returns (some (130 * nanos_per_sec))
unfolding next_interval add_seconds as_i64 div_i64 suc_i64 mul_i64 wrap_i64
interval_test = refl

next_interval-IsFirst_example :
    (t : ℕ) × (next_interval plain 10 (some (100 * nanos_per_sec)) (125 * nanos_per_sec)
      ≡ returns (some t))
    × IsFirst (100 * nanos_per_sec) 10 (125 * nanos_per_sec) t
next_interval-IsFirst_example =
    next_interval-IsFirst plain plain-IsChrono 10 (some (100 * nanos_per_sec)) (125 * nanos_per_sec)
      (omega arith) (omega arith)

evaluate_test :
    evaluate_next_occurrence plain
      (λ _ _. 0)
      (interval 10 (some (100 * nanos_per_sec)))
      (125 * nanos_per_sec)
    ≡ returns (some (130 * nanos_per_sec))
unfolding evaluate_next_occurrence next_interval add_seconds as_i64 div_i64 suc_i64 mul_i64 wrap_i64
evaluate_test = refl

evaluate_next_occurrence_later_example : 125 * nanos_per_sec < 130 * nanos_per_sec
evaluate_next_occurrence_later_example =
    evaluate_next_occurrence_later plain (λ _ _. 0) (interval 10 (some (100 * nanos_per_sec)))
      (125 * nanos_per_sec) (130 * nanos_per_sec) plain-IsChrono (omega arith) (omega arith)
      evaluate_test

huge_interval_past_example :
    let e =
      evaluate_next_occurrence plain
        (λ _ _. 0)
        (interval (2 ^ 64 - 60) none)
        (125 * nanos_per_sec) in
    (e ≢ returns none) × ((t : ℕ) → e ≡ returns (some t) → t < 125 * nanos_per_sec)
huge_interval_past_example =
    huge_interval_past plain (λ _ _. 0) (2 ^ 64 - 60) (125 * nanos_per_sec) plain-IsChrono
      (omega arith) (omega arith) (omega arith)
