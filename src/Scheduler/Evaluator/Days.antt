-- ===== src/Scheduler/Evaluator/Days.antt =====
-- The loops over days, gaps and cron retries of crates/scheduler/src/evaluator.rs.
use easy_job.Prelude.{
  ℕ, zero, suc, ◌<◌, inl, inr, Bool, true, false, ltb, ltb→lt, if◌then◌else◌, Option, none, some,
  arith, Bool-cases,
}
use easy_job.Prelude.Int.{pos}
use easy_job.Prelude.Outcome.{Outcome, returns, panics, ◌>>=◌, Yields, >>=-Yields}
use easy_job.Scheduler.Calendar.{
  Calendar, LocalResult, single, ambiguous, gap, CronResult, candidate, invalid_time, other_error,
}
use easy_job.Scheduler.Evaluator.{
  Evaluation, after_only, shift_gap, resolve_candidate, search_days, cron_retry,
}

pub if-Yields {ℓ} :
    (P : ℕ → Type ℓ) (b : Bool) (x y : Evaluation)
    → Yields P x
    → Yields P y
    → Yields P (if b then x else y)
if-Yields P true x y h k = h
if-Yields P false x y h k = k

pub after_only-Yields : (after t : ℕ) → Yields (λ u. after < u) (returns (after_only after t))
after_only-Yields after t = ground arith

local_cases :
    (after : ℕ) (g : Evaluation) (r : LocalResult)
    → Yields (λ t. after < t) g
    → Yields
        (λ t. after < t)
        (elim r [
          | single utc ↦ returns (after_only after utc)
          | ambiguous utc _ ↦ returns (after_only after utc)
          | gap ↦ g
        ])
local_cases after g (single utc) h = after_only-Yields after utc
local_cases after g (ambiguous utc _) h = after_only-Yields after utc
local_cases after g gap h = h

resolve_cases :
    (after : ℕ) (g : Evaluation) (r : LocalResult)
    → Yields (λ t. after < t) g
    → Yields
        (λ t. after < t)
        (elim r [
          | single utc ↦ returns (after_only after utc)
          | ambiguous e l ↦ returns (if ltb after e then some e else after_only after l)
          | gap ↦ g
        ])
resolve_cases after g (single utc) h = after_only-Yields after utc
resolve_cases after g (ambiguous e l) h = ground arith
resolve_cases after g gap h = h

cron_cases :
    (after : ℕ) (retry : ℕ → Evaluation) (shifted : Outcome ℕ) (r : CronResult)
    → ((anchor : ℕ) → Yields (λ t. after < t) (retry anchor))
    → Yields
        (λ t. after < t)
        (elim r [
          | candidate utc ↦ elim (ltb after utc) [ true ↦ returns (some utc) | false ↦ retry utc ]
          | invalid_time ↦ shifted >>= λ (next : ℕ). retry next
          | other_error ↦ returns none
        ])
cron_cases after retry shifted (candidate utc) h = elim (Bool-cases (ltb after utc)) [
  | inl e ↦ rw e (ltb→lt after utc e)
  | inr e ↦ rw e (h utc)
]
cron_cases after retry shifted invalid_time h =
    >>=-Yields (λ t. after < t) shifted (λ (next : ℕ). retry next) h
cron_cases after retry shifted other_error h = tt

module _ {Tz Cron : Type 0} (cal : Calendar Tz Cron) where
  shift_gap-Yields :
      (n : ℕ) (tz : Tz) (date time after : ℕ)
      → Yields (λ t. after < t) (shift_gap cal n tz date time after)
  unfolding shift_gap
  shift_gap-Yields zero tz date time after = tt
  shift_gap-Yields (suc n) tz date time after =
      >>=-Yields (λ t. after < t) (cal.add_minutes date time 15) _
        λ shifted.
          local_cases after (shift_gap cal n tz shifted.0 shifted.1 after)
            (cal.from_local tz shifted.0 shifted.1)
            (shift_gap-Yields n tz shifted.0 shifted.1 after)

  pub resolve_candidate-Yields :
      (tz : Tz) (date time after : ℕ)
      → Yields (λ t. after < t) (resolve_candidate cal tz date time after)
  unfolding resolve_candidate
  resolve_candidate-Yields tz date time after =
      resolve_cases after (shift_gap cal 8 tz date time after) (cal.from_local tz date time)
        (shift_gap-Yields 8 tz date time after)

  search_step {ℓ} :
      (P : ℕ → Type ℓ) (next : Option ℕ) (later : ℕ → Evaluation) (e : Evaluation)
      → Yields P e
      → ((d : ℕ) → Yields P (later d))
      → Yields P (
          e >>= λ (found : Option ℕ). elim found [
            | some utc ↦ returns (some utc)
            | none ↦ elim next [ none ↦ returns none | some d ↦ later d ]
          ])
  search_step P next later panics h k = tt
  search_step P next later (returns (some t)) h k = h
  search_step P none later (returns none) h k = tt
  search_step P (some d) later (returns none) h k = k d

  pub search_days-Yields {ℓ} :
      (P : ℕ → Type ℓ) (n : ℕ) (attempt : ℕ → ℕ → Evaluation)
      → ((r d : ℕ) → Yields P (attempt r d))
      → (date : ℕ) → Yields P (search_days cal n attempt date)
  unfolding search_days
  search_days-Yields P zero attempt h date = tt
  search_days-Yields P (suc n) attempt h date =
      search_step P (cal.succ_opt date) (search_days cal n attempt) (attempt n date) (h n date)
        (search_days-Yields P n attempt h)

  pub cron_retry-Yields :
      (n : ℕ) (c : Cron) (tz : Tz) (after anchor : ℕ)
      → Yields (λ t. after < t) (cron_retry cal n c tz after anchor)
  unfolding cron_retry
  cron_retry-Yields zero c tz after anchor = tt
  cron_retry-Yields (suc n) c tz after anchor =
      cron_cases after (cron_retry cal n c tz after) (cal.add_seconds anchor (pos 3600))
        (cal.find_next c tz anchor) (cron_retry-Yields n c tz after)
