-- ===== src/Scheduler/Evaluator/Interval.antt =====
-- The interval trigger of crates/scheduler/src/evaluator.rs.
use native.Mathlib.Nat.{div-add-mod}
use native.Mathlib.Decide.{dec_lt}
use easy_job.Prelude.{
  ℕ, suc, ◌+◌, ◌-◌, ◌*◌, ◌/◌, ◌^◌, ◌≤◌, ◌<◌, ◌≡◌, ◌≢◌, ◌⊎◌, inl, inr, refl, sym, subst, false, ltb,
  ltb→lt, ◌==◌, Option, none, some, arith, Bool-cases,
}
use easy_job.Prelude.Int.{ℤ, pos, negsuc}
use easy_job.Prelude.Outcome.{Outcome, returns, panics, ◌>>=◌, Yields, >>=-eq-returns}
use easy_job.Scheduler.Calendar.{Calendar, IsChrono, nanos_per_sec, max_seconds}
use easy_job.Domain.Trigger.{interval}
use easy_job.Scheduler.Evaluator.{unwrap_or, next_interval, evaluate_next_occurrence}
use easy_job.Scheduler.Evaluator.Steps.{step_bounds, step_cases, step_exact, huge_step}

-- `t` is the first point of the grid `base`, `base + secs`, `base + 2 * secs`, ... after `after`.
abbrev pub IsFirst : ℕ → ℕ → ℕ → ℕ → Type 0
IsFirst base secs after t =
    (after < t)
    × ((t ≡ base)
        ⊎ ((k : ℕ) × (t ≡ base + (k + 1) * secs * nanos_per_sec)
            × (base + k * secs * nanos_per_sec ≤ after)))

-- What the grid point after the elapsed whole seconds is.
grid_point :
    (base secs after e : ℕ)
    → 0 < secs
    → base + e * nanos_per_sec ≤ after
    → after < base + (e + 1) * nanos_per_sec
    → IsFirst base secs after (base + (e / secs + 1) * secs * nanos_per_sec)
grid_point base secs after e h lo hi =
    let (above, _) = step_bounds e secs h in
    (omega arith, inr (e / secs, refl, omega (arith, div-add-mod e secs)))

module _ {Tz Cron : Type 0} (cal : Calendar Tz Cron) where
  some-Yields {ℓ} :
      (P : ℕ → Type ℓ) (m : Outcome ℕ)
      → ((u : ℕ) → m ≡ returns u → P u)
      → Yields P (m >>= λ (u : ℕ). returns (some u))
  some-Yields P (returns u) h = h u refl
  some-Yields P panics h = tt

  added_lem :
      IsChrono cal → (t n u : ℕ) → cal.add_seconds t (pos n) ≡ returns u → u ≡ t + n * nanos_per_sec
  added_lem laws t n u r = elim (dec_lt cal.max_utc (t + n * nanos_per_sec)) [
    | yes beyond ↦ absurd (cc (laws.add_seconds_beyond t n beyond))
    | no within ↦ cc (laws.add_seconds_pos t n (omega arith))
  ]

  -- Adding the step reaches the point that it names, or panics.
  add_step-Yields {ℓ} :
      IsChrono cal
      → (P : ℕ → Type ℓ) (base p : ℕ) (step : ℤ)
      → (step ≡ pos p) ⊎ ((n : ℕ) × (step ≡ negsuc n) × (max_seconds ≤ n))
      → P (base + p * nanos_per_sec)
      → Yields P (cal.add_seconds base step >>= λ (u : ℕ). returns (some u))
  add_step-Yields laws P base p step (inl e) h = rw e (
      some-Yields P (cal.add_seconds base (pos p))
        λ u r. subst P (sym (added_lem laws base p u r)) h)
  add_step-Yields laws P base p step (inr (n, e, big)) h = rw e (
      some-Yields P (cal.add_seconds base (negsuc n))
        λ u r. absurd (cc (laws.add_seconds_panics base n big)))

  pub next_interval-Yields :
      IsChrono cal
      → (secs : ℕ) (start_at : Option ℕ) (after : ℕ) → after ≤ cal.max_utc
      → secs < 2 ^ 63
      → Yields
          (IsFirst (unwrap_or start_at after) secs after)
          (next_interval cal secs start_at after)
  unfolding next_interval
  next_interval-Yields laws secs start_at after now small =
      let base = unwrap_or start_at after in
      let e = cal.num_seconds after base in
      elim (Bool-cases (secs == 0)) [
        | inl z ↦ rw z tt
        | inr nz ↦ rw nz (elim (Bool-cases (ltb after base)) [
          | inl ahead ↦ rw ahead (ltb→lt after base ahead, inl refl)
          | inr started ↦
              let passed : base ≤ after = ground arith in
              let (lo, hi) = laws.num_seconds_floor after base passed now in
              rw started (
                add_step-Yields laws (IsFirst base secs after) base ((e / secs + 1) * secs) _
                  (step_cases e secs (omega (arith, laws.max_utc_small)) (ground arith) small)
                  (grid_point base secs after e (ground arith) lo hi))
        ])
      ]

  -- A positive interval whose next step stays within chrono's range has a next occurrence. It is the
  -- start if that lies ahead, and otherwise the first later point of the grid that begins at the start
  -- and goes on by the interval. A trigger with no start begins at `after`.
  pub next_interval-IsFirst :
      IsChrono cal
      → (secs : ℕ) (start_at : Option ℕ) (after : ℕ) → 0 < secs
      → after + secs * nanos_per_sec ≤ cal.max_utc
      → (t : ℕ) × (next_interval cal secs start_at after ≡ returns (some t))
        × IsFirst (unwrap_or start_at after) secs after t
  unfolding next_interval
  next_interval-IsFirst laws secs start_at after positive room =
      let base = unwrap_or start_at after in
      let e = cal.num_seconds after base in
      let nz : (secs == 0) ≡ false = ground arith in
      rw nz (elim (Bool-cases (ltb after base)) [
        | inl ahead ↦ rw ahead (base, refl, (ltb→lt after base ahead, inl refl))
        | inr started ↦
            let passed : base ≤ after = ground arith in
            let (lo, hi) = laws.num_seconds_floor after base passed (omega arith) in
            let (_, step) = step_bounds e secs positive in
            let p = (e / secs + 1) * secs in
            let within : base + p * nanos_per_sec ≤ cal.max_utc = omega arith in
            rw
              (
                started,
                step_exact e secs (omega (arith, laws.max_utc_small)) positive
                    (omega (arith, laws.max_utc_small)),
                laws.add_seconds_pos base p within,
              )
              (base + p * nanos_per_sec, refl, grid_point base secs after e positive lo hi)
      ])

huge_interval :
    {Tz Cron : Type 0} (cal : Calendar Tz Cron) (secs after m : ℕ)
    → IsChrono cal
    → after ≤ cal.max_utc
    → 2 ^ 63 ≤ secs
    → secs + suc m ≡ 2 ^ 64
    → next_interval cal secs none after
      ≡ (cal.add_seconds after (negsuc m) >>= λ (u : ℕ). returns (some u))
unfolding next_interval
huge_interval cal secs after m laws now lo e =
    let (floor, _) = laws.num_seconds_floor after after (omega arith) now in
    let none_passed : cal.num_seconds after after ≡ 0 = omega arith in
    let positive : (secs == 0) ≡ false = ground arith in
    let started : ltb after after ≡ false = ground arith in
    rw (positive, started, none_passed, huge_step secs m lo e)

some_ne_none : (m : Outcome ℕ) → (m >>= λ (u : ℕ). returns (some u)) ≢ returns none
some_ne_none (returns u) e = cc
some_ne_none panics e = cc

-- An interval of 2^63 seconds or more turns negative in the cast to `i64`: without a start such a
-- trigger has a next occurrence, and then it lies in the past, or the evaluation panics.
pub huge_interval_past :
    {Tz Cron : Type 0} (cal : Calendar Tz Cron) (roll : ℕ → ℕ → ℕ) (secs after : ℕ)
    → IsChrono cal
    → after ≤ cal.max_utc
    → 2 ^ 63 ≤ secs
    → secs < 2 ^ 64
    → let e = evaluate_next_occurrence cal roll (interval secs none) after in
      (e ≢ returns none) × ((t : ℕ) → e ≡ returns (some t) → t < after)
unfolding evaluate_next_occurrence
huge_interval_past cal roll secs after laws now lo hi =
    let m = 2 ^ 64 - 1 - secs in
    let add = cal.add_seconds after (negsuc m) in
    rw (huge_interval cal secs after m laws now lo (omega arith)) (
      some_ne_none add,
      λ t r.
          let (u, added, same) = >>=-eq-returns add (λ (u : ℕ). returns (some u)) r in
          let back : u + suc m * nanos_per_sec ≡ after = laws.add_seconds_neg after m u added in
          let e : u ≡ t = cc in omega arith,
    )
