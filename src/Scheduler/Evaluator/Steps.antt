-- ===== src/Scheduler/Evaluator/Steps.antt =====
-- The `i64` arithmetic of the interval trigger in crates/scheduler/src/evaluator.rs.
use native.Mathlib.Nat.{mod-lt, div-add-mod, mod-eq_of_lt, div-le_self, zero-div, one-mul}
use native.Mathlib.Decide.{dec_lt}
use easy_job.Prelude.{
  ℕ, suc, ◌+◌, ◌-◌, ◌*◌, ◌/◌, ◌^◌, ◌≤◌, ◌<◌, ◌≡◌, ◌⊎◌, inl, inr, ◌∙◌, ap, lt→ltb, arith,
}
use easy_job.Prelude.Int.{pos, negsuc, as_i64, wrap_i64, div_i64, suc_i64, mul_i64}
use easy_job.Scheduler.Calendar.{max_seconds}

pub as_i64_small : (n : ℕ) → n < 2 ^ 63 → as_i64 n ≡ pos n
unfolding as_i64
as_i64_small n h = rw (lt→ltb n (2 ^ 63) h)

pub as_i64_large : (n : ℕ) → 2 ^ 63 ≤ n → as_i64 n ≡ negsuc (2 ^ 64 - 1 - n)
unfolding as_i64
as_i64_large n h = ground arith

-- The multiple of `i` that `next_interval` adds: the first one above `e`.
pub step_bounds : (e i : ℕ) → 0 < i → (e < (e / i + 1) * i) × ((e / i + 1) * i ≤ e + i)
step_bounds e i h = omega (arith, mod-lt e h, div-add-mod e i)

quotient_small : (e i : ℕ) → 0 < i → e / i ≤ e
quotient_small e i h = div-le_self e i

count_small : (e i : ℕ) → e < 2 ^ 44 → 0 < i → suc_i64 (pos (e / i)) ≡ pos (e / i + 1)
unfolding suc_i64 wrap_i64
count_small e i small h =
    let fits : e / i + 1 < 2 ^ 63 = omega (arith, quotient_small e i h) in
    rw (mod-eq_of_lt {n = e / i + 1} {m = 2 ^ 64} (omega (arith, fits))) (as_i64_small _ fits)

wrap_cases :
    (p : ℕ)
    → p < 2 ^ 63 + 2 ^ 44
    → (wrap_i64 (pos p) ≡ pos p) ⊎ ((n : ℕ) × (wrap_i64 (pos p) ≡ negsuc n) × (max_seconds ≤ n))
unfolding wrap_i64
wrap_cases p h = rw (mod-eq_of_lt {n = p} {m = 2 ^ 64} (omega arith)) (elim (dec_lt p (2 ^ 63)) [
  | yes l ↦ inl (as_i64_small p l)
  | no l ↦ inr (2 ^ 64 - 1 - p, as_i64_large p (omega arith), omega arith)
])

pub step_cases :
    (e i : ℕ)
    → e < 2 ^ 44
    → 0 < i
    → i < 2 ^ 63
    → let step = mul_i64 (suc_i64 (div_i64 e (as_i64 i))) (as_i64 i) in
      (step ≡ pos ((e / i + 1) * i)) ⊎ ((n : ℕ) × (step ≡ negsuc n) × (max_seconds ≤ n))
step_cases e i small h k = rw (as_i64_small i k) (
    unfold div_i64 in
    rw (count_small e i small h)
      (unfold mul_i64 in wrap_cases ((e / i + 1) * i) (omega (arith, step_bounds e i h))))

-- An interval that leaves room does not overflow.
pub step_exact :
    (e i : ℕ)
    → e < 2 ^ 44
    → 0 < i
    → i < 2 ^ 62
    → mul_i64 (suc_i64 (div_i64 e (as_i64 i))) (as_i64 i) ≡ pos ((e / i + 1) * i)
step_exact e i small h k = rw (as_i64_small i (omega arith)) (
    unfold div_i64 in
    rw (count_small e i small h) (
      unfold mul_i64 wrap_i64 in
      let fits : (e / i + 1) * i < 2 ^ 63 = omega (arith, step_bounds e i h) in
      rw (mod-eq_of_lt {n = (e / i + 1) * i} {m = 2 ^ 64} (omega (arith, fits)))
        (as_i64_small ((e / i + 1) * i) fits)))

as_i64_huge : (n m : ℕ) → 2 ^ 63 ≤ n → n + suc m ≡ 2 ^ 64 → as_i64 n ≡ negsuc m
as_i64_huge n m lo e = as_i64_large n lo ∙ ap negsuc (omega arith)

negate_once : (m : ℕ) → m < 2 ^ 63 → mul_i64 (pos 1) (negsuc m) ≡ negsuc m
unfolding mul_i64 wrap_i64
negate_once m h =
    rw (one-mul (suc m), mod-eq_of_lt {n = m} {m = 2 ^ 64} (omega arith))
      (as_i64_huge (2 ^ 64 - 1 - m) m (omega arith) (omega arith))

pub huge_step :
    (secs m : ℕ)
    → 2 ^ 63 ≤ secs
    → secs + suc m ≡ 2 ^ 64
    → mul_i64 (suc_i64 (div_i64 0 (as_i64 secs))) (as_i64 secs) ≡ negsuc m
unfolding suc_i64 div_i64 wrap_i64
huge_step secs m lo e =
    rw (as_i64_huge secs m lo e, zero-div (suc m), as_i64_small 1 (omega arith))
      (negate_once m (omega arith))
