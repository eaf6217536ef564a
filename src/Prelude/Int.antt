-- ===== src/Prelude/Int.antt =====
-- `i64`: integers with the wrap-around of two's complement.
use Prim.Native.Nat.{ℕ, zero, suc, ◌+◌, ◌-◌, ◌*◌, ◌/◌, ◌%◌, ◌^◌}
use easy_job.Prelude.Tests.{ltb, if◌then◌else◌}

-- `negsuc n` is -(n + 1).
pub data ℤ : Type 0 where
  pos : ℕ → ℤ
  negsuc : ℕ → ℤ

abbrev pub neg : ℕ → ℤ
neg zero = pos 0
neg (suc n) = negsuc n

-- The integer that a 64-bit pattern stands for: the cast `as i64` of a `u64`.
unfoldable pub as_i64 : ℕ → ℤ
as_i64 n = if ltb n (2 ^ 63) then pos n else negsuc (2 ^ 64 - 1 - n)

-- A result of arithmetic, reduced to 64 bits.
unfoldable pub wrap_i64 : ℤ → ℤ
wrap_i64 (pos n) = as_i64 (n % 2 ^ 64)
wrap_i64 (negsuc n) = as_i64 (2 ^ 64 - 1 - n % 2 ^ 64)

-- A non-negative dividend; division truncates towards zero.
unfoldable pub div_i64 : ℕ → ℤ → ℤ
div_i64 a (pos b) = pos (a / b)
div_i64 a (negsuc b) = neg (a / suc b)

unfoldable pub suc_i64 : ℤ → ℤ
suc_i64 (pos n) = wrap_i64 (pos (n + 1))
suc_i64 (negsuc n) = neg n

unfoldable pub mul_i64 : ℤ → ℤ → ℤ
mul_i64 (pos a) (pos b) = wrap_i64 (pos (a * b))
mul_i64 (pos a) (negsuc b) = wrap_i64 (neg (a * suc b))
mul_i64 (negsuc a) (pos b) = wrap_i64 (neg (suc a * b))
mul_i64 (negsuc a) (negsuc b) = wrap_i64 (pos (suc a * suc b))
