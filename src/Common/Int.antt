-- ===== src/Common/Int.antt =====
-- Go's signed `int` and `time.Duration`, where the code tests for zero and negative values.
use Prim.Native.Nat.{ℕ, zero, suc, ◌-◌, ◌*◌, ◌^◌, ◌<◌, min}
use native.Mathlib.Omega.{arith}

-- `negsuc n` is -(n + 1).
pub data ℤ : Type 0 where
  pos : ℕ → ℤ
  negsuc : ℕ → ℤ

-- The value, or the default where it is zero or negative.
unfoldable pub or_default : ℕ → ℤ → ℕ
or_default d (pos zero) = d
or_default d (pos (suc n)) = suc n
or_default d (negsuc n) = d

pub or_default_pos : (d : ℕ) (z : ℤ) → 0 < d → 0 < or_default d z
unfolding or_default
or_default_pos d (pos zero) h = h
or_default_pos d (pos (suc n)) h = omega arith
or_default_pos d (negsuc n) h = h

abbrev pub max_int64 : ℕ
max_int64 = 2 ^ 63 - 1

abbrev pub second : ℕ
second = 1000000000

abbrev pub minute : ℕ
minute = 60 * second

-- `t.Sub(u)` in nanoseconds. Go saturates it at the largest duration; where `t` is before `u` the
-- difference is negative and stands here as 0, so it is compared with positive durations only.
unfoldable pub sub_time : ℕ → ℕ → ℕ
sub_time t u = min (t - u) max_int64
