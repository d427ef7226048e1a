-- ===== src/Duration.antt =====
-- helios_permissions/duration.go: seconds to a `time.Duration`, which counts nanoseconds in an
-- `int64`.
use helios_permission_golang.Prelude.{
  ℕ, zero, suc, ◌*◌, ◌≤◌, ◌≡◌, refl, arith, ℤ, pos, negsuc, is_positive, int64, ◌-◌, ◌^◌,
}

-- `time.Second`
abbrev pub second : ℕ
second = 1000000000

unfoldable pub seconds_to_duration : ℤ → ℤ
unfolding is_positive int64
seconds_to_duration (pos zero) = pos 0
seconds_to_duration (pos (suc n)) = int64 (suc n * second)
seconds_to_duration (negsuc n) = pos 0

-- Up to 9223372036 seconds the duration is exact.
pub seconds_to_duration_exact :
    (n : ℕ) → n ≤ 9223372036 → seconds_to_duration (pos n) ≡ pos (n * second)
unfolding seconds_to_duration
seconds_to_duration_exact zero h = refl
seconds_to_duration_exact (suc n) h = ground arith

-- One second more, and up to 18446744073 seconds, the duration is the product less 2^64, which is
-- negative: for `n` seconds it is -(2^64 - n * 10^9).
pub seconds_to_duration_overflow :
    (n : ℕ)
    → 9223372037 ≤ n
    → n ≤ 18446744073
    → seconds_to_duration (pos n) ≡ negsuc (2 ^ 64 - 1 - n * second)
unfolding seconds_to_duration
seconds_to_duration_overflow zero h k = absurd (omega (arith, h))
seconds_to_duration_overflow (suc n) h k = ground arith
