-- ===== src/Ktime/Saturate.antt =====
-- ktime_add_safe, as a sum that stops at the largest time.
use virtual_time_kernel.Base.{ℕ, ◌+◌, ◌^◌, ◌<◌, ◌≡◌, ltb, arith, if◌then◌else◌}
use virtual_time_kernel.Base.Int.{pos, ◌+ℤ◌}
use virtual_time_kernel.Base.Word.{s64}
use virtual_time_kernel.Ktime.{ktime_set, ktime_add_safe, ktime_max}

-- The sum of two times from 0 on, and KTIME_MAX where it would overflow.
ktime_add_safe_lem :
    (a b : ℕ)
    → a < 2 ^ 63
    → b < 2 ^ 63
    → ktime_add_safe (pos a) (pos b) ≡ (if ltb (a + b) (2 ^ 63) then pos (a + b) else ktime_max)
unfolding ktime_add_safe ktime_set ◌+ℤ◌ s64
ktime_add_safe_lem a b h k = ground arith
