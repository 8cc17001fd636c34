-- ===== src/Tests/Sleep.antt =====
-- Sleeping in virtual time.
use virtual_time_kernel.Base.{◌≡◌, refl, ◌+◌, ◌*◌, ◌≤◌, ◌<◌, inr, arith, some}
use virtual_time_kernel.Base.Int.{pos, pos_part, neg_part, ◌+ℤ◌, ◌*ℤ◌}
use virtual_time_kernel.Base.Word.{s64, to_u64}
use virtual_time_kernel.Timespec.{Timespec, timespec_to_ns, timespec_valid, IsNormal}
use virtual_time_kernel.Sleep.{nanosleep, nanosleep_lem}
use virtual_time_kernel.Tests.Samples.{math64}

abbrev one_and_a_half : Timespec
one_and_a_half = record { tv_sec = pos 1; tv_nsec = pos 500_000_000 }

-- At half speed a sleep of 1.5 s takes 3 s.
nanosleep_example :
    (t : Timespec) × (nanosleep math64 (some one_and_a_half) (pos 2000) ≡ inr t)
    × IsNormal t
    × (neg_part (timespec_to_ns t) ≡ 0)
    × (1000 * pos_part (timespec_to_ns t) ≤ 1_500_000_000 * 2000)
    × (1_500_000_000 * 2000 < 1000 * (pos_part (timespec_to_ns t) + 1))
unfolding timespec_valid timespec_to_ns to_u64 s64 ◌+ℤ◌ ◌*ℤ◌
nanosleep_example =
    nanosleep_lem math64 one_and_a_half 2000 1_500_000_000 refl refl (omega arith) (omega arith)
