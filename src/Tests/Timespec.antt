-- ===== src/Tests/Timespec.antt =====
-- Timespecs.
use virtual_time_kernel.Base.{◌≡◌, refl, arith}
use virtual_time_kernel.Base.Int.{pos, negsuc, ◌+ℤ◌, ◌-ℤ◌, quot, rem}
use virtual_time_kernel.Base.Word.{s64, s32}
use virtual_time_kernel.Timespec.{
  Timespec, ns_to_timespec, timespec_to_ns, set_normalized_timespec, timespec_add_safe, IsNormal,
  carry_up, carry_down, time_t_max,
}
use virtual_time_kernel.Timespec.Normal.{set_normalized_timespec_lem, SameTime}
use virtual_time_kernel.Timespec.RoundTrip.{timespec_to_ns-ns_to_timespec}
use virtual_time_kernel.Tests.Samples.{math64}

abbrev two_and_a_half : Timespec
two_and_a_half = record { tv_sec = pos 2; tv_nsec = pos 500_000_000 }

one_ns_before_1970 :
    ns_to_timespec math64 (negsuc 0) ≡ record { tv_sec = negsuc 0; tv_nsec = pos 999_999_999 }
unfolding ns_to_timespec quot rem s64 s32 ◌-ℤ◌ ◌+ℤ◌
one_ns_before_1970 = refl

carries :
    set_normalized_timespec (pos 1) (negsuc 1_500_000_000)
    ≡ record { tv_sec = negsuc 0; tv_nsec = pos 499_999_999 }
unfolding set_normalized_timespec carry_up carry_down s64 ◌-ℤ◌ ◌+ℤ◌
carries = refl

saturates :
    (timespec_add_safe (record { tv_sec = time_t_max; tv_nsec = pos 0 }) two_and_a_half).tv_sec
    ≡ time_t_max
unfolding timespec_add_safe set_normalized_timespec carry_up carry_down s64 ◌-ℤ◌ ◌+ℤ◌
saturates = refl

timespec_to_ns-ns_to_timespec_example :
    IsNormal (ns_to_timespec math64 (negsuc 7))
    × (timespec_to_ns (ns_to_timespec math64 (negsuc 7)) ≡ negsuc 7)
timespec_to_ns-ns_to_timespec_example =
    timespec_to_ns-ns_to_timespec math64 (negsuc 7) (omega arith)

set_normalized_timespec_example :
    let ts = set_normalized_timespec (pos 5) (negsuc 3_000_000_000) in
    IsNormal ts × SameTime (pos 5) (negsuc 3_000_000_000) ts.tv_sec ts.tv_nsec
set_normalized_timespec_example =
    set_normalized_timespec_lem (pos 5) (negsuc 3_000_000_000) (omega arith) (omega arith)
