-- ===== src/Tests/Jiffies.antt =====
-- Ticks and dates.
use virtual_time_kernel.Base.{◌≡◌, refl, ◌+◌, ◌/◌, ◌≤◌, ◌<◌, arith}
use virtual_time_kernel.Base.Int.{pos}
use virtual_time_kernel.Timespec.{Timespec}
use virtual_time_kernel.Jiffies.{Config, msecs_to_jiffies, jiffies_to_msecs, mktime, mktime_days}
use virtual_time_kernel.Jiffies.Rounding.{msecs_to_jiffies_lem}

-- 250 ticks in a second.
abbrev hz250 : Config
hz250 = record {
  hz = 250;
  user_hz = 100;
  tick_nsec = 4_000_000;
  max_jiffy_offset = 4_611_686_018_427_387_902;
  hz_to_msec_num = 4;
  hz_to_msec_den = 1;
  hz_to_usec_num = 4000;
  hz_to_usec_den = 1;
  msec_to_hz_mul32 = 0;
  msec_to_hz_adj32 = 0;
  msec_to_hz_shr32 = 0;
  usec_to_hz_mul32 = 0;
  usec_to_hz_adj32 = 0;
  usec_to_hz_shr32 = 0;
  max_sec_in_jiffies = 0;
  sec_conversion = 0;
  nsec_conversion = 0;
  usec_conversion = 0;
  usec_round = 0;
  nsec_jiffie_sc = 0;
  usec_jiffie_sc = 0;
  sec_jiffie_sc = 0;
}

epoch : mktime 1970 1 1 0 0 0 ≡ 0
unfolding mktime mktime_days
epoch = refl

leap_day : mktime 2016 2 29 12 34 56 ≡ 1_456_749_296
unfolding mktime mktime_days
leap_day = refl

msecs_to_jiffies_example :
    let back = jiffies_to_msecs hz250 (msecs_to_jiffies hz250 10) in
    (10 ≤ back) × (back < 10 + 1000 / 250)
msecs_to_jiffies_example = msecs_to_jiffies_lem hz250 10 refl (omega arith) (omega arith)

abbrev stamp : Timespec
stamp = record { tv_sec = pos 9; tv_nsec = pos 123_456_789 }
