-- ===== src/Jiffies.antt =====
-- kernel/time.c: conversions between ticks and times, and calendar dates.
pub mod Rounding
use virtual_time_kernel.Base.{
  ℕ, ◌+◌, ◌-◌, ◌*◌, ◌/◌, ◌%◌, ◌^◌, Bool, true, false, ◌&&◌, ◌||◌, ltb, leb, ◌==◌, if◌then◌else◌,
}
use virtual_time_kernel.Base.Int.{ℤ, pos, ◌+ℤ◌, ◌-ℤ◌, quot, rem}
use virtual_time_kernel.Base.Word.{u32, u64, s64, to_u64}
use virtual_time_kernel.Math64.{Math64}
use virtual_time_kernel.Timespec.{Timespec, nsec_per_sec, ns_to_timespec}

-- The kernel's configuration and the constants that its headers and build compute from it.
pub record Config : Type 0 where
  pub hz : ℕ
  pub user_hz : ℕ
  pub tick_nsec : ℕ
  pub max_jiffy_offset : ℕ
  pub hz_to_msec_num : ℕ
  pub hz_to_msec_den : ℕ
  pub hz_to_usec_num : ℕ
  pub hz_to_usec_den : ℕ
  pub msec_to_hz_mul32 : ℕ
  pub msec_to_hz_adj32 : ℕ
  pub msec_to_hz_shr32 : ℕ
  pub usec_to_hz_mul32 : ℕ
  pub usec_to_hz_adj32 : ℕ
  pub usec_to_hz_shr32 : ℕ
  pub max_sec_in_jiffies : ℕ
  pub sec_conversion : ℕ
  pub nsec_conversion : ℕ
  pub usec_conversion : ℕ
  pub usec_round : ℕ
  pub nsec_jiffie_sc : ℕ
  pub usec_jiffie_sc : ℕ
  pub sec_jiffie_sc : ℕ

pub record Timeval : Type 0 where
  pub tv_sec : ℤ
  pub tv_usec : ℤ

-- The tests of the preprocessor: `per` ticks of HZ make up a second, or HZ is a multiple of it.
abbrev pub divides_second : ℕ → ℕ → Bool
divides_second hz per = leb hz per && (per % hz == 0)

abbrev pub multiple_of_second : ℕ → ℕ → Bool
multiple_of_second hz per = ltb per hz && (hz % per == 0)

module _ (cfg : Config) where
  unfoldable pub jiffies_to_msecs : ℕ → ℕ
  jiffies_to_msecs j =
      if divides_second cfg.hz 1000
      then u32 (u64 (1000 / cfg.hz * j))
      else if multiple_of_second cfg.hz 1000
      then u32 (u64 (j + (cfg.hz / 1000 - 1)) / (cfg.hz / 1000))
      else u32 (u64 (j * cfg.hz_to_msec_num) / cfg.hz_to_msec_den)

  unfoldable pub jiffies_to_usecs : ℕ → ℕ
  jiffies_to_usecs j =
      if divides_second cfg.hz 1_000_000
      then u32 (u64 (1_000_000 / cfg.hz * j))
      else if multiple_of_second cfg.hz 1_000_000
      then u32 (u64 (j + (cfg.hz / 1_000_000 - 1)) / (cfg.hz / 1_000_000))
      else u32 (u64 (j * cfg.hz_to_usec_num) / cfg.hz_to_usec_den)

  unfoldable pub msecs_to_jiffies : ℕ → ℕ
  unfolding jiffies_to_msecs
  msecs_to_jiffies m =
      if leb (2 ^ 31) m
      then cfg.max_jiffy_offset
      else if divides_second cfg.hz 1000
      then (m + (1000 / cfg.hz - 1)) / (1000 / cfg.hz)
      else if multiple_of_second cfg.hz 1000
      then (if ltb (jiffies_to_msecs cfg.max_jiffy_offset) m
          then cfg.max_jiffy_offset
          else u64 (m * (cfg.hz / 1000)))
      else if ltb 1000 cfg.hz && ltb (jiffies_to_msecs cfg.max_jiffy_offset) m
      then cfg.max_jiffy_offset
      else u64 (cfg.msec_to_hz_mul32 * m + cfg.msec_to_hz_adj32) / 2 ^ cfg.msec_to_hz_shr32

  unfoldable pub usecs_to_jiffies : ℕ → ℕ
  unfolding jiffies_to_usecs
  usecs_to_jiffies u =
      if ltb (jiffies_to_usecs cfg.max_jiffy_offset) u
      then cfg.max_jiffy_offset
      else if divides_second cfg.hz 1_000_000
      then (u + (1_000_000 / cfg.hz - 1)) / (1_000_000 / cfg.hz)
      else if multiple_of_second cfg.hz 1_000_000
      then u64 (u * (cfg.hz / 1_000_000))
      else u64 (cfg.usec_to_hz_mul32 * u + cfg.usec_to_hz_adj32) / 2 ^ cfg.usec_to_hz_shr32

  -- `gran` counts the nanoseconds of a unit.
  unfoldable pub timespec_trunc : Timespec → ℕ → Timespec
  unfolding jiffies_to_usecs
  timespec_trunc t gran =
      if leb gran (u32 (jiffies_to_usecs 1 * 1000))
      then t
      else if gran == nsec_per_sec
      then record t { tv_nsec = pos 0 }
      else record t { tv_nsec = s64 (t.tv_nsec -ℤ rem t.tv_nsec (pos gran)) }

  -- The two parts of a time in ticks, scaled and added.
  abbrev pub scaled_ticks : ℕ → ℕ → ℕ
  scaled_ticks sec part = u64 (u64 (sec * cfg.sec_conversion) + part) / 2 ^ cfg.sec_jiffie_sc

  unfoldable pub timespec_to_jiffies : Timespec → ℕ
  timespec_to_jiffies value =
      let sec = to_u64 value.tv_sec in
      let nsec = s64 (value.tv_nsec +ℤ (pos cfg.tick_nsec -ℤ pos 1)) in
      let part = λ (n : ℤ).
        u64 (to_u64 n * cfg.nsec_conversion) / 2 ^ (cfg.nsec_jiffie_sc - cfg.sec_jiffie_sc) in
      if leb cfg.max_sec_in_jiffies sec
      then scaled_ticks cfg.max_sec_in_jiffies (part (pos 0))
      else scaled_ticks sec (part nsec)

  unfoldable pub timeval_to_jiffies : Timeval → ℕ
  timeval_to_jiffies value =
      let sec = to_u64 value.tv_sec in
      let part = λ (n : ℤ).
        u64 (u64 (to_u64 n * cfg.usec_conversion) + cfg.usec_round)
        / 2 ^ (cfg.usec_jiffie_sc - cfg.sec_jiffie_sc) in
      if leb cfg.max_sec_in_jiffies sec
      then scaled_ticks cfg.max_sec_in_jiffies (part (pos 0))
      else scaled_ticks sec (part value.tv_usec)

module _ (m : Math64) (cfg : Config) where
  open m use {div_u64, div_u64_rem}

  unfoldable pub jiffies_to_timespec : ℕ → Timespec
  jiffies_to_timespec jiffies =
      let (q, r) = div_u64_rem (u64 (jiffies * cfg.tick_nsec)) nsec_per_sec in
      record { tv_sec = s64 (pos q); tv_nsec = pos r }

  unfoldable pub jiffies_to_timeval : ℕ → Timeval
  jiffies_to_timeval jiffies =
      let (q, r) = div_u64_rem (u64 (jiffies * cfg.tick_nsec)) nsec_per_sec in
      record { tv_sec = s64 (pos q); tv_usec = pos (r / 1000) }

  unfoldable pub jiffies_to_clock_t : ℕ → ℕ
  jiffies_to_clock_t x =
      if cfg.tick_nsec % (nsec_per_sec / cfg.user_hz) == 0
      then (if ltb cfg.hz cfg.user_hz
          then u64 (x * (cfg.user_hz / cfg.hz))
          else x / (cfg.hz / cfg.user_hz))
      else div_u64 (u64 (x * cfg.tick_nsec)) (nsec_per_sec / cfg.user_hz)

  unfoldable pub clock_t_to_jiffies : ℕ → ℕ
  clock_t_to_jiffies x =
      let max = 2 ^ 64 - 1 in
      if cfg.hz % cfg.user_hz == 0
      then (if leb (max / (cfg.hz / cfg.user_hz)) x then max else u64 (x * (cfg.hz / cfg.user_hz)))
      else (if leb (u64 (max / cfg.hz * cfg.user_hz)) x
          then max
          else div_u64 (u64 (x * cfg.hz)) cfg.user_hz)

  unfoldable pub jiffies_64_to_clock_t : ℕ → ℕ
  jiffies_64_to_clock_t x =
      if cfg.tick_nsec % (nsec_per_sec / cfg.user_hz) == 0
      then (if ltb cfg.hz cfg.user_hz
          then div_u64 (u64 (x * cfg.user_hz)) cfg.hz
          else if ltb cfg.user_hz cfg.hz
          then div_u64 x (cfg.hz / cfg.user_hz)
          else x)
      else div_u64 (u64 (x * cfg.tick_nsec)) (nsec_per_sec / cfg.user_hz)

  unfoldable pub nsec_to_clock_t : ℕ → ℕ
  nsec_to_clock_t x =
      if nsec_per_sec % cfg.user_hz == 0
      then div_u64 x (nsec_per_sec / cfg.user_hz)
      else if cfg.user_hz % 512 == 0
      then div_u64 (u64 (x * cfg.user_hz) / 512) (nsec_per_sec / 512)
      else div_u64 (u64 (x * 9)) ((9 * nsec_per_sec + cfg.user_hz / 2) / cfg.user_hz)

  unfoldable pub nsecs_to_jiffies64 : ℕ → ℕ
  nsecs_to_jiffies64 n =
      if nsec_per_sec % cfg.hz == 0
      then div_u64 n (nsec_per_sec / cfg.hz)
      else if cfg.hz % 512 == 0
      then div_u64 (u64 (n * cfg.hz) / 512) (nsec_per_sec / 512)
      else div_u64 (u64 (n * 9)) ((9 * nsec_per_sec + cfg.hz / 2) / cfg.hz)

  abbrev pub nsecs_to_jiffies : ℕ → ℕ
  nsecs_to_jiffies n = nsecs_to_jiffies64 n

unfoldable pub ns_to_timeval : Math64 → ℤ → Timeval
ns_to_timeval m nsec =
    let ts = ns_to_timespec m nsec in
    record { tv_sec = ts.tv_sec; tv_usec = quot ts.tv_nsec (pos 1000) }

-- The days of mktime up to a date, in an `unsigned int` where the source has one.
unfoldable pub mktime_days : ℕ → ℕ → ℕ → ℕ
mktime_days year mon day =
    let cycle = u32 (u32 (year / 4 + (2 ^ 32 - year / 100)) + year / 400) in
    let date = u32 (u32 (cycle + u32 (367 * mon) / 12) + day) in
    u64 (date + u32 (year * 365) + (2 ^ 64 - 719_499))

unfoldable pub mktime : ℕ → ℕ → ℕ → ℕ → ℕ → ℕ → ℕ
unfolding mktime_days
mktime year0 mon0 day hour min sec =
    let mon₁ = u32 (mon0 + (2 ^ 32 - 2)) in
    let wraps = (mon₁ == 0) || leb (2 ^ 31) mon₁ in
    let mon = if wraps then u32 (mon₁ + 12) else mon₁ in
    let year = if wraps then u32 (year0 + (2 ^ 32 - 1)) else year0 in
    u64 (u64 (u64 (u64 (u64 (u64 (mktime_days year mon day * 24) + hour) * 60) + min) * 60) + sec)
