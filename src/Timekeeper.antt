-- ===== src/Timekeeper.antt =====
-- kernel/time/timekeeping.c and include/linux/timekeeper_internal.h: the wall clock, kept as seconds
-- and shifted nanoseconds that a counter of cycles drives. CONFIG_ARCH_USES_GETTIMEOFFSET is off, so
-- that get_arch_timeoffset is 0.
pub mod Read
pub mod Accumulate
pub mod Suspend
pub mod Kept
pub mod Offsets
pub mod Consistent
pub mod Runs
pub mod Setting
pub mod Advance
pub mod Update
use virtual_time_kernel.Base.{
  ℕ, zero, suc, ◌+◌, ◌-◌, ◌*◌, ◌/◌, ◌%◌, ◌^◌, ◌≤◌, ◌<◌, Bool, true, false, not, ◌||◌, leb, ltb,
  ◌==◌, if◌then◌else◌, Option, none, some,
}
use virtual_time_kernel.Base.Int.{ℤ, pos, negsuc, ◌+ℤ◌, ◌-ℤ◌, ◌*ℤ◌, ltb_ℤ, eqb_ℤ}
use virtual_time_kernel.Base.Word.{s64, s32, u64, to_u64}
use virtual_time_kernel.Math64.{Math64}
use virtual_time_kernel.Timespec.{
  Timespec, nsec_per_sec, set_normalized_timespec, timespec_add, timespec_sub, timespec_add_ns,
  timespec_valid_strict, timespec_compare, ns_to_timespec,
}
use virtual_time_kernel.Ktime.{ktime_set, ktime_add, ktime_sub, ktime_add_ns, timespec_to_ktime}
use virtual_time_kernel.Dilation.{einval}
use Prim.Native.Nat.{bit_and}

-- The fields of `struct clocksource` that the code reads.
pub record Clocksource : Type 0 where
  pub mult : ℕ
  pub shift : ℕ
  pub mask : ℕ
  pub cycle_last : ℕ
  pub maxadj : ℕ
  pub max_idle_ns : ℕ
  pub suspend_nonstop : Bool
  pub valid_for_hres : Bool

-- `struct timekeeper`, whose clock stands beside it.
pub record Timekeeper : Type 0 where
  pub mult : ℕ
  pub shift : ℕ
  pub cycle_interval : ℕ
  pub cycle_last : ℕ
  pub xtime_interval : ℕ
  pub xtime_remainder : ℤ
  pub raw_interval : ℕ
  pub xtime_sec : ℕ
  pub xtime_nsec : ℕ
  pub ntp_error : ℤ
  pub ntp_error_shift : ℕ
  pub wall_to_monotonic : Timespec
  pub offs_real : ℤ
  pub total_sleep_time : Timespec
  pub offs_boot : ℤ
  pub raw_time : Timespec
  pub tai_offset : ℤ
  pub offs_tai : ℤ

-- The file's variables, and the current clocksource.
pub record Timekeeping : Type 0 where
  pub tk : Timekeeper
  pub shadow : Timekeeper
  pub clock : Clocksource
  pub suspended : Bool
  pub persistent_clock_exist : Bool
  pub suspend_time : Timespec
  pub old_delta : Timespec

-- What the code takes from the clocksource and NTP code of the kernel: clocksource_cyc2ns, which turns
-- cycles into nanoseconds by a multiplier and a shift; the leap of a second that second_overflow
-- reports; ntp_tick_length; the constants NTP_SCALE_SHIFT, SHIFT_HZ and NTP_INTERVAL_LENGTH; and
-- ilog2, the logarithm rounded down.
pub record Ntp : Type 0 where
  pub cyc2ns : ℕ → ℕ → ℕ → ℤ
  pub second_overflow : ℕ → ℤ
  pub tick_length : ℕ
  pub scale_shift : ℕ
  pub shift_hz : ℕ
  pub interval_length : ℕ
  pub ilog2 : ℕ → ℕ
  pub ilog2-le : (n : ℕ) → 0 < n → 2 ^ ilog2 n ≤ n
  pub ilog2-lt : (n : ℕ) → 0 < n → n < 2 ^ (ilog2 n + 1)

-- Actions of timekeeping_update; TK_CLOCK_WAS_SET goes to listeners outside the file.
pub record Action : Type 0 where
  pub clear_ntp : Bool
  pub mirror : Bool

-- NSEC_PER_SEC << shift
abbrev pub shifted_second : ℕ → ℕ
shifted_second shift = u64 (nsec_per_sec * 2 ^ shift)

-- -ts, as the code negates each half.
unfoldable pub negated : Timespec → Timespec
unfolding set_normalized_timespec
negated ts = set_normalized_timespec (s64 (pos 0 -ℤ ts.tv_sec)) (s64 (pos 0 -ℤ ts.tv_nsec))

unfoldable pub tk_xtime : Timekeeper → Timespec
tk_xtime tk = record {
  tv_sec = s64 (pos tk.xtime_sec);
  tv_nsec = s64 (pos (tk.xtime_nsec / 2 ^ tk.shift));
}

-- The loop of tk_normalize_xtime, on fuel.
unfoldable pub carry_seconds : ℕ → ℕ → ℕ → ℕ → ℕ × ℕ
carry_seconds zero unit sec nsec = (sec, nsec)
carry_seconds (suc fuel) unit sec nsec =
    let rest = carry_seconds fuel unit (u64 (sec + 1)) (nsec - unit) in
    if ltb nsec unit then (sec, nsec) else rest

unfoldable pub tk_normalize_xtime : Timekeeper → Timekeeper
unfolding carry_seconds
tk_normalize_xtime tk =
    let unit = shifted_second tk.shift in
    let (sec, nsec) = carry_seconds (tk.xtime_nsec / unit) unit tk.xtime_sec tk.xtime_nsec in
    record tk { xtime_sec = sec; xtime_nsec = nsec }

unfoldable pub tk_set_xtime : Timekeeper → Timespec → Timekeeper
unfolding to_u64
tk_set_xtime tk ts = record tk {
  xtime_sec = to_u64 ts.tv_sec;
  xtime_nsec = u64 (to_u64 ts.tv_nsec * 2 ^ tk.shift);
}

unfoldable pub tk_xtime_add : Timekeeper → Timespec → Timekeeper
unfolding tk_normalize_xtime to_u64
tk_xtime_add tk ts = tk_normalize_xtime (record tk {
  xtime_sec = u64 (tk.xtime_sec + to_u64 ts.tv_sec);
  xtime_nsec = u64 (tk.xtime_nsec + u64 (to_u64 ts.tv_nsec * 2 ^ tk.shift));
})

unfoldable pub tk_set_wall_to_mono : Timekeeper → Timespec → Timekeeper
unfolding negated timespec_to_ktime ktime_set
tk_set_wall_to_mono tk wtm =
    let offs_real = timespec_to_ktime (negated wtm) in
    record tk {
      wall_to_monotonic = wtm;
      offs_real = offs_real;
      offs_tai = ktime_add offs_real (ktime_set tk.tai_offset 0);
    }

unfoldable pub tk_set_sleep_time : Timekeeper → Timespec → Timekeeper
unfolding timespec_to_ktime
tk_set_sleep_time tk t = record tk { total_sleep_time = t; offs_boot = timespec_to_ktime t }

unfoldable pub set_tai_offset : Timekeeper → ℤ → Timekeeper
unfolding ktime_set
set_tai_offset tk tai = record tk {
  tai_offset = tai;
  offs_tai = ktime_add tk.offs_real (ktime_set tai 0);
}

-- An arithmetic shift to the right.
abbrev pub sar : ℤ → ℕ → ℤ
sar (pos n) k = pos (n / 2 ^ k)
sar (negsuc n) k = negsuc (n / 2 ^ k)

-- Cycles since the last update; `cycle_now` is what the clocksource's read gives.
abbrev pub cycle_delta : Clocksource → ℕ → ℕ
cycle_delta clock cycle_now = bit_and (u64 (cycle_now + (2 ^ 64 - clock.cycle_last))) clock.mask

unfoldable pub timekeeping_get_ns : Timekeeping → ℕ → ℤ
timekeeping_get_ns w cycle_now =
    sar (s64 (pos (cycle_delta w.clock cycle_now * w.tk.mult + w.tk.xtime_nsec))) w.tk.shift

unfoldable pub timekeeping_get_ns_raw : Ntp → Timekeeping → ℕ → ℤ
timekeeping_get_ns_raw ntp w cycle_now =
    ntp.cyc2ns (cycle_delta w.clock cycle_now) w.clock.mult w.clock.shift

unfoldable pub timekeeping_update : Timekeeping → Action → Timekeeping
timekeeping_update w action =
    let tk : Timekeeper = if action.clear_ntp then record w.tk { ntp_error = pos 0 } else w.tk in
    if action.mirror then record w { tk = tk; shadow = tk } else record w { tk = tk }

module _ (m : Math64) (ntp : Ntp) where
  unfoldable pub timekeeping_forward_now : Timekeeping → ℕ → Timekeeping
  unfolding tk_normalize_xtime to_u64
  timekeeping_forward_now w cycle_now =
      let delta = cycle_delta w.clock cycle_now in
      let moved : Timekeeper = record w.tk {
        cycle_last = cycle_now;
        xtime_nsec = u64 (w.tk.xtime_nsec + u64 (delta * w.tk.mult));
      } in
      let tk = tk_normalize_xtime moved in
      let nsec = ntp.cyc2ns delta w.clock.mult w.clock.shift in
      record w {
        clock = record w.clock { cycle_last = cycle_now };
        tk = record tk { raw_time = timespec_add_ns m w.tk.raw_time (to_u64 nsec) };
      }

  abbrev pub was_set : Action
  was_set = record { clear_ntp = true; mirror = true }

  unfoldable pub do_settimeofday : Timekeeping → ℕ → Timespec → Timekeeping × ℤ
  unfolding timekeeping_forward_now timekeeping_update tk_set_wall_to_mono tk_set_xtime timespec_sub
      tk_xtime timespec_valid_strict
  do_settimeofday w cycle_now tv =
      let w₁ = timekeeping_forward_now w cycle_now in
      let xt = tk_xtime w₁.tk in
      let ts_delta : Timespec = record {
        tv_sec = s64 (tv.tv_sec -ℤ xt.tv_sec);
        tv_nsec = s64 (tv.tv_nsec -ℤ xt.tv_nsec);
      } in
      let tk₂ = tk_set_wall_to_mono w₁.tk (timespec_sub w₁.tk.wall_to_monotonic ts_delta) in
      if timespec_valid_strict tv
      then (timekeeping_update (record w₁ { tk = tk_set_xtime tk₂ tv }) was_set, pos 0)
      else (w, einval)

  unfoldable pub timekeeping_inject_offset : Timekeeping → ℕ → Timespec → Timekeeping × ℤ
  unfolding timekeeping_forward_now timekeeping_update tk_set_wall_to_mono tk_xtime_add timespec_sub
      timespec_add tk_xtime timespec_valid_strict to_u64
  timekeeping_inject_offset w cycle_now ts =
      let w₁ = timekeeping_forward_now w cycle_now in
      let tmp = timespec_add (tk_xtime w₁.tk) ts in
      let tk₂ = tk_xtime_add w₁.tk ts in
      let tk₃ = tk_set_wall_to_mono tk₂ (timespec_sub tk₂.wall_to_monotonic ts) in
      if leb nsec_per_sec (to_u64 ts.tv_nsec)
      then (w, einval)
      else if timespec_valid_strict tmp
      then (timekeeping_update (record w₁ { tk = tk₃ }) was_set, pos 0)
      else (timekeeping_update w₁ was_set, einval)

  unfoldable pub timekeeping_set_tai_offset : Timekeeping → ℤ → Timekeeping
  unfolding timekeeping_update set_tai_offset
  timekeeping_set_tai_offset w tai =
      timekeeping_update (record w { tk = set_tai_offset w.tk tai })
        (record { clear_ntp = false; mirror = true })

  unfoldable pub inject_sleeptime : Timekeeper → Timespec → Timekeeper
  unfolding timespec_valid_strict tk_xtime_add tk_set_wall_to_mono tk_set_sleep_time timespec_sub
      timespec_add
  inject_sleeptime tk delta =
      let tk₁ = tk_xtime_add tk delta in
      let tk₂ = tk_set_wall_to_mono tk₁ (timespec_sub tk₁.wall_to_monotonic delta) in
      if timespec_valid_strict delta
      then tk_set_sleep_time tk₂ (timespec_add tk₂.total_sleep_time delta)
      else tk

  unfoldable pub timekeeping_inject_sleeptime : Timekeeping → ℕ → Timespec → Timekeeping
  unfolding timekeeping_forward_now timekeeping_update inject_sleeptime
  timekeeping_inject_sleeptime w cycle_now delta =
      let w₁ = timekeeping_forward_now w cycle_now in
      if w.persistent_clock_exist
      then w
      else timekeeping_update (record w₁ { tk = inject_sleeptime w₁.tk delta }) was_set
