-- ===== src/Tests/Timekeeper.antt =====
-- The timekeeper on a counter of one cycle per nanosecond.
use virtual_time_kernel.Base.{
  ℕ, zero, suc, ◌+◌, ◌-◌, ◌*◌, ◌/◌, ◌%◌, ◌^◌, ◌≤◌, ◌<◌, ◌≡◌, refl, ap, ◌∙◌, true, false, ltb,
  if◌then◌else◌, arith, Bool-cases, inl, inr,
}
use virtual_time_kernel.Base.Int.{pos, ◌-ℤ◌, ◌+ℤ◌, ◌*ℤ◌}
use virtual_time_kernel.Base.Word.{s64, u64, to_u64}
use virtual_time_kernel.Timespec.{
  Timespec, nsec_per_sec, timespec_valid, timespec_valid_strict, set_normalized_timespec, carry_up,
  carry_down,
}
use virtual_time_kernel.Ktime.{timespec_to_ktime, ktime_set}
use virtual_time_kernel.Timekeeper.{
  negated, Clocksource, Timekeeper, Timekeeping, Ntp, cycle_delta, do_settimeofday,
  tk_normalize_xtime,
}
use virtual_time_kernel.Timekeeper.Read.{getnstimeofday_raw}
use virtual_time_kernel.Timekeeper.Accumulate.{update_wall_time}
use virtual_time_kernel.Timekeeper.Suspend.{timekeeping_init, no_time, timekeeping_suspend}
use virtual_time_kernel.Timekeeper.Consistent.{IsConsistent}
use virtual_time_kernel.Timekeeper.Runs.{boot, after, settimeofday, suspend, reachable-IsConsistent}
use virtual_time_kernel.Timekeeper.Advance.{tk_normalize_xtime_lem}
use virtual_time_kernel.Timekeeper.Update.{update_wall_time_lem}
use virtual_time_kernel.Timekeeper.Setting.{getnstimeofday-do_settimeofday}
use virtual_time_kernel.Tests.Samples.{math64}
use native.Mathlib.Nat.{pow-suc}

-- The logarithm rounded down, of a number up to the fuel.
log2 : ℕ → ℕ → ℕ
log2 zero n = 0
log2 (suc fuel) n = let rest = log2 fuel (n / 2) in if ltb n 2 then 0 else rest + 1

log2_bounds : (fuel n : ℕ) → 0 < n → n ≤ fuel → (2 ^ log2 fuel n ≤ n) × (n < 2 ^ (log2 fuel n + 1))
unfolding log2
log2_bounds zero n h k = ground arith
log2_bounds (suc fuel) n h k = elim (Bool-cases (ltb n 2)) [
  | inl e ↦ rw (e) (omega arith, ground arith)
  | inr e ↦
      let half : 2 ≤ n = ground arith in
      let (lo, hi) = log2_bounds fuel (n / 2) (omega arith) (omega arith) in
      let r = log2 fuel (n / 2) in
      let up : 2 ^ (r + 1) ≡ 2 ^ r * 2 = ap (λ k. 2 ^ k) (omega arith) ∙ pow-suc 2 r in
      let more : 2 ^ (r + 1 + 1) ≡ 2 ^ (r + 1) * 2 =
        ap (λ k. 2 ^ k) (omega arith) ∙ pow-suc 2 (r + 1) in
      rw (e) (omega arith, omega arith)
]

abbrev ntp : Ntp
ntp = record {
  cyc2ns = λ cycles mult shift. pos (cycles * mult / 2 ^ shift);
  second_overflow = λ sec. pos 0;
  tick_length = 2 ^ 52;
  scale_shift = 32;
  shift_hz = 10;
  interval_length = 1_000_000;
  ilog2 = λ n. log2 n n;
  ilog2-le = λ n h. (log2_bounds n n h (omega arith)).0;
  ilog2-lt = λ n h. (log2_bounds n n h (omega arith)).1;
}

abbrev counter : Clocksource
counter = record {
  mult = 256;
  shift = 8;
  mask = 2 ^ 32 - 1;
  cycle_last = 0;
  maxadj = 11;
  max_idle_ns = 1_000_000_000;
  suspend_nonstop = false;
  valid_for_hres = true;
}

abbrev empty : Timekeeper
empty = record {
  mult = 256;
  shift = 8;
  cycle_interval = 1_000_000;
  cycle_last = 0;
  xtime_interval = 256_000_000;
  xtime_remainder = pos 0;
  raw_interval = 1_000_000;
  xtime_sec = 100;
  xtime_nsec = 0;
  ntp_error = pos 0;
  ntp_error_shift = 24;
  wall_to_monotonic = no_time;
  offs_real = pos 0;
  total_sleep_time = no_time;
  offs_boot = pos 0;
  raw_time = no_time;
  tai_offset = pos 0;
  offs_tai = pos 0;
}

abbrev running : Timekeeping
running = record {
  tk = empty;
  shadow = empty;
  clock = counter;
  suspended = false;
  persistent_clock_exist = false;
  suspend_time = no_time;
  old_delta = no_time;
}

abbrev noon : Timespec
noon = record { tv_sec = pos 43200; tv_nsec = pos 500 }

booted : Timekeeping
booted = timekeeping_init math64 ntp running counter 7 noon no_time

set : Timekeeping
set = (do_settimeofday math64 ntp booted 2000 noon).0

stopped : Timekeeping
stopped = timekeeping_suspend math64 ntp set 5000 noon

reachable-IsConsistent_example : IsConsistent stopped
unfolding booted set stopped
reachable-IsConsistent_example = reachable-IsConsistent math64 ntp stopped (
    after {v = set}
      (after {v = booted} (boot running counter 7 noon no_time) (settimeofday 2000 noon))
      (suspend 5000 noon))

running-IsConsistent : IsConsistent running
unfolding timespec_to_ktime negated set_normalized_timespec carry_up carry_down ktime_set s64 to_u64
    ◌-ℤ◌ ◌+ℤ◌ ◌*ℤ◌
running-IsConsistent = (refl, refl, (refl, refl, refl))

update_wall_time_example :
    (left : ℕ) × (left < (update_wall_time math64 ntp running 2_500_000).tk.cycle_interval)
    × (u64 ((update_wall_time math64 ntp running 2_500_000).clock.cycle_last + left)
        ≡ u64 (0 + cycle_delta counter 2_500_000))
update_wall_time_example =
    update_wall_time_lem math64 ntp running 2_500_000 running-IsConsistent refl (omega arith)

noon_valid : timespec_valid_strict noon ≡ true
unfolding timespec_valid_strict timespec_valid to_u64
noon_valid = refl

getnstimeofday-do_settimeofday_example :
    let r = do_settimeofday math64 ntp running 2000 noon in
    (r.1 ≡ pos 0) × ((getnstimeofday_raw math64 r.0 2000).0 ≡ noon)
getnstimeofday-do_settimeofday_example =
    getnstimeofday-do_settimeofday math64 ntp running 2000 noon (omega arith, omega arith)
      (omega arith, omega arith) noon_valid (omega arith) (omega arith)

-- Three and a half seconds of nanoseconds, shifted by 8.
abbrev full : Timekeeper
full = record empty { xtime_nsec = 896_000_000_000 }

tk_normalize_xtime_example : tk_normalize_xtime full ≡ record full {
  xtime_sec = 100 + 896_000_000_000 / (nsec_per_sec * 2 ^ 8);
  xtime_nsec = 896_000_000_000 % (nsec_per_sec * 2 ^ 8);
}
tk_normalize_xtime_example = tk_normalize_xtime_lem full (omega arith) (omega arith)
