-- ===== src/Timekeeper/Suspend.antt =====
-- kernel/time/timekeeping.c: the clock at boot, across a suspend, under a new clocksource and under
-- adjtimex. What the persistent clock and the boot clock read is an argument, and so is what the NTP
-- code returns; enabling and stopping devices is outside the model.
use virtual_time_kernel.Base.{
  ℕ, ◌+◌, ◌-◌, ◌*◌, ◌/◌, ◌^◌, Bool, true, false, not, ◌&&◌, ◌||◌, ltb, ◌==◌, if◌then◌else◌, Option,
  none, some,
}
use virtual_time_kernel.Base.Int.{ℤ, pos, ◌+ℤ◌, ◌-ℤ◌, ◌*ℤ◌, ltb_ℤ, eqb_ℤ}
use virtual_time_kernel.Base.Word.{s64, u64}
use virtual_time_kernel.Math64.{Math64}
use virtual_time_kernel.Timespec.{
  Timespec, timespec_add, timespec_sub, timespec_valid_strict, timespec_compare, ns_to_timespec,
}
use virtual_time_kernel.Jiffies.{Timeval}
use virtual_time_kernel.Task.{Task}
use virtual_time_kernel.Timekeeper.{
  Clocksource, Timekeeper, Timekeeping, Ntp, cycle_delta, negated, tk_xtime, tk_set_xtime,
  tk_set_wall_to_mono, tk_set_sleep_time, set_tai_offset, timekeeping_update,
  timekeeping_forward_now, timekeeping_inject_offset, inject_sleeptime, was_set,
}
use virtual_time_kernel.Timekeeper.Read.{realtime_clock}

abbrev pub no_time : Timespec
no_time = record { tv_sec = pos 0; tv_nsec = pos 0 }

abbrev pub is_no_time : Timespec → Bool
is_no_time ts = eqb_ℤ ts.tv_sec (pos 0) && eqb_ℤ ts.tv_nsec (pos 0)

-- What a device says, if it is valid.
unfoldable pub valid_or_none : Timespec → Timespec
unfolding timespec_valid_strict
valid_or_none ts = if timespec_valid_strict ts then ts else no_time

-- abs, of a long
abbrev pub abs : ℤ → ℤ
abs x = if ltb_ℤ x (pos 0) then s64 (pos 0 -ℤ x) else x

module _ (m : Math64) (ntp : Ntp) where
  open m use {do_div, div64_u64}

  -- The cycles of an NTP interval under a clocksource.
  abbrev pub interval_cycles : Clocksource → ℕ
  interval_cycles new =
      let (cycles, _) =
        do_div (u64 (u64 (ntp.interval_length * 2 ^ new.shift) + new.mult / 2)) new.mult in
      if cycles == 0 then 1 else cycles

  -- `had_clock` tells whether another clocksource was in use.
  unfoldable pub tk_setup_internals : Timekeeping → Bool → Clocksource → ℕ → Timekeeping
  tk_setup_internals w had_clock new cycle_now =
      let tk = w.tk in
      let interval = interval_cycles new in
      let ntpinterval = u64 (ntp.interval_length * 2 ^ new.shift) in
      let xtime_interval = u64 (interval * new.mult) in
      let nsec =
        if ltb new.shift w.clock.shift
        then tk.xtime_nsec / 2 ^ (w.clock.shift - new.shift)
        else u64 (tk.xtime_nsec * 2 ^ (new.shift - w.clock.shift)) in
      record w {
        clock = record new { cycle_last = cycle_now };
        tk = record tk {
          cycle_last = cycle_now;
          cycle_interval = interval;
          xtime_interval = xtime_interval;
          xtime_remainder = s64 (pos ntpinterval -ℤ pos xtime_interval);
          raw_interval = xtime_interval / 2 ^ new.shift;
          xtime_nsec = if had_clock then nsec else tk.xtime_nsec;
          shift = new.shift;
          ntp_error = pos 0;
          ntp_error_shift = ntp.scale_shift - new.shift;
          mult = new.mult;
        };
      }

  -- `enabled` tells whether the new clocksource could be taken and enabled; `new_now` is its reading.
  unfoldable pub change_clocksource : Timekeeping → ℕ → Clocksource → Bool → ℕ → Timekeeping
  unfolding timekeeping_forward_now tk_setup_internals timekeeping_update
  change_clocksource w cycle_now new enabled new_now =
      let w₁ = timekeeping_forward_now m ntp w cycle_now in
      timekeeping_update (if enabled then tk_setup_internals w₁ true new new_now else w₁)
        (was_set m ntp)

  unfoldable pub timekeeping_init :
      Timekeeping → Clocksource → ℕ → Timespec → Timespec → Timekeeping
  unfolding tk_setup_internals tk_set_xtime tk_set_wall_to_mono tk_set_sleep_time tk_xtime negated
      valid_or_none
  timekeeping_init w clock cycle_now persistent boot_clock =
      let now = valid_or_none persistent in
      let boot = valid_or_none boot_clock in
      let w₁ = tk_setup_internals w false clock cycle_now in
      let tk₁ : Timekeeper = record (tk_set_xtime w₁.tk now) { raw_time = no_time } in
      let start = if is_no_time boot then tk_xtime tk₁ else boot in
      let tk₂ = tk_set_sleep_time (tk_set_wall_to_mono tk₁ (negated start)) no_time in
      record w₁ {
        tk = tk₂;
        shadow = tk₂;
        persistent_clock_exist = w.persistent_clock_exist || not (is_no_time now);
      }

  -- The nanoseconds of a suspend by a clocksource that went on counting.
  unfoldable pub nonstop_ns : Clocksource → ℕ → ℤ
  nonstop_ns clock cycle_now =
      let delta = cycle_delta clock cycle_now in
      let (max, _) = do_div (2 ^ 64 - 1) clock.mult in
      let num = div64_u64 delta max in
      let nsec = s64 (pos (u64 (u64 (max * clock.mult) / 2 ^ clock.shift * num))) in
      if ltb max delta
      then s64 (
          nsec
          +ℤ pos (u64 (u64 (delta + (2 ^ 64 - u64 (num * max))) * clock.mult) / 2 ^ clock.shift))
      else s64 (pos (u64 (delta * clock.mult) / 2 ^ clock.shift))

  -- The time that a suspend took, where one of the two clocks tells it.
  unfoldable pub suspended_for : Timekeeping → ℕ → Timespec → Option Timespec
  unfolding nonstop_ns timespec_compare timespec_sub
  suspended_for w cycle_now persistent =
      if w.clock.suspend_nonstop && ltb w.clock.cycle_last cycle_now
      then some (ns_to_timespec m (nonstop_ns w.clock cycle_now))
      else if ltb_ℤ (pos 0) (timespec_compare persistent w.suspend_time)
      then some (timespec_sub persistent w.suspend_time)
      else none

  abbrev pub add_sleep : Timekeeper → Option Timespec → Timekeeper
  add_sleep tk none = tk
  add_sleep tk (some delta) = inject_sleeptime m ntp tk delta

  unfoldable pub timekeeping_resume : Timekeeping → ℕ → Timespec → Timekeeping
  unfolding suspended_for timekeeping_update
  timekeeping_resume w cycle_now persistent =
      let tk : Timekeeper = record (add_sleep w.tk (suspended_for w cycle_now persistent)) {
        cycle_last = cycle_now;
        ntp_error = pos 0;
      } in
      timekeeping_update
        (record w { tk = tk; clock = record w.clock { cycle_last = cycle_now }; suspended = false })
        (record { clear_ntp = false; mirror = true })

  unfoldable pub timekeeping_suspend : Timekeeping → ℕ → Timespec → Timekeeping
  unfolding timekeeping_forward_now timekeeping_update timespec_sub timespec_add tk_xtime
  timekeeping_suspend w cycle_now persistent =
      let w₁ = timekeeping_forward_now m ntp w cycle_now in
      let delta = timespec_sub (tk_xtime w₁.tk) persistent in
      let delta_delta = timespec_sub delta w.old_delta in
      let corrected = not (ltb_ℤ (abs delta_delta.tv_sec) (pos 2)) in
      timekeeping_update
        (record w₁ {
          suspended = true;
          persistent_clock_exist = w.persistent_clock_exist || not (is_no_time persistent);
          old_delta = if corrected then delta else w.old_delta;
          suspend_time = if corrected then persistent else timespec_add persistent delta_delta;
        })
        (record { clear_ntp = false; mirror = true })

  -- What adjtimex asks for: a jump of the clock, if any, and the NTP code over the time that
  -- getnstimeofday tells the caller.
  pub record Adjtimex : Type 0 where
    pub validate : ℤ
    pub setoffset : Bool
    pub nano : Bool
    pub time : Timeval
    pub adjust : Timespec → ℤ → ℤ × ℤ

  abbrev pub adjust_tai : Timekeeping → ℤ → Timekeeping
  adjust_tai w tai =
      if eqb_ℤ tai w.tk.tai_offset
      then w
      else timekeeping_update (record w { tk = set_tai_offset w.tk tai })
          (record { clear_ntp = false; mirror = true })

  -- The jump of ADJ_SETOFFSET, in microseconds unless ADJ_NANO is set.
  unfoldable pub jump : Timekeeping → ℕ → Adjtimex → Timekeeping × ℤ
  unfolding timekeeping_inject_offset
  jump w cycle_now txc =
      let delta : Timespec = record {
        tv_sec = txc.time.tv_sec;
        tv_nsec = if txc.nano then txc.time.tv_usec else s64 (txc.time.tv_usec *ℤ pos 1000);
      } in
      if txc.setoffset then timekeeping_inject_offset m ntp w cycle_now delta else (w, pos 0)

  unfoldable pub do_adjtimex : Task → Timekeeping → ℕ → ℕ → Adjtimex → Task × Timekeeping × ℤ
  unfolding realtime_clock jump
  do_adjtimex t w cycle_now cycle_then txc =
      let (w₁, ret) = jump w cycle_now txc in
      let (t₁, ts) = realtime_clock m t w₁ cycle_then in
      let (result, tai) = txc.adjust ts w₁.tk.tai_offset in
      if not (eqb_ℤ txc.validate (pos 0))
      then (t, w, txc.validate)
      else if not (eqb_ℤ ret (pos 0))
      then (t, w₁, ret)
      else (t₁, adjust_tai w₁ tai, result)
