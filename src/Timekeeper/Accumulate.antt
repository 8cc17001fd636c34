-- ===== src/Timekeeper/Accumulate.antt =====
-- kernel/time/timekeeping.c: the update of the wall clock from the counter, and the adjustment of its
-- multiplier.
use virtual_time_kernel.Base.{
  ℕ, zero, suc, ◌+◌, ◌-◌, ◌*◌, ◌/◌, ◌^◌, Bool, false, not, ◌||◌, leb, ltb, ◌==◌, if◌then◌else◌,
}
use virtual_time_kernel.Base.Int.{
  ℤ, pos, negsuc, pos_part, neg_part, ◌+ℤ◌, ◌-ℤ◌, ◌*ℤ◌, ltb_ℤ, eqb_ℤ,
}
use virtual_time_kernel.Base.Word.{s64, s32, u32, u64, to_u64}
use virtual_time_kernel.Math64.{Math64}
use virtual_time_kernel.Timespec.{Timespec, nsec_per_sec, timespec_sub}
use virtual_time_kernel.Timekeeper.{
  Timekeeper, Timekeeping, Ntp, cycle_delta, sar, shifted_second, tk_set_wall_to_mono,
  set_tai_offset, timekeeping_update,
}

-- Halves twice until nothing is left, and counts.
unfoldable pub look_ahead_of : ℕ → ℕ → ℕ → ℕ
look_ahead_of zero error2 n = n
look_ahead_of (suc fuel) error2 n =
    let rest = look_ahead_of fuel (error2 / 4) (n + 1) in if error2 == 0 then n else rest

-- Halves until the error is at most `i`, and counts.
unfoldable pub adj_of : ℕ → ℕ → ℤ → ℕ → ℕ
adj_of zero error i adj = adj
adj_of (suc fuel) error i adj =
    let rest = adj_of fuel (error / 2) i (adj + 1) in if ltb_ℤ i (pos error) then rest else adj

-- What an adjustment adds to the multiplier, and the scaled interval and offset.
pub record Adjustment : Type 0 where
  pub adj : ℤ
  pub interval : ℤ
  pub offset : ℤ

module _ (ntp : Ntp) where
  unfoldable pub timekeeping_bigadjust : Timekeeper → ℤ → ℤ → ℤ → Adjustment
  unfolding look_ahead_of adj_of
  timekeeping_bigadjust tk error interval offset =
      let error2 = s32 (sar tk.ntp_error (ntp.scale_shift + 22 - 2 * ntp.shift_hz)) in
      let look_ahead =
        look_ahead_of 32 (pos_part (s32 (pos (pos_part error2 + neg_part error2)))) 0 in
      let tick_error =
        s64 (pos (ntp.tick_length / 2 ^ (tk.ntp_error_shift + 1)) -ℤ pos (tk.xtime_interval / 2)) in
      let error' = s64 (sar (s64 (error -ℤ tick_error)) look_ahead +ℤ tick_error) in
      let adj = adj_of 64 (pos_part (s64 (pos (pos_part error' + neg_part error')))) interval 0 in
      if ltb_ℤ error' (pos 0)
      then record {
        adj = s32 (pos 0 -ℤ pos (2 ^ adj));
        interval = s64 (s64 (pos 0 -ℤ interval) *ℤ pos (2 ^ adj));
        offset = s64 (s64 (pos 0 -ℤ offset) *ℤ pos (2 ^ adj));
      }
      else record {
        adj = s32 (pos (2 ^ adj));
        interval = s64 (interval *ℤ pos (2 ^ adj));
        offset = s64 (offset *ℤ pos (2 ^ adj));
      }

  abbrev pub apply_adjustment : Timekeeper → Adjustment → Timekeeper
  apply_adjustment tk a = record tk {
    mult = u32 (to_u64 (s64 (pos tk.mult +ℤ a.adj)));
    xtime_interval = to_u64 (s64 (pos tk.xtime_interval +ℤ a.interval));
    xtime_nsec = to_u64 (s64 (pos tk.xtime_nsec -ℤ a.offset));
    ntp_error =
        s64 (tk.ntp_error -ℤ s64 (s64 (a.interval -ℤ a.offset) *ℤ pos (2 ^ tk.ntp_error_shift)));
  }

  -- What is left of the nanoseconds if they went below 0 goes to the error.
  unfoldable pub push_underflow : Timekeeper → Timekeeper
  push_underflow tk =
      let nsec = s64 (pos tk.xtime_nsec) in
      if ltb_ℤ nsec (pos 0)
      then record tk {
        xtime_nsec = 0;
        ntp_error = s64 (tk.ntp_error +ℤ s64 (s64 (pos 0 -ℤ nsec) *ℤ pos (2 ^ tk.ntp_error_shift)));
      }
      else tk

  -- The timekeeper under the multiplier that the error asks for.
  unfoldable pub adjusted : Timekeeper → ℕ → Timekeeper
  unfolding timekeeping_bigadjust
  adjusted tk cycles =
      let interval = s64 (pos tk.cycle_interval) in
      let offset = s64 (pos cycles) in
      let error = sar tk.ntp_error (tk.ntp_error_shift - 1) in
      let quarter = sar error 2 in
      let big = timekeeping_bigadjust tk quarter interval offset in
      let down = s64 (pos 0 -ℤ interval) in
      if ltb_ℤ interval error
      then (if ltb_ℤ interval quarter
          then apply_adjustment tk big
          else apply_adjustment tk (record { adj = pos 1; interval = interval; offset = offset }))
      else if ltb_ℤ error down
      then (if ltb_ℤ quarter down
          then apply_adjustment tk big
          else apply_adjustment tk
              (record { adj = negsuc 0; interval = down; offset = s64 (pos 0 -ℤ offset) }))
      else tk

  unfoldable pub timekeeping_adjust : Timekeeper → ℕ → Timekeeper
  unfolding adjusted push_underflow
  timekeeping_adjust tk cycles = push_underflow (adjusted tk cycles)

  -- A leap second moves the wall clock, and the other clocks by as much the other way.
  unfoldable pub apply_leap : Timekeeper → ℤ → Timekeeper
  unfolding tk_set_wall_to_mono set_tai_offset timespec_sub to_u64
  apply_leap tk leap =
      let moved : Timekeeper = record tk { xtime_sec = to_u64 (s64 (pos tk.xtime_sec +ℤ leap)) } in
      let ts : Timespec = record { tv_sec = leap; tv_nsec = pos 0 } in
      set_tai_offset (tk_set_wall_to_mono moved (timespec_sub moved.wall_to_monotonic ts))
        (s32 (tk.tai_offset -ℤ leap))

  -- The loop of accumulate_nsecs_to_secs, on fuel; the flag is set by a leap second.
  unfoldable pub accumulate_secs : ℕ → Timekeeper → Bool → Timekeeper × Bool
  unfolding apply_leap
  accumulate_secs zero tk set = (tk, set)
  accumulate_secs (suc fuel) tk set =
      let ticked : Timekeeper = record tk {
        xtime_nsec = tk.xtime_nsec - shifted_second tk.shift;
        xtime_sec = u64 (tk.xtime_sec + 1);
      } in
      let leap = ntp.second_overflow ticked.xtime_sec in
      let quiet = eqb_ℤ leap (pos 0) in
      let rest =
        accumulate_secs fuel (if quiet then ticked else apply_leap ticked leap)
          (set || not quiet) in
      if ltb tk.xtime_nsec (shifted_second tk.shift) then (tk, set) else rest

  unfoldable pub accumulate_nsecs_to_secs : Timekeeper → Bool → Timekeeper × Bool
  unfolding accumulate_secs
  accumulate_nsecs_to_secs tk set = accumulate_secs (tk.xtime_nsec / shifted_second tk.shift) tk set

module _ (m : Math64) (ntp : Ntp) where
  open m use {do_div}

  -- The raw clock after `nsecs` more.
  abbrev pub raw_add : Timespec → ℕ → Timespec
  raw_add raw nsecs =
      let raw_nsecs = u64 (nsecs + to_u64 raw.tv_nsec) in
      let (q, r) = do_div raw_nsecs nsec_per_sec in
      if leb nsec_per_sec raw_nsecs
      then record { tv_sec = s64 (raw.tv_sec +ℤ pos q); tv_nsec = s64 (pos r) }
      else record raw { tv_nsec = s64 (pos raw_nsecs) }

  -- The error between NTP and the clock after 2 ^ shift intervals.
  abbrev pub error_after : Timekeeper → ℕ → ℤ
  error_after tk shift =
      let gained = s64 (tk.ntp_error +ℤ pos (u64 (ntp.tick_length * 2 ^ shift))) in
      let spent = u64 (
        to_u64 (s64 (pos tk.xtime_interval +ℤ tk.xtime_remainder))
        * 2 ^ (tk.ntp_error_shift + shift)) in
      s64 (gained -ℤ pos spent)

  -- The timekeeper, the cycles that are left and the flag.
  unfoldable pub logarithmic_accumulation : Timekeeper → ℕ → ℕ → Bool → Timekeeper × ℕ × Bool
  unfolding accumulate_nsecs_to_secs to_u64
  logarithmic_accumulation tk offset shift set =
      let interval = u64 (tk.cycle_interval * 2 ^ shift) in
      let moved : Timekeeper = record tk {
        cycle_last = u64 (tk.cycle_last + interval);
        xtime_nsec = u64 (tk.xtime_nsec + u64 (tk.xtime_interval * 2 ^ shift));
      } in
      let (tk', set') = accumulate_nsecs_to_secs ntp moved set in
      if ltb offset interval then (tk, offset, set) else (
        record tk' {
          raw_time = raw_add tk'.raw_time (u64 (tk'.raw_interval * 2 ^ shift));
          ntp_error = error_after tk' shift;
        },
        offset - interval,
        set',
      )

  -- The loop of update_wall_time, on fuel.
  unfoldable pub accumulate : ℕ → Timekeeper → ℕ → ℕ → Bool → Timekeeper × ℕ × Bool
  unfolding logarithmic_accumulation
  accumulate zero tk offset shift set = (tk, offset, set)
  accumulate (suc fuel) tk offset shift set =
      let (tk', offset', set') = logarithmic_accumulation tk offset shift set in
      let shift' =
        if ltb offset' (u64 (tk'.cycle_interval * 2 ^ shift)) then shift - 1 else shift in
      let rest = accumulate fuel tk' offset' shift' set' in
      if ltb offset tk.cycle_interval then (tk, offset, set) else rest

  -- The largest doubling of an interval that the loop starts with.
  abbrev pub first_shift : ℕ → ℕ → ℕ
  first_shift offset interval =
      let shift = ntp.ilog2 offset - ntp.ilog2 interval in
      let maxshift = 64 - (ntp.ilog2 ntp.tick_length + 1) - 1 in
      if ltb shift maxshift then shift else maxshift

  unfoldable pub update_wall_time : Timekeeping → ℕ → Timekeeping
  unfolding accumulate timekeeping_adjust accumulate_nsecs_to_secs timekeeping_update
  update_wall_time w cycle_now =
      let offset = cycle_delta w.clock cycle_now in
      let shift = first_shift offset w.shadow.cycle_interval in
      let (tk₁, left, set₁) = accumulate (offset + shift + 1) w.shadow offset shift false in
      let (tk₂, set₂) = accumulate_nsecs_to_secs ntp (timekeeping_adjust ntp tk₁ left) set₁ in
      if w.suspended
      then w
      else if ltb offset w.tk.cycle_interval
      then w
      else timekeeping_update
          (record w {
            clock = record w.clock { cycle_last = tk₂.cycle_last };
            tk = tk₂;
            shadow = tk₂;
          })
          (record { clear_ntp = false; mirror = false })
