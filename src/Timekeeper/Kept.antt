-- ===== src/Timekeeper/Kept.antt =====
-- kernel/time/timekeeping.c: what the update of the wall clock leaves as it is. A property that the two
-- kinds of change keep, a second that is full and a new multiplier, survives the whole update.
use virtual_time_kernel.Base.{ℕ, zero, suc, ◌-◌, ◌+◌, Bool, ltb, if_both, if◌then◌else◌}
use virtual_time_kernel.Base.Int.{ℤ, pos, negsuc, ◌-ℤ◌, eqb_ℤ, ltb_ℤ}
use virtual_time_kernel.Base.Word.{s64, u64}
use virtual_time_kernel.Timekeeper.{Timekeeper, Ntp, shifted_second, sar}
use virtual_time_kernel.Timekeeper.Accumulate.{
  Adjustment, timekeeping_bigadjust, apply_adjustment, push_underflow, adjusted, timekeeping_adjust,
  apply_leap, accumulate_secs, accumulate_nsecs_to_secs,
}

-- Kept by the fields that a full second and a new multiplier write.
pub record IsKept (ntp : Ntp) (P : Timekeeper → Type 0) : Type 0 where
  pub on_time :
      (tk : Timekeeper) (sec nsec : ℕ) → P tk → P (record tk { xtime_sec = sec; xtime_nsec = nsec })
  pub on_leap : (tk : Timekeeper) (leap : ℤ) → P tk → P (apply_leap ntp tk leap)
  pub on_adjust :
      (tk : Timekeeper) (mult interval nsec : ℕ) (error : ℤ)
      → P tk
      → P (record tk {
        mult = mult;
        xtime_interval = interval;
        xtime_nsec = nsec;
        ntp_error = error;
      })

module _ (ntp : Ntp) (P : Timekeeper → Type 0) (kept : IsKept ntp P) where
  pub accumulate_secs-IsKept :
      (fuel : ℕ) (tk : Timekeeper) (set : Bool) → P tk → P (accumulate_secs ntp fuel tk set).0
  unfolding accumulate_secs
  accumulate_secs-IsKept zero tk set h = h
  accumulate_secs-IsKept (suc fuel) tk set h =
      let sec = u64 (tk.xtime_sec + 1) in
      let ticked : Timekeeper = record tk {
        xtime_nsec = tk.xtime_nsec - shifted_second tk.shift;
        xtime_sec = sec;
      } in
      let h' = kept.on_time tk sec (tk.xtime_nsec - shifted_second tk.shift) h in
      let leap = ntp.second_overflow sec in
      if_both {A = Timekeeper × Bool} (λ r. P r.0) (ltb tk.xtime_nsec (shifted_second tk.shift)) _ _
        h
        (accumulate_secs-IsKept fuel _ _ (
          if_both P (eqb_ℤ leap (pos 0)) ticked (apply_leap ntp ticked leap) h'
            (kept.on_leap ticked leap h')))

  pub accumulate_nsecs_to_secs-IsKept :
      (tk : Timekeeper) (set : Bool) → P tk → P (accumulate_nsecs_to_secs ntp tk set).0
  unfolding accumulate_nsecs_to_secs
  accumulate_nsecs_to_secs-IsKept tk set = accumulate_secs-IsKept _ tk set

  apply_adjustment-IsKept :
      (tk : Timekeeper) (a : Adjustment) → P tk → P (apply_adjustment ntp tk a)
  apply_adjustment-IsKept tk a h = kept.on_adjust tk _ _ _ _ h

  push_underflow-IsKept : (tk : Timekeeper) → P tk → P (push_underflow ntp tk)
  unfolding push_underflow
  push_underflow-IsKept tk h =
      if_both P (ltb_ℤ (s64 (pos tk.xtime_nsec)) (pos 0)) _ _
        (kept.on_adjust tk tk.mult tk.xtime_interval 0 _ h) h

  adjusted-IsKept : (tk : Timekeeper) (cycles : ℕ) → P tk → P (adjusted ntp tk cycles)
  unfolding adjusted
  adjusted-IsKept tk cycles h =
      let interval = s64 (pos tk.cycle_interval) in
      let down = s64 (pos 0 -ℤ interval) in
      let offset = s64 (pos cycles) in
      let error = sar tk.ntp_error (tk.ntp_error_shift - 1) in
      let quarter = sar error 2 in
      let by = λ (a : Adjustment). apply_adjustment ntp tk a in
      let by-IsKept = λ (a : Adjustment). apply_adjustment-IsKept tk a h in
      let big = timekeeping_bigadjust ntp tk quarter interval offset in
      let up : Adjustment = record { adj = pos 1; interval = interval; offset = offset } in
      let back : Adjustment = record {
        adj = negsuc 0;
        interval = down;
        offset = s64 (pos 0 -ℤ offset);
      } in
      if_both P (ltb_ℤ interval error) (if ltb_ℤ interval quarter then by big else by up)
        (if ltb_ℤ error down then (if ltb_ℤ quarter down then by big else by back) else tk)
        (if_both P (ltb_ℤ interval quarter) (by big) (by up) (by-IsKept big) (by-IsKept up))
        (if_both P (ltb_ℤ error down) (if ltb_ℤ quarter down then by big else by back) tk
          (if_both P (ltb_ℤ quarter down) (by big) (by back) (by-IsKept big) (by-IsKept back)) h)

  pub timekeeping_adjust-IsKept :
      (tk : Timekeeper) (cycles : ℕ) → P tk → P (timekeeping_adjust ntp tk cycles)
  unfolding timekeeping_adjust
  timekeeping_adjust-IsKept tk cycles h =
      push_underflow-IsKept (adjusted ntp tk cycles) (adjusted-IsKept tk cycles h)
