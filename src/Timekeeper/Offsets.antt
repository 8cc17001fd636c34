-- ===== src/Timekeeper/Offsets.antt =====
-- kernel/time/timekeeping.c: the offsets of the other clocks, which the file stores twice: as times and
-- as counts of nanoseconds.
use virtual_time_kernel.Base.{
  ℕ, zero, suc, ◌-◌, ◌≡◌, refl, Bool, ltb, Bool-cases, inl, inr, if_both, ◌*◌, ◌^◌, ◌+◌,
}
use virtual_time_kernel.Base.Int.{ℤ}
use virtual_time_kernel.Base.Word.{u64}
use virtual_time_kernel.Math64.{Math64}
use virtual_time_kernel.Timespec.{Timespec, timespec_valid_strict}
use virtual_time_kernel.Ktime.{ktime_set, ktime_add, timespec_to_ktime}
use virtual_time_kernel.Timekeeper.{
  Timekeeper, Ntp, negated, tk_xtime_add, tk_normalize_xtime, tk_set_wall_to_mono,
  tk_set_sleep_time, set_tai_offset, inject_sleeptime,
}
use virtual_time_kernel.Timekeeper.Kept.{
  IsKept, timekeeping_adjust-IsKept, accumulate_nsecs_to_secs-IsKept,
}
use virtual_time_kernel.Timekeeper.Accumulate.{
  timekeeping_adjust, apply_leap, raw_add, error_after, accumulate_nsecs_to_secs,
  logarithmic_accumulation, accumulate,
}

-- The three counts say what the times say.
abbrev pub HasOffsets : Timekeeper → Type 0
HasOffsets tk =
    (tk.offs_real ≡ timespec_to_ktime (negated tk.wall_to_monotonic))
    × (tk.offs_tai ≡ ktime_add tk.offs_real (ktime_set tk.tai_offset 0))
    × (tk.offs_boot ≡ timespec_to_ktime tk.total_sleep_time)

pub tk_set_wall_to_mono-HasOffsets :
    (tk : Timekeeper) (wtm : Timespec)
    → tk.offs_boot ≡ timespec_to_ktime tk.total_sleep_time
    → HasOffsets (tk_set_wall_to_mono tk wtm)
unfolding tk_set_wall_to_mono
tk_set_wall_to_mono-HasOffsets tk wtm h = (refl, refl, h)

pub set_tai_offset-HasOffsets :
    (tk : Timekeeper) (tai : ℤ) → HasOffsets tk → HasOffsets (set_tai_offset tk tai)
unfolding set_tai_offset
set_tai_offset-HasOffsets tk tai (h₁, h₂, h₃) = (h₁, refl, h₃)

pub tk_xtime_add-HasOffsets :
    (tk : Timekeeper) (ts : Timespec) → HasOffsets tk → HasOffsets (tk_xtime_add tk ts)
unfolding tk_xtime_add tk_normalize_xtime
tk_xtime_add-HasOffsets tk ts h = h

pub inject_sleeptime-HasOffsets :
    (m : Math64) (ntp : Ntp) (tk : Timekeeper) (delta : Timespec)
    → HasOffsets tk
    → HasOffsets (inject_sleeptime m ntp tk delta)
unfolding inject_sleeptime tk_set_sleep_time tk_set_wall_to_mono
inject_sleeptime-HasOffsets m ntp tk delta h = elim (Bool-cases (timespec_valid_strict delta)) [
  | inl e ↦ rw (e) (refl, refl, refl)
  | inr e ↦ rw (e) h
]

module _ (ntp : Ntp) where
  HasOffsets-IsKept : IsKept ntp HasOffsets
  unfolding apply_leap set_tai_offset tk_set_wall_to_mono
  HasOffsets-IsKept = record {
    on_time = λ tk sec nsec h. h;
    on_leap = λ tk leap h. (refl, refl, h.2);
    on_adjust = λ tk mult interval nsec error h. h;
  }

  pub timekeeping_adjust-HasOffsets :
      (tk : Timekeeper) (cycles : ℕ) → HasOffsets tk → HasOffsets (timekeeping_adjust ntp tk cycles)
  timekeeping_adjust-HasOffsets = timekeeping_adjust-IsKept ntp HasOffsets HasOffsets-IsKept

  pub accumulate_nsecs_to_secs-HasOffsets :
      (tk : Timekeeper) (set : Bool)
      → HasOffsets tk
      → HasOffsets (accumulate_nsecs_to_secs ntp tk set).0
  accumulate_nsecs_to_secs-HasOffsets =
      accumulate_nsecs_to_secs-IsKept ntp HasOffsets HasOffsets-IsKept

module _ (m : Math64) (ntp : Ntp) where
  logarithmic_accumulation-HasOffsets :
      (tk : Timekeeper) (offset shift : ℕ) (set : Bool)
      → HasOffsets tk
      → HasOffsets (logarithmic_accumulation m ntp tk offset shift set).0
  unfolding logarithmic_accumulation
  logarithmic_accumulation-HasOffsets tk offset shift set h =
      let interval = u64 (tk.cycle_interval * 2 ^ shift) in
      let moved : Timekeeper = record tk {
        cycle_last = u64 (tk.cycle_last + interval);
        xtime_nsec = u64 (tk.xtime_nsec + u64 (tk.xtime_interval * 2 ^ shift));
      } in
      if_both {A = Timekeeper × ℕ × Bool} (λ r. HasOffsets r.0) (ltb offset interval) _
        (
          record (accumulate_nsecs_to_secs ntp moved set).0 {
            raw_time =
                raw_add m ntp (accumulate_nsecs_to_secs ntp moved set).0.raw_time
                  (u64 ((accumulate_nsecs_to_secs ntp moved set).0.raw_interval * 2 ^ shift));
            ntp_error = error_after m ntp (accumulate_nsecs_to_secs ntp moved set).0 shift;
          },
          offset - interval,
          (accumulate_nsecs_to_secs ntp moved set).1,
        )
        h (accumulate_nsecs_to_secs-HasOffsets ntp moved set h)

  pub accumulate-HasOffsets :
      (fuel : ℕ) (tk : Timekeeper) (offset shift : ℕ) (set : Bool)
      → HasOffsets tk
      → HasOffsets (accumulate m ntp fuel tk offset shift set).0
  unfolding accumulate
  accumulate-HasOffsets zero tk offset shift set h = h
  accumulate-HasOffsets (suc fuel) tk offset shift set h =
      if_both {A = Timekeeper × ℕ × Bool} (λ r. HasOffsets r.0) (ltb offset tk.cycle_interval) _ _ h
        (accumulate-HasOffsets fuel _ _ _ _
          (logarithmic_accumulation-HasOffsets tk offset shift set h))
