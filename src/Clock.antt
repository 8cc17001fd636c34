-- ===== src/Clock.antt =====
-- kernel/time/timekeeping.c, the virtual clock of one task: what a reading of the clock does to the
-- task's fields, and the time that it reports.
pub mod Range
pub mod Reading
pub mod Advance
pub mod History
use virtual_time_kernel.Base.{◌||◌, if◌then◌else◌}
use virtual_time_kernel.Base.Int.{ℤ, pos, ◌+ℤ◌, ◌-ℤ◌, ◌*ℤ◌, ltb_ℤ, eqb_ℤ}
use virtual_time_kernel.Base.Word.{s64, to_u64}
use virtual_time_kernel.Math64.{Math64}
use virtual_time_kernel.Timespec.{Timespec, timespec_to_ns, ns_to_timespec, timespec_add_ns}
use virtual_time_kernel.Task.{Task}

-- The physical time since the last reading, less the task's frozen time.
unfoldable pub update_physical_past_nsec : Task → Timespec → Task × ℤ
update_physical_past_nsec t ts =
    let now = timespec_to_ns ts in
    let delta₁ = s64 (now -ℤ t.physical_past_nsec) in
    let delta₂ = s64 (delta₁ -ℤ t.physical_start_nsec) in
    let delta_ppn = s64 (delta₂ -ℤ t.freeze_past_nsec) in
    (record t { physical_past_nsec = s64 (t.physical_past_nsec +ℤ delta_ppn) }, delta_ppn)

module _ (m : Math64) where
  open m use {div_s64}

  unfoldable pub update_virtual_past_nsec : Task → ℤ → ℤ → Task
  update_virtual_past_nsec t delta_ppn tdf =
      if ltb_ℤ (pos 100000) tdf
      then t
      else if eqb_ℤ tdf (pos 1000)
      then record t { virtual_past_nsec = s64 (t.virtual_past_nsec +ℤ delta_ppn) }
      else record t {
        virtual_past_nsec = s64 (t.virtual_past_nsec +ℤ div_s64 (s64 (delta_ppn *ℤ pos 1000)) tdf);
      }

  -- The virtual clock of `t`, from its fields.
  abbrev pub virtual_now : Task → ℤ
  virtual_now t = s64 (t.virtual_start_nsec +ℤ t.virtual_past_nsec)

  -- The task as the reading leaves it, and the time that it is told.
  unfoldable pub real_virtual_timekeeping : Task → Timespec → Task × Timespec
  real_virtual_timekeeping t ts =
      let (t₁, delta_ppn) = update_physical_past_nsec t ts in
      let t₂ = update_virtual_past_nsec t₁ delta_ppn t.dilation in
      if eqb_ℤ t.dilation (pos 0) || eqb_ℤ t.virtual_start_nsec (pos 0)
      then (t, ts)
      else (t₂, ns_to_timespec m (virtual_now t₂))

  -- `sec`, `nsec` and `tomono` are what one consistent reading of the timekeeper gives: its
  -- xtime_sec, timekeeping_get_ns and wall_to_monotonic.
  unfoldable pub monotonic_virtual_timekeeping : Task → ℤ → ℤ → Timespec → Task × Timespec
  monotonic_virtual_timekeeping t sec nsec tomono =
      let real = timespec_add_ns m (record { tv_sec = sec; tv_nsec = pos 0 }) (to_u64 nsec) in
      let (t', ts) = real_virtual_timekeeping t real in
      (
        t',
        timespec_add_ns m (record ts { tv_sec = s64 (ts.tv_sec +ℤ tomono.tv_sec) })
            (to_u64 tomono.tv_nsec),
      )
