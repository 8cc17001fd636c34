-- ===== src/Timekeeper/Runs.antt =====
-- kernel/time/timekeeping.c: the operations of the file as steps from one state of its variables to the
-- next, each under the lock of the timekeeper, and the states that they reach from boot.
use virtual_time_kernel.Base.{ℕ, refl, Bool}
use virtual_time_kernel.Base.Int.{ℤ}
use virtual_time_kernel.Math64.{Math64}
use virtual_time_kernel.Timespec.{Timespec}
use virtual_time_kernel.Task.{Task}
use virtual_time_kernel.Timekeeper.{
  Clocksource, Timekeeping, Ntp, do_settimeofday, timekeeping_inject_offset,
  timekeeping_set_tai_offset, timekeeping_inject_sleeptime,
}
use virtual_time_kernel.Timekeeper.Accumulate.{update_wall_time}
use virtual_time_kernel.Timekeeper.Suspend.{
  change_clocksource, timekeeping_init, timekeeping_resume, timekeeping_suspend, Adjtimex,
  do_adjtimex, tk_setup_internals,
}
use virtual_time_kernel.Timekeeper.Consistent.{
  IsConsistent, do_settimeofday-IsConsistent, inject_offset-IsConsistent,
  set_tai_offset-IsConsistent, inject_sleeptime-IsConsistent, change_clocksource-IsConsistent,
  timekeeping_resume-IsConsistent, timekeeping_suspend-IsConsistent, adjtimex-IsConsistent,
  update_wall_time-IsConsistent,
}

module _ (m : Math64) (ntp : Ntp) where
  -- One operation; the counter, the devices and the caller are any.
  pub data Step : Timekeeping → Timekeeping → Type 0 where
    settimeofday :
        {w : Timekeeping} (now : ℕ) (tv : Timespec) → Step w (do_settimeofday m ntp w now tv).0
    inject_offset :
        {w : Timekeeping} (now : ℕ) (ts : Timespec)
        → Step w (timekeeping_inject_offset m ntp w now ts).0
    set_tai : {w : Timekeeping} (tai : ℤ) → Step w (timekeeping_set_tai_offset m ntp w tai)
    inject_sleeptime :
        {w : Timekeeping} (now : ℕ) (delta : Timespec)
        → Step w (timekeeping_inject_sleeptime m ntp w now delta)
    new_clocksource :
        {w : Timekeeping} (now : ℕ) (new : Clocksource) (enabled : Bool) (new_now : ℕ)
        → Step w (change_clocksource m ntp w now new enabled new_now)
    suspend :
        {w : Timekeeping} (now : ℕ) (persistent : Timespec)
        → Step w (timekeeping_suspend m ntp w now persistent)
    resume :
        {w : Timekeeping} (now : ℕ) (persistent : Timespec)
        → Step w (timekeeping_resume m ntp w now persistent)
    adjtimex :
        {w : Timekeeping} (t : Task) (now later : ℕ) (txc : Adjtimex m ntp)
        → Step w (do_adjtimex m ntp t w now later txc).1
    tick : {w : Timekeeping} (now : ℕ) → Step w (update_wall_time m ntp w now)

  pub data IsReachable : Timekeeping → Type 0 where
    boot :
        (w : Timekeeping) (clock : Clocksource) (now : ℕ) (persistent boot_clock : Timespec)
        → IsReachable (timekeeping_init m ntp w clock now persistent boot_clock)
    after : {v w : Timekeeping} → IsReachable v → Step v w → IsReachable w

  step-IsConsistent : (v w : Timekeeping) → Step v w → IsConsistent v → IsConsistent w
  step-IsConsistent v _ (settimeofday now tv) h = do_settimeofday-IsConsistent m ntp v now tv h
  step-IsConsistent v _ (inject_offset now ts) h = inject_offset-IsConsistent m ntp v now ts h
  step-IsConsistent v _ (set_tai tai) h = set_tai_offset-IsConsistent m ntp v tai h
  step-IsConsistent v _ (inject_sleeptime now d) h = inject_sleeptime-IsConsistent m ntp v now d h
  step-IsConsistent v _ (new_clocksource now new enabled new_now) h =
      change_clocksource-IsConsistent m ntp v now new enabled new_now h
  step-IsConsistent v _ (suspend now p) h = timekeeping_suspend-IsConsistent m ntp v now p h
  step-IsConsistent v _ (resume now p) h = timekeeping_resume-IsConsistent m ntp v now p h
  step-IsConsistent v _ (adjtimex t now later txc) h =
      adjtimex-IsConsistent m ntp t v now later txc h
  step-IsConsistent v _ (tick now) h = update_wall_time-IsConsistent m ntp v now h

  init-IsConsistent :
      (w : Timekeeping) (clock : Clocksource) (now : ℕ) (persistent boot_clock : Timespec)
      → IsConsistent (timekeeping_init m ntp w clock now persistent boot_clock)
  unfolding timekeeping_init tk_setup_internals
  init-IsConsistent w clock now persistent boot_clock = (refl, refl, (refl, refl, refl))

  -- After any operations since boot, the shadow timekeeper equals the timekeeper, the last cycle of both
  -- is the clocksource's, and the offsets in nanoseconds of the real clock, of the TAI clock and of the
  -- boot clock are the stored times.
  pub reachable-IsConsistent : (w : Timekeeping) → IsReachable w → IsConsistent w
  reachable-IsConsistent _ (boot w clock now persistent boot_clock) =
      init-IsConsistent w clock now persistent boot_clock
  reachable-IsConsistent w (after {v} before step) =
      step-IsConsistent v w step (reachable-IsConsistent v before)
