-- ===== src/Timekeeper/Consistent.antt =====
-- kernel/time/timekeeping.c: the file's own operations, one after the other, and what holds of its
-- variables between them.
use virtual_time_kernel.Base.{
  ℕ, ◌≡◌, refl, ◌∙◌, ◌+◌, Bool, true, false, ltb, leb, if_both, if◌then◌else◌, Option, none, some,
  not,
}
use virtual_time_kernel.Base.Int.{ℤ, pos, eqb_ℤ}
use virtual_time_kernel.Base.Word.{to_u64}
use virtual_time_kernel.Math64.{Math64}
use virtual_time_kernel.Timespec.{Timespec, nsec_per_sec, timespec_add, timespec_valid_strict}
use virtual_time_kernel.Task.{Task}
use virtual_time_kernel.Timekeeper.{
  Clocksource, Timekeeper, Timekeeping, Ntp, cycle_delta, tk_xtime, tk_normalize_xtime,
  tk_xtime_add, tk_set_wall_to_mono, tk_set_sleep_time, timekeeping_update, timekeeping_forward_now,
  do_settimeofday, timekeeping_inject_offset, timekeeping_set_tai_offset, inject_sleeptime,
  timekeeping_inject_sleeptime,
}
use virtual_time_kernel.Timekeeper.Read.{realtime_clock}
use virtual_time_kernel.Timekeeper.Accumulate.{
  timekeeping_adjust, accumulate, first_shift, update_wall_time,
}
use virtual_time_kernel.Timekeeper.Suspend.{
  tk_setup_internals, change_clocksource, add_sleep, suspended_for, timekeeping_resume,
  timekeeping_suspend, Adjtimex, adjust_tai, jump, do_adjtimex,
}
use virtual_time_kernel.Timekeeper.Offsets.{
  HasOffsets, set_tai_offset-HasOffsets, inject_sleeptime-HasOffsets, timekeeping_adjust-HasOffsets,
  accumulate_nsecs_to_secs-HasOffsets, accumulate-HasOffsets,
}

-- The shadow is a copy of the timekeeper, whose last cycle is the clocksource's, and the offsets say
-- the same twice.
abbrev pub IsConsistent : Timekeeping → Type 0
IsConsistent w = (w.shadow ≡ w.tk) × (w.tk.cycle_last ≡ w.clock.cycle_last) × HasOffsets w.tk

-- The same without the shadow, inside an operation.
abbrev IsCurrent : Timekeeping → Type 0
IsCurrent w = (w.tk.cycle_last ≡ w.clock.cycle_last) × HasOffsets w.tk

module _ (m : Math64) (ntp : Ntp) where
  forward_now-IsCurrent :
      (w : Timekeeping) (cycle_now : ℕ)
      → HasOffsets w.tk
      → IsCurrent (timekeeping_forward_now m ntp w cycle_now)
  unfolding timekeeping_forward_now tk_normalize_xtime
  forward_now-IsCurrent w cycle_now h = (refl, h)

  -- An update that mirrors ends an operation.
  update-IsConsistent :
      (w : Timekeeping) (clear : Bool)
      → IsCurrent w
      → IsConsistent (timekeeping_update w (record { clear_ntp = clear; mirror = true }))
  unfolding timekeeping_update
  update-IsConsistent w true h = (refl, h.0, h.1)
  update-IsConsistent w false h = (refl, h.0, h.1)

  pub do_settimeofday-IsConsistent :
      (w : Timekeeping) (cycle_now : ℕ) (tv : Timespec)
      → IsConsistent w
      → IsConsistent (do_settimeofday m ntp w cycle_now tv).0
  unfolding do_settimeofday timekeeping_update timekeeping_forward_now tk_normalize_xtime
  do_settimeofday-IsConsistent w cycle_now tv h =
      if_both {A = Timekeeping × ℤ} (λ r. IsConsistent r.0) (timespec_valid_strict tv) _ _
        (refl, refl, (refl, refl, h.2.2)) h

  pub inject_offset-IsConsistent :
      (w : Timekeeping) (cycle_now : ℕ) (ts : Timespec)
      → IsConsistent w
      → IsConsistent (timekeeping_inject_offset m ntp w cycle_now ts).0
  unfolding timekeeping_inject_offset timekeeping_update timekeeping_forward_now tk_normalize_xtime
  inject_offset-IsConsistent w cycle_now ts h =
      let w₁ = timekeeping_forward_now m ntp w cycle_now in
      if_both {A = Timekeeping × ℤ} (λ r. IsConsistent r.0) (leb nsec_per_sec (to_u64 ts.tv_nsec)) _
        _ h
        (if_both {A = Timekeeping × ℤ} (λ r. IsConsistent r.0)
          (timespec_valid_strict (timespec_add (tk_xtime w₁.tk) ts)) _ _
          (refl, refl, (refl, refl, h.2.2)) (refl, refl, h.2))

  pub set_tai_offset-IsConsistent :
      (w : Timekeeping) (tai : ℤ)
      → IsConsistent w
      → IsConsistent (timekeeping_set_tai_offset m ntp w tai)
  unfolding timekeeping_set_tai_offset timekeeping_update
  set_tai_offset-IsConsistent w tai h = (refl, h.1, set_tai_offset-HasOffsets w.tk tai h.2)

  cycle_last-inject_sleeptime :
      (tk : Timekeeper) (delta : Timespec)
      → (inject_sleeptime m ntp tk delta).cycle_last ≡ tk.cycle_last
  unfolding inject_sleeptime tk_xtime_add tk_normalize_xtime tk_set_wall_to_mono tk_set_sleep_time
  cycle_last-inject_sleeptime tk delta =
      if_both {A = Timekeeper} (λ r. r.cycle_last ≡ tk.cycle_last) (timespec_valid_strict delta) _
        tk refl refl

  pub inject_sleeptime-IsConsistent :
      (w : Timekeeping) (cycle_now : ℕ) (delta : Timespec)
      → IsConsistent w
      → IsConsistent (timekeeping_inject_sleeptime m ntp w cycle_now delta)
  unfolding timekeeping_inject_sleeptime
  inject_sleeptime-IsConsistent w cycle_now delta h =
      let w₁ = timekeeping_forward_now m ntp w cycle_now in
      let (now, offsets) = forward_now-IsCurrent w cycle_now h.2 in
      if_both IsConsistent w.persistent_clock_exist w _ h (
        update-IsConsistent (record w₁ { tk = inject_sleeptime m ntp w₁.tk delta }) true
          (
            cycle_last-inject_sleeptime w₁.tk delta ∙ now,
            inject_sleeptime-HasOffsets m ntp w₁.tk delta offsets,
          ))

  setup_internals-IsCurrent :
      (w : Timekeeping) (had_clock : Bool) (new : Clocksource) (cycle_now : ℕ)
      → HasOffsets w.tk
      → IsCurrent (tk_setup_internals m ntp w had_clock new cycle_now)
  unfolding tk_setup_internals
  setup_internals-IsCurrent w had_clock new cycle_now h = (refl, h)

  pub change_clocksource-IsConsistent :
      (w : Timekeeping) (cycle_now : ℕ) (new : Clocksource) (enabled : Bool) (new_now : ℕ)
      → IsConsistent w
      → IsConsistent (change_clocksource m ntp w cycle_now new enabled new_now)
  unfolding change_clocksource
  change_clocksource-IsConsistent w cycle_now new enabled new_now h =
      let w₁ = timekeeping_forward_now m ntp w cycle_now in
      let h₁ = forward_now-IsCurrent w cycle_now h.2 in
      update-IsConsistent (if enabled then tk_setup_internals m ntp w₁ true new new_now else w₁)
        true
        (if_both IsCurrent enabled (tk_setup_internals m ntp w₁ true new new_now) w₁
          (setup_internals-IsCurrent w₁ true new new_now h₁.1) h₁)

  add_sleep-HasOffsets :
      (tk : Timekeeper) (slept : Option Timespec)
      → HasOffsets tk
      → HasOffsets (add_sleep m ntp tk slept)
  add_sleep-HasOffsets tk none h = h
  add_sleep-HasOffsets tk (some delta) h = inject_sleeptime-HasOffsets m ntp tk delta h

  pub timekeeping_resume-IsConsistent :
      (w : Timekeeping) (cycle_now : ℕ) (persistent : Timespec)
      → IsConsistent w
      → IsConsistent (timekeeping_resume m ntp w cycle_now persistent)
  unfolding timekeeping_resume timekeeping_update
  timekeeping_resume-IsConsistent w cycle_now persistent h =
      (refl, refl, add_sleep-HasOffsets w.tk (suspended_for m ntp w cycle_now persistent) h.2)

  pub timekeeping_suspend-IsConsistent :
      (w : Timekeeping) (cycle_now : ℕ) (persistent : Timespec)
      → IsConsistent w
      → IsConsistent (timekeeping_suspend m ntp w cycle_now persistent)
  unfolding timekeeping_suspend timekeeping_update
  timekeeping_suspend-IsConsistent w cycle_now persistent h =
      let h₁ = forward_now-IsCurrent w cycle_now h.2 in (refl, h₁.0, h₁.1)

  jump-IsConsistent :
      (w : Timekeeping) (cycle_now : ℕ) (txc : Adjtimex m ntp)
      → IsConsistent w
      → IsConsistent (jump m ntp w cycle_now txc).0
  unfolding jump
  jump-IsConsistent w cycle_now txc h =
      if_both {A = Timekeeping × ℤ} (λ r. IsConsistent r.0) txc.setoffset _ _
        (inject_offset-IsConsistent w cycle_now _ h) h

  adjust_tai-IsConsistent :
      (w : Timekeeping) (tai : ℤ) → IsConsistent w → IsConsistent (adjust_tai m ntp w tai)
  unfolding timekeeping_set_tai_offset
  adjust_tai-IsConsistent w tai h =
      if_both IsConsistent (eqb_ℤ tai w.tk.tai_offset) w _ h (set_tai_offset-IsConsistent w tai h)

  pub adjtimex-IsConsistent :
      (t : Task) (w : Timekeeping) (cycle_now cycle_then : ℕ) (txc : Adjtimex m ntp)
      → IsConsistent w
      → IsConsistent (do_adjtimex m ntp t w cycle_now cycle_then txc).1
  unfolding do_adjtimex
  adjtimex-IsConsistent t w cycle_now cycle_then txc h =
      let w₁ = (jump m ntp w cycle_now txc).0 in
      let ret = (jump m ntp w cycle_now txc).1 in
      let (t₁, ts) = realtime_clock m t w₁ cycle_then in
      let (result, tai) = txc.adjust ts w₁.tk.tai_offset in
      let h₁ = jump-IsConsistent w cycle_now txc h in
      if_both {A = Task × Timekeeping × ℤ} (λ r. IsConsistent r.1)
        (not (eqb_ℤ txc.validate (pos 0))) (t, w, txc.validate) _ h
        (if_both {A = Task × Timekeeping × ℤ} (λ r. IsConsistent r.1) (not (eqb_ℤ ret (pos 0)))
          (t, w₁, ret) (t₁, adjust_tai m ntp w₁ tai, result) h₁ (adjust_tai-IsConsistent w₁ tai h₁))

  pub update_wall_time-IsConsistent :
      (w : Timekeeping) (cycle_now : ℕ)
      → IsConsistent w
      → IsConsistent (update_wall_time m ntp w cycle_now)
  unfolding update_wall_time timekeeping_update
  update_wall_time-IsConsistent w cycle_now h =
      let offset = cycle_delta w.clock cycle_now in
      let shift = first_shift m ntp offset w.shadow.cycle_interval in
      let walked = accumulate m ntp (offset + shift + 1) w.shadow offset shift false in
      let adjusted = timekeeping_adjust ntp walked.0 walked.1 in
      let h₁ =
        accumulate-HasOffsets m ntp (offset + shift + 1) w.shadow offset shift false
          (rw (h.0) h.2) in
      let h₂ =
        accumulate_nsecs_to_secs-HasOffsets ntp adjusted walked.2
          (timekeeping_adjust-HasOffsets ntp walked.0 walked.1 h₁) in
      if_both IsConsistent w.suspended w _ h
        (if_both IsConsistent (ltb offset w.tk.cycle_interval) w _ h (refl, refl, h₂))
