-- ===== src/Sleep.antt =====
-- kernel/hrtimer.c and kernel/futex.c: requested waits, stretched by the dilation of the caller.
use virtual_time_kernel.Base.{
  ℕ, ◌+◌, ◌*◌, ◌/◌, ◌^◌, ◌≤◌, ◌<◌, ◌≡◌, ◌⊎◌, inl, inr, refl, ap, ◌∙◌, arith, true, not, ◌||◌,
  Option, none, some, if◌then◌else◌, div_bounds,
}
use virtual_time_kernel.Base.Int.{
  ℤ, pos, pos_part, neg_part, ◌*ℤ◌, ltb_ℤ, eqb_ℤ, scale_parts, quot, quot_parts, eq_of_parts,
}
use virtual_time_kernel.Base.Word.{s64, s64_id}
use virtual_time_kernel.Math64.{Math64}
use virtual_time_kernel.Timespec.{
  Timespec, timespec_to_ns, ns_to_timespec, timespec_valid, IsNormal,
}
use virtual_time_kernel.Timespec.RoundTrip.{timespec_to_ns-ns_to_timespec}
use virtual_time_kernel.Dilation.{einval}
use virtual_time_kernel.Proc.{efault}

module _ (m : Math64) where
  abbrev pub stretched : ℤ → ℤ → ℤ
  stretched tns tdf = m.div_s64 (s64 (tns *ℤ tdf)) (pos 1000)

  -- An error, or the time that hrtimer_nanosleep is asked to sleep. `copied` is what
  -- copy_from_user copies, `none` for a fault; `tdf` is the caller's dilation.
  unfoldable pub nanosleep : Option Timespec → ℤ → ℤ ⊎ Timespec
  nanosleep none tdf = inl efault
  nanosleep (some tu) tdf =
      if not (timespec_valid tu)
      then inl einval
      else if ltb_ℤ (pos 0) tdf
      then inr (ns_to_timespec m (stretched (timespec_to_ns tu) tdf))
      else inr tu

  -- The kernel's ktime_t goes through its own conversions.
  unfoldable pub dilate_request_wait_time :
      {Ktime : Type 0} → (Ktime → ℤ) → (ℤ → Ktime) → ℤ → Ktime → Ktime
  dilate_request_wait_time ktime_to_ns ns_to_ktime tdf t =
      let tns = ktime_to_ns t in
      if eqb_ℤ tdf (pos 0) || eqb_ℤ tdf (pos 1000)
      then t
      else if ltb_ℤ tns (pos 1_000_000_000)
      then t
      else ns_to_ktime (stretched tns tdf)

  -- Asked to sleep for a valid time by a caller in virtual time, nanosleep sleeps for that time
  -- multiplied by the dilation over 1000, rounded down to a nanosecond, as a normal timespec, if the
  -- product fits.
  pub nanosleep_lem :
      (tu : Timespec) (d n : ℕ)
      → timespec_valid tu ≡ true
      → timespec_to_ns tu ≡ pos n
      → 0 < d
      → n * d < 2 ^ 63
      → (t : Timespec) × (nanosleep (some tu) (pos d) ≡ inr t)
        × IsNormal t
        × (neg_part (timespec_to_ns t) ≡ 0)
        × (1000 * pos_part (timespec_to_ns t) ≤ n * d)
        × (n * d < 1000 * (pos_part (timespec_to_ns t) + 1))
  unfolding nanosleep
  nanosleep_lem tu d n valid asked p fits =
      let on : ltb_ℤ (pos 0) (pos d) ≡ true = ground arith in
      let scaled = scale_parts (pos n) d in
      let whole : s64 (pos n *ℤ pos d) ≡ pos (n * d) =
        s64_id _ (omega arith) (omega arith) ∙ eq_of_parts _ _ (omega arith) in
      let q = quot_parts (pos (n * d)) 1000 (omega arith) in
      let cut = div_bounds (n * d) 1000 (omega arith) in
      let r : stretched (timespec_to_ns tu) (pos d) ≡ quot (pos (n * d)) (pos 1000) =
        ap (λ (z : ℤ). stretched z (pos d)) asked
        ∙ ap (λ (z : ℤ). m.div_s64 z (pos 1000)) whole
        ∙ m.div_s64-quot (pos (n * d)) 1000 (omega arith) in
      let back = timespec_to_ns-ns_to_timespec m (quot (pos (n * d)) (pos 1000)) (omega arith) in
      let t : Timespec = ns_to_timespec m (stretched (timespec_to_ns tu) (pos d)) in
      let t_ns : timespec_to_ns t ≡ quot (pos (n * d)) (pos 1000) = rw r back.1 in
      let slept : pos_part (timespec_to_ns t) ≡ n * d / 1000 = ap pos_part t_ns ∙ q.0 in
      (
        t,
        rw (valid, on) refl,
        rw r back.0,
        ap neg_part t_ns ∙ q.1,
        rw slept (omega arith),
        rw slept (omega arith),
      )
