-- ===== src/Hrtimer.antt =====
-- kernel/hrtimer.c: hrtimer_forward, which moves the expiry of a periodic timer past now.
use virtual_time_kernel.Base.{
  ℕ, ◌+◌, ◌-◌, ◌*◌, ◌/◌, ◌%◌, ◌^◌, ◌≤◌, ◌<◌, ◌≡◌, ◌∙◌, refl, ap, arith, true, false, ltb,
  if◌then◌else◌, Bool-cases, inl, inr, div_bounds, div-le,
}
use virtual_time_kernel.Base.Int.{ℤ, pos, ltb_ℤ, int_laws, eq_of_parts}
use virtual_time_kernel.Base.Word.{s64_id, u64, to_u64}
use virtual_time_kernel.Ktime.{ktime_sub}

-- include/linux/hrtimer.h: a timer with its expiry, and ktime_divns, a division of times.
pub record HrtimerOps (Timer : Type 0) : Type 0 where
  pub hrtimer_get_expires : Timer → ℤ
  pub hrtimer_add_expires : Timer → ℤ → Timer
  pub hrtimer_add_expires-moves :
      (t : Timer) (e d : ℕ)
      → hrtimer_get_expires t ≡ pos e
      → e + d < 2 ^ 63
      → hrtimer_get_expires (hrtimer_add_expires t (pos d)) ≡ pos (e + d)
  pub hrtimer_add_expires_ns : Timer → ℕ → Timer
  pub hrtimer_add_expires_ns-moves :
      (t : Timer) (e d : ℕ)
      → hrtimer_get_expires t ≡ pos e
      → e + d < 2 ^ 63
      → hrtimer_get_expires (hrtimer_add_expires_ns t d) ≡ pos (e + d)
  pub ktime_divns : ℤ → ℤ → ℕ
  pub ktime_divns-div : (a d : ℕ) → 0 < d → ktime_divns (pos a) (pos d) ≡ a / d

module _ {Timer : Type 0} (ops : HrtimerOps Timer) where
  open ops use {hrtimer_get_expires, hrtimer_add_expires, hrtimer_add_expires_ns, ktime_divns}

  -- The timer, and by how many intervals it was moved. `resolution` is that of the timer's base.
  unfoldable pub hrtimer_forward : ℤ → Timer → ℤ → ℤ → Timer × ℕ
  hrtimer_forward resolution timer now interval =
      let delta = ktime_sub now (hrtimer_get_expires timer) in
      let incr = if ltb_ℤ interval resolution then resolution else interval in
      let orun = ktime_divns delta incr in
      let moved = hrtimer_add_expires_ns timer (u64 (to_u64 incr * orun)) in
      if ltb_ℤ delta (pos 0)
      then (timer, 0)
      else if ltb_ℤ delta incr
      then (hrtimer_add_expires timer incr, 1)
      else if ltb_ℤ now (hrtimer_get_expires moved)
      then (moved, orun)
      else (hrtimer_add_expires moved incr, u64 (orun + 1))

  -- The interval, but no less than the resolution.
  abbrev pub step : ℕ → ℕ → ℕ
  step resolution interval = if ltb interval resolution then resolution else interval

  step_int : (r i : ℕ) → (if ltb_ℤ (pos i) (pos r) then pos r else pos i) ≡ pos (step r i)
  step_int r i = elim (Bool-cases (ltb i r)) [
    | inl e ↦ let f : ltb_ℤ (pos i) (pos r) ≡ true = ground arith in rw (e, f) refl
    | inr e ↦ let f : ltb_ℤ (pos i) (pos r) ≡ false = ground arith in rw (e, f) refl
  ]

  elapsed :
      (now expiry : ℕ)
      → expiry ≤ now
      → now < 2 ^ 63
      → ktime_sub (pos now) (pos expiry) ≡ pos (now - expiry)
  elapsed now expiry past fits =
      s64_id _ (omega int_laws) (omega int_laws) ∙ eq_of_parts _ _ (omega int_laws)

  step_pos : (r i : ℕ) → 0 < r → 0 < step r i
  step_pos r i h = ground arith

  -- After more than an interval.
  long_time :
      (timer : Timer) (expiry now j : ℕ)
      → hrtimer_get_expires timer ≡ pos expiry
      → expiry ≤ now
      → 0 < j
      → now + j < 2 ^ 63
      → let d = now - expiry in
        let orun = ktime_divns (pos d) (pos j) in
        let moved = hrtimer_add_expires_ns timer (u64 (to_u64 (pos j) * orun)) in
        let (timer', n) : Timer × ℕ =
          if ltb_ℤ (pos now) (hrtimer_get_expires moved)
          then (moved, orun)
          else (hrtimer_add_expires moved (pos j), u64 (orun + 1)) in
        (hrtimer_get_expires timer' ≡ pos (expiry + j * n))
        × (now < expiry + j * n)
        × (expiry + j * n ≤ now + j)
  unfolding to_u64
  long_time timer expiry now j e past positive fits =
      let d = now - expiry in
      let n = d / j in
      let (low, high) = div_bounds d j positive in
      let more : j * (n + 1) ≡ j * n + j = ground arith in
      let few : n ≤ d = div-le d j in
      let small : j % 2 ^ 64 ≡ j = omega arith in
      let product : j * n % 2 ^ 64 ≡ j * n = omega arith in
      let count : (n + 1) % 2 ^ 64 ≡ n + 1 = omega arith in
      let moved = ops.hrtimer_add_expires_ns-moves timer expiry (j * n) e (omega arith) in
      let not_yet : ltb_ℤ (pos now) (pos (expiry + j * n)) ≡ false = ground arith in
      let last =
        ops.hrtimer_add_expires-moves (hrtimer_add_expires_ns timer (j * n)) (expiry + j * n) j
          moved (omega arith) in
      rw (ops.ktime_divns-div d j positive, small, product, moved, not_yet, count)
        (last ∙ ap pos (omega arith), omega arith, omega arith)

  -- A timer that has expired is moved by as many intervals as its result says: it expires after now, by at
  -- most an interval, which is no shorter than the resolution, if the times fit.
  pub hrtimer_forward_lem :
      (resolution : ℕ) (timer : Timer) (expiry now interval : ℕ)
      → hrtimer_get_expires timer ≡ pos expiry
      → expiry ≤ now
      → 0 < resolution
      → now + step resolution interval < 2 ^ 63
      → let (timer', orun) = hrtimer_forward (pos resolution) timer (pos now) (pos interval) in
        (hrtimer_get_expires timer' ≡ pos (expiry + step resolution interval * orun))
        × (now < expiry + step resolution interval * orun)
        × (expiry + step resolution interval * orun ≤ now + step resolution interval)
  unfolding hrtimer_forward
  hrtimer_forward_lem resolution timer expiry now interval e past res fits =
      let d = now - expiry in
      let j = step resolution interval in
      let passed = elapsed now expiry past (omega arith) in
      let started : ltb_ℤ (pos d) (pos 0) ≡ false = ground arith in
      rw (e, passed, step_int resolution interval, started)
        (elim (Bool-cases (ltb_ℤ (pos d) (pos j))) [
          | inl short ↦ rw (short) (
            ops.hrtimer_add_expires-moves timer expiry j e (omega arith) ∙ ap pos (omega arith),
            ground arith,
            omega arith,
          )
          | inr long ↦
              rw (long)
                (long_time timer expiry now j e past (step_pos resolution interval res) fits)
        ])
