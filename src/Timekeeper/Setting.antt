-- ===== src/Timekeeper/Setting.antt =====
-- kernel/time/timekeeping.c: setting the clock, and what the clock says then.
use virtual_time_kernel.Base.{ℕ, ◌+◌, ◌-◌, ◌*◌, ◌%◌, ◌^◌, ◌≤◌, ◌<◌, ◌≡◌, refl, ap, ◌∙◌, true, arith}
use virtual_time_kernel.Base.Int.{ℤ, pos, negsuc, pos_part, neg_part, eq_of_parts, int_laws}
use virtual_time_kernel.Base.Word.{s64, u64, InS64, to_u64, to_u64_id, s64_id, bit_and_le}
use virtual_time_kernel.Math64.{Math64}
use virtual_time_kernel.Timespec.{
  Timespec, IsNormal, nsec_per_sec, timespec_add_ns, timespec_valid, timespec_valid_strict,
  ktime_sec_max,
}
use virtual_time_kernel.Timespec.RoundTrip.{timespec_add_ns_lem}
use virtual_time_kernel.Timespec.Normal.{SameTime}
use virtual_time_kernel.Timekeeper.{
  Clocksource, Timekeeping, Ntp, cycle_delta, timekeeping_get_ns, do_settimeofday,
  timekeeping_forward_now, tk_normalize_xtime, tk_set_xtime, tk_set_wall_to_mono,
  timekeeping_update, sar,
}
use virtual_time_kernel.Timekeeper.Read.{getnstimeofday_raw}
use native.Mathlib.Nat.{mul-le-mul_left, pow-le-pow_right, mul-div_cancel, one-le-pow}

-- A strictly valid time is normal, and its seconds do not overflow in nanoseconds.
valid_strict_lem :
    (sec nsec : ℤ)
    → InS64 sec
    → InS64 nsec
    → timespec_valid_strict (record { tv_sec = sec; tv_nsec = nsec }) ≡ true
    → (neg_part sec ≡ 0)
      × (pos_part sec < ktime_sec_max)
      × (neg_part nsec ≡ 0)
      × (pos_part nsec < nsec_per_sec)
unfolding timespec_valid_strict timespec_valid to_u64
valid_strict_lem (pos s) (pos n) p q h = ground arith
valid_strict_lem (pos s) (negsuc n) p q h = ground arith
valid_strict_lem (negsuc s) n p q h = ground arith

-- Two normal times are the same if they stand for the same.
same_normal :
    (a b : Timespec)
    → IsNormal a
    → IsNormal b
    → SameTime a.tv_sec a.tv_nsec b.tv_sec b.tv_nsec
    → a ≡ b
same_normal a b h k e =
    let h₁ = h.nonneg in
    let h₂ = h.below in
    let k₁ = k.nonneg in
    let k₂ = k.below in
    let sec : a.tv_sec ≡ b.tv_sec = eq_of_parts _ _ (omega int_laws) in
    let nsec : a.tv_nsec ≡ b.tv_nsec = eq_of_parts _ _ (omega int_laws) in
    ap (λ x. at x a.tv_nsec) sec ∙ ap (λ y. at b.tv_sec y) nsec
  where
    at : ℤ → ℤ → Timespec
    at x y = record { tv_sec = x; tv_nsec = y }

-- A whole number of shifted nanoseconds, read back.
sar_shifted :
    (k n shift : ℕ)
    → n < nsec_per_sec
    → shift ≤ 32
    → sar (s64 (pos (0 * k + u64 (n * 2 ^ shift)))) shift ≡ pos n
sar_shifted k n shift h small =
    let top = mul-le-mul_left n (pow-le-pow_right {n = 2} (omega arith) {j = 32} small) in
    let e : 0 * k + u64 (n * 2 ^ shift) ≡ n * 2 ^ shift = omega arith in
    rw
      (
        e,
        s64_id (pos (n * 2 ^ shift)) (omega arith) (omega arith),
        mul-div_cancel n (one-le-pow shift 2 (omega arith)),
      )
      refl

-- No cycles have passed at the last update.
cycle_delta_self :
    (clock : Clocksource) → clock.cycle_last < 2 ^ 64 → cycle_delta clock clock.cycle_last ≡ 0
cycle_delta_self clock h =
    let none : u64 (clock.cycle_last + (2 ^ 64 - clock.cycle_last)) ≡ 0 = omega arith in
    rw (none) (let le = bit_and_le 0 clock.mask in omega arith)

module _ (m : Math64) (ntp : Ntp) where
  -- After the clock was set to a valid time, a reading at the same count of the counter gives that time,
  -- for the shifts of a clocksource.
  pub getnstimeofday-do_settimeofday :
      (w : Timekeeping) (cycle_now : ℕ) (tv : Timespec)
      → InS64 tv.tv_sec
      → InS64 tv.tv_nsec
      → timespec_valid_strict tv ≡ true
      → cycle_now < 2 ^ 64
      → w.tk.shift ≤ 32
      → let (w', ret) = do_settimeofday m ntp w cycle_now tv in
        (ret ≡ pos 0) × ((getnstimeofday_raw m w' cycle_now).0 ≡ tv)
  unfolding to_u64 do_settimeofday timekeeping_update timekeeping_forward_now tk_set_wall_to_mono
      tk_set_xtime tk_normalize_xtime getnstimeofday_raw timekeeping_get_ns
  getnstimeofday-do_settimeofday w cycle_now tv p q valid word small =
      let (s₁, s₂, n₁, n₂) = valid_strict_lem tv.tv_sec tv.tv_nsec p q valid in
      let new : Clocksource = record w.clock { cycle_last = cycle_now } in
      let sec : to_u64 tv.tv_sec ≡ pos_part tv.tv_sec = to_u64_id tv.tv_sec s₁ (omega arith) in
      let nsec : to_u64 tv.tv_nsec ≡ pos_part tv.tv_nsec = to_u64_id tv.tv_nsec n₁ (omega arith) in
      let none = cycle_delta_self new word in
      let get = sar_shifted w.tk.mult (pos_part tv.tv_nsec) w.tk.shift n₂ small in
      let start : Timespec = record { tv_sec = pos (pos_part tv.tv_sec); tv_nsec = pos 0 } in
      let whole_id : s64 (pos (pos_part tv.tv_sec)) ≡ pos (pos_part tv.tv_sec) =
        s64_id _ (omega arith) (omega arith) in
      let count : pos_part tv.tv_nsec % 2 ^ 64 ≡ pos_part tv.tv_nsec = omega arith in
      let (normal, same) =
        timespec_add_ns_lem m start (pos_part tv.tv_nsec)
          (record { nonneg = refl; below = omega arith }) (omega arith, omega arith)
          (omega arith) in
      rw (valid) (
        refl,
        rw (none, sec, nsec, get, whole_id, count)
            (same_normal (timespec_add_ns m start (pos_part tv.tv_nsec)) tv normal
              (record { nonneg = n₁; below = n₂ }) (omega int_laws)),
      )
