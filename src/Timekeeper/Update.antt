-- ===== src/Timekeeper/Update.antt =====
-- kernel/time/timekeeping.c: update_wall_time as a whole.
use virtual_time_kernel.Base.{
  ℕ, zero, suc, ◌+◌, ◌-◌, ◌*◌, ◌^◌, ◌≤◌, ◌<◌, ◌≡◌, refl, ap, ◌∙◌, false, ltb, Bool-cases, inl, inr,
  arith, ltb→lt,
}
use virtual_time_kernel.Base.Word.{u64, bit_and_le}
use virtual_time_kernel.Math64.{Math64}
use virtual_time_kernel.Timekeeper.{Timekeeper, Timekeeping, Ntp, timekeeping_update, cycle_delta}
use virtual_time_kernel.Timekeeper.Accumulate.{
  accumulate, timekeeping_adjust, first_shift, update_wall_time,
}
use virtual_time_kernel.Timekeeper.Kept.{accumulate_nsecs_to_secs-IsKept, timekeeping_adjust-IsKept}
use virtual_time_kernel.Timekeeper.Advance.{cycles-IsKept, accumulate_lem}
use virtual_time_kernel.Timekeeper.Consistent.{IsConsistent}
use native.Mathlib.Nat.{add-zero, mul-le-mul_left, pow-suc, pow-le-pow_right}

scaled_lem : (c s b : ℕ) → c < 2 ^ (b + 1) → c * 2 ^ s < 2 ^ (b + 1 + s)
scaled_lem c zero b h = rw (add-zero (b + 1)) (omega arith)
scaled_lem c (suc s) b h =
    let ih = scaled_lem c s b h in
    let e : 2 ^ (b + 1 + suc s) ≡ 2 ^ (b + 1 + s) * 2 =
      ap (λ k. 2 ^ k) (omega arith) ∙ pow-suc 2 (b + 1 + s) in
    rw (pow-suc 2 s, e) (omega arith)

below_64 : (a n : ℕ) → 2 ^ a ≤ n → n < 2 ^ 64 → a < 64
below_64 a n h k = elim (Bool-cases (ltb a 64)) [
  | inl e ↦ ground arith
  | inr e ↦
      let big : 2 ^ 64 ≤ 2 ^ a = pow-le-pow_right (omega arith) {i = 64} (ground arith) in
      omega arith
]

module _ (m : Math64) (ntp : Ntp) where
  -- The first shift is small enough that the shifted interval is a word.
  first_shift_lem :
      (offset interval : ℕ)
      → 0 < interval
      → interval ≤ offset
      → offset < 2 ^ 64
      → interval * 2 ^ first_shift m ntp offset interval < 2 ^ 64
  first_shift_lem offset interval h k fits =
      let shift = ntp.ilog2 offset - ntp.ilog2 interval in
      let lower : first_shift m ntp offset interval ≤ shift = ground arith in
      let less = mul-le-mul_left interval (pow-le-pow_right {n = 2} (omega arith) lower) in
      let under = scaled_lem interval shift (ntp.ilog2 interval) (ntp.ilog2-lt interval h) in
      let top = below_64 (ntp.ilog2 offset) offset (ntp.ilog2-le offset (omega arith)) fits in
      elim (Bool-cases (ltb (ntp.ilog2 offset) (ntp.ilog2 interval))) [
        | inl e ↦
            let none : shift ≡ 0 = ground arith in
            let flat : interval * 2 ^ shift ≡ interval = rw (none) (omega arith) in omega arith
        | inr e ↦
            let word : 2 ^ (ntp.ilog2 interval + 1 + shift) ≤ 2 ^ 64 =
              pow-le-pow_right (omega arith) {j = 64} (ground arith) in
            omega arith
      ]

  -- A running clock whose counter is at `cycle_now` is brought up to date: the new last cycle is less than
  -- an interval of cycles before the counter, if the clock is consistent and an interval is not empty.
  pub update_wall_time_lem :
      (w : Timekeeping) (cycle_now : ℕ)
      → IsConsistent w
      → w.suspended ≡ false
      → 0 < w.tk.cycle_interval
      → let w' = update_wall_time m ntp w cycle_now in
        (left : ℕ) × (left < w'.tk.cycle_interval)
        × (u64 (w'.clock.cycle_last + left)
            ≡ u64 (w.clock.cycle_last + cycle_delta w.clock cycle_now))
  unfolding update_wall_time timekeeping_update
  update_wall_time_lem w cycle_now h running some_cycles =
      let offset = cycle_delta w.clock cycle_now in
      let fits : offset < 2 ^ 64 =
        let le = bit_and_le (u64 (cycle_now + (2 ^ 64 - w.clock.cycle_last))) w.clock.mask in
        omega arith in
      let shift = first_shift m ntp offset w.shadow.cycle_interval in
      elim (Bool-cases (ltb offset w.tk.cycle_interval)) [
        | inl e ↦ rw (running, e) ((offset, ltb→lt offset w.tk.cycle_interval e, refl))
        | inr e ↦
            let walked = accumulate m ntp (offset + shift + 1) w.shadow offset shift false in
            let ((same, reached), under) =
              accumulate_lem m ntp (offset + shift + 1) w.shadow offset shift false
                (rw (h.0) some_cycles)
                (first_shift_lem offset w.shadow.cycle_interval (rw (h.0) some_cycles)
                  (rw (h.0) (ground arith)) fits)
                (omega arith) in
            let P = λ (t : Timekeeper).
              (t.cycle_interval ≡ walked.0.cycle_interval) × (t.cycle_last ≡ walked.0.cycle_last) in
            let cycles = cycles-IsKept m ntp walked.0.cycle_interval walked.0.cycle_last in
            let (kept, last) =
              accumulate_nsecs_to_secs-IsKept ntp P cycles
                (timekeeping_adjust ntp walked.0 walked.1) walked.2
                (timekeeping_adjust-IsKept ntp P cycles walked.0 walked.1 (refl, refl)) in
            let interval = kept ∙ same in
            let begin : w.shadow.cycle_last ≡ w.clock.cycle_last =
              ap (λ t. t.cycle_last) h.0 ∙ h.1 in
            rw (running, e)
              (
                walked.1,
                omega arith,
                ap (λ c. u64 (c + walked.1)) last ∙ reached ∙ ap (λ c. u64 (c + offset)) begin,
              )
      ]
