-- ===== src/Timekeeper/Advance.antt =====
-- kernel/time/timekeeping.c: full seconds carried over, and the loop of update_wall_time, which walks
-- from the last update to the counter in intervals of cycles.
use virtual_time_kernel.Base.{
  ℕ, zero, suc, ◌+◌, ◌-◌, ◌*◌, ◌/◌, ◌%◌, ◌^◌, ◌≤◌, ◌<◌, ◌≡◌, refl, sym, ap, ◌∙◌, Bool, ltb,
  Bool-cases, inl, inr, arith, if_both, if◌then◌else◌, ltb→lt,
}
use virtual_time_kernel.Base.Word.{u64}
use virtual_time_kernel.Timespec.{nsec_per_sec}
use virtual_time_kernel.Math64.{Math64}
use virtual_time_kernel.Timekeeper.{
  Timekeeper, Ntp, carry_seconds, shifted_second, tk_set_wall_to_mono, set_tai_offset,
  tk_normalize_xtime,
}
use virtual_time_kernel.Timekeeper.Kept.{IsKept, accumulate_nsecs_to_secs-IsKept}
use virtual_time_kernel.Timekeeper.Accumulate.{logarithmic_accumulation, accumulate, apply_leap}
use native.Mathlib.Nat.{
  mod-eq-sub-mod, div-eq-sub-div, div-eq_of_lt, mod-eq_of_lt, mod-add-mod, lt-div-mul-add, add-zero,
  mul-le-mul_left, pow-le-pow_right, one-le-pow,
}

-- The loop is a division, with enough fuel.
carry_seconds_lem :
    (fuel unit sec nsec : ℕ)
    → 0 < unit
    → nsec / unit ≤ fuel
    → sec + nsec / unit < 2 ^ 64
    → ((carry_seconds fuel unit sec nsec).0 ≡ sec + nsec / unit)
      × ((carry_seconds fuel unit sec nsec).1 ≡ nsec % unit)
unfolding carry_seconds
carry_seconds_lem zero unit sec nsec h enough fits =
    let none : nsec / unit ≡ 0 = omega arith in
    (omega arith, sym (mod-eq_of_lt (less none (lt-div-mul-add h))))
  where
    less : nsec / unit ≡ 0 → nsec < nsec / unit * unit + unit → nsec < unit
    less e k = let k' : nsec < 0 * unit + unit = rw (e) at k in omega arith
carry_seconds_lem (suc fuel) unit sec nsec h enough fits = elim (Bool-cases (ltb nsec unit)) [
  | inl e ↦
      let under : nsec < unit = ltb→lt nsec unit e in
      rw (e, div-eq_of_lt under, mod-eq_of_lt under) (sym (add-zero sec), refl)
  | inr e ↦
      let over : unit ≤ nsec = ground arith in
      let q : nsec / unit ≡ (nsec - unit) / unit + 1 = div-eq-sub-div h over in
      let r : nsec % unit ≡ (nsec - unit) % unit = mod-eq-sub-mod over in
      let (sec_eq, nsec_eq) =
        carry_seconds_lem fuel unit (sec + 1) (nsec - unit) h (omega arith) (omega arith) in
      let s : u64 (sec + 1) ≡ sec + 1 = mod-eq_of_lt (omega arith) in
      rw (e, s) (sec_eq ∙ omega arith, nsec_eq ∙ sym r)
]

-- A full second of the timekeeper is below 2 ^ 64 for the shifts of a clocksource.
shifted_second_lem :
    (shift : ℕ)
    → shift ≤ 32
    → (shifted_second shift ≡ nsec_per_sec * 2 ^ shift) × (0 < shifted_second shift)
shifted_second_lem shift h =
    let hi : 2 ^ shift ≤ 2 ^ 32 = pow-le-pow_right (omega arith) h in
    let lo : 1 ≤ 2 ^ shift = one-le-pow shift 2 (omega arith) in
    let e : shifted_second shift ≡ nsec_per_sec * 2 ^ shift = mod-eq_of_lt (omega arith) in
    (e, rw (e) (omega arith))

-- Normalizing carries every full second out of the nanoseconds, and nothing else, if the seconds do not
-- overflow.
pub tk_normalize_xtime_lem :
    (tk : Timekeeper)
    → tk.shift ≤ 32
    → tk.xtime_sec + tk.xtime_nsec / shifted_second tk.shift < 2 ^ 64
    → tk_normalize_xtime tk ≡ record tk {
      xtime_sec = tk.xtime_sec + tk.xtime_nsec / (nsec_per_sec * 2 ^ tk.shift);
      xtime_nsec = tk.xtime_nsec % (nsec_per_sec * 2 ^ tk.shift);
    }
unfolding tk_normalize_xtime
tk_normalize_xtime_lem tk h fits =
    let (e, unit_pos) = shifted_second_lem tk.shift h in
    let (sec, nsec) =
      carry_seconds_lem (tk.xtime_nsec / shifted_second tk.shift) (shifted_second tk.shift)
        tk.xtime_sec tk.xtime_nsec unit_pos (omega arith) fits in
    rw (sec, nsec, e) refl

-- Cycles counted from the last update: the timekeeper's last cycle and what is left after it.
abbrev pub IsWalked : ℕ → ℕ → Timekeeper → ℕ → Type 0
IsWalked interval reached tk left =
    (tk.cycle_interval ≡ interval) × (u64 (tk.cycle_last + left) ≡ reached)

-- What a round leaves, and the shift of the next one.
abbrev next_left : ℕ → ℕ → ℕ → ℕ
next_left interval offset shift =
    if ltb offset (interval * 2 ^ shift) then offset else offset - interval * 2 ^ shift

abbrev next_shift : ℕ → ℕ → ℕ → ℕ
next_shift interval left shift = if ltb left (interval * 2 ^ shift) then shift - 1 else shift

-- Each round takes cycles or halves the step.
next_decreases :
    (interval offset shift : ℕ)
    → 0 < interval
    → interval ≤ offset
    → let left = next_left interval offset shift in
      left + next_shift interval left shift < offset + shift
next_decreases interval offset zero h k = ground arith
next_decreases interval offset (suc shift) h k =
    let p = mul-le-mul_left interval (one-le-pow (suc shift) 2 (omega arith)) in ground arith

next_fits :
    (interval left shift : ℕ)
    → interval * 2 ^ shift < 2 ^ 64
    → interval * 2 ^ next_shift interval left shift < 2 ^ 64
next_fits interval left shift fits =
    if_both (λ s. interval * 2 ^ s < 2 ^ 64) (ltb left (interval * 2 ^ shift)) (shift - 1) shift
      (lower (pow-le-pow_right (omega arith) (omega arith))) fits
  where
    lower : 2 ^ (shift - 1) ≤ 2 ^ shift → interval * 2 ^ (shift - 1) < 2 ^ 64
    lower h = let h' = mul-le-mul_left interval h in omega arith

module _ (m : Math64) (ntp : Ntp) where
  pub cycles-IsKept :
      (interval last : ℕ) → IsKept ntp (λ t. (t.cycle_interval ≡ interval) × (t.cycle_last ≡ last))
  unfolding apply_leap tk_set_wall_to_mono set_tai_offset
  cycles-IsKept interval last = record {
    on_time = λ tk sec nsec h. h;
    on_leap = λ tk leap h. h;
    on_adjust = λ tk mult interval nsec error h. h;
  }

  -- One round takes its cycles off what is left, or nothing.
  round_lem :
      (tk : Timekeeper) (offset shift : ℕ) (set : Bool)
      → tk.cycle_interval * 2 ^ shift < 2 ^ 64
      → let (tk', left, _) = logarithmic_accumulation m ntp tk offset shift set in
        IsWalked tk.cycle_interval (u64 (tk.cycle_last + offset)) tk' left
        × (left ≡ next_left tk.cycle_interval offset shift)
  unfolding logarithmic_accumulation
  round_lem tk offset shift set fits =
      elim (Bool-cases (ltb offset (tk.cycle_interval * 2 ^ shift))) [
        | inl e ↦ rw (mod-eq_of_lt fits, e) ((refl, refl), refl)
        | inr e ↦
            let taken = tk.cycle_interval * 2 ^ shift in
            let moved : Timekeeper = record tk {
              cycle_last = u64 (tk.cycle_last + taken);
              xtime_nsec = u64 (tk.xtime_nsec + u64 (tk.xtime_interval * 2 ^ shift));
            } in
            let (same, last) =
              accumulate_nsecs_to_secs-IsKept ntp
                (λ t. (t.cycle_interval ≡ tk.cycle_interval) × (t.cycle_last ≡ moved.cycle_last))
                (cycles-IsKept tk.cycle_interval moved.cycle_last) moved set (refl, refl) in
            let sum : tk.cycle_last + taken + (offset - taken) ≡ tk.cycle_last + offset =
              ground arith in
            rw (mod-eq_of_lt fits, e)
              (
                (
                  same,
                  ap (λ c. u64 (c + (offset - taken))) last
                      ∙ mod-add-mod (tk.cycle_last + taken) (2 ^ 64) (offset - taken)
                      ∙ ap u64 sum,
                ),
                refl,
              )
      ]

  -- With fuel above what is left and the shift, the loop walks until less than an interval is left.
  pub accumulate_lem :
      (fuel : ℕ) (tk : Timekeeper) (offset shift : ℕ) (set : Bool)
      → 0 < tk.cycle_interval
      → tk.cycle_interval * 2 ^ shift < 2 ^ 64
      → offset + shift < fuel
      → let (tk', left, _) = accumulate m ntp fuel tk offset shift set in
        IsWalked tk.cycle_interval (u64 (tk.cycle_last + offset)) tk' left
        × (left < tk.cycle_interval)
  unfolding accumulate
  accumulate_lem zero tk offset shift set h fits enough = ground arith
  accumulate_lem (suc fuel) tk offset shift set h fits enough =
      elim (Bool-cases (ltb offset tk.cycle_interval)) [
        | inl e ↦ rw (e) ((refl, refl), ltb→lt offset tk.cycle_interval e)
        | inr e ↦
            let r = logarithmic_accumulation m ntp tk offset shift set in
            let ((same, reached), left_eq) = round_lem tk offset shift set fits in
            let shift' =
              if ltb r.1 (u64 (r.0.cycle_interval * 2 ^ shift)) then shift - 1 else shift in
            let shift_eq : shift' ≡ next_shift tk.cycle_interval r.1 shift =
              rw (same, mod-eq_of_lt fits) refl in
            let less : r.1 + next_shift tk.cycle_interval r.1 shift < offset + shift =
              rw (left_eq) (next_decreases tk.cycle_interval offset shift h (ground arith)) in
            let ih =
              accumulate_lem fuel r.0 r.1 shift' r.2 (rw (same) h)
                (rw (shift_eq, same) (next_fits tk.cycle_interval r.1 shift fits)) (omega arith) in
            let under = ih.1 in rw (e) ((ih.0.0 ∙ same, ih.0.1 ∙ reached), omega arith)
      ]
