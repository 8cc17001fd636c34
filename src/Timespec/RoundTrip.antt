-- ===== src/Timespec/RoundTrip.antt =====
-- Round trips between nanoseconds and timespecs.
use virtual_time_kernel.Base.{ℕ, ◌+◌, ◌/◌, ◌%◌, ◌^◌, ◌<◌, ◌≡◌, ◌∙◌, inl, inr, arith, Bool-cases}
use virtual_time_kernel.Base.Int.{
  ℤ, pos, pos_part, neg_part, ◌+ℤ◌, ◌-ℤ◌, ◌*ℤ◌, ltb_ℤ, eqb_ℤ, int_laws, scale_parts, parts_disjoint,
  eq_of_parts, quot, rem, quot_parts, rem_parts,
}
use virtual_time_kernel.Base.Word.{s64, s32, to_u64, s64_id, s32_id, InS64, to_u64_id}
use virtual_time_kernel.Math64.{Math64}
use virtual_time_kernel.Timespec.Normal.{SameTime, HasRoom}
use virtual_time_kernel.Timespec.{
  nsec_per_sec, Timespec, timespec_to_ns, ns_to_timespec, timespec_add_ns, IsNormal,
}

-- Unwrapped nanoseconds of a timespec, where they fit an `s64`.
pub timespec_to_ns_lem :
    (ts : Timespec)
    → InS64 (ts.tv_sec *ℤ pos nsec_per_sec +ℤ ts.tv_nsec)
    → timespec_to_ns ts ≡ ts.tv_sec *ℤ pos nsec_per_sec +ℤ ts.tv_nsec
unfolding timespec_to_ns
timespec_to_ns_lem ts (lo, hi) = s64_id _ lo hi

-- A timespec with the seconds and nanoseconds of `n`, read back.
pub timespec_to_ns_of_parts :
    (ts : Timespec) (n : ℤ)
    → InS64 n
    → SameTime ts.tv_sec ts.tv_nsec (pos 0) n
    → timespec_to_ns ts ≡ n
timespec_to_ns_of_parts ts n fits h =
    let s = scale_parts ts.tv_sec nsec_per_sec in
    let e : ts.tv_sec *ℤ pos nsec_per_sec +ℤ ts.tv_nsec ≡ n = eq_of_parts _ _ (omega int_laws) in
    timespec_to_ns_lem ts (rw e fits) ∙ e

module _ (m : Math64) where
  -- ns_to_timespec on every `s64` returns a normal timespec, also for negative values, and
  -- timespec_to_ns takes it back to the value.
  pub timespec_to_ns-ns_to_timespec :
      (n : ℤ) → InS64 n → IsNormal (ns_to_timespec m n) × (timespec_to_ns (ns_to_timespec m n) ≡ n)
  unfolding ns_to_timespec
  timespec_to_ns-ns_to_timespec n fits =
      let q = quot_parts n nsec_per_sec (omega arith) in
      let r = rem_parts n nsec_per_sec (omega arith) in
      rw (m.div_s64_rem-quot n nsec_per_sec (omega arith)) (elim (Bool-cases (eqb_ℤ n (pos 0))) [
        | inl z ↦
            rw z (omega arith, timespec_to_ns_of_parts _ n fits (ground (arith, parts_disjoint n)))
        | inr nz ↦ rw nz (elim (Bool-cases (ltb_ℤ (rem n (pos nsec_per_sec)) (pos 0))) [
          | inl low ↦
              let is_low : 0 < neg_part (rem n (pos nsec_per_sec)) =
                ground (arith, parts_disjoint (rem n (pos nsec_per_sec))) in
              let sec_fits : s64 (quot n (pos nsec_per_sec) -ℤ pos 1)
                  ≡ quot n (pos nsec_per_sec) -ℤ pos 1 =
                s64_id _ (omega int_laws) (omega int_laws) in
              let nsec_fits : s32 (rem n (pos nsec_per_sec) +ℤ pos nsec_per_sec)
                  ≡ rem n (pos nsec_per_sec) +ℤ pos nsec_per_sec =
                s32_id _ (omega int_laws) (omega int_laws) in
              rw (low, sec_fits, nsec_fits)
                (omega int_laws, timespec_to_ns_of_parts _ n fits (omega int_laws))
          | inr high ↦
              let is_high : neg_part (rem n (pos nsec_per_sec)) ≡ 0 =
                ground (arith, parts_disjoint (rem n (pos nsec_per_sec))) in
              rw high (omega arith, timespec_to_ns_of_parts _ n fits (omega int_laws))
        ])
      ])

  -- Adding fewer than 2 ^ 61 nanoseconds to a normal timespec gives a normal one that much later, if the
  -- seconds stay within 2 ^ 62.
  pub timespec_add_ns_lem :
      (a : Timespec) (ns : ℕ)
      → IsNormal a
      → HasRoom a.tv_sec
      → ns < 2 ^ 61
      → let b = timespec_add_ns m a ns in
        IsNormal b × SameTime a.tv_sec (a.tv_nsec +ℤ pos ns) b.tv_sec b.tv_nsec
  unfolding timespec_add_ns
  timespec_add_ns_lem a ns normal room small =
      let low : to_u64 a.tv_nsec ≡ pos_part a.tv_nsec =
        to_u64_id a.tv_nsec normal.nonneg (omega arith) in
      let sum : (pos_part a.tv_nsec + ns) % 2 ^ 64 ≡ pos_part a.tv_nsec + ns = omega arith in
      let sec_fits : s64 (a.tv_sec +ℤ pos ((pos_part a.tv_nsec + ns) / nsec_per_sec % 2 ^ 32))
          ≡ a.tv_sec +ℤ pos ((pos_part a.tv_nsec + ns) / nsec_per_sec % 2 ^ 32) =
        s64_id _ (omega int_laws) (omega int_laws) in
      rw
        (
          low,
          sum,
          m.iter_div_u64_rem-div (pos_part a.tv_nsec + ns) nsec_per_sec (omega arith),
          sec_fits,
        )
        (omega arith, omega int_laws)
