-- ===== src/Psched/Dilated.antt =====
-- Dilated rates and the time that a packet takes.
use native.Mathlib.Nat.{mul-le-mul_left, le_of_mul-le-mul_right, pow-succ'}
use virtual_time_kernel.Base.{
  sym, ℕ, zero, suc, ◌+◌, ◌*◌, ◌/◌, ◌%◌, ◌^◌, ◌≤◌, ◌<◌, ◌≡◌, ◌∙◌, refl, arith, true, false, some,
  ltb, ◌==◌, Bool-cases, inl, inr, div_bounds,
}
use virtual_time_kernel.Base.Int.{pos, ltb_ℤ}
use virtual_time_kernel.Base.Word.{u64, to_u64}
use virtual_time_kernel.Math64.{Math64}
use virtual_time_kernel.Timespec.{nsec_per_sec}
use virtual_time_kernel.Psched.{
  PschedRatecfg, TcRatespec, LinkLayer, set_mult, dilate_rate, psched_ratecfg_precompute,
  psched_ratecfg_dilate, psched_l2t_ns,
}
use virtual_time_kernel.Psched.Calibrate.{IsReciprocal, calibrate_lem}

-- A dilated rate is the rate divided by the dilation, rounded down, if 1000 times the rate fits a
-- `u64`.
pub dilate_rate_lem :
    (rate d : ℕ)
    → 0 < d
    → d < 2 ^ 31
    → rate * 1000 < 2 ^ 64
    → (d * dilate_rate rate (pos d) ≤ rate * 1000)
      × (rate * 1000 < d * (dilate_rate rate (pos d) + 1))
unfolding dilate_rate
dilate_rate_lem rate d p small fits =
    let positive : ltb_ℤ (pos 0) (pos d) ≡ true = ground arith in
    let d_fits : d % 2 ^ 64 ≡ d = omega arith in
    let rate_fits : rate * 1000 % 2 ^ 64 ≡ rate * 1000 = omega arith in
    rw (positive, d_fits, rate_fits) (div_bounds (rate * 1000) d p)

pow_pos : (s : ℕ) → 0 < 2 ^ s
pow_pos zero = omega arith
pow_pos (suc s) = omega (arith, pow-succ' 2 s, pow_pos s)

-- Multiplying by a rounded reciprocal and shifting gives at most the quotient.
never_over :
    (n mult rate s : ℕ)
    → 0 < rate
    → mult ≡ nsec_per_sec * 2 ^ s / rate
    → n * mult / 2 ^ s * rate ≤ nsec_per_sec * n
never_over n mult rate s moving exact =
    let cut = div_bounds (n * mult) (2 ^ s) (pow_pos s) in
    let reciprocal : rate * mult ≤ nsec_per_sec * 2 ^ s =
      rw exact (div_bounds (nsec_per_sec * 2 ^ s) rate moving).0 in
    let a : n * (rate * mult) ≤ n * (nsec_per_sec * 2 ^ s) = mul-le-mul_left n reciprocal in
    let b : rate * (2 ^ s * (n * mult / 2 ^ s)) ≤ rate * (n * mult) = mul-le-mul_left rate cut.0 in
    le_of_mul-le-mul_right {k = 2 ^ s} (omega arith) (pow_pos s)

module _ (m : Math64) where
  -- The multiplier and shift that a rate had do not matter.
  set_mult-forgets :
      (r : PschedRatecfg) (a b : ℕ) → set_mult m (record r { mult = a; shift = b }) ≡ set_mult m r
  unfolding set_mult
  set_mult-forgets r a b = ground arith

  -- The loop always ends: the rate keeps its other fields, and for a positive rate gets the
  -- reciprocal.
  pub set_mult_lem :
      (r : PschedRatecfg)
      → (mult shift : ℕ) × (set_mult m r ≡ some (record r { mult = mult; shift = shift }))
        × (0 < r.rate_bytes_ps → IsReciprocal r.rate_bytes_ps mult shift)
  unfolding set_mult
  set_mult_lem r = elim (Bool-cases (ltb 0 r.rate_bytes_ps)) [
    | inl moving ↦
        let (mult, shift, e, good) = calibrate_lem m r.rate_bytes_ps (ground arith) in
        rw moving (mult, shift, rw e, λ h. good)
    | inr still ↦ rw still (1, 0, refl, λ h. absurd (ground arith))
  ]

  -- In a rate configuration that the loop has set, a packet's time never exceeds its exact time at
  -- the rate: l2t * rate <= 10^9 * bytes, off ATM and for fewer than 2^32 bytes.
  pub psched_l2t_ns-le :
      (link : LinkLayer) (r : PschedRatecfg) (len : ℕ)
      → IsReciprocal r.rate_bytes_ps r.mult r.shift
      → 0 < r.rate_bytes_ps
      → (r.linklayer == link.linklayer_atm) ≡ false
      → len + r.overhead < 2 ^ 32
      → psched_l2t_ns m link r len * r.rate_bytes_ps ≤ nsec_per_sec * (len + r.overhead)
  unfolding psched_l2t_ns
  psched_l2t_ns-le link r len good moving plain short =
      let total_fits : (len + r.overhead) % 2 ^ 32 ≡ len + r.overhead = omega arith in
      let mult_below : r.mult ≤ 2 ^ 32 = omega arith in
      let product : (len + r.overhead) * r.mult ≤ (len + r.overhead) * 2 ^ 32 =
        mul-le-mul_left (len + r.overhead) mult_below in
      let product_fits : (len + r.overhead) * r.mult % 2 ^ 64 ≡ (len + r.overhead) * r.mult =
        omega arith in
      rw (plain, total_fits, product_fits)
        (never_over (len + r.overhead) r.mult r.rate_bytes_ps r.shift moving good.exact)

  -- A configuration that the loop has set keeps all but its multiplier and shift, so that setting it
  -- for another rate is the same from before.
  retarget :
      (c r : PschedRatecfg) (x : ℕ)
      → set_mult m c ≡ some r
      → (r.undilated_rate_bytes_ps ≡ c.undilated_rate_bytes_ps)
        × (set_mult m (record r { rate_bytes_ps = x })
            ≡ set_mult m (record c { rate_bytes_ps = x }))
  retarget c r x made =
      let (mult, shift, e, _) = set_mult_lem c in
      let joined : some r ≡ some (record c { mult = mult; shift = shift }) = sym made ∙ e in
      let same : r ≡ record c { mult = mult; shift = shift } = cc in
      rw same (refl, set_mult-forgets (record c { rate_bytes_ps = x }) mult shift)

  -- Dilating a configuration that was made outside virtual time gives the one that would have been
  -- made at that dilation.
  pub psched_ratecfg_dilate-precompute :
      (link : LinkLayer) (conf : TcRatespec) (rate64 d : ℕ) (r : PschedRatecfg)
      → 0 < d
      → psched_ratecfg_precompute m link (pos 0) conf rate64 ≡ some r
      → psched_ratecfg_dilate m link r (pos d)
        ≡ psched_ratecfg_precompute m link (pos d) conf rate64
  unfolding psched_ratecfg_dilate psched_ratecfg_precompute dilate_rate
  psched_ratecfg_dilate-precompute link conf rate64 d r positive made =
      let on : ltb_ℤ (pos 0) (pos d) ≡ true = ground arith in
      let step = retarget _ r (u64 (r.undilated_rate_bytes_ps * 1000) / to_u64 (pos d)) made in
      rw on (step.1 ∙ rw step.0)
