-- ===== src/Psched/Calibrate.antt =====
-- The loop that chooses mult and shift.
use native.Mathlib.Nat.{pow-succ', mul-le-mul_left}
use virtual_time_kernel.Base.{
  ℕ, zero, suc, ◌+◌, ◌*◌, ◌/◌, ◌%◌, ◌^◌, ◌≤◌, ◌<◌, ◌≡◌, ◌≢◌, refl, ap, arith, ◌||◌, Option, none,
  some, ltb, ◌==◌, Bool-cases, inl, inr, div_bounds, div-le,
}
use virtual_time_kernel.Base.Word.{u32, u64}
use virtual_time_kernel.Math64.{Math64}
use virtual_time_kernel.Timespec.{nsec_per_sec}
use virtual_time_kernel.Psched.{calibrate, loop_fuel}

-- The multiplier is the reciprocal of the rate at this shift, rounded down, and fits 32 bits.
pub record IsReciprocal (rate mult shift : ℕ) : Type 0 where
  pub exact : mult ≡ nsec_per_sec * 2 ^ shift / rate
  pub fits : mult < 2 ^ 32
  pub short : shift ≤ 34

-- What the loop finds from a factor that has been shifted `shift` times.
abbrev Finds : ℕ → Option (ℕ × ℕ) → Type 0
Finds rate none = ⊥
Finds rate (some (mult, shift)) = IsReciprocal rate mult shift

double_fits : (f r : ℕ) → 0 < r → f / r < 2 ^ 31 → f * 2 / r < 2 ^ 32
double_fits f r p h =
    let a = div_bounds f r p in
    let b = div_bounds (f * 2) r p in
    let c : r * suc (f / r) ≤ r * 2 ^ 31 = mul-le-mul_left r h in
    elim (Bool-cases (ltb (f * 2 / r) (2 ^ 32))) [
      | inl fits ↦ ground arith
      | inr large ↦
          let d : r * 2 ^ 32 ≤ r * (f * 2 / r) = mul-le-mul_left r (ground arith) in
          absurd (omega arith)
    ]

calibrate_loop :
    (m : Math64) (fuel factor rate shift : ℕ)
    → 0 < rate
    → factor ≡ nsec_per_sec * 2 ^ shift
    → factor < 2 ^ 64
    → factor / rate < 2 ^ 32
    → 2 ^ 63 ≤ factor * 2 ^ fuel
    → fuel + shift ≡ 34
    → Finds rate (calibrate m (suc fuel) factor rate shift)
unfolding calibrate
calibrate_loop m zero factor rate shift p e small fits top count =
    let md : u32 (m.div64_u64 factor rate) ≡ factor / rate =
      rw (m.div64_u64-div factor rate p) (omega arith) in
    rw md (elim (Bool-cases ((factor / rate / 2 ^ 31 % 2 == 1) || (factor / 2 ^ 63 % 2 == 1))) [
      | inl stop ↦
          rw stop (record { exact = ap (λ x. x / rate) e; fits = fits; short = omega arith })
      | inr go ↦ let high : factor / 2 ^ 63 % 2 ≡ 1 = omega arith in absurd (ground arith)
    ])
calibrate_loop m (suc fuel) factor rate shift p e small fits top count =
    let md : u32 (m.div64_u64 factor rate) ≡ factor / rate =
      rw (m.div64_u64-div factor rate p) (omega arith) in
    rw md (elim (Bool-cases ((factor / rate / 2 ^ 31 % 2 == 1) || (factor / 2 ^ 63 % 2 == 1))) [
      | inl stop ↦
          rw stop (record { exact = ap (λ x. x / rate) e; fits = fits; short = omega arith })
      | inr go ↦
          let low : (factor / rate / 2 ^ 31 % 2 ≢ 1) × (factor / 2 ^ 63 % 2 ≢ 1) = ground arith in
          let twice : u64 (factor * 2) ≡ factor * 2 = omega arith in
          let next : (shift + 1) % 256 ≡ suc shift = omega arith in
          rw (go, twice, next)
            (calibrate_loop m fuel (factor * 2) rate (suc shift) p
              (omega (arith, pow-succ' 2 shift)) (omega arith)
              (double_fits factor rate p (omega arith))
              (omega (arith, ap (λ (t : ℕ). factor * t) (pow-succ' 2 fuel))) (omega arith))
    ])

-- With a positive rate the loop ends within its fuel, after at most 34 shifts, and the multiplier
-- that it leaves is the reciprocal of the rate rounded down, without loss in 32 bits.
pub calibrate_lem :
    (m : Math64) (rate : ℕ)
    → 0 < rate
    → (mult shift : ℕ) × (calibrate m loop_fuel nsec_per_sec rate 0 ≡ some (mult, shift))
      × IsReciprocal rate mult shift
calibrate_lem m rate p = found (calibrate m loop_fuel nsec_per_sec rate 0) refl (
    calibrate_loop m 34 nsec_per_sec rate 0 p refl (omega arith)
      (omega (arith, div-le nsec_per_sec rate)) (omega arith) refl)
  where
    found :
        (o : Option (ℕ × ℕ))
        → calibrate m loop_fuel nsec_per_sec rate 0 ≡ o
        → Finds rate o
        → (mult shift : ℕ) × (calibrate m loop_fuel nsec_per_sec rate 0 ≡ some (mult, shift))
          × IsReciprocal rate mult shift
    found none e f = absurd f
    found (some (mult, shift)) e f = (mult, shift, e, f)
