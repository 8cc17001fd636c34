-- ===== src/Timespec/Normal.antt =====
-- The routines that build a timespec return normal ones with the value that they were given.
use virtual_time_kernel.Base.{
  ℕ, zero, suc, ◌+◌, ◌*◌, ◌^◌, ◌≤◌, ◌<◌, ◌≡◌, inl, inr, arith, Bool-cases,
}
use virtual_time_kernel.Base.Int.{
  ℤ, pos, negsuc, pos_part, neg_part, ◌+ℤ◌, ◌-ℤ◌, ◌*ℤ◌, ltb_ℤ, eqb_ℤ, ◌≤ℤ◌, ◌<ℤ◌, int_laws,
  +ℤ_parts, -ℤ_parts, scale_parts, parts_disjoint, eq_of_parts,
}
use virtual_time_kernel.Base.Word.{s64, s32, to_u64, s64_pos, s64_neg, s64_id, InS64}
use virtual_time_kernel.Timespec.{
  nsec_per_sec, carry_up, carry_down, rounds, set_normalized_timespec, IsNormal,
}

-- sec * 10^9 + nsec on two values, as integers without bounds.
abbrev pub SameTime : ℤ → ℤ → ℤ → ℤ → Type 0
SameTime sec nsec sec' nsec' =
    pos_part sec * nsec_per_sec + pos_part nsec + neg_part sec' * nsec_per_sec + neg_part nsec'
    ≡ neg_part sec * nsec_per_sec + neg_part nsec + pos_part sec' * nsec_per_sec + pos_part nsec'

pub ruleset word_laws = (int_laws, s64_pos, s64_neg)

carry_up_lem :
    (fuel : ℕ) (sec nsec : ℤ)
    → pos_part nsec < fuel * nsec_per_sec
    → pos_part sec + fuel < 2 ^ 63
    → neg_part sec ≤ 2 ^ 63
    → InS64 nsec
    → let r = carry_up fuel sec nsec in
      SameTime sec nsec r.0 r.1 × (pos_part r.1 < nsec_per_sec) × (neg_part r.1 ≡ neg_part nsec)
unfolding carry_up
carry_up_lem zero sec nsec h p q s = absurd (omega arith)
carry_up_lem (suc fuel) sec nsec h p q s = elim (Bool-cases (ltb_ℤ nsec (pos nsec_per_sec))) [
  | inl done ↦ rw done (ground (arith, parts_disjoint nsec))
  | inr more ↦
      let big : nsec_per_sec ≤ pos_part nsec = ground (arith, parts_disjoint nsec) in
      let sec_fits : s64 (sec +ℤ pos 1) ≡ sec +ℤ pos 1 =
        s64_id _ (omega int_laws) (omega int_laws) in
      let nsec_fits : s64 (nsec -ℤ pos nsec_per_sec) ≡ nsec -ℤ pos nsec_per_sec =
        s64_id _ (omega int_laws) (omega int_laws) in
      rw (more, sec_fits, nsec_fits)
        (omega (
          int_laws,
          carry_up_lem fuel (sec +ℤ pos 1) (nsec -ℤ pos nsec_per_sec) (omega int_laws)
              (omega int_laws) (omega int_laws) (omega int_laws),
        ))
]

carry_down_lem :
    (fuel : ℕ) (sec nsec : ℤ)
    → neg_part nsec ≤ fuel * nsec_per_sec
    → neg_part sec + fuel ≤ 2 ^ 63
    → pos_part sec < 2 ^ 63
    → pos_part nsec < nsec_per_sec
    → neg_part nsec ≤ 2 ^ 63
    → let r = carry_down fuel sec nsec in
      SameTime sec nsec r.0 r.1 × (pos_part r.1 < nsec_per_sec) × (neg_part r.1 ≡ 0)
unfolding carry_down
carry_down_lem zero sec nsec h p q s u = omega (arith, parts_disjoint nsec)
carry_down_lem (suc fuel) sec nsec h p q s u = elim (Bool-cases (ltb_ℤ nsec (pos 0))) [
  | inr done ↦ rw done (ground (arith, parts_disjoint nsec))
  | inl more ↦
      let below : 0 < neg_part nsec = ground (arith, parts_disjoint nsec) in
      let sec_fits : s64 (sec -ℤ pos 1) ≡ sec -ℤ pos 1 =
        s64_id _ (omega int_laws) (omega int_laws) in
      let nsec_fits : s64 (nsec +ℤ pos nsec_per_sec) ≡ nsec +ℤ pos nsec_per_sec =
        s64_id _ (omega int_laws) (omega int_laws) in
      rw (more, sec_fits, nsec_fits)
        (omega (
          int_laws,
          carry_down_lem fuel (sec -ℤ pos 1) (nsec +ℤ pos nsec_per_sec) (omega int_laws)
              (omega int_laws) (omega int_laws) (omega int_laws) (omega int_laws),
        ))
]

-- Seconds that leave room for the carries of any `nsec`.
abbrev pub HasRoom : ℤ → Type 0
HasRoom sec = (pos_part sec < 2 ^ 62) × (neg_part sec < 2 ^ 62)

-- The second loop, from any point that the first can end at.
settle :
    (sec nsec sec₁ nsec₁ : ℤ)
    → HasRoom sec
    → InS64 nsec
    → SameTime sec nsec sec₁ nsec₁
      × (pos_part nsec₁ < nsec_per_sec)
      × (neg_part nsec₁ ≡ neg_part nsec)
    → let r = carry_down (rounds nsec₁) sec₁ nsec₁ in
      SameTime sec nsec r.0 r.1 × (pos_part r.1 < nsec_per_sec) × (neg_part r.1 ≡ 0)
settle sec nsec sec₁ nsec₁ room fits up =
    let room₁ : (pos_part sec₁ < 2 ^ 62 + 2 ^ 34) × (neg_part sec₁ < 2 ^ 62 + 2 ^ 34) =
      omega (
        arith,
        parts_disjoint sec,
        parts_disjoint sec₁,
        parts_disjoint nsec,
        parts_disjoint nsec₁,
      ) in
    omega (
      arith,
      carry_down_lem (rounds nsec₁) sec₁ nsec₁ (omega arith) (omega arith) (omega arith) up.1
          (omega arith),
    )

-- For a second count below 2 ^ 62 in size and any `s64` nanosecond count, the result is normal and
-- stands for the same time.
pub set_normalized_timespec_lem :
    (sec nsec : ℤ)
    → HasRoom sec
    → InS64 nsec
    → let ts = set_normalized_timespec sec nsec in
      IsNormal ts × SameTime sec nsec ts.tv_sec ts.tv_nsec
unfolding set_normalized_timespec
set_normalized_timespec_lem sec nsec room fits =
    let up = carry_up_lem (rounds nsec) sec nsec (omega arith) (omega arith) (omega arith) fits in
    let r = settle sec nsec _ _ room fits up in (record { nonneg = r.2; below = r.1 }, r.0)
