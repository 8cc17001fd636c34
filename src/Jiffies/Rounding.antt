-- ===== src/Jiffies/Rounding.antt =====
-- How the conversions round.
use native.Mathlib.Nat.{div-add-mod, mod-lt}
use virtual_time_kernel.Base.{
  ℕ, ◌+◌, ◌-◌, ◌*◌, ◌/◌, ◌%◌, ◌^◌, ◌≤◌, ◌<◌, ◌≡◌, refl, arith, true, false, leb, ◌==◌, Bool-cases,
  inl, inr, div_bounds,
}
use virtual_time_kernel.Base.Int.{
  pos, pos_part, neg_part, ◌-ℤ◌, rem, rem_parts, ◌≤ℤ◌, ◌<ℤ◌, int_laws,
}
use virtual_time_kernel.Base.Word.{u32, u64, s64, s64_id}
use virtual_time_kernel.Math64.{Math64}
use virtual_time_kernel.Timespec.{Timespec, nsec_per_sec, IsNormal}
use virtual_time_kernel.Jiffies.{
  Config, divides_second, msecs_to_jiffies, jiffies_to_msecs, jiffies_to_timespec, timespec_trunc,
  jiffies_to_usecs,
}

-- Rounding up to a multiple of k and back loses less than k.
round_up : (m k : ℕ) → 0 < k → (m ≤ k * ((m + (k - 1)) / k)) × (k * ((m + (k - 1)) / k) < m + k)
round_up m k p = let b = div_bounds (m + (k - 1)) k p in (omega arith, omega arith)

module _ (cfg : Config) where
  -- Where a tick is a whole number of milliseconds, a timeout is rounded up to ticks: as
  -- milliseconds it is the timeout or more, by less than a tick.
  pub msecs_to_jiffies_lem :
      (m : ℕ)
      → divides_second cfg.hz 1000 ≡ true
      → 0 < cfg.hz
      → m < 2 ^ 31
      → let back = jiffies_to_msecs cfg (msecs_to_jiffies cfg m) in
        (m ≤ back) × (back < m + 1000 / cfg.hz)
  unfolding jiffies_to_msecs msecs_to_jiffies
  msecs_to_jiffies_lem m whole hz_pos small =
      let in_range : leb (2 ^ 31) m ≡ false = ground arith in
      let k = 1000 / cfg.hz in
      let cut = div_bounds 1000 cfg.hz hz_pos in
      let k_pos : 0 < k = elim (Bool-cases (1000 / cfg.hz == 0)) [
        | inl e ↦ let z : 1000 / cfg.hz ≡ 0 = ground arith in absurd (ground (arith, cut.1))
        | inr e ↦ ground arith
      ] in
      let k_small : k ≤ 1000 = grind arith in
      let r = round_up m k k_pos in
      let fits : u32 (u64 (k * ((m + (k - 1)) / k))) ≡ k * ((m + (k - 1)) / k) = omega arith in
      rw (in_range, whole, fits) r

  -- Truncating a normal time to a granularity of up to a second keeps it normal and in the same
  -- second, and takes off less than the granularity.
  timespec_trunc_lem :
      (t : Timespec) (gran : ℕ)
      → IsNormal t
      → 0 < gran
      → gran ≤ nsec_per_sec
      → let r = timespec_trunc cfg t gran in
        (r.tv_sec ≡ t.tv_sec)
        × IsNormal r
        × (r.tv_nsec ≤ℤ t.tv_nsec)
        × ((t.tv_nsec -ℤ r.tv_nsec) <ℤ pos gran)
  unfolding timespec_trunc
  timespec_trunc_lem t gran normal p q =
      let zero_lost = normal.nonneg in
      let in_sec = normal.below in
      let parts = rem_parts t.tv_nsec gran p in
      let none_lost : neg_part t.tv_nsec % gran ≡ 0 = rw zero_lost (grind arith) in
      let cut = div_bounds (pos_part t.tv_nsec) gran p in
      let less : pos_part t.tv_nsec % gran < gran = mod-lt (pos_part t.tv_nsec) p in
      let under : pos_part t.tv_nsec % gran ≤ pos_part t.tv_nsec =
        omega (arith, div-add-mod (pos_part t.tv_nsec) gran) in
      let left : s64 (t.tv_nsec -ℤ rem t.tv_nsec (pos gran))
          ≡ t.tv_nsec -ℤ rem t.tv_nsec (pos gran) =
        s64_id _ (omega int_laws) (omega int_laws) in
      elim (Bool-cases (leb gran (u32 (jiffies_to_usecs cfg 1 * 1000)))) [
        | inl tick ↦ rw (tick, timespec_trunc) (refl, normal, omega arith, omega int_laws)
        | inr coarse ↦ elim (Bool-cases (gran == nsec_per_sec)) [
          | inl second ↦
              rw (coarse, second, timespec_trunc)
                (
                  refl,
                  record { nonneg = refl; below = omega arith },
                  omega arith,
                  let g : gran ≡ nsec_per_sec = ground arith in omega int_laws,
                )
          | inr other ↦
              rw (coarse, other, left, timespec_trunc)
                (
                  refl,
                  record { nonneg = omega int_laws; below = omega int_laws },
                  omega int_laws,
                  omega int_laws,
                )
        ]
      ]

module _ (m : Math64) (cfg : Config) where
  -- A number of ticks as a time is normal and stands for that many ticks, if they fit 2^63 ns.
  pub jiffies_to_timespec_lem :
      (j : ℕ)
      → j * cfg.tick_nsec < 2 ^ 63
      → let ts = jiffies_to_timespec m cfg j in
        IsNormal ts × (pos_part ts.tv_sec * nsec_per_sec + pos_part ts.tv_nsec ≡ j * cfg.tick_nsec)
  unfolding jiffies_to_timespec
  jiffies_to_timespec_lem j fits =
      let ns : u64 (j * cfg.tick_nsec) ≡ j * cfg.tick_nsec = omega arith in
      let sec : s64 (pos (j * cfg.tick_nsec / nsec_per_sec))
          ≡ pos (j * cfg.tick_nsec / nsec_per_sec) =
        s64_id _ (omega arith) (omega arith) in
      rw (ns, m.div_u64_rem-div (j * cfg.tick_nsec) nsec_per_sec (omega arith) (omega arith), sec)
        (record { nonneg = refl; below = omega arith }, omega arith)
