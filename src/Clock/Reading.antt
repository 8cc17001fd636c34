-- ===== src/Clock/Reading.antt =====
-- What one reading of a task's virtual clock does.
use virtual_time_kernel.Base.{
  div-le, ℕ, ◌*◌, ◌/◌, ◌^◌, ◌≤◌, ◌<◌, ◌≡◌, ◌∙◌, inl, inr, arith, Bool-cases, ◌==◌,
}
use virtual_time_kernel.Base.Int.{
  ℤ, pos, pos_part, neg_part, ◌+ℤ◌, ◌-ℤ◌, ◌*ℤ◌, quot, quot_parts, scale_parts, int_laws,
  eq_of_parts,
}
use virtual_time_kernel.Base.Word.{s64, s64_id}
use virtual_time_kernel.Math64.{Math64}
use virtual_time_kernel.Timespec.{Timespec, timespec_to_ns}
use virtual_time_kernel.Task.{Task}
use virtual_time_kernel.Clock.{update_physical_past_nsec, update_virtual_past_nsec}
use virtual_time_kernel.Clock.Range.{IsSpan, InVirtualTime, elapsed, IsReading}

-- The virtual time that passes in the running time `delta` at the dilation `d` / 1000.
abbrev pub dilated : ℕ → ℤ → ℤ
dilated d delta = quot (delta *ℤ pos 1000) (pos d)

pub dilated_parts :
    (d : ℕ) (delta : ℤ)
    → 0 < d
    → (pos_part (dilated d delta) ≡ pos_part delta * 1000 / d)
      × (neg_part (dilated d delta) ≡ neg_part delta * 1000 / d)
dilated_parts d delta h =
    let s = scale_parts delta 1000 in
    let q = quot_parts (delta *ℤ pos 1000) d h in rw (← s.0, ← s.1) q

-- At 1000 the division is exact: the branch that skips it changes nothing.
dilated_unit : (d : ℕ) (delta : ℤ) → d ≡ 1000 → dilated d delta ≡ delta
dilated_unit d delta e =
    let p = dilated_parts d delta (omega arith) in
    let q : (pos_part delta * 1000 / d ≡ pos_part delta)
        × (neg_part delta * 1000 / d ≡ neg_part delta) =
      rw e (omega arith) in
    eq_of_parts _ _ (omega arith)

pub dilated_bound :
    (d : ℕ) (delta : ℤ)
    → 0 < d
    → (pos_part (dilated d delta) ≤ pos_part delta * 1000)
      × (neg_part (dilated d delta) ≤ neg_part delta * 1000)
dilated_bound d delta h = omega (
  arith,
  dilated_parts d delta h,
  div-le (pos_part delta * 1000) d,
  div-le (neg_part delta * 1000) d,
)

module _ {d : ℕ} {t : Task} (ts : Timespec) (v : InVirtualTime d t)
    (r : IsReading t (timespec_to_ns ts)) where
  -- The three wrapping subtractions give the elapsed time, and the sum ends at the reading.
  pub update_physical_lem : update_physical_past_nsec t ts ≡ (
    record t { physical_past_nsec = t.physical_past_nsec +ℤ elapsed t (timespec_to_ns ts) },
    elapsed t (timespec_to_ns ts),
  )
  unfolding update_physical_past_nsec
  update_physical_lem =
      let now : ℤ = timespec_to_ns ts in
      let e₁ : s64 (now -ℤ t.physical_past_nsec) ≡ now -ℤ t.physical_past_nsec =
        s64_id _ (omega int_laws) (omega int_laws) in
      let e₂ : s64 (now -ℤ t.physical_past_nsec -ℤ t.physical_start_nsec)
          ≡ now -ℤ t.physical_past_nsec -ℤ t.physical_start_nsec =
        s64_id _ (omega int_laws) (omega int_laws) in
      let e₃ : s64 (now -ℤ t.physical_past_nsec -ℤ t.physical_start_nsec -ℤ t.freeze_past_nsec)
          ≡ elapsed t now =
        s64_id _ (omega int_laws) (omega int_laws) ∙ eq_of_parts _ _ (omega int_laws) in
      let e₄ : s64 (t.physical_past_nsec +ℤ elapsed t now) ≡ t.physical_past_nsec +ℤ elapsed t now =
        s64_id _ (omega int_laws) (omega int_laws) in
      rw (e₁, e₂, e₃, e₄)

module _ (m : Math64) {d : ℕ} (t : Task) (delta : ℤ) (is_tdf : t.dilation ≡ pos d) (tdf_pos : 0 < d)
    (tdf_bound : d ≤ 100000) (past : IsSpan t.virtual_past_nsec)
    (small : (pos_part delta < 2 ^ 52) × (neg_part delta < 2 ^ 52)) where
  -- The virtual past grows by the dilated time, on the branch without division too.
  pub update_virtual_lem :
      update_virtual_past_nsec m t delta t.dilation
      ≡ record t { virtual_past_nsec = t.virtual_past_nsec +ℤ dilated d delta }
  unfolding update_virtual_past_nsec
  update_virtual_lem =
      let s = scale_parts delta 1000 in
      let b = dilated_bound d delta tdf_pos in
      let scaled : s64 (delta *ℤ pos 1000) ≡ delta *ℤ pos 1000 =
        s64_id _ (omega arith) (omega arith) in
      let grown : s64 (t.virtual_past_nsec +ℤ dilated d delta)
          ≡ t.virtual_past_nsec +ℤ dilated d delta =
        s64_id _ (omega int_laws) (omega int_laws) in
      rw (is_tdf, scaled, m.div_s64-quot (delta *ℤ pos 1000) d tdf_pos, grown)
        (elim (Bool-cases (d == 1000)) [
          | inl unit ↦
              let same : dilated d delta ≡ delta = dilated_unit d delta (ground arith) in
              let plain : s64 (t.virtual_past_nsec +ℤ delta)
                  ≡ t.virtual_past_nsec +ℤ dilated d delta =
                rw same (s64_id _ (omega int_laws) (omega int_laws)) in
              ground arith
          | inr other ↦ ground arith
        ])
