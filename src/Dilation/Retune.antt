-- ===== src/Dilation/Retune.antt =====
-- One process of set_dilation: what each branch leaves.
use virtual_time_kernel.Base.{
  ℕ, suc, ◌<◌, ◌≡◌, refl, ◌∙◌, inl, inr, true, arith, Bool-cases, ◌==◌, if◌then◌else◌,
}
use virtual_time_kernel.Base.Int.{
  ℤ, pos, neg_part, ◌+ℤ◌, ◌-ℤ◌, ◌*ℤ◌, ltb_ℤ, eqb_ℤ, int_laws, eq_of_parts, parts_disjoint,
  scale_parts,
}
use virtual_time_kernel.Base.Word.{s64, s64_id}
use virtual_time_kernel.Math64.{Math64}
use virtual_time_kernel.Timespec.{Timespec}
use virtual_time_kernel.Task.{Task, Kernel}
use virtual_time_kernel.Clock.{
  real_virtual_timekeeping, update_physical_past_nsec, update_virtual_past_nsec,
}
use virtual_time_kernel.Clock.Range.{accounted, elapsed, InVirtualTime, IsReading}
use virtual_time_kernel.Clock.Reading.{dilated, dilated_bound}
use virtual_time_kernel.Clock.Advance.{virtual_clock, read_at}
use virtual_time_kernel.Dilation.{
  read_wall, getnstimeofday, init_virtual_start_time, change_tdf, retune, unchanged, descend,
}

-- A reading of the clock leaves the dilation and the frozen time alone.
reading-dilation :
    (m : Math64) (t : Task) (ts : Timespec)
    → (real_virtual_timekeeping m t ts).0.dilation ≡ t.dilation
unfolding real_virtual_timekeeping update_physical_past_nsec update_virtual_past_nsec
reading-dilation m t ts = ground arith

module _ (m : Math64) (wall : ℕ → Timespec) where
  getnstimeofday-dilation :
      (k : Kernel) (q : ℕ) → ((getnstimeofday m wall k).0.tasks q).dilation ≡ (k.tasks q).dilation
  unfolding getnstimeofday
  getnstimeofday-dilation k q =
      ground (arith, reading-dilation m (k.tasks k.current) (wall k.reads))

  init-dilation :
      (p : ℕ) (tdf : ℤ) (k : Kernel) (q : ℕ)
      → ltb_ℤ (pos 0) tdf ≡ true
      → ((init_virtual_start_time m wall p tdf k).tasks q).dilation
        ≡ (if p == q then tdf else (k.tasks q).dilation)
  unfolding init_virtual_start_time read_wall
  init-dilation p tdf k q positive =
      let read = getnstimeofday-dilation (record k { reads = suc k.reads }) q in
      rw positive (elim (Bool-cases (p == q)) [ inl same ↦ rw same | inr other ↦ rw other read ])

  -- A dilation of 0 or more reaches the process, and no other process changes its dilation.
  pub retune-dilation :
      (p : ℕ) (new_tdf : ℤ) (k : Kernel) (q : ℕ)
      → neg_part new_tdf ≡ 0
      → ((retune m wall p new_tdf k).0.tasks q).dilation
        ≡ (if p == q then new_tdf else (k.tasks q).dilation)
  unfolding retune change_tdf read_wall
  retune-dilation p new_tdf k q nonneg =
      ground (arith, init-dilation p new_tdf k q, eq_of_parts (k.tasks p).dilation new_tdf)

  -- The walk goes on to the children exactly if the dilation is new and is not refused.
  pub retune-verdict :
      (p : ℕ) (new_tdf : ℤ) (k : Kernel)
      → neg_part new_tdf ≡ 0
      → (retune m wall p new_tdf k).1
        ≡ (if eqb_ℤ (k.tasks p).dilation new_tdf then unchanged else descend)
  unfolding retune
  retune-verdict p new_tdf k nonneg = ground arith

  -- A negative dilation changes nothing.
  pub retune-negative :
      (p : ℕ) (new_tdf : ℤ) (k : Kernel) → 0 < neg_part new_tdf → (retune m wall p new_tdf k).0 ≡ k
  unfolding retune init_virtual_start_time
  retune-negative p new_tdf k negative = ground (arith, parts_disjoint new_tdf)

-- A change of dilation inside virtual time first accounts for the span since the last reading at the
-- old dilation, as a reading would. But it sets the start to now and keeps the whole virtual past,
-- so the virtual clock comes out ahead of that reading by all the time since the old start; and it
-- keeps the frozen time, which the next reading subtracts a second time.
pub change_tdf_offsets :
    (m : Math64) {d : ℕ} (t : Task) (now new_tdf : ℤ)
    → InVirtualTime d t
    → IsReading t now
    → let t' = change_tdf m t now new_tdf in
      (virtual_clock t' ≡ virtual_clock (read_at d t now) +ℤ (now -ℤ t.virtual_start_nsec))
      × (accounted t' ≡ now +ℤ t.freeze_past_nsec)
      × (t'.dilation ≡ new_tdf)
unfolding change_tdf
change_tdf_offsets m {d} t now new_tdf v r =
    let e₁ : s64 (now -ℤ t.physical_past_nsec) ≡ now -ℤ t.physical_past_nsec =
      s64_id _ (omega int_laws) (omega int_laws) in
    let e₂ : s64 (now -ℤ t.physical_past_nsec -ℤ t.physical_start_nsec)
        ≡ now -ℤ t.physical_past_nsec -ℤ t.physical_start_nsec =
      s64_id _ (omega int_laws) (omega int_laws) in
    let e₃ : s64 (now -ℤ t.physical_past_nsec -ℤ t.physical_start_nsec -ℤ t.freeze_past_nsec)
        ≡ elapsed t now =
      s64_id _ (omega int_laws) (omega int_laws) ∙ eq_of_parts _ _ (omega int_laws) in
    let s = scale_parts (elapsed t now) 1000 in
    let b = dilated_bound d (elapsed t now) v.tdf_pos in
    let e₄ : s64 (elapsed t now *ℤ pos 1000) ≡ elapsed t now *ℤ pos 1000 =
      s64_id _ (omega arith) (omega arith) in
    let e₅ : s64 (t.virtual_past_nsec +ℤ dilated d (elapsed t now))
        ≡ t.virtual_past_nsec +ℤ dilated d (elapsed t now) =
      s64_id _ (omega int_laws) (omega int_laws) in
    rw (e₁, e₂, e₃, e₄, v.is_tdf, m.div_s64_rem-quot (elapsed t now *ℤ pos 1000) d v.tdf_pos, e₅)
      (eq_of_parts _ _ (omega int_laws), eq_of_parts _ _ (omega int_laws), refl)
