-- ===== src/Dilation/Thaw.antt =====
-- Freezing and then unfreezing a process group.
use virtual_time_kernel.Base.{
  ℕ, suc, ◌≡◌, refl, ap, ◌∙◌, inl, inr, true, false, arith, Bool-cases, ◌==◌, update, update_self,
  ==_refl, ◌∷◌,
}
use virtual_time_kernel.Base.Int.{ℤ, pos, ◌+ℤ◌, ◌-ℤ◌, ◌<ℤ◌, ltb_ℤ, eqb_ℤ, int_laws}
use virtual_time_kernel.Base.Word.{s64, s64_id}
use virtual_time_kernel.Math64.{Math64}
use virtual_time_kernel.Timespec.{Timespec, timespec_to_ns}
use virtual_time_kernel.Task.{Task, Forest, node, In, In_forest, sigstop, sigcont, Kernel, set_task}
use virtual_time_kernel.Clock.Range.{IsInstant}
use virtual_time_kernel.Dilation.{freeze_time, unfreeze_time, read_wall}
use virtual_time_kernel.Dilation.Freeze.{
  HasFrozen, SameClocks, populate-SameClocks, populate_frozen_time_lem, populate-frame,
  populate-quiet,
}

-- What the n-th reading of the wall clock gives.
abbrev pub at_reading : (ℕ → Timespec) → ℕ → ℤ
at_reading wall n = timespec_to_ns (wall n)

-- A task that is unfrozen at `now`.
abbrev pub thawed : Task → ℤ → Task
thawed t now = record t {
  freeze_past_nsec = s64 (t.freeze_past_nsec +ℤ s64 (now -ℤ t.freeze_start_nsec));
  freeze_start_nsec = pos 0;
}

module _ (m : Math64) (wall : ℕ → Timespec) where
  -- Freezing a frozen group again changes nothing and sends nothing: F, F, F has the effect of the
  -- first F, if the wall clock stands after 1970 at the first.
  freeze_time-idempotent :
      (p : ℕ) (k : Kernel)
      → pos 0 <ℤ at_reading wall k.reads
      → freeze_time m wall p (freeze_time m wall p k) ≡ freeze_time m wall p k
  unfolding freeze_time
  freeze_time-idempotent p k after = ground (arith, ==_refl p)

  unfreeze_self :
      (p : ℕ) (kids : Forest) (k : Kernel)
      → In_forest p kids ≡ false
      → eqb_ℤ (k.tasks p).freeze_start_nsec (pos 0) ≡ false
      → (unfreeze_time m wall (node p kids) k).tasks p
        ≡ thawed (k.tasks p) (at_reading wall k.reads)
  unfolding unfreeze_time read_wall
  unfreeze_self p kids k out frozen =
      rw
        (
          frozen,
          populate-frame p kids
              (set_task (record k { reads = suc k.reads }) p
                (thawed (k.tasks p) (at_reading wall k.reads)))
              p out,
        )
        (update_self k.tasks p _)

  unfreeze_idle :
      (p : ℕ) (kids : Forest) (k : Kernel)
      → eqb_ℤ (k.tasks p).freeze_start_nsec (pos 0) ≡ true
      → unfreeze_time m wall (node p kids) k ≡ k
  unfolding unfreeze_time
  unfreeze_idle p kids k idle = rw idle

  -- Unfreezing a group that is not frozen changes nothing and sends nothing: F, U, U, U has the
  -- effect of F, U, if the leader is not its own descendant.
  unfreeze_time-idempotent :
      (p : ℕ) (kids : Forest) (k : Kernel)
      → In_forest p kids ≡ false
      → unfreeze_time m wall (node p kids) (unfreeze_time m wall (node p kids) k)
        ≡ unfreeze_time m wall (node p kids) k
  unfreeze_time-idempotent p kids k out =
      elim (Bool-cases (eqb_ℤ (k.tasks p).freeze_start_nsec (pos 0))) [
        | inl idle ↦ ap (unfreeze_time m wall (node p kids)) (unfreeze_idle p kids k idle)
        | inr frozen ↦
            unfreeze_idle p kids (unfreeze_time m wall (node p kids) k)
              (rw (unfreeze_self p kids k out frozen))
      ]

  -- After an unfreeze the leader is not frozen.
  pub unfreeze_leader :
      (p : ℕ) (kids : Forest) (k : Kernel)
      → In_forest p kids ≡ false
      → eqb_ℤ ((unfreeze_time m wall (node p kids) k).tasks p).freeze_start_nsec (pos 0) ≡ true
  unfreeze_leader p kids k out = elim (Bool-cases (eqb_ℤ (k.tasks p).freeze_start_nsec (pos 0))) [
    | inl idle ↦ rw (unfreeze_idle p kids k idle) idle
    | inr frozen ↦ rw (unfreeze_self p kids k out frozen)
  ]

  -- Unfreezing gives every descendant the leader's frozen time, and leaves the rest of each
  -- process, and each process outside the group, as it was.
  pub unfreeze_time-descendants :
      (p : ℕ) (kids : Forest) (k : Kernel)
      → eqb_ℤ (k.tasks p).freeze_start_nsec (pos 0) ≡ false
      → let k' = unfreeze_time m wall (node p kids) k in
        ((q : ℕ)
          → In_forest q kids ≡ true
          → HasFrozen
              (pos 0)
              (thawed (k.tasks p) (at_reading wall k.reads)).freeze_past_nsec
              (k'.tasks q))
        × ((q : ℕ) → SameClocks (k'.tasks q) (k.tasks q))
        × ((q : ℕ) → In q (node p kids) ≡ false → k'.tasks q ≡ k.tasks q)
  unfolding unfreeze_time read_wall
  unfreeze_time-descendants p kids k frozen =
      let k₁ : Kernel =
        set_task (record k { reads = suc k.reads }) p
          (thawed (k.tasks p) (at_reading wall k.reads)) in
      let self : k₁.tasks p ≡ thawed (k.tasks p) (at_reading wall k.reads) =
        update_self k.tasks p _ in
      rw frozen (
        λ q below. populate_frozen_time_lem p kids k₁ _ _ q (rw self (refl, refl)) below,
        λ q.
            let same : SameClocks (k₁.tasks q) (k.tasks q) = ground arith in
            let rest = populate-SameClocks p kids k₁ q in
            (rest.0 ∙ same.0, rest.1 ∙ same.1, rest.2 ∙ same.2, rest.3 ∙ same.3, rest.4 ∙ same.4),
        λ q out.
            let elsewhere : (p == q ≡ false) × (In_forest q kids ≡ false) = ground arith in
            populate-frame p kids k₁ q elsewhere.1 ∙ rw elsewhere.0,
      )

  -- The kernel that a first freeze leaves.
  abbrev frozen_at : ℕ → Kernel → ℤ → Kernel
  frozen_at p k now = record k {
    tasks = update k.tasks p (record (k.tasks p) { freeze_start_nsec = now });
    reads = suc k.reads;
    signals = (p, sigstop) ∷ k.signals;
  }

  freeze_fresh :
      (p : ℕ) (k : Kernel)
      → (k.tasks p).freeze_start_nsec ≡ pos 0
      → freeze_time m wall p k ≡ frozen_at p k (at_reading wall k.reads)
  unfolding freeze_time read_wall
  freeze_fresh p k idle =
      let free : ltb_ℤ (pos 0) (k.tasks p).freeze_start_nsec ≡ false = rw idle in rw free

  unfreeze_signals :
      (p : ℕ) (kids : Forest) (k : Kernel)
      → eqb_ℤ (k.tasks p).freeze_start_nsec (pos 0) ≡ false
      → (unfreeze_time m wall (node p kids) k).signals ≡ (p, sigcont) ∷ k.signals
  unfolding unfreeze_time read_wall
  unfreeze_signals p kids k frozen =
      let k₁ : Kernel =
        set_task (record k { reads = suc k.reads }) p
          (thawed (k.tasks p) (at_reading wall k.reads)) in
      let quiet = populate-quiet p kids k₁ in rw (frozen, quiet.0)

  -- A group that is frozen at the k-th reading and unfrozen at the next one: the leader's frozen
  -- time grows by the span between, and its group is stopped once and then continued once.
  pub unfreeze_time-freeze_time :
      (p : ℕ) (kids : Forest) (k : Kernel)
      → In_forest p kids ≡ false
      → (k.tasks p).freeze_start_nsec ≡ pos 0
      → IsInstant (k.tasks p).freeze_past_nsec
      → IsInstant (at_reading wall k.reads)
      → IsInstant (at_reading wall (suc k.reads))
      → pos 0 <ℤ at_reading wall k.reads
      → let k' = unfreeze_time m wall (node p kids) (freeze_time m wall p k) in
        (k'.tasks p ≡ record (k.tasks p) {
          freeze_past_nsec =
              (k.tasks p).freeze_past_nsec
              +ℤ (at_reading wall (suc k.reads) -ℤ at_reading wall k.reads);
        })
        × (k'.signals ≡ (p, sigcont) ∷ (p, sigstop) ∷ k.signals)
  unfreeze_time-freeze_time p kids k out idle past first second after =
      let t₁ : ℤ = at_reading wall k.reads in
      let t₂ : ℤ = at_reading wall (suc k.reads) in
      let k₁ : Kernel = frozen_at p k t₁ in
      let start : (k₁.tasks p).freeze_start_nsec ≡ t₁ = rw (==_refl p) in
      let stopped : eqb_ℤ (k₁.tasks p).freeze_start_nsec (pos 0) ≡ false =
        rw start (ground arith) in
      let span : s64 (t₂ -ℤ t₁) ≡ t₂ -ℤ t₁ = s64_id _ (omega int_laws) (omega int_laws) in
      let sum : s64 ((k.tasks p).freeze_past_nsec +ℤ (t₂ -ℤ t₁))
          ≡ (k.tasks p).freeze_past_nsec +ℤ (t₂ -ℤ t₁) =
        s64_id _ (omega int_laws) (omega int_laws) in
      let self : thawed (k₁.tasks p) t₂ ≡ record (k.tasks p) {
        freeze_past_nsec = (k.tasks p).freeze_past_nsec +ℤ (t₂ -ℤ t₁);
        freeze_start_nsec = pos 0;
      } =
        rw (==_refl p, span, sum) in
      rw (freeze_fresh p k idle)
        (unfreeze_self p kids k₁ out stopped ∙ self ∙ rw idle, unfreeze_signals p kids k₁ stopped)
