-- ===== src/Tests/Dilation.antt =====
-- Freezing, unfreezing and changes of dilation.
use virtual_time_kernel.Base.{ℕ, ◌≡◌, refl, ◌<◌, arith, true, false, ◌∷◌, [], if◌then◌else◌, ◌==◌}
use virtual_time_kernel.Base.Int.{pos, ◌+ℤ◌, ◌-ℤ◌, ◌*ℤ◌}
use virtual_time_kernel.Base.Word.{s64}
use virtual_time_kernel.Timespec.{timespec_to_ns}
use virtual_time_kernel.Task.{In, In_forest, sigstop, sigcont, Kernel}
use virtual_time_kernel.Clock.{real_virtual_timekeeping}
use virtual_time_kernel.Clock.Range.{IsInstant, accounted}
use virtual_time_kernel.Clock.Advance.{virtual_clock, read_at}
use virtual_time_kernel.Dilation.{freeze_time, unfreeze_time, set_dilation, change_tdf}
use virtual_time_kernel.Dilation.Freeze.{HasFrozen, SameClocks}
use virtual_time_kernel.Dilation.Thaw.{
  at_reading, thawed, unfreeze_time-descendants, unfreeze_time-freeze_time,
}
use virtual_time_kernel.Dilation.Transparent.{freeze_is_transparent}
use virtual_time_kernel.Dilation.Retune.{change_tdf_offsets}
use virtual_time_kernel.Dilation.Subtree.{set_dilation-Uniform, Uniform, Distinct}
use virtual_time_kernel.Tests.Samples.{math64, ns, half_speed, wall, family, children, emulation}
use virtual_time_kernel.Tests.Clock.{half_speed-InVirtualTime, half_speed-IsReading}

reading-IsInstant : (n : ℕ) → n < 1000 → IsInstant (at_reading wall n)
unfolding timespec_to_ns ◌*ℤ◌ ◌+ℤ◌ s64
reading-IsInstant n small = ground arith

abbrev stopped : Kernel
stopped = record emulation {
  tasks = λ p. if p == 1 then record half_speed { freeze_start_nsec = pos 1500 } else half_speed;
}

unfreeze_time-descendants_example :
    let k' = unfreeze_time math64 wall family stopped in
    ((q : ℕ)
      → In_forest q children ≡ true
      → HasFrozen
          (pos 0)
          (thawed (stopped.tasks 1) (at_reading wall 0)).freeze_past_nsec
          (k'.tasks q))
    × ((q : ℕ) → SameClocks (k'.tasks q) (stopped.tasks q))
    × ((q : ℕ) → In q family ≡ false → k'.tasks q ≡ stopped.tasks q)
unfreeze_time-descendants_example = unfreeze_time-descendants math64 wall 1 children stopped refl

unfreeze_time-freeze_time_example :
    let k' = unfreeze_time math64 wall family (freeze_time math64 wall 1 emulation) in
    (k'.tasks 1
      ≡ record half_speed { freeze_past_nsec = pos 0 +ℤ (at_reading wall 1 -ℤ at_reading wall 0) })
    × (k'.signals ≡ (1, sigcont) ∷ (1, sigstop) ∷ [])
unfolding timespec_to_ns
unfreeze_time-freeze_time_example =
    unfreeze_time-freeze_time math64 wall 1 children emulation refl refl (omega arith)
      (reading-IsInstant 0 (omega arith)) (reading-IsInstant 1 (omega arith)) (omega arith)

freeze_is_transparent_example :
    let k' = unfreeze_time math64 wall family (freeze_time math64 wall 1 emulation) in
    timespec_to_ns (real_virtual_timekeeping math64 (k'.tasks 1) (ns 6000)).1
    ≡ timespec_to_ns (real_virtual_timekeeping math64 half_speed (ns 5000)).1
unfolding timespec_to_ns ◌-ℤ◌
freeze_is_transparent_example =
    freeze_is_transparent math64 wall 1 children emulation (ns 6000) (ns 5000) refl refl
      half_speed-InVirtualTime (reading-IsInstant 0 (omega arith))
      (reading-IsInstant 1 (omega arith)) (omega arith) (omega arith) (omega arith)
      half_speed-IsReading (omega arith) refl

change_tdf_offsets_example :
    let t' = change_tdf math64 half_speed (timespec_to_ns (ns 5000)) (pos 4000) in
    (virtual_clock t'
      ≡ virtual_clock (read_at 2000 half_speed (timespec_to_ns (ns 5000)))
        +ℤ (timespec_to_ns (ns 5000) -ℤ pos 1000))
    × (accounted t' ≡ timespec_to_ns (ns 5000) +ℤ pos 0)
    × (t'.dilation ≡ pos 4000)
change_tdf_offsets_example =
    change_tdf_offsets math64 half_speed (timespec_to_ns (ns 5000)) (pos 4000)
      half_speed-InVirtualTime half_speed-IsReading

family-Distinct : Distinct family
family-Distinct = (refl, ((refl, tt), tt, λ q h. refl))

family-Uniform : Uniform math64 wall (pos 5000) (pos 2000) family emulation
family-Uniform q h = ground arith

set_dilation-Uniform_example :
    let k' = (set_dilation math64 wall family (pos 5000) emulation).0 in
    Uniform math64 wall (pos 5000) (pos 5000) family k'
    × ((q : ℕ) → In q family ≡ false → (k'.tasks q).dilation ≡ (emulation.tasks q).dilation)
set_dilation-Uniform_example =
    set_dilation-Uniform math64 wall (pos 5000) family emulation (pos 2000) refl family-Distinct
      family-Uniform
