-- ===== src/Tests/Proc.antt =====
-- The files of /proc/$pid.
use virtual_time_kernel.Base.{
  ℕ, ◌≡◌, refl, ltb, if◌then◌else◌, ◌-◌, ◌∷◌, [], List, Option, none, some,
}
use virtual_time_kernel.Base.Int.{ℤ, pos, negsuc, quot}
use virtual_time_kernel.Task.{Kernel}
use virtual_time_kernel.Proc.{
  number, kiloseconds, seconds, milliseconds, dilation_show, fpt_show, vpt_show, show_frozen_past,
  show_past, show_below_kiloseconds, dilation_write,
}
use virtual_time_kernel.Proc.Write.{dilation_show-dilation_write, dilation_write-negative}
use virtual_time_kernel.Tests.Samples.{math64, half_speed, wall, family, children, emulation}

abbrev late : Kernel
late = record emulation {
  tasks = λ p. record half_speed {
    freeze_past_nsec = pos 2_500_000;
    virtual_past_nsec = pos 1_234_000_000_000;
    physical_past_nsec = pos 2_468_000_000_000;
  };
}

-- 2.5 ms are shown as 2 ms.
milliseconds_shown : fpt_show (some 1) late ≡ (pos 0, milliseconds (pos 2) ∷ [])
unfolding fpt_show show_frozen_past show_below_kiloseconds quot
milliseconds_shown = refl

-- 1234 s are shown as 1 ks, and again as 1234 s.
two_lines : vpt_show (some 1) late ≡ (pos 0, kiloseconds (pos 1) ∷ seconds (pos 1234) ∷ [])
unfolding vpt_show show_past show_below_kiloseconds quot
two_lines = refl

-- A user's buffer of one byte.
abbrev copy_byte : ℕ → ℕ → Option (List ℕ)
copy_byte b n = some (b ∷ [])

-- Reads one decimal digit.
abbrev digit : List ℕ → Option ℤ
digit [] = none
digit (b ∷ _) = if ltb b b'0' then some (negsuc 0) else some (pos (b - b'0'))

dilation_show-dilation_write_example :
    let r = dilation_write math64 wall digit (some family) (copy_byte b'7') 1 emulation in
    (r.1 ≡ pos 1) × (dilation_show (some 1) r.0 ≡ (pos 0, number (pos 7) ∷ []))
dilation_show-dilation_write_example =
    dilation_show-dilation_write math64 wall digit 1 children (copy_byte b'7') 1 (b'7' ∷ []) 7
      emulation refl refl refl

dilation_write-negative_example :
    dilation_write math64 wall digit (some family) (copy_byte b'-') 1 emulation ≡ (emulation, pos 1)
dilation_write-negative_example =
    dilation_write-negative math64 wall digit family (copy_byte b'-') 1 (b'-' ∷ []) 0 emulation refl
      refl
