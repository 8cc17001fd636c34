-- ===== src/Proc.antt =====
-- fs/proc/base.c: the files freeze, dilation, fpt, vpt and ppt of /proc/$pid. What `get_proc_task`
-- finds, what `copy_from_user` copies and what `kstrtoint` reads are arguments.
pub mod Show
pub mod Write
use virtual_time_kernel.Base.{
  ℕ, suc, ◌+◌, ◌*◌, ◌≤◌, ◌<◌, Bool, true, false, List, [], ◌∷◌, Option, none, some, ltb, ◌==◌,
  if◌then◌else◌,
}
use virtual_time_kernel.Base.Int.{ℤ, pos, negsuc, ltb_ℤ, eqb_ℤ, quot}
use virtual_time_kernel.Math64.{Math64}
use virtual_time_kernel.Timespec.{Timespec, nsec_per_sec}
use virtual_time_kernel.Task.{Task, Tree, node, Kernel}
use virtual_time_kernel.Dilation.{einval, freeze_time, unfreeze_time, set_dilation}

-- -EFAULT and -ESRCH
abbrev pub efault : ℤ
efault = negsuc 13

abbrev pub esrch : ℤ
esrch = negsuc 2

-- One call of seq_printf: the text after the number says the unit.
pub data Line : Type 0 where
  frozen running : Line
  number : ℤ → Line
  kiloseconds seconds milliseconds microseconds nanoseconds : ℤ → Line

-- The result of a show method and what it printed.
abbrev pub Shown : Type 0
Shown = ℤ × List Line

abbrev pub nsec_per_msec : ℕ
nsec_per_msec = 1_000_000

abbrev pub nsec_per_usec : ℕ
nsec_per_usec = 1000

unfoldable pub freeze_show : Option ℕ → Kernel → Shown
freeze_show none k = (esrch, [])
freeze_show (some p) k =
    if eqb_ℤ (k.tasks p).freeze_start_nsec (pos 0)
    then (pos 0, running ∷ [])
    else (pos 0, frozen ∷ [])

unfoldable pub dilation_show : Option ℕ → Kernel → Shown
dilation_show none k = (esrch, [])
dilation_show (some p) k = (pos 0, number (k.tasks p).dilation ∷ [])

-- From the test for seconds on; the code is the same in the three methods.
unfoldable pub show_below_kiloseconds : ℤ → List Line
show_below_kiloseconds t =
    if ltb_ℤ (pos nsec_per_sec) t
    then seconds (quot t (pos nsec_per_sec)) ∷ []
    else if ltb_ℤ (pos nsec_per_msec) t
    then milliseconds (quot t (pos nsec_per_msec)) ∷ []
    else if ltb_ℤ (pos nsec_per_usec) t
    then microseconds (quot t (pos nsec_per_usec)) ∷ []
    else nanoseconds t ∷ []

abbrev pub thousands : ℤ → ℤ
thousands t = quot (quot t (pos nsec_per_sec)) (pos 1000)

unfoldable pub show_frozen_past : ℤ → List Line
show_frozen_past t =
    if ltb_ℤ (pos (1000 * nsec_per_sec)) t
    then kiloseconds (thousands t) ∷ []
    else show_below_kiloseconds t

-- Here the test for seconds stands behind an `if`, with no `else` before it.
unfoldable pub show_past : ℤ → List Line
show_past t =
    if ltb_ℤ (pos (1000 * nsec_per_sec)) t
    then kiloseconds (thousands t) ∷ show_below_kiloseconds t
    else show_below_kiloseconds t

unfoldable pub fpt_show : Option ℕ → Kernel → Shown
fpt_show none k = (esrch, [])
fpt_show (some p) k = (pos 0, show_frozen_past (k.tasks p).freeze_past_nsec)

unfoldable pub vpt_show : Option ℕ → Kernel → Shown
vpt_show none k = (esrch, [])
vpt_show (some p) k = (pos 0, show_past (k.tasks p).virtual_past_nsec)

unfoldable pub ppt_show : Option ℕ → Kernel → Shown
ppt_show none k = (esrch, [])
ppt_show (some p) k = (pos 0, show_past (k.tasks p).physical_past_nsec)

-- FREEZE_MAX_LEN and TDF_LEN, less the terminator.
abbrev pub freeze_max : ℕ
freeze_max = 3

abbrev pub tdf_max : ℕ
tdf_max = 7

abbrev pub copied : ℕ → ℕ → ℕ
copied count maxlen = if ltb maxlen count then maxlen else count

-- The first byte of the buffer, which was zeroed before the copy.
abbrev pub first_byte : List ℕ → ℕ
first_byte [] = 0
first_byte (b ∷ _) = b

module _ (m : Math64) (wall : ℕ → Timespec) where
  abbrev pub freeze_command : ℕ → Tree → Kernel → Kernel
  freeze_command b (node p kids) k =
      if b == b'1'
      then freeze_time m wall p k
      else if b == b'0'
      then unfreeze_time m wall (node p kids) k
      else k

  -- `copy n` is what copying n bytes from the user's buffer gives, `none` for a fault.
  unfoldable pub freeze_write : Option Tree → (ℕ → Option (List ℕ)) → ℕ → Kernel → Kernel × ℤ
  freeze_write task copy count k = elim (copy (copied count freeze_max)) [
    | none ↦ (k, efault)
    | some buffer ↦ elim task [
      | none ↦ (k, esrch)
      | some t ↦ (freeze_command (first_byte buffer) t k, pos count)
    ]
  ]

  -- `kstrtoint` reads a number in base 10, and gives `none` for what is none or does not fit.
  -- The result of set_dilation is not used.
  unfoldable pub dilation_write :
      (List ℕ → Option ℤ) → Option Tree → (ℕ → Option (List ℕ)) → ℕ → Kernel → Kernel × ℤ
  dilation_write kstrtoint task copy count k = elim (copy (copied count tdf_max)) [
    | none ↦ (k, efault)
    | some buffer ↦ elim (kstrtoint buffer) [
      | none ↦ (k, einval)
      | some new_tdf ↦ elim task [
        | none ↦ (k, esrch)
        | some t ↦ ((set_dilation m wall t new_tdf k).0, pos count)
      ]
    ]
  ]
