-- ===== src/Clock/Range.antt =====
-- The range of fields in which no sum of the virtual clock overflows.
use virtual_time_kernel.Base.{ℕ, ◌^◌, ◌≤◌, ◌<◌, ◌≡◌}
use virtual_time_kernel.Base.Int.{ℤ, pos, pos_part, neg_part, ◌+ℤ◌, ◌-ℤ◌}
use virtual_time_kernel.Task.{Task}

-- An instant after 1970 and before 2043, in nanoseconds.
pub record IsInstant (z : ℤ) : Type 0 where
  pub nonneg : neg_part z ≡ 0
  pub bound : pos_part z < 2 ^ 61

-- A span of less than 73 years, of either sign.
pub record IsSpan (z : ℤ) : Type 0 where
  pub pos_bound : pos_part z < 2 ^ 61
  pub neg_bound : neg_part z < 2 ^ 61

-- A task in virtual time with the dilation `d` / 1000, from 1 / 1000 to 100.
pub record InVirtualTime (d : ℕ) (t : Task) : Type 0 where
  pub is_tdf : t.dilation ≡ pos d
  pub tdf_pos : 0 < d
  pub tdf_bound : d ≤ 100000
  pub physical_start : IsInstant t.physical_start_nsec
  pub physical_past : IsSpan t.physical_past_nsec
  pub virtual_start : IsInstant t.virtual_start_nsec
  pub started : 0 < pos_part t.virtual_start_nsec
  pub virtual_past : IsSpan t.virtual_past_nsec
  pub freeze_past : IsInstant t.freeze_past_nsec

-- The instant up to which the task's physical time is accounted for.
abbrev pub accounted : Task → ℤ
accounted t = t.physical_start_nsec +ℤ t.physical_past_nsec +ℤ t.freeze_past_nsec

-- The running time that a reading at `now` finds.
abbrev pub elapsed : Task → ℤ → ℤ
elapsed t now = now -ℤ accounted t

-- A reading at `now` that comes within 52 days of the last one.
pub record IsReading (t : Task) (now : ℤ) : Type 0 where
  pub instant : IsInstant now
  pub ahead : pos_part (elapsed t now) < 2 ^ 52
  pub behind : neg_part (elapsed t now) < 2 ^ 52
