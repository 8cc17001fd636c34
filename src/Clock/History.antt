-- ===== src/Clock/History.antt =====
-- The virtual clock over any number of readings by one task, in the order in which it makes them.
use virtual_time_kernel.Base.{ℕ, ◌+◌, ◌≤◌, ◌<◌, ◌≡◌, ◌^◌, List, [], ◌∷◌}
use virtual_time_kernel.Base.Int.{ℤ, pos, pos_part, neg_part, ◌+ℤ◌, ◌-ℤ◌, ◌≤ℤ◌}
use virtual_time_kernel.Math64.{Math64}
use virtual_time_kernel.Timespec.{Timespec, timespec_to_ns}
use virtual_time_kernel.Task.{Task}
use virtual_time_kernel.Clock.{real_virtual_timekeeping}
use virtual_time_kernel.Clock.Range.{IsInstant}

-- A task in virtual time with the dilation `d` / 1000, from 1 to 100, whose virtual past is not ahead of
-- its physical past.
pub record IsPaced (d : ℕ) (t : Task) : Type 0 where
  pub is_tdf : t.dilation ≡ pos d
  pub slow : 1000 ≤ d
  pub tdf_bound : d ≤ 100000
  pub virtual_start : IsInstant t.virtual_start_nsec
  pub started : 0 < pos_part t.virtual_start_nsec
  pub start_nonneg : neg_part t.physical_start_nsec ≡ 0
  pub past_nonneg : neg_part t.physical_past_nsec ≡ 0
  pub virtual_nonneg : neg_part t.virtual_past_nsec ≡ 0
  pub behind : pos_part t.virtual_past_nsec ≤ pos_part t.physical_past_nsec
  pub frozen_nonneg : neg_part t.freeze_past_nsec ≡ 0
  pub in_range :
      pos_part t.physical_start_nsec + pos_part t.physical_past_nsec + pos_part t.freeze_past_nsec
      < 2 ^ 61

-- Readings of the wall clock that do not go back, each less than 52 days after the one before.
pub data Follows : ℤ → List Timespec → Type 0 where
  last : {before : ℤ} → Follows before []
  next :
      {before : ℤ} {ts : Timespec} {rest : List Timespec}
      → before ≤ℤ timespec_to_ns ts
      → IsInstant (timespec_to_ns ts)
      → pos_part (timespec_to_ns ts -ℤ before) < 2 ^ 52
      → Follows (timespec_to_ns ts) rest
      → Follows before (ts ∷ rest)

-- What a task is told at a list of readings.
unfoldable pub readings : Math64 → Task → List Timespec → List Timespec
readings m t [] = []
readings m t (ts ∷ rest) =
    let (t', told) = real_virtual_timekeeping m t ts in told ∷ readings m t' rest

-- The virtual start, counted from the physical one: init_virtual_start_time reads the clock twice.
abbrev pub start_gap : Task → ℤ
start_gap t = t.virtual_start_nsec -ℤ t.physical_start_nsec

-- Times that do not go back, none of them more than `gap` after the wall clock's.
pub data IsAscending (gap : ℤ) : ℤ → List Timespec → List Timespec → Type 0 where
  last : {before : ℤ} → IsAscending gap before [] []
  next :
      {before : ℤ} {told wall : Timespec} {tolds walls : List Timespec}
      → before ≤ℤ timespec_to_ns told
      → timespec_to_ns told ≤ℤ (timespec_to_ns wall +ℤ gap)
      → IsAscending gap (timespec_to_ns told) tolds walls
      → IsAscending gap before (told ∷ tolds) (wall ∷ walls)
