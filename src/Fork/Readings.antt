-- ===== src/Fork/Readings.antt =====
-- kernel/fork.c and kernel/time/timekeeping.c: the virtual clock of a process that do_fork has made.
use virtual_time_kernel.Base.Int.{ℤ, pos}
use virtual_time_kernel.Math64.{Math64}
use virtual_time_kernel.Timespec.{Timespec}
use virtual_time_kernel.Task.{Task}

-- A task that enters virtual time at the instant `now`, where its virtual clock starts at `told`.
abbrev entered : ℤ → ℤ → ℤ → Task
entered tdf now told = record {
  dilation = tdf;
  physical_start_nsec = now;
  physical_past_nsec = pos 0;
  virtual_start_nsec = told;
  virtual_past_nsec = pos 0;
  freeze_start_nsec = pos 0;
  freeze_past_nsec = pos 0;
}
