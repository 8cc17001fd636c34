-- ===== src/Tests/Samples.antt =====
-- Values that the tests share.
use virtual_time_kernel.Base.{ℕ, ◌+◌, ◌*◌, ◌/◌, ◌%◌, ◌^◌, refl}
use virtual_time_kernel.Base.Int.{pos, quot, rem}
use virtual_time_kernel.Math64.{Math64}
use virtual_time_kernel.Timespec.{Timespec}
use virtual_time_kernel.Task.{Task, Kernel, init_task, Tree, Forest, node, none, more}
use virtual_time_kernel.Base.{[], ◌==◌, if◌then◌else◌}

-- Division as C does it.
abbrev pub math64 : Math64
math64 = record {
  div_s64 = quot;
  div_s64-quot = λ a d h. refl;
  div_s64_rem = λ a b. (quot a b, rem a b);
  div_s64_rem-quot = λ a d h. refl;
  div64_u64 = λ a d. a / d;
  div64_u64-div = λ a d h. refl;
  iter_div_u64_rem = λ a d. (a / d % 2 ^ 32, a % d);
  iter_div_u64_rem-div = λ a d h. refl;
  div_u64 = λ a d. a / d;
  div_u64-div = λ a d h f. refl;
  div_u64_rem = λ a d. (a / d, a % d);
  div_u64_rem-div = λ a d h f. refl;
  do_div = λ a d. (a / d, a % d);
  do_div-div = λ a d h f. refl;
}

abbrev pub ns : ℕ → Timespec
ns n = record { tv_sec = pos 0; tv_nsec = pos n }

-- A task that entered virtual time at 1000 ns, at half speed.
abbrev pub half_speed : Task
half_speed = record {
  dilation = pos 2000;
  physical_start_nsec = pos 1000;
  physical_past_nsec = pos 0;
  virtual_start_nsec = pos 1000;
  virtual_past_nsec = pos 0;
  freeze_start_nsec = pos 0;
  freeze_past_nsec = pos 0;
}

-- The n-th reading of the wall clock is at 2000 + 1000 n nanoseconds.
abbrev pub wall : ℕ → Timespec
wall n = ns (2000 + 1000 * n)

-- Process 1 with the child 2, run by process 9, which is outside virtual time.
abbrev pub family : Tree
family = node 1 (more (node 2 none) none)

abbrev pub children : Forest
children = more (node 2 none) none

abbrev pub emulation : Kernel
emulation = record {
  tasks = λ p. if p == 9 then init_task else half_speed;
  current = 9;
  reads = 0;
  signals = [];
}
