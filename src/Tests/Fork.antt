-- ===== src/Tests/Fork.antt =====
-- Forking and unsharing.
use virtual_time_kernel.Base.{◌^◌, true, some}
use virtual_time_kernel.Base.Int.{pos, negsuc}
use virtual_time_kernel.Task.{Kernel}
use virtual_time_kernel.Clock.{real_virtual_timekeeping}
use virtual_time_kernel.Fork.{CloneFlags, Unsharing}
use virtual_time_kernel.Base.{List, [], ◌∷◌}
use virtual_time_kernel.Timespec.{Timespec}
use virtual_time_kernel.Tests.Samples.{math64, half_speed, wall, emulation}

abbrev bits : CloneFlags
bits = record {
  clone_thread = 2 ^ 16;
  clone_fs = 2 ^ 9;
  clone_newns = 2 ^ 17;
  clone_sighand = 2 ^ 11;
  clone_vm = 2 ^ 8;
  clone_files = 2 ^ 10;
  clone_sysvsem = 2 ^ 18;
  clone_newuts = 2 ^ 26;
  clone_newipc = 2 ^ 27;
  clone_newnet = 2 ^ 30;
  clone_newuser = 2 ^ 28;
  clone_newpid = 2 ^ 29;
  clone_newtime = 2 ^ 25;
}

-- A single-threaded caller, for which dup_fd has no memory.
abbrev caller : Unsharing
caller = record {
  mm_users = 1;
  fs = some 1;
  files = some 2;
  copy_fs_struct = true;
  dup_fd = negsuc 11;
  unshare_userns = pos 0;
  unshare_nsproxy_namespaces = pos 0;
}

-- Process 1 runs.
abbrev running_1 : Kernel
running_1 = record emulation { current = 1 }

-- The readings of the process that is forked.
abbrev later : List Timespec
later = wall 5 ∷ wall 9 ∷ []

-- What the parent is told while it forks.
abbrev told : Timespec
told = (real_virtual_timekeeping math64 half_speed (wall 1)).1
