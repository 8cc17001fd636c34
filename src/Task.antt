-- ===== src/Task.antt =====
-- The virtual time fields of `struct task_struct` (include/linux/sched.h), the process tree, and the
-- part of the kernel's state that the virtual time code reads and writes.
use virtual_time_kernel.Base.{ℕ, Bool, List, update, ◌==◌, ◌||◌}
use virtual_time_kernel.Base.Int.{ℤ, pos}

pub record Task : Type 0 where
  pub dilation : ℤ
  pub physical_start_nsec : ℤ
  pub physical_past_nsec : ℤ
  pub virtual_start_nsec : ℤ
  pub virtual_past_nsec : ℤ
  pub freeze_start_nsec : ℤ
  pub freeze_past_nsec : ℤ

-- INIT_TASK: a task outside virtual time.
abbrev pub init_task : Task
init_task = record {
  dilation = pos 0;
  physical_start_nsec = pos 0;
  physical_past_nsec = pos 0;
  virtual_start_nsec = pos 0;
  virtual_past_nsec = pos 0;
  freeze_start_nsec = pos 0;
  freeze_past_nsec = pos 0;
}

-- A process and the subtree that hangs on its `children` list, by process numbers.
mutual
  pub data Tree : Type 0 where
    node : ℕ → Forest → Tree

  pub data Forest : Type 0 where
    none : Forest
    more : Tree → Forest → Forest

pub data Signal : Type 0 where
  sigstop sigcont : Signal

-- `tasks` is the process table, `current` the caller, `reads` counts the readings of the wall clock
-- so far, and `signals` holds the signals sent, the last one first, with the number of the process
-- whose group they went to.
pub record Kernel : Type 0 where
  pub tasks : ℕ → Task
  pub current : ℕ
  pub reads : ℕ
  pub signals : List (ℕ × Signal)

abbrev pub set_task : Kernel → ℕ → Task → Kernel
set_task k p t = record k { tasks = update k.tasks p t }

-- The process numbers of a tree, and of a forest.
abbrev mutual
  pub In : ℕ → Tree → Bool
  In p (node q kids) = p == q || In_forest p kids

  pub In_forest : ℕ → Forest → Bool
  In_forest p none = Bool.false
  In_forest p (more t ts) = In p t || In_forest p ts
