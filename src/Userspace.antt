-- ===== src/Userspace.antt =====
-- vt_userspace/vtutil.c: what user programs call. Opening a file of /proc/$pid, finding the process and
-- its children, and the kernel's conversion of numbers are arguments.
pub mod Elapsed
pub mod Threads
use virtual_time_kernel.Base.{
  ℕ, zero, suc, ◌+◌, ◌-◌, ◌*◌, ◌/◌, Bool, true, false, not, ltb, ◌==◌, if◌then◌else◌, List, [], ◌∷◌,
  Option, none, some, length,
}
use virtual_time_kernel.Base.Int.{ℤ, pos, negsuc, ◌+ℤ◌, ◌-ℤ◌, ◌*ℤ◌, ltb_ℤ}
use virtual_time_kernel.Base.Word.{s64, s32, to_u64}
use virtual_time_kernel.Math64.{Math64}
use virtual_time_kernel.Timespec.{Timespec}
use virtual_time_kernel.Task.{Kernel, Tree}
use virtual_time_kernel.Jiffies.{Timeval}
use virtual_time_kernel.Proc.{freeze_write, dilation_write}

abbrev pub usec_per_sec : ℕ
usec_per_sec = 1_000_000

-- The seconds that the code moves for a difference of microseconds, as an int.
abbrev pub moved_seconds : ℤ → ℤ
moved_seconds diff = s32 (pos (to_u64 diff / usec_per_sec + 1))

-- `y` with seconds moved into its microseconds, or out of them.
unfoldable pub borrow : Timeval → ℤ → Timeval
borrow y nsec = record {
  tv_sec = s64 (y.tv_sec +ℤ nsec);
  tv_usec = s64 (y.tv_usec -ℤ s64 (nsec *ℤ pos usec_per_sec));
}

unfoldable pub repay : Timeval → ℤ → Timeval
repay y nsec = record {
  tv_sec = s64 (y.tv_sec -ℤ nsec);
  tv_usec = s64 (y.tv_usec +ℤ s64 (nsec *ℤ pos usec_per_sec));
}

-- The difference, `y` as it is left, and the result.
unfoldable pub timeval_substract : Timeval → Timeval → Timeval × Timeval × Bool
unfolding borrow repay to_u64
timeval_substract x y =
    let y₁ : Timeval =
      if ltb_ℤ x.tv_usec y.tv_usec
      then borrow y (moved_seconds (s64 (y.tv_usec -ℤ x.tv_usec)))
      else y in
    let over = s64 (x.tv_usec -ℤ y₁.tv_usec) in
    let y₂ : Timeval =
      if ltb usec_per_sec (to_u64 over) then repay y₁ (moved_seconds over) else y₁ in
    (
      record { tv_sec = s64 (x.tv_sec -ℤ y₂.tv_sec); tv_usec = s64 (x.tv_usec -ℤ y₂.tv_usec) },
      y₂,
      ltb_ℤ y₂.tv_sec x.tv_sec,
    )

unfoldable pub timeval_to_usec : Timeval → ℤ
timeval_to_usec tv = s64 (s64 (tv.tv_sec *ℤ pos usec_per_sec) +ℤ tv.tv_usec)

-- The first bytes of a string, which copy_from_user copies.
abbrev pub take : ℕ → List ℕ → List ℕ
take zero bytes = []
take (suc n) [] = []
take (suc n) (b ∷ bytes) = b ∷ take n bytes

-- `write` is the write method of the file.
unfoldable pub write_proc_field :
    (ℕ → Bool) → (ℕ → List ℕ → Kernel → Kernel × ℤ) → ℕ → List ℕ → Kernel → Kernel × ℤ
write_proc_field opens write pid val k =
    let (k', written) = write pid val k in
    if length val == 0
    then (k, negsuc 0)
    else if not (opens pid)
    then (k, negsuc 0)
    else (k', if ltb_ℤ (pos 0) written then written else negsuc 0)

module _ (m : Math64) (wall : ℕ → Timespec) (opens : ℕ → Bool) (find : ℕ → Option Tree) where
  abbrev pub write_freeze : ℕ → List ℕ → Kernel → Kernel × ℤ
  write_freeze pid val k = freeze_write m wall (find pid) (λ n. some (take n val)) (length val) k

  unfoldable pub freeze_proc : ℕ → Kernel → Kernel × ℤ
  unfolding write_proc_field
  freeze_proc pid k = write_proc_field opens write_freeze pid (b'1' ∷ []) k

  unfoldable pub unfreeze_proc : ℕ → Kernel → Kernel × ℤ
  unfolding write_proc_field
  unfreeze_proc pid k = write_proc_field opens write_freeze pid (b'0' ∷ []) k

  -- The threads of kickoff_pthreads_freeze that freeze, in the order in which they write.
  unfoldable pub kickoff_freeze : List ℕ → Kernel → Kernel
  kickoff_freeze [] k = k
  kickoff_freeze (pid ∷ pids) k = kickoff_freeze pids (freeze_proc pid k).0

  -- `thousandths` is (int)(tdf * 1000) for a tdf from 0 on; the test is for a tdf from TDF_MIN, which is
  -- 0.001, to below TDF_MAX, which is 100.
  unfoldable pub set_new_dilation : (List ℕ → Option ℤ) → (ℕ → List ℕ) → ℕ → ℕ → Kernel → Kernel × ℤ
  unfolding write_proc_field
  set_new_dilation kstrtoint decimal pid thousandths k =
      let write = λ (p : ℕ) (val : List ℕ) (k : Kernel).
        dilation_write m wall kstrtoint (find p) (λ n. some (take n val)) (length val) k in
      let done = write_proc_field opens write pid (decimal thousandths) k in
      if ltb 0 thousandths
      then (if ltb thousandths 100_000 then done else (k, pos 0))
      else (k, pos 0)

  unfoldable pub virtual_time_exit : (List ℕ → Option ℤ) → (ℕ → List ℕ) → ℕ → Kernel → Kernel × ℤ
  unfolding set_new_dilation
  virtual_time_exit kstrtoint decimal pid k = set_new_dilation kstrtoint decimal pid 0 k
