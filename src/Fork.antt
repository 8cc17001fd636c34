-- ===== src/Fork.antt =====
-- kernel/fork.c: how a process enters virtual time, by being forked or by unsharing.
pub mod Readings
use virtual_time_kernel.Base.{
  ℕ, suc, ◌-◌, ◌^◌, ◌≡◌, ◌⊎◌, inl, inr, refl, ap, ◌∙◌, arith, Bool, true, false, not, ◌&&◌, ltb,
  ◌==◌, if◌then◌else◌, Option, none, some, ==_refl,
}
use virtual_time_kernel.Base.Int.{ℤ, pos, negsuc, ltb_ℤ, eqb_ℤ}
use virtual_time_kernel.Math64.{Math64}
use virtual_time_kernel.Timespec.{Timespec, timespec_to_ns}
use virtual_time_kernel.Task.{Kernel}
use virtual_time_kernel.Clock.{real_virtual_timekeeping}
use virtual_time_kernel.Dilation.{init_virtual_start_time, getnstimeofday, read_wall, einval}
use Prim.Native.Nat.{bit_and, bit_or}

-- Bits of the flags of clone and unshare, from the kernel's interface.
pub record CloneFlags : Type 0 where
  pub clone_thread : ℕ
  pub clone_fs : ℕ
  pub clone_newns : ℕ
  pub clone_sighand : ℕ
  pub clone_vm : ℕ
  pub clone_files : ℕ
  pub clone_sysvsem : ℕ
  pub clone_newuts : ℕ
  pub clone_newipc : ℕ
  pub clone_newnet : ℕ
  pub clone_newuser : ℕ
  pub clone_newpid : ℕ
  pub clone_newtime : ℕ

-- -ENOMEM
abbrev pub enomem : ℤ
enomem = negsuc 11

abbrev pub has : ℕ → ℕ → Bool
has flags bits = not (bit_and flags bits == 0)

-- A structure that processes may share: whether there is one, and how many use it.
abbrev pub Shared : Type 0
Shared = Option ℕ

-- What the caller has and what the steps of unshare that are not in this file return: the copies of
-- its structures, `none` where there is no memory, and an error or 0.
pub record Unsharing : Type 0 where
  pub mm_users : ℕ
  pub fs : Shared
  pub files : Shared
  pub copy_fs_struct : Bool
  pub dup_fd : ℤ
  pub unshare_userns : ℤ
  pub unshare_nsproxy_namespaces : ℤ

module _ (f : CloneFlags) where
  abbrev pub allowed : ℕ
  allowed = bit_or f.clone_thread (
      bit_or f.clone_fs (
        bit_or f.clone_newns (
          bit_or f.clone_sighand (
            bit_or f.clone_vm (
              bit_or f.clone_files (
                bit_or f.clone_sysvsem (
                  bit_or f.clone_newuts (
                    bit_or f.clone_newipc (
                      bit_or f.clone_newnet
                        (bit_or f.clone_newuser (bit_or f.clone_newpid f.clone_newtime)))))))))))

  unfoldable pub check_unshare_flags : ℕ → ℕ → ℤ
  check_unshare_flags unshare_flags mm_users =
      if has unshare_flags (2 ^ 64 - 1 - allowed)
      then einval
      else if has unshare_flags (bit_or f.clone_thread (bit_or f.clone_sighand f.clone_vm))
      then (if ltb 1 mm_users then einval else pos 0)
      else pos 0

  unfoldable pub unshare_fs : ℕ → Shared → Bool → ℤ
  unshare_fs unshare_flags none copied = pos 0
  unshare_fs unshare_flags (some users) copied =
      if not (has unshare_flags f.clone_fs)
      then pos 0
      else if users == 1
      then pos 0
      else if copied
      then pos 0
      else enomem

  -- `error` is what dup_fd stores where it gives no copy, and 0 where it does.
  unfoldable pub unshare_fd : ℕ → Shared → ℤ → ℤ
  unshare_fd unshare_flags none error = pos 0
  unshare_fd unshare_flags (some count) error =
      if has unshare_flags f.clone_files && ltb 1 count then error else pos 0

  unfoldable pub implied_flags : ℕ → ℕ
  implied_flags f₀ =
      let f₁ =
        if has f₀ f.clone_newuser then bit_or f₀ (bit_or f.clone_thread f.clone_fs) else f₀ in
      let f₂ = if has f₁ f.clone_thread then bit_or f₁ f.clone_vm else f₁ in
      let f₃ = if has f₂ f.clone_vm then bit_or f₂ f.clone_sighand else f₂ in
      if has f₃ f.clone_newns then bit_or f₃ f.clone_fs else f₃

module _ (m : Math64) (wall : ℕ → Timespec) where
  unfoldable pub unshare_virtual_time : CloneFlags → ℕ → Kernel → Kernel
  unshare_virtual_time f unshare_flags k =
      if has unshare_flags f.clone_newtime
      then init_virtual_start_time m wall k.current (pos 1000) k
      else k

  -- The system call, up to the exchange of the structures that it has copied.
  unfoldable pub unshare : CloneFlags → Unsharing → ℕ → Kernel → Kernel × ℤ
  unfolding check_unshare_flags unshare_fs unshare_fd implied_flags unshare_virtual_time
  unshare f u flags k =
      let unshare_flags = implied_flags f flags in
      let checked = check_unshare_flags f unshare_flags u.mm_users in
      let fs_err = unshare_fs f unshare_flags u.fs u.copy_fs_struct in
      let fd_err = unshare_fd f unshare_flags u.files u.dup_fd in
      if not (eqb_ℤ checked (pos 0))
      then (k, checked)
      else if not (eqb_ℤ fs_err (pos 0))
      then (k, fs_err)
      else if not (eqb_ℤ fd_err (pos 0))
      then (k, fd_err)
      else if not (eqb_ℤ u.unshare_userns (pos 0))
      then (k, u.unshare_userns)
      else if not (eqb_ℤ u.unshare_nsproxy_namespaces (pos 0))
      then (k, u.unshare_nsproxy_namespaces)
      else (unshare_virtual_time f unshare_flags k, pos 0)

  -- What follows copy_process, which gives the number of the new process, or an error; `none` is
  -- the write through the error as if it were a process.
  abbrev pub after_copy : Kernel → ℕ ⊎ ℤ → Option (Kernel × ℤ)
  after_copy k₁ (inl child) =
      some (init_virtual_start_time m wall child (k₁.tasks k₁.current).dilation k₁, pos child)
  after_copy k₁ (inr err) =
      if ltb_ℤ (pos 0) (k₁.tasks k₁.current).dilation then none else some (k₁, err)

  unfoldable pub do_fork : (Kernel → Kernel × (ℕ ⊎ ℤ)) → Kernel → Option (Kernel × ℤ)
  do_fork copy_process k = after_copy (copy_process k).0 (copy_process k).1

  -- A call of unshare that fails leaves the virtual time of every process as it was.
  unshare-error :
      (f : CloneFlags) (u : Unsharing) (flags : ℕ) (k : Kernel)
      → ((unshare f u flags k).1 ≡ pos 0) ⊎ ((unshare f u flags k).0 ≡ k)
  unfolding unshare
  unshare-error f u flags k = ground arith

  -- A process forked by one in virtual time gets its dilation, starts at the virtual time that the
  -- parent is told, and has no past, virtual, physical or frozen.
  pub do_fork-inherits :
      (copy_process : Kernel → Kernel × (ℕ ⊎ ℤ)) (k k₁ : Kernel) (child : ℕ)
      → copy_process k ≡ (k₁, inl child)
      → ltb_ℤ (pos 0) (k₁.tasks k₁.current).dilation ≡ true
      → (k' : Kernel) × (do_fork copy_process k ≡ some (k', pos child))
        × (k'.tasks child ≡ record {
          dilation = (k₁.tasks k₁.current).dilation;
          physical_start_nsec = timespec_to_ns (wall k₁.reads);
          physical_past_nsec = pos 0;
          virtual_start_nsec =
              timespec_to_ns
                (real_virtual_timekeeping m (k₁.tasks k₁.current) (wall (suc k₁.reads))).1;
          virtual_past_nsec = pos 0;
          freeze_start_nsec = pos 0;
          freeze_past_nsec = pos 0;
        })
  unfolding do_fork init_virtual_start_time getnstimeofday read_wall
  do_fork-inherits copy_process k k₁ child copied on = (
    init_virtual_start_time m wall child (k₁.tasks k₁.current).dilation k₁,
    ap (λ (x : Kernel × (ℕ ⊎ ℤ)). after_copy x.0 x.1) copied,
    rw (on, init_virtual_start_time) (rw (==_refl child) refl),
  )
