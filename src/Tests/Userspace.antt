-- ===== src/Tests/Userspace.antt =====
-- The user-space tools on a small group of processes.
use virtual_time_kernel.Base.{ℕ, ◌≡◌, ◌<◌, refl, Bool, true, arith, [], ◌∷◌, Option, some}
use virtual_time_kernel.Base.Int.{pos, ◌-ℤ◌, pos_part, neg_part}
use virtual_time_kernel.Timespec.{Timespec, timespec_to_ns}
use virtual_time_kernel.Task.{Tree, node, none}
use virtual_time_kernel.Jiffies.{Timeval}
use virtual_time_kernel.Userspace.{
  timeval_substract, timeval_to_usec, usec_per_sec, kickoff_freeze, virtual_time_exit,
}
use virtual_time_kernel.Userspace.Elapsed.{timeval_substract_lem}
use virtual_time_kernel.Userspace.Threads.{IsFrozen, kickoff_freeze-IsFrozen}
use virtual_time_kernel.Tests.Samples.{math64, ns, emulation}

-- 3.9 s and 5.2 s.
abbrev start : Timeval
start = record { tv_sec = pos 3; tv_usec = pos 900_000 }

abbrev end : Timeval
end = record { tv_sec = pos 5; tv_usec = pos 200_000 }

timeval_substract_example :
    let (result, y', _) = timeval_substract end start in
    (timeval_to_usec result ≡ timeval_to_usec end -ℤ timeval_to_usec start)
    × (timeval_to_usec y' ≡ timeval_to_usec start)
    × (neg_part result.tv_usec ≡ 0)
    × (pos_part result.tv_usec < usec_per_sec)
timeval_substract_example =
    timeval_substract_lem end start
      (record {
        sec_nonneg = refl;
        sec_bound = omega arith;
        usec_nonneg = refl;
        usec_bound = omega arith;
      })
      (record {
        sec_nonneg = refl;
        sec_bound = omega arith;
        usec_nonneg = refl;
        usec_bound = omega arith;
      })

-- All within one tick of the wall clock.
abbrev still : ℕ → Timespec
still n = ns 2000

abbrev every : ℕ → Bool
every p = true

abbrev alone : ℕ → Option Tree
alone p = some (node p none)

kickoff_freeze-IsFrozen_example :
    IsFrozen (kickoff_freeze math64 still every alone (2 ∷ 1 ∷ []) emulation) 1
unfolding timespec_to_ns
kickoff_freeze-IsFrozen_example =
    kickoff_freeze-IsFrozen math64 still every alone (2 ∷ 1 ∷ []) emulation 1 (λ n. omega arith)
      (λ q h. (refl, (none, refl))) refl

-- Leaving virtual time by the tool leaves the kernel as it was.
exit_writes_nothing :
    virtual_time_exit math64 still every alone (λ b. some (pos 0)) (λ n. b'0' ∷ []) 1 emulation
    ≡ (emulation, pos 0)
unfolding virtual_time_exit
exit_writes_nothing = refl
