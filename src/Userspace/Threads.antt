-- ===== src/Userspace/Threads.antt =====
-- vt_userspace/vtutil.c: a group of processes that threads freeze, in whichever order they run.
use virtual_time_kernel.Base.{
  ℕ, ◌≡◌, refl, ap, sym, Bool, true, ◌==◌, ==_refl, arith, List, [], ◌∷◌, Option, some, Bool-cases,
  inl, inr,
}
use virtual_time_kernel.Base.Int.{pos, ◌<ℤ◌}
use virtual_time_kernel.Math64.{Math64}
use virtual_time_kernel.Timespec.{Timespec}
use virtual_time_kernel.Task.{Kernel, Tree, Forest, node}
use virtual_time_kernel.Dilation.{freeze_time, read_wall}
use virtual_time_kernel.Dilation.Thaw.{at_reading}
use virtual_time_kernel.Htb.Tree.{mem}
use virtual_time_kernel.Proc.{freeze_write}
use virtual_time_kernel.Userspace.{freeze_proc, kickoff_freeze}

abbrev pub IsFrozen : Kernel → ℕ → Type 0
IsFrozen k p = pos 0 <ℤ (k.tasks p).freeze_start_nsec

module _ (m : Math64) (wall : ℕ → Timespec) where
  freeze_time-IsFrozen :
      (p : ℕ) (k : Kernel) → pos 0 <ℤ at_reading wall k.reads → IsFrozen (freeze_time m wall p k) p
  unfolding freeze_time read_wall
  freeze_time-IsFrozen p k after = ground (arith, ==_refl p)

  freeze_time_keeps :
      (p q : ℕ) (k : Kernel)
      → pos 0 <ℤ at_reading wall k.reads
      → IsFrozen k q
      → IsFrozen (freeze_time m wall p k) q
  unfolding freeze_time read_wall
  freeze_time_keeps p q k after h = ground arith

  module _ (opens : ℕ → Bool) (find : ℕ → Option Tree) where
    freeze_proc_eq :
        (p : ℕ) (kids : Forest) (k : Kernel)
        → opens p ≡ true
        → find p ≡ some (node p kids)
        → freeze_proc m wall opens find p k ≡ (freeze_time m wall p k, pos 1)
    unfolding freeze_proc freeze_write
    freeze_proc_eq p kids k o f = rw (o, f) refl

    -- The file of a process opens, and the kernel finds the process.
    abbrev pub Reaches : ℕ → Type 0
    Reaches q = (opens q ≡ true) × ((kids : Forest) × (find q ≡ some (node q kids)))

    kickoff_freeze_step :
        (q : ℕ) (qs : List ℕ) (k : Kernel)
        → Reaches q
        → kickoff_freeze m wall opens find (q ∷ qs) k
          ≡ kickoff_freeze m wall opens find qs (freeze_time m wall q k)
    unfolding kickoff_freeze
    kickoff_freeze_step q qs k (o, (kids, f)) =
        ap (λ r. kickoff_freeze m wall opens find qs r.0) (freeze_proc_eq q kids k o f)

    kickoff_freeze_keeps :
        (order : List ℕ) (k : Kernel) (p : ℕ)
        → ((n : ℕ) → pos 0 <ℤ at_reading wall n)
        → ((q : ℕ) → mem q order ≡ true → Reaches q)
        → IsFrozen k p
        → IsFrozen (kickoff_freeze m wall opens find order k) p
    unfolding kickoff_freeze
    kickoff_freeze_keeps [] k p after found h = h
    kickoff_freeze_keeps (q ∷ qs) k p after found h =
        rw (kickoff_freeze_step q qs k (found q (rw (==_refl q) refl))) (
          kickoff_freeze_keeps qs (freeze_time m wall q k) p after
            (λ x in_qs. found x (ground arith)) (freeze_time_keeps q p k (after k.reads) h))

    -- In whichever order the threads write, every process of the list is frozen in the end, if the files
    -- open, the kernel finds the processes and the wall clock is after 1970.
    pub kickoff_freeze-IsFrozen :
        (order : List ℕ) (k : Kernel) (p : ℕ)
        → ((n : ℕ) → pos 0 <ℤ at_reading wall n)
        → ((q : ℕ) → mem q order ≡ true → Reaches q)
        → mem p order ≡ true
        → IsFrozen (kickoff_freeze m wall opens find order k) p
    unfolding kickoff_freeze
    kickoff_freeze-IsFrozen [] k p after found h = absurd (ground arith)
    kickoff_freeze-IsFrozen (q ∷ qs) k p after found h =
        let rest : (x : ℕ) → mem x qs ≡ true → Reaches x = λ x in_qs. found x (ground arith) in
        rw (kickoff_freeze_step q qs k (found q (rw (==_refl q) refl)))
          (elim (Bool-cases (q == p)) [
            | inl same ↦
                let q_p : q ≡ p = ground arith in
                kickoff_freeze_keeps qs (freeze_time m wall q k) p after rest
                  (rw (sym q_p) (freeze_time-IsFrozen q k (after k.reads)))
            | inr other ↦
                kickoff_freeze-IsFrozen qs (freeze_time m wall q k) p after rest (ground arith)
          ])
