-- ===== src/Dilation.antt =====
-- kernel/time.c and kernel/fork.c: entering, changing and leaving virtual time, freezing and
-- unfreezing, over the process table.
pub mod Freeze
pub mod Thaw
pub mod Transparent
pub mod Subtree
pub mod Retune
use virtual_time_kernel.Base.{ℕ, suc, ◌∷◌, update, if◌then◌else◌}
use virtual_time_kernel.Base.Int.{ℤ, pos, negsuc, ◌+ℤ◌, ◌-ℤ◌, ◌*ℤ◌, ltb_ℤ, eqb_ℤ}
use virtual_time_kernel.Base.Word.{s64}
use virtual_time_kernel.Math64.{Math64}
use virtual_time_kernel.Timespec.{Timespec, timespec_to_ns}
use virtual_time_kernel.Task.{
  Task, Tree, Forest, node, none, more, sigstop, sigcont, Kernel, set_task,
}
use virtual_time_kernel.Clock.{real_virtual_timekeeping}

-- -EINVAL
abbrev pub einval : ℤ
einval = negsuc 21

-- Which branch of set_dilation was taken: the early return, the walk to the children, or -EINVAL.
pub data Verdict : Type 0 where
  unchanged descend rejected : Verdict

abbrev pub exit_virtual_time : Task → Task
exit_virtual_time t = record {
  dilation = pos 0;
  physical_start_nsec = pos 0;
  physical_past_nsec = pos 0;
  virtual_start_nsec = pos 0;
  virtual_past_nsec = pos 0;
  freeze_start_nsec = pos 0;
  freeze_past_nsec = pos 0;
}

abbrev pub status : Verdict → ℤ
status rejected = einval
status _ = pos 0

-- A task with the frozen time of its parent.
abbrev pub inherit_frozen : Task → Task → Task
inherit_frozen parent child = record child {
  freeze_past_nsec = parent.freeze_past_nsec;
  freeze_start_nsec = parent.freeze_start_nsec;
}

-- `populate_frozen_time` of the process p, whose children are the forest.
unfoldable pub populate_frozen_time : ℕ → Forest → Kernel → Kernel
populate_frozen_time p none k = k
populate_frozen_time p (more (node c kids) ts) k =
    let k₁ = set_task k c (inherit_frozen (k.tasks p) (k.tasks c)) in
    populate_frozen_time p ts (populate_frozen_time c kids k₁)

module _ (m : Math64) where
  open m use {div_s64_rem}

  -- The branch of a task that is in virtual time and stays in it.
  unfoldable pub change_tdf : Task → ℤ → ℤ → Task
  change_tdf t now new_tdf =
      let delta₁ = s64 (now -ℤ t.physical_past_nsec) in
      let delta₂ = s64 (delta₁ -ℤ t.physical_start_nsec) in
      let delta_ppn = s64 (delta₂ -ℤ t.freeze_past_nsec) in
      let delta_vpn = (div_s64_rem (s64 (delta_ppn *ℤ pos 1000)) t.dilation).0 in
      record t {
        virtual_past_nsec = s64 (t.virtual_past_nsec +ℤ delta_vpn);
        virtual_start_nsec = now;
        physical_start_nsec = now;
        physical_past_nsec = pos 0;
        dilation = new_tdf;
      }

-- `wall n` is what the n-th call of __getnstimeofday stores.
module _ (m : Math64) (wall : ℕ → Timespec) where
  -- __getnstimeofday and timespec_to_ns.
  unfoldable pub read_wall : Kernel → Kernel × ℤ
  read_wall k = (record k { reads = suc k.reads }, timespec_to_ns (wall k.reads))

  unfoldable pub getnstimeofday : Kernel → Kernel × Timespec
  getnstimeofday k =
      let (t, ts) = real_virtual_timekeeping m (k.tasks k.current) (wall k.reads) in
      (record k { tasks = update k.tasks k.current t; reads = suc k.reads }, ts)

  unfoldable pub init_virtual_start_time : ℕ → ℤ → Kernel → Kernel
  unfolding read_wall getnstimeofday
  init_virtual_start_time p tdf k =
      let (k₁, now) = read_wall k in
      let (k₂, ts) = getnstimeofday k₁ in
      if ltb_ℤ (pos 0) tdf
      then set_task k₂ p (record {
        dilation = tdf;
        physical_start_nsec = now;
        physical_past_nsec = pos 0;
        virtual_start_nsec = timespec_to_ns ts;
        virtual_past_nsec = pos 0;
        freeze_start_nsec = pos 0;
        freeze_past_nsec = pos 0;
      })
      else k

  -- set_dilation up to the walk over the children.
  unfoldable pub retune : ℕ → ℤ → Kernel → Kernel × Verdict
  unfolding init_virtual_start_time change_tdf read_wall
  retune p new_tdf k =
      let t = k.tasks p in
      if eqb_ℤ t.dilation new_tdf
      then (k, unchanged)
      else if eqb_ℤ t.dilation (pos 0)
      then (init_virtual_start_time p new_tdf k, descend)
      else if eqb_ℤ new_tdf (pos 0)
      then (set_task k p (exit_virtual_time t), descend)
      else if ltb_ℤ (pos 0) new_tdf
      then (set_task (read_wall k).0 p (change_tdf m t (read_wall k).1 new_tdf), descend)
      else (k, rejected)

  -- The result of a child's call is not used.
  unfoldable mutual
    pub set_dilation : Tree → ℤ → Kernel → Kernel × ℤ
    set_dilation (node p kids) new_tdf k =
        let (k₁, v) = retune p new_tdf k in
        (elim v [ descend ↦ set_dilation_children kids new_tdf k₁ | _ ↦ k₁ ], status v)

    pub set_dilation_children : Forest → ℤ → Kernel → Kernel
    set_dilation_children none new_tdf k = k
    set_dilation_children (more t ts) new_tdf k =
        set_dilation_children ts new_tdf (set_dilation t new_tdf k).0

  unfoldable pub freeze_time : ℕ → Kernel → Kernel
  unfolding read_wall
  freeze_time p k =
      let k₁ = record k { signals = (p, sigstop) ∷ k.signals } in
      let (k₂, now) = read_wall k₁ in
      if ltb_ℤ (pos 0) (k.tasks p).freeze_start_nsec
      then k
      else set_task k₂ p (record (k.tasks p) { freeze_start_nsec = now })

  unfoldable pub unfreeze_time : Tree → Kernel → Kernel
  unfolding read_wall populate_frozen_time
  unfreeze_time (node p kids) k =
      let t = k.tasks p in
      let (k₁, now) = read_wall k in
      let thawed = record t {
        freeze_past_nsec = s64 (t.freeze_past_nsec +ℤ s64 (now -ℤ t.freeze_start_nsec));
        freeze_start_nsec = pos 0;
      } in
      let k₂ = populate_frozen_time p kids (set_task k₁ p thawed) in
      if eqb_ℤ t.freeze_start_nsec (pos 0)
      then k
      else record k₂ { signals = (p, sigcont) ∷ k₂.signals }
