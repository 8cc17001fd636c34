-- ===== src/Htb/Delete.antt =====
-- sch_htb.c: htb_delete. A class is freed with its last user, by htb_put.
use virtual_time_kernel.Base.{
  ℕ, not, ◌==◌, if◌then◌else◌, List, Option, none, some, update, ◌||◌, ◌&&◌,
}
use virtual_time_kernel.Base.Int.{ℤ, pos, ◌-ℤ◌, eqb_ℤ}
use virtual_time_kernel.Base.Word.{s32}
use virtual_time_kernel.Htb.{HtbClass, HtbSched, can_send, set_class}
use virtual_time_kernel.Htb.Tree.{RbTree, first, without}
use virtual_time_kernel.Htb.Tokens.{is_can_send}
use virtual_time_kernel.Htb.Feeds.{htb_deactivate, htb_safe_rb_erase, any_bit}
use virtual_time_kernel.Htb.Packets.{Discipline, Qdisc}
use virtual_time_kernel.Htb.Classes.{
  LeafOps, cleared_inner, class_of, with_class, with_leaf, at_level_0, htb_parent_last_child,
  one_child_less, ebusy,
}

module _ (rb : RbTree) (prios : List ℕ) {Skb State : Type 0} (d : Discipline Skb State)
    (ops : LeafOps d) where
  abbrev pub or_noop : Option State → State
  or_noop none = ops.noop_qdisc
  or_noop (some s) = s

  -- The class p, with a discipline of its own.
  unfoldable pub leaf_again : Qdisc Skb State → ℕ → Option State → ℤ → Qdisc Skb State
  leaf_again sch p new_q clock =
      let parent = class_of sch p in
      let l = parent.level in
      let q = sch.htb in
      let erased : HtbSched = record q {
        wait_pq = update q.wait_pq l (htb_safe_rb_erase rb p (q.wait_pq l));
      } in
      let unqueued : HtbSched = if is_can_send parent.cmode then q else erased in
      let leaf : HtbClass = record (cleared_inner parent) {
        level = 0;
        tokens = parent.buffer;
        ctokens = parent.cbuffer;
        t_c = clock;
        cmode = can_send;
      } in
      with_leaf (record sch { htb = set_class unqueued p leaf }) p (or_noop new_q)

  -- `clock` is what ktime_get gives.
  unfoldable pub htb_parent_to_leaf : Qdisc Skb State → ℕ → Option State → ℤ → Qdisc Skb State
  htb_parent_to_leaf sch c new_q clock = elim (first (class_of sch c).ancestors) [
    | none ↦ sch
    | some p ↦ leaf_again sch p new_q clock
  ]

  abbrev pub without_child : Qdisc Skb State → ℕ → Qdisc Skb State
  without_child sch c = one_child_less sch (first (class_of sch c).ancestors)

  -- A leaf gives up its packets.
  unfoldable pub emptied : Qdisc Skb State → ℕ → Qdisc Skb State
  emptied sch c =
      let s = sch.leaves c in
      let reset = with_leaf sch c (ops.qdisc_reset s) in
      if at_level_0 sch c then ops.tree_decrease_qlen reset c (d.qlen s) else sch

  unfoldable pub inactive : Qdisc Skb State → ℕ → Qdisc Skb State
  inactive sch c =
      if any_bit prios (class_of sch c).prio_activity
      then record sch { htb = htb_deactivate rb prios sch.htb c }
      else sch

  -- Out of the event queue of the level.
  unfoldable pub unqueued : Qdisc Skb State → ℕ → ℕ → Qdisc Skb State
  unqueued sch c l =
      let q = sch.htb in
      if is_can_send (class_of sch c).cmode then sch else record sch {
        htb = record q { wait_pq = update q.wait_pq l (htb_safe_rb_erase rb c (q.wait_pq l)) };
      }

  -- Out of the hash table, and off its parent.
  unfoldable pub unlinked : Qdisc Skb State → ℕ → Qdisc Skb State
  unlinked sch c =
      let out = emptied sch c in without_child (record out { clhash = without c out.clhash }) c

  -- Out of all queues too.
  unfoldable pub removed : Qdisc Skb State → ℕ → Qdisc Skb State
  removed sch c = unqueued (inactive (unlinked sch c) c) c (class_of sch c).level

  unfoldable pub deleted : Qdisc Skb State → ℕ → ℤ → Qdisc Skb State
  deleted sch c clock =
      let last_child = at_level_0 sch c && htb_parent_last_child sch c in
      let parent_id : ℕ = elim (first (class_of sch c).ancestors) [
        | none ↦ 0
        | some p ↦ (class_of sch p).classid
      ] in
      let new_q = ops.create_pfifo parent_id in
      let out = removed sch c in if last_child then htb_parent_to_leaf out c new_q clock else out

  -- `none` where BUG_ON stops the kernel.
  unfoldable pub htb_delete : Qdisc Skb State → ℕ → ℤ → Option (Qdisc Skb State × ℤ)
  htb_delete sch c clock =
      let cl = class_of sch c in
      let out = deleted sch c clock in
      let last = class_of out c in
      let left = s32 (last.refcnt -ℤ pos 1) in
      if not (cl.children == 0) || not (eqb_ℤ cl.filter_cnt (pos 0))
      then some (sch, ebusy)
      else if eqb_ℤ left (pos 0)
      then none
      else some (with_class out c (record last { refcnt = left }), pos 0)
