-- ===== src/Htb/Reset.antt =====
-- sch_htb.c: htb_drop and htb_reset.
use virtual_time_kernel.Base.{ℕ, ◌-◌, ◌==◌, if◌then◌else◌, List, [], ◌∷◌}
use virtual_time_kernel.Htb.{HtbClass, can_send}
use virtual_time_kernel.Htb.Tree.{RbTree, nil}
use virtual_time_kernel.Htb.Feeds.{htb_deactivate, no_bits}
use virtual_time_kernel.Htb.Packets.{Discipline, Qdisc}
use virtual_time_kernel.Htb.Classes.{
  LeafOps, empty_prio, cleared_inner, class_of, with_class, with_leaf,
}

module _ (rb : RbTree) (prios : List ℕ) {Skb State : Type 0} (d : Discipline Skb State)
    (ops : LeafOps d) where
  -- A list of active leaves, up to the first that drops a packet; the length of the packet.
  unfoldable pub drop_list : List ℕ → Qdisc Skb State → Qdisc Skb State × ℕ
  drop_list [] sch = (sch, 0)
  drop_list (c ∷ cs) sch =
      let (s, len) = ops.drop (sch.leaves c) in
      let tried = with_leaf sch c s in
      let rest = drop_list cs tried in
      let dropped : Qdisc Skb State = record tried { qlen = sch.qlen - 1 } in
      let idle : Qdisc Skb State = record dropped { htb = htb_deactivate rb prios dropped.htb c } in
      if len == 0 then rest else (if d.qlen s == 0 then idle else dropped, len)

  -- `downwards` has the priorities from the highest number to 0.
  unfoldable pub htb_drop : List ℕ → Qdisc Skb State → Qdisc Skb State × ℕ
  htb_drop [] sch = (sch, 0)
  htb_drop (p ∷ downwards) sch =
      let (sch', len) = drop_list (sch.htb.drops p) sch in
      let rest = htb_drop downwards sch' in if len == 0 then rest else (sch', len)

  unfoldable pub reset_class : Qdisc Skb State → ℕ → Qdisc Skb State
  reset_class sch c =
      let cl = class_of sch c in
      let inner : HtbClass = if cl.level == 0 then cl else cleared_inner cl in
      let reset = with_class sch c (record inner { prio_activity = no_bits; cmode = can_send }) in
      if cl.level == 0 then with_leaf reset c (ops.qdisc_reset (sch.leaves c)) else reset

  unfoldable pub reset_classes : List ℕ → Qdisc Skb State → Qdisc Skb State
  unfolding reset_class
  reset_classes [] sch = sch
  reset_classes (c ∷ cs) sch = reset_classes cs (reset_class sch c)

  unfoldable pub htb_reset : Qdisc Skb State → Qdisc Skb State
  unfolding reset_classes
  htb_reset sch =
      let reset = reset_classes sch.clhash sch in
      record reset {
        direct_queue = [];
        qlen = 0;
        htb = record reset.htb {
          wait_pq = λ l. nil;
          hprio = λ l p. empty_prio;
          row_mask = λ l. no_bits;
          drops = λ p. [];
        };
      }
