-- ===== src/Htb/Classes.antt =====
-- sch_htb.c: the classes as an administrator sees them, their users and their disciplines. A class is
-- freed with its last user.
use virtual_time_kernel.Base.{
  ℕ, suc, ◌+◌, ◌-◌, ◌%◌, ◌^◌, ◌≡◌, Bool, true, false, not, ltb, ◌==◌, if◌then◌else◌, List, [], ◌∷◌,
  Option, none, some, update,
}
use virtual_time_kernel.Base.Int.{ℤ, pos, negsuc, ◌+ℤ◌, ◌-ℤ◌, eqb_ℤ}
use virtual_time_kernel.Base.Word.{s32}
use virtual_time_kernel.Dilation.{einval}
use virtual_time_kernel.Htb.{HtbClass, HtbPrio, set_class}
use virtual_time_kernel.Htb.Tree.{RbTree, nil, first}
use virtual_time_kernel.Htb.Feeds.{htb_deactivate}
use virtual_time_kernel.Htb.Shape.{Kept}
use virtual_time_kernel.Htb.Packets.{Discipline, Qdisc, htb_find}

abbrev pub enobufs : ℤ
enobufs = negsuc 104

abbrev pub ebusy : ℤ
ebusy = negsuc 15

-- What the file calls for the discipline of a leaf: qdisc_reset; its operation `drop`, 0 where it drops
-- nothing or has none; qdisc_create_dflt for a fifo, `none` where that fails; the discipline noop_qdisc;
-- and qdisc_tree_decrease_qlen of sch_api.c, which takes packets of the class off the scheduler's count
-- and notifies the scheduler, and touches neither queues nor classes' places.
pub record LeafOps {Skb State : Type 0} (d : Discipline Skb State) : Type 0 where
  pub qdisc_reset : State → State
  pub qdisc_reset-qlen : (s : State) → d.qlen (qdisc_reset s) ≡ 0
  pub drop : State → State × ℕ
  pub drop-qlen :
      (s : State)
      → d.qlen s ≡ (if (drop s).1 == 0 then d.qlen (drop s).0 else suc (d.qlen (drop s).0))
  pub create_pfifo : ℕ → Option State
  pub create_pfifo-qlen : (id : ℕ) (s : State) → create_pfifo id ≡ some s → d.qlen s ≡ 0
  pub noop_qdisc : State
  pub noop_qdisc-qlen : d.qlen noop_qdisc ≡ 0
  pub tree_decrease_qlen : Qdisc Skb State → ℕ → ℕ → Qdisc Skb State
  pub tree_decrease_qlen-qlen :
      (sch : Qdisc Skb State) (c n : ℕ) → (tree_decrease_qlen sch c n).qlen ≡ sch.qlen - n
  pub tree_decrease_qlen-leaves :
      (sch : Qdisc Skb State) (c n : ℕ) → (tree_decrease_qlen sch c n).leaves ≡ sch.leaves
  pub tree_decrease_qlen-direct :
      (sch : Qdisc Skb State) (c n : ℕ)
      → (tree_decrease_qlen sch c n).direct_queue ≡ sch.direct_queue
  pub tree_decrease_qlen-clhash :
      (sch : Qdisc Skb State) (c n : ℕ) → (tree_decrease_qlen sch c n).clhash ≡ sch.clhash
  pub tree_decrease_qlen-Kept :
      (sch : Qdisc Skb State) (c n : ℕ) → Kept sch.htb (tree_decrease_qlen sch c n).htb

-- Memory that is all zeros.
abbrev pub empty_prio : HtbPrio
empty_prio = record { tree = nil; ptr = none; last_ptr_id = 0 }

-- memset of cl->un.inner, which clears the leaf's part of the union too.
abbrev pub cleared_inner : HtbClass → HtbClass
cleared_inner cl = record cl { clprio = λ p. empty_prio; deficit = λ l. pos 0 }

-- `stop` and `count` of the walker, whose function has a state of its own and fails by false.
unfoldable pub walk_from : {W : Type 0} → (ℕ → W → W × Bool) → ℕ → List ℕ → ℕ → W → W × (Bool × ℕ)
walk_from fn skip [] count w = (w, (false, count))
walk_from fn skip (c ∷ cs) count w =
    let (w', ok) = fn c w in
    let skipped = walk_from fn skip cs (count + 1) w in
    let rest = walk_from fn skip cs (count + 1) w' in
    if ltb count skip then skipped else if ok then rest else (w', (true, count))

module _ {Skb State : Type 0} where
  abbrev pub class_of : Qdisc Skb State → ℕ → HtbClass
  class_of sch c = sch.htb.classes c

  abbrev pub with_class : Qdisc Skb State → ℕ → HtbClass → Qdisc Skb State
  with_class sch c cl = record sch { htb = set_class sch.htb c cl }

  abbrev pub with_leaf : Qdisc Skb State → ℕ → State → Qdisc Skb State
  with_leaf sch c s = record sch { leaves = update sch.leaves c s }

  abbrev pub at_level_0 : Qdisc Skb State → ℕ → Bool
  at_level_0 sch c = (class_of sch c).level == 0

  unfoldable pub htb_leaf : Qdisc Skb State → ℕ → Option State
  htb_leaf sch c = if at_level_0 sch c then some (sch.leaves c) else none

  unfoldable pub htb_get : Qdisc Skb State → ℕ → Qdisc Skb State × Option ℕ
  htb_get sch id = elim (htb_find sch id) [
    | none ↦ (sch, none)
    | some c ↦
        let cl = class_of sch c in
        (with_class sch c (record cl { refcnt = s32 (cl.refcnt +ℤ pos 1) }), some c)
  ]

  -- The flag tells whether the class is freed.
  unfoldable pub htb_put : Qdisc Skb State → ℕ → Qdisc Skb State × Bool
  htb_put sch c =
      let cl = class_of sch c in
      let left = s32 (cl.refcnt -ℤ pos 1) in
      (with_class sch c (record cl { refcnt = left }), eqb_ℤ left (pos 0))

  unfoldable pub htb_bind_filter : Qdisc Skb State → ℕ → Qdisc Skb State × Option ℕ
  htb_bind_filter sch id = elim (htb_find sch id) [
    | none ↦ (sch, none)
    | some c ↦
        let cl = class_of sch c in
        (with_class sch c (record cl { filter_cnt = s32 (cl.filter_cnt +ℤ pos 1) }), some c)
  ]

  unfoldable pub htb_unbind_filter : Qdisc Skb State → Option ℕ → Qdisc Skb State
  htb_unbind_filter sch none = sch
  htb_unbind_filter sch (some c) =
      let cl = class_of sch c in
      with_class sch c (record cl { filter_cnt = s32 (cl.filter_cnt -ℤ pos 1) })

  abbrev pub htb_find_tcf : Qdisc Skb State → Option ℕ → Option ℕ
  htb_find_tcf sch none = sch.filter_list
  htb_find_tcf sch (some c) = sch.class_filters c

  unfoldable pub htb_parent_last_child : Qdisc Skb State → ℕ → Bool
  htb_parent_last_child sch c = elim (first (class_of sch c).ancestors) [
    | none ↦ false
    | some p ↦ not (ltb 1 (class_of sch p).children)
  ]

  abbrev pub one_child_less : Qdisc Skb State → Option ℕ → Qdisc Skb State
  one_child_less sch none = sch
  one_child_less sch (some p) =
      let parent = class_of sch p in
      with_class sch p (record parent { children = (parent.children + 2 ^ 32 - 1) % 2 ^ 32 })

  unfoldable pub htb_walk :
      {W : Type 0} → Qdisc Skb State → (ℕ → W → W × Bool) → ℕ → Bool → ℕ → W → W × (Bool × ℕ)
  htb_walk sch fn skip stop count w =
      let walked = walk_from fn skip sch.clhash count w in
      if stop then (w, (stop, count)) else walked

module _ (rb : RbTree) (prios : List ℕ) {Skb State : Type 0} (d : Discipline Skb State)
    (ops : LeafOps d) where
  unfoldable pub htb_qlen_notify : Qdisc Skb State → ℕ → Qdisc Skb State
  htb_qlen_notify sch c =
      if d.qlen (sch.leaves c) == 0
      then record sch { htb = htb_deactivate rb prios sch.htb c }
      else sch

  -- The result has the discipline that was replaced.
  unfoldable pub htb_graft :
      Qdisc Skb State → ℕ → Option State → Qdisc Skb State × (ℤ × Option State)
  htb_graft sch c new =
      let chosen : Option State = elim new [
        | some s ↦ some s
        | none ↦ ops.create_pfifo (class_of sch c).classid
      ] in
      let old = sch.leaves c in
      if at_level_0 sch c
      then elim chosen [
        | none ↦ (sch, (enobufs, none))
        | some s ↦ (
          ops.tree_decrease_qlen (with_leaf sch c s) c (d.qlen old),
          (pos 0, some (ops.qdisc_reset old)),
        )
      ]
      else (sch, (einval, none))
