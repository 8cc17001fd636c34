-- ===== src/Htb/Deletion.antt =====
-- sch_htb.c: htb_delete, and the hierarchy after it.
use virtual_time_kernel.Base.{
  ℕ, ◌-◌, ◌^◌, ◌≡◌, ◌<◌, refl, ap, ◌∙◌, arith, true, false, not, ◌||◌, ◌&&◌, ltb, ◌==◌, ==_refl,
  if◌then◌else◌, if_both, List, Option, none, some, Bool-cases, inl, inr, length,
}
use virtual_time_kernel.Base.Int.{ℤ, pos, eqb_ℤ, ◌-ℤ◌}
use virtual_time_kernel.Base.Word.{s32}
use virtual_time_kernel.Htb.{HtbClass, HtbSched, can_send, set_class}
use virtual_time_kernel.Htb.Tree.{RbTree, mem, without}
use virtual_time_kernel.Htb.Feeds.{points_to}
use virtual_time_kernel.Htb.Tokens.{is_can_send}
use virtual_time_kernel.Htb.Packets.{Discipline, Qdisc}
use virtual_time_kernel.Htb.Shape.{set_class-Kept}
use virtual_time_kernel.Htb.Steady.{Steady-trans, htb-Steady}
use virtual_time_kernel.Htb.Forest.{IsForest-agree, without-mem}
use virtual_time_kernel.Htb.Growth.{lowered-IsForest}
use virtual_time_kernel.Htb.Classes.{
  LeafOps, class_of, with_class, with_leaf, htb_parent_last_child, cleared_inner, at_level_0,
}
use virtual_time_kernel.Htb.Delete.{
  or_noop, emptied, unlinked, removed, deleted, htb_delete, leaf_again, htb_parent_to_leaf,
}
use virtual_time_kernel.Htb.Kinship.{
  HasForest, HasForest-Steady, level_of, parent_of, children_of, same_level, same_parent,
  with_class-level, emptied-Steady, inactive-Steady, unqueued-Steady,
}
use virtual_time_kernel.Htb.Lifecycle.{taken_out-HasForest}

module _ (rb : RbTree) (prios : List ℕ) {Skb State : Type 0} (d : Discipline Skb State)
    (ops : LeafOps d) where
  leaf_again-HasForest :
      (sch : Qdisc Skb State) (p : ℕ) (new_q : Option State) (clock : ℤ)
      → HasForest sch
      → mem p sch.clhash ≡ true
      → children_of sch p ≡ 0
      → HasForest (leaf_again rb prios d ops sch p new_q clock)
  unfolding leaf_again
  leaf_again-HasForest sch p new_q clock forest p_in alone =
      let parent = class_of sch p in
      let leaf : HtbClass = record (cleared_inner parent) {
        level = 0;
        tokens = parent.buffer;
        ctokens = parent.cbuffer;
        t_c = clock;
        cmode = can_send;
      } in
      let lowered =
        IsForest-agree (with_class-level sch p leaf refl refl)
          (lowered-IsForest forest p p_in alone) in
      if_both
        (λ (q : HtbSched).
          HasForest
            (with_leaf (record sch { htb = set_class q p leaf }) p (or_noop rb prios d ops new_q)))
        (is_can_send parent.cmode) sch.htb _ lowered lowered

  -- The class c is out of the hierarchy, which is otherwise as it was.
  pub removed-HasForest :
      (sch : Qdisc Skb State) (c : ℕ)
      → HasForest sch
      → mem c sch.clhash ≡ true
      → children_of sch c ≡ 0
      → length sch.clhash < 2 ^ 32
      → let out = removed rb prios d ops sch c in
        HasForest out
        × ((x : ℕ)
            → children_of out x ≡ (
                if points_to (parent_of sch c) x then children_of sch x - 1 else children_of sch x))
        × ((x : ℕ) → (level_of out x ≡ level_of sch x) × (parent_of out x ≡ parent_of sch x))
        × (out.clhash ≡ without c sch.clhash)
  unfolding removed unlinked
  removed-HasForest sch c forest c_in alone small =
      let s₁ = emptied rb prios d ops sch c in
      let to_s₁ = emptied-Steady rb prios d ops sch c in
      let s₂ = unlinked rb prios d ops sch c in
      let to_out =
        Steady-trans (inactive-Steady rb prios d ops s₂ c)
          (unqueued-Steady rb prios d ops _ c (class_of sch c).level) in
      let count = λ (x : ℕ). ap (λ s. s.1.1.1) (to_s₁.steady_htb.kept x) in
      let (forest₂, n, same, hash) =
        taken_out-HasForest s₁ c _ (HasForest-Steady to_s₁ forest) (rw (to_s₁.steady_clhash) c_in)
          (count c ∙ alone) (rw (to_s₁.steady_clhash) small) refl in
      (
        HasForest-Steady to_out forest₂,
        λ x.
            ap (λ s. s.1.1.1) (to_out.steady_htb.kept x)
            ∙ (n x ∙ rw (same_parent to_s₁ c, count x) refl),
        λ x. (
          same_level to_out x ∙ ((same x).0 ∙ same_level to_s₁ x),
          same_parent to_out x ∙ ((same x).1 ∙ same_parent to_s₁ x),
        ),
        to_out.steady_clhash ∙ (hash ∙ ap (without c) to_s₁.steady_clhash),
      )

  -- The last child's parent p is a leaf again.
  pub last_child_lem :
      (sch : Qdisc Skb State) (c : ℕ) (o : Option ℕ)
      → parent_of sch c ≡ o
      → htb_parent_last_child sch c ≡ true
      → (p : ℕ) × (o ≡ some p) × (ltb 1 (children_of sch p) ≡ false)
  unfolding htb_parent_last_child
  last_child_lem sch c none e last =
      let no : htb_parent_last_child sch c ≡ false = rw (e, htb_parent_last_child) refl in
      absurd (ground arith)
  last_child_lem sch c (some p) e last =
      let own : htb_parent_last_child sch c ≡ not (ltb 1 (children_of sch p)) =
        rw (e, htb_parent_last_child) refl in
      (p, refl, ground arith)

  pub deleted-HasForest :
      (sch : Qdisc Skb State) (c : ℕ) (clock : ℤ)
      → HasForest sch
      → mem c sch.clhash ≡ true
      → children_of sch c ≡ 0
      → length sch.clhash < 2 ^ 32
      → HasForest (deleted rb prios d ops sch c clock)
  unfolding deleted htb_parent_to_leaf
  deleted-HasForest sch c clock forest c_in alone small =
      let out = removed rb prios d ops sch c in
      let (forest', n, parents, hash) = removed-HasForest sch c forest c_in alone small in
      elim (Bool-cases (at_level_0 sch c && htb_parent_last_child sch c)) [
        | inr e ↦ rw (e) forest'
        | inl e ↦
            let (p, own, few) = last_child_lem sch c _ refl (ground arith) in
            let (p_in, up) = forest.above c p c_in own in
            let apart : (c == p) ≡ false = elim (Bool-cases (c == p)) [
              | inl t ↦
                  let c_p : c ≡ p = ground arith in
                  let same : level_of sch c ≡ level_of sch p = ap (level_of sch) c_p in
                  absurd (omega arith)
              | inr t ↦ t
            ] in
            let p_out : mem p out.clhash ≡ true =
              rw (hash, without-mem c p sch.clhash forest.unique, p_in, apart) refl in
            let at_p : points_to (parent_of sch c) p ≡ true = rw (own, ==_refl p) refl in
            let fewer : children_of out p ≡ children_of sch p - 1 = n p ∙ rw (at_p) refl in
            let no_more : children_of out p ≡ 0 = ground arith in
            rw (e) (
              rw ((parents c).1 ∙ own, htb_parent_to_leaf)
                (leaf_again-HasForest out p _ clock forest' p_out no_more))
      ]

  -- What holds of the scheduler that htb_delete leaves, where it returns.
  abbrev pub Leaves : (Qdisc Skb State → Type 0) → Option (Qdisc Skb State × ℤ) → Type 0
  Leaves P none = Unit {0}
  Leaves P (some (sch, err)) = P sch

  pub htb_delete-HasForest :
      (sch : Qdisc Skb State) (c : ℕ) (clock : ℤ)
      → HasForest sch
      → mem c sch.clhash ≡ true
      → length sch.clhash < 2 ^ 32
      → Leaves HasForest (htb_delete rb prios d ops sch c clock)
  unfolding htb_delete
  htb_delete-HasForest sch c clock forest c_in small =
      let out = deleted rb prios d ops sch c clock in
      elim (Bool-cases
        (not (children_of sch c == 0) || not (eqb_ℤ (class_of sch c).filter_cnt (pos 0)))) [
          | inl busy ↦ rw (busy) forest
          | inr free ↦
              let alone : children_of sch c ≡ 0 = ground arith in
              let last = class_of out c in
              let left : ℤ = s32 (last.refcnt -ℤ pos 1) in
              let kept : HtbClass = record last { refcnt = left } in
              let after : HasForest (with_class out c kept) =
                HasForest-Steady (htb-Steady out _ (set_class-Kept out.htb c kept refl))
                  (deleted-HasForest sch c clock forest c_in alone small) in
              elim (Bool-cases (eqb_ℤ left (pos 0))) [
                | inl gone ↦ rw (free, gone) tt
                | inr used ↦ rw (free, used) after
              ]
        ]
