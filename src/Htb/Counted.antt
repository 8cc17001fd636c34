-- ===== src/Htb/Counted.antt =====
-- sch_htb.c: the count of the packets where classes come and go.
use virtual_time_kernel.Base.{
  ℕ, ◌+◌, ◌%◌, ◌^◌, ◌≡◌, ◌≢◌, ◌<◌, sym, refl, ap, ◌∙◌, arith, true, false, not, ◌&&◌, ◌||◌, ◌==◌,
  if_both, List, Option, none, some, update, update_ne, Bool-cases, inl, inr, length,
}
use virtual_time_kernel.Base.Int.{ℤ, pos, eqb_ℤ, ◌-ℤ◌}
use virtual_time_kernel.Base.Word.{s32}
use virtual_time_kernel.Math64.{Math64}
use virtual_time_kernel.Psched.{LinkLayer}
use virtual_time_kernel.Htb.{HtbClass, HtbSched, can_send, set_class}
use virtual_time_kernel.Htb.Tree.{RbTree, mem, without}
use virtual_time_kernel.Htb.Tokens.{is_can_send}
use virtual_time_kernel.Htb.Packets.{Discipline, Qdisc}
use virtual_time_kernel.Htb.Conserved.{Same, htb-Same, leaf-Same}
use virtual_time_kernel.Htb.Shape.{set_class-Kept}
use virtual_time_kernel.Htb.Growth.{same_or_other}
use virtual_time_kernel.Htb.Classes.{
  LeafOps, class_of, with_class, with_leaf, at_level_0, htb_parent_last_child, cleared_inner,
  one_child_less,
}
use virtual_time_kernel.Htb.Delete.{
  or_noop, emptied, unlinked, removed, deleted, htb_delete, leaf_again, htb_parent_to_leaf,
}
use virtual_time_kernel.Htb.Change.{TcHtbOpt, too_deep, make_inner, new_class}
use virtual_time_kernel.Htb.Kinship.{
  HasForest, HasForest-Steady, level_of, parent_of, children_of, emptied-Steady,
  make_inner-HasForest,
}
use virtual_time_kernel.Htb.Lifecycle.{taken_out-HasForest}
use virtual_time_kernel.Htb.Deletion.{Leaves, removed-HasForest, last_child_lem}
use virtual_time_kernel.Htb.Balance.{weight, IsCounted}
use virtual_time_kernel.Htb.Emptying.{
  or_noop-qlen, inactive-IsCounted, unqueued-IsCounted, htb-IsCounted, emptied-IsCounted,
  relevelled-IsCounted, make_inner-IsCounted,
}
use virtual_time_kernel.Htb.Family.{joined-IsCounted, parted-IsCounted}

module _ (rb : RbTree) (prios : List ℕ) {Skb State : Type 0} (d : Discipline Skb State)
    (ops : LeafOps d) where
  leaf_again-IsCounted :
      (sch : Qdisc Skb State) (p id : ℕ) (clock : ℤ)
      → weight d sch p ≡ 0
      → IsCounted d sch
      → IsCounted d (leaf_again rb prios d ops sch p (ops.create_pfifo id) clock)
  unfolding leaf_again
  leaf_again-IsCounted sch p id clock empty counted =
      let parent = class_of sch p in
      let leaf : HtbClass = record (cleared_inner parent) {
        level = 0;
        tokens = parent.buffer;
        ctokens = parent.cbuffer;
        t_c = clock;
        cmode = can_send;
      } in
      let s = or_noop rb prios d ops (ops.create_pfifo id) in
      let none_in = or_noop-qlen rb prios d ops id in
      let final : HtbSched → Qdisc Skb State =
        λ q. with_leaf (record sch { htb = set_class q p leaf }) p s in
      let step : (q : HtbSched) → q.classes ≡ sch.htb.classes → IsCounted d (final q) = λ q same_q.
        relevelled-IsCounted d {sch = sch} {sch' = final q} refl
          (leaf-Same d sch (final q) p s refl refl (none_in ∙ sym empty)) refl
          (λ x h. elim (same_or_other p x) [
            | inl e ↦ ap (weight d sch) (sym e) ∙ empty
            | inr n ↦
                let own : level_of (final q) x ≡ level_of sch x =
                  ap (λ (y : HtbClass). y.level) (update_ne q.classes p leaf x n)
                  ∙ ap (λ f. (f x).level) same_q in
                counted.inner x (rw (own) at h)
          ])
          counted in
      if_both (λ (q : HtbSched). IsCounted d (final q)) (is_can_send parent.cmode) sch.htb _
        (step sch.htb refl) (step _ refl)

  one_child_less-Same :
      (sch : Qdisc Skb State) (o : Option ℕ)
      → Same d sch (one_child_less sch o) × ((one_child_less sch o).qlen ≡ sch.qlen)
  one_child_less-Same sch none = (λ place. refl, refl)
  one_child_less-Same sch (some p) = (htb-Same d sch (one_child_less sch (some p)).htb, refl)

  hash-Same : (sch : Qdisc Skb State) (cs : List ℕ) → Same d sch (record sch { clhash = cs })
  hash-Same sch cs none = refl
  hash-Same sch cs (some c) = refl

  removed-IsCounted :
      (sch : Qdisc Skb State) (c : ℕ)
      → HasForest sch
      → mem c sch.clhash ≡ true
      → children_of sch c ≡ 0
      → length sch.clhash < 2 ^ 32
      → IsCounted d sch
      → IsCounted d (removed rb prios d ops sch c)
  unfolding removed unlinked
  removed-IsCounted sch c forest c_in alone small counted =
      let s₁ = emptied rb prios d ops sch c in
      let to_s₁ = emptied-Steady rb prios d ops sch c in
      let (counted₁, empty) = emptied-IsCounted rb prios d ops sch c forest c_in counted in
      let forest₁ = HasForest-Steady to_s₁ forest in
      let c_in₁ : mem c s₁.clhash ≡ true = rw (to_s₁.steady_clhash) c_in in
      let out : Qdisc Skb State = record s₁ { clhash = without c s₁.clhash } in
      let (_, _, same, hash) =
        taken_out-HasForest s₁ c (parent_of s₁ c) forest₁ c_in₁
          (ap (λ s. s.1.1.1) (to_s₁.steady_htb.kept c) ∙ alone) (rw (to_s₁.steady_clhash) small)
          refl in
      let (kept, q) = one_child_less-Same out (parent_of s₁ c) in
      let counted₂ =
        parted-IsCounted d c forest₁ c_in₁ empty hash
          (λ place. kept place ∙ hash-Same s₁ (without c s₁.clhash) place) q (λ x. (same x).0)
          counted₁ in
      unqueued-IsCounted rb prios d ops _ c (class_of sch c).level
        (inactive-IsCounted rb prios d ops _ c counted₂)

  deleted-IsCounted :
      (sch : Qdisc Skb State) (c : ℕ) (clock : ℤ)
      → HasForest sch
      → mem c sch.clhash ≡ true
      → children_of sch c ≡ 0
      → length sch.clhash < 2 ^ 32
      → IsCounted d sch
      → IsCounted d (deleted rb prios d ops sch c clock)
  unfolding deleted htb_parent_to_leaf
  deleted-IsCounted sch c clock forest c_in alone small counted =
      let out = removed rb prios d ops sch c in
      let counted' = removed-IsCounted sch c forest c_in alone small counted in
      let (_, _, places, _) = removed-HasForest rb prios d ops sch c forest c_in alone small in
      elim (Bool-cases (at_level_0 sch c && htb_parent_last_child sch c)) [
        | inr e ↦ rw (e) counted'
        | inl e ↦
            let (p, own, _) = last_child_lem rb prios d ops sch c _ refl (ground arith) in
            let (_, up) = forest.above c p c_in own in
            let high = (places p).0 in
            let empty : weight d out p ≡ 0 = counted'.inner p (omega arith) in
            rw (e) (
              rw ((places c).1 ∙ own, htb_parent_to_leaf)
                (leaf_again-IsCounted out p _ clock empty counted'))
      ]

  pub htb_delete-IsCounted :
      (sch : Qdisc Skb State) (c : ℕ) (clock : ℤ)
      → HasForest sch
      → mem c sch.clhash ≡ true
      → length sch.clhash < 2 ^ 32
      → IsCounted d sch
      → Leaves rb prios d ops (IsCounted d) (htb_delete rb prios d ops sch c clock)
  unfolding htb_delete
  htb_delete-IsCounted sch c clock forest c_in small counted =
      let out = deleted rb prios d ops sch c clock in
      elim (Bool-cases
        (not (children_of sch c == 0) || not (eqb_ℤ (class_of sch c).filter_cnt (pos 0)))) [
          | inl busy ↦ rw (busy) counted
          | inr free ↦
              let alone : children_of sch c ≡ 0 = ground arith in
              let last = class_of out c in
              let left : ℤ = s32 (last.refcnt -ℤ pos 1) in
              let kept : HtbClass = record last { refcnt = left } in
              let after : IsCounted d (with_class out c kept) =
                htb-IsCounted rb prios d ops (set_class out.htb c kept)
                  (set_class-Kept out.htb c kept refl)
                  (deleted-IsCounted sch c clock forest c_in alone small counted) in
              elim (Bool-cases (eqb_ℤ left (pos 0))) [
                | inl gone ↦ rw (free, gone) tt
                | inr used ↦ rw (free, used) after
              ]
        ]

module _ (m : Math64) (link : LinkLayer) (ticks2ns : ℕ → ℤ) (rb : RbTree) (prios : List ℕ)
    {Skb State : Type 0} (d : Discipline Skb State) (ops : LeafOps d) where
  pub new_class-IsCounted :
      (sch : Qdisc Skb State) (c classid : ℕ) (parent : Option ℕ) (hopt : TcHtbOpt) (clock : ℤ)
      → HasForest sch
      → mem c sch.clhash ≡ false
      → ((p : ℕ) → parent ≡ some p → mem p sch.clhash ≡ true)
      → too_deep sch parent ≡ false
      → IsCounted d sch
      → IsCounted d (new_class m link ticks2ns rb prios d ops sch c classid parent hopt clock)
  unfolding new_class
  new_class-IsCounted sch c classid none hopt clock forest fresh known shallow counted =
      joined-IsCounted d c _ fresh refl refl (or_noop-qlen rb prios d ops classid) refl refl
        (λ x n. ap (λ (y : HtbClass). y.level) (update_ne (class_of sch) c _ x n)) counted
  new_class-IsCounted sch c classid (some p) hopt clock forest fresh known shallow counted =
      let above = make_inner m link ticks2ns rb prios d ops sch p in
      let p_in = known p refl in
      let (_, _, hash, _) =
        make_inner-HasForest m link ticks2ns rb prios d ops sch p forest p_in shallow in
      joined-IsCounted d {sch = above} c _ (rw (hash) fresh) refl refl
        (or_noop-qlen rb prios d ops classid) refl refl
        (λ x n. level_past (class_of above) c p _ x n)
        (make_inner-IsCounted m link ticks2ns rb prios d ops sch p forest p_in counted)
    where
      level_past :
          (g : ℕ → HtbClass) (c p : ℕ) (cl : HtbClass) (x : ℕ)
          → c ≢ x
          → let f = update g c cl in
            (update f p (record (f p) { children = ((f p).children + 1) % 2 ^ 32 }) x).level
            ≡ (g x).level
      level_past g c p cl x n = elim (Bool-cases (p == x)) [
        | inl e ↦
            let p_x : p ≡ x = ground arith in
            rw (e) (
              ap (λ z. (update g c cl z).level) p_x
              ∙ ap (λ (y : HtbClass). y.level) (update_ne g c cl x n))
        | inr e ↦ rw (e) (ap (λ (y : HtbClass). y.level) (update_ne g c cl x n))
      ]
