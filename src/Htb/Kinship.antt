-- ===== src/Htb/Kinship.antt =====
-- sch_htb.c: htb_change_class and htb_delete on the hierarchy.
use virtual_time_kernel.Base.{
  ℕ, ◌≡◌, ◌≤◌, ◌<◌, sym, refl, ap, ◌∙◌, arith, true, false, ltb, ◌==◌, List, [], ◌∷◌, Option, none,
  some, update, update_self, Bool-cases, inl, inr, length,
}
use mathlib.Core.Path.{fun_ext}
use virtual_time_kernel.Base.Int.{ℤ}
use virtual_time_kernel.Math64.{Math64}
use virtual_time_kernel.Psched.{LinkLayer}
use virtual_time_kernel.Htb.{HtbClass, HtbSched, can_send}
use virtual_time_kernel.Htb.Tree.{RbTree, mem, first}
use virtual_time_kernel.Htb.Feeds.{any_bit}
use virtual_time_kernel.Htb.Tokens.{is_can_send}
use virtual_time_kernel.Htb.Packets.{Discipline, Qdisc, find_class}
use virtual_time_kernel.Htb.Shape.{Kept-refl, same_classes, htb_deactivate-Kept}
use virtual_time_kernel.Htb.Steady.{Steady, Steady-refl, Steady-trans, htb-Steady}
use virtual_time_kernel.Htb.Forest.{IsForest, IsForest-agree, child_count}
use virtual_time_kernel.Htb.Growth.{raised-IsForest}
use virtual_time_kernel.Htb.Classes.{
  LeafOps, class_of, with_class, with_leaf, at_level_0, cleared_inner,
}
use virtual_time_kernel.Htb.Delete.{emptied, inactive, unqueued}
use virtual_time_kernel.Htb.Change.{too_deep, inner_level, is_low, vacated, as_inner, make_inner}

pub find_class-mem :
    (q : HtbSched) (cs : List ℕ) (id c : ℕ) → find_class q cs id ≡ some c → mem c cs ≡ true
unfolding find_class
find_class-mem q [] id c e = absurd (ground arith)
find_class-mem q (x ∷ xs) id c e = elim (Bool-cases ((q.classes x).classid == id)) [
  | inl t ↦ let x_c : x ≡ c = ground arith in ground arith
  | inr t ↦ let ih = find_class-mem q xs id c (rw (t) at e) in ground arith
]

pub child_count-le : (f : ℕ → Option ℕ) (p : ℕ) (cs : List ℕ) → child_count f p cs ≤ length cs
unfolding child_count
child_count-le f p [] = omega arith
child_count-le f p (c ∷ cs) = let ih = child_count-le f p cs in ground arith

module _ {Skb State : Type 0} where
  abbrev pub level_of : Qdisc Skb State → ℕ → ℕ
  level_of sch c = (class_of sch c).level

  abbrev pub parent_of : Qdisc Skb State → ℕ → Option ℕ
  parent_of sch c = first (class_of sch c).ancestors

  abbrev pub children_of : Qdisc Skb State → ℕ → ℕ
  children_of sch c = (class_of sch c).children

  abbrev pub HasForest : Qdisc Skb State → Type 0
  HasForest sch = IsForest sch.clhash (level_of sch) (parent_of sch) (children_of sch)

  pub HasForest-Steady :
      {sch sch' : Qdisc Skb State} → Steady sch sch' → HasForest sch → HasForest sch'
  HasForest-Steady {sch} {sch'} steady forest =
      let same = steady.steady_htb in
      rw (steady.steady_clhash) (
        IsForest-agree
          (λ c. (
            ap (λ s. s.0) (same.kept c),
            (ap (λ s. first s.1.0) (same.kept c), ap (λ s. s.1.1.1) (same.kept c)),
          ))
          forest)

module _ (rb : RbTree) (prios : List ℕ) {Skb State : Type 0} (d : Discipline Skb State)
    (ops : LeafOps d) where
  pub decrease-Steady :
      (sch : Qdisc Skb State) (c n : ℕ) → Steady sch (ops.tree_decrease_qlen sch c n)
  decrease-Steady sch c n = record {
    steady_htb = ops.tree_decrease_qlen-Kept sch c n;
    steady_clhash = ops.tree_decrease_qlen-clhash sch c n;
  }

  pub with_leaf-Steady :
      (sch : Qdisc Skb State) (c : ℕ) (s : State) → Steady sch (with_leaf sch c s)
  with_leaf-Steady sch c s = record { steady_htb = Kept-refl sch.htb; steady_clhash = refl }

  pub emptied-Steady : (sch : Qdisc Skb State) (c : ℕ) → Steady sch (emptied rb prios d ops sch c)
  unfolding emptied
  emptied-Steady sch c = elim (Bool-cases (at_level_0 sch c)) [
    | inl e ↦ rw (e) (Steady-trans (with_leaf-Steady sch c _) (decrease-Steady _ c _))
    | inr e ↦ rw (e) (Steady-refl sch)
  ]

  pub inactive-Steady : (sch : Qdisc Skb State) (c : ℕ) → Steady sch (inactive rb prios d ops sch c)
  unfolding inactive
  inactive-Steady sch c = elim (Bool-cases (any_bit prios (class_of sch c).prio_activity)) [
    | inl e ↦ rw (e) (htb-Steady sch _ (htb_deactivate-Kept rb prios sch.htb c))
    | inr e ↦ rw (e) (Steady-refl sch)
  ]

  pub unqueued-Steady :
      (sch : Qdisc Skb State) (c l : ℕ) → Steady sch (unqueued rb prios d ops sch c l)
  unfolding unqueued
  unqueued-Steady sch c l = elim (Bool-cases (is_can_send (class_of sch c).cmode)) [
    | inl e ↦ rw (e) (Steady-refl sch)
    | inr e ↦ rw (e) (htb-Steady sch _ (same_classes refl))
  ]

module _ {Skb State : Type 0} where
  pub same_level : {a b : Qdisc Skb State} → Steady a b → (c : ℕ) → level_of b c ≡ level_of a c
  same_level s c = ap (λ x. x.0) (s.steady_htb.kept c)

  pub same_parent : {a b : Qdisc Skb State} → Steady a b → (c : ℕ) → parent_of b c ≡ parent_of a c
  same_parent s c = ap (λ x. first x.1.0) (s.steady_htb.kept c)

  too_deep-Steady :
      {a b : Qdisc Skb State} → Steady a b → (p : ℕ) → too_deep b (some p) ≡ too_deep a (some p)
  too_deep-Steady {a} {b} s p = rw (same_parent s p, fun_ext (same_level s)) refl

  -- The level of a parent that becomes an inner class.
  inner_level_bounds :
      (sch : Qdisc Skb State) (p : ℕ)
      → HasForest sch
      → mem p sch.clhash ≡ true
      → too_deep sch (some p) ≡ false
      → (o : Option ℕ) → parent_of sch p ≡ o
      → (0 < inner_level sch p)
        × (inner_level sch p < 8)
        × ((g : ℕ) → parent_of sch p ≡ some g → inner_level sch p < level_of sch g)
  inner_level_bounds sch p forest p_in shallow none e =
      rw (e) (omega arith, omega arith, λ g h. absurd (ground arith))
  inner_level_bounds sch p forest p_in shallow (some g) e =
      let high : ltb (level_of sch g) 2 ≡ false = ap (is_low (level_of sch)) (sym e) ∙ shallow in
      let g_in = (forest.above p g p_in e).0 in
      let small = forest.bounded g g_in in
      let two : 2 ≤ level_of sch g = ground arith in
      rw (e) (
        omega arith,
        omega arith,
        λ x h.
            let g_x : g ≡ x = ground arith in
            let same : level_of sch g ≡ level_of sch x = ap (level_of sch) g_x in omega arith,
      )

  pub with_class-level :
      (sch : Qdisc Skb State) (p : ℕ) (cl : HtbClass)
      → cl.ancestors ≡ (class_of sch p).ancestors
      → cl.children ≡ children_of sch p
      → (c : ℕ)
      → (level_of (with_class sch p cl) c ≡ update (level_of sch) p cl.level c)
        × ((parent_of (with_class sch p cl) c ≡ parent_of sch c)
            × (children_of (with_class sch p cl) c ≡ children_of sch c))
  with_class-level sch p cl a n c = elim (Bool-cases (p == c)) [
    | inl e ↦
        let p_c : p ≡ c = ground arith in
        let k : class_of (with_class sch p cl) c ≡ cl = rw (e) refl in
        (
          ap (λ x. x.level) k ∙ sym (rw (e) refl),
          (
            ap (λ x. first x.ancestors) k ∙ (ap first a ∙ ap (parent_of sch) p_c),
            ap (λ x. x.children) k ∙ (n ∙ ap (children_of sch) p_c),
          ),
        )
    | inr e ↦
        let k : class_of (with_class sch p cl) c ≡ class_of sch c = rw (e) refl in
        (
          ap (λ x. x.level) k ∙ sym (rw (e) refl),
          (ap (λ x. first x.ancestors) k, ap (λ x. x.children) k),
        )
  ]

module _ (m : Math64) (link : LinkLayer) (ticks2ns : ℕ → ℤ) (rb : RbTree) (prios : List ℕ)
    {Skb State : Type 0} (d : Discipline Skb State) (ops : LeafOps d) where
  vacated-Steady :
      (sch : Qdisc Skb State) (p : ℕ) → Steady sch (vacated m link ticks2ns rb prios d ops sch p)
  unfolding vacated
  vacated-Steady sch p =
      Steady-trans (emptied-Steady rb prios d ops sch p)
        (Steady-trans (inactive-Steady rb prios d ops _ p) (unqueued-Steady rb prios d ops _ p 0))

  -- The parent p is an inner class of a forest that is otherwise as it was.
  abbrev pub IsInnerIn : Qdisc Skb State → ℕ → Qdisc Skb State → Type 0
  IsInnerIn sch p sch' =
      HasForest sch'
      × (0 < level_of sch' p)
      × (sch'.clhash ≡ sch.clhash)
      × ((c : ℕ) → children_of sch' c ≡ children_of sch c)

  as_inner-HasForest :
      (sch : Qdisc Skb State) (p : ℕ)
      → HasForest sch
      → mem p sch.clhash ≡ true
      → too_deep sch (some p) ≡ false
      → level_of sch p ≡ 0
      → IsInnerIn sch p (as_inner m link ticks2ns rb prios d ops sch p)
  unfolding as_inner
  as_inner-HasForest sch p forest p_in shallow zero_p =
      let (low, small, below) = inner_level_bounds sch p forest p_in shallow _ refl in
      let inner : HtbClass = record (cleared_inner (class_of sch p)) {
        cmode = can_send;
        level = inner_level sch p;
      } in
      let at = with_class-level sch p inner refl refl in
      let own : class_of (with_class sch p inner) p ≡ inner = update_self (class_of sch) p inner in
      (
        IsForest-agree at (raised-IsForest forest p (inner_level sch p) zero_p low small below),
        rw (ap (λ (x : HtbClass). x.level) own) low,
        refl,
        λ c. (at c).1.1,
      )

  pub make_inner-HasForest :
      (sch : Qdisc Skb State) (p : ℕ)
      → HasForest sch
      → mem p sch.clhash ≡ true
      → too_deep sch (some p) ≡ false
      → IsInnerIn sch p (make_inner m link ticks2ns rb prios d ops sch p)
  unfolding make_inner
  make_inner-HasForest sch p forest p_in shallow = elim (Bool-cases (at_level_0 sch p)) [
    | inl e ↦
        let out = vacated m link ticks2ns rb prios d ops sch p in
        let to_out = vacated-Steady sch p in
        let zero_p : level_of sch p ≡ 0 = ground arith in
        let (a, b, c, n) =
          as_inner-HasForest out p (HasForest-Steady to_out forest) (rw (to_out.steady_clhash) p_in)
            (too_deep-Steady to_out p ∙ shallow) (same_level to_out p ∙ zero_p) in
        rw (e)
          (a, b, c ∙ to_out.steady_clhash, λ x. n x ∙ ap (λ s. s.1.1.1) (to_out.steady_htb.kept x))
    | inr e ↦ let high : 0 < level_of sch p = ground arith in rw (e) (forest, high, refl, λ c. refl)
  ]
