-- ===== src/Htb/Lifecycle.antt =====
-- sch_htb.c: adding and deleting classes keeps the hierarchy a forest.
use virtual_time_kernel.Base.{
  ℕ, suc, ◌+◌, ◌-◌, ◌%◌, ◌^◌, ◌≡◌, ◌≢◌, ◌<◌, sym, refl, ap, ◌∙◌, arith, true, false, ◌==◌, ==_refl,
  if◌then◌else◌, List, Option, none, some, update, update_self, update_ne, Bool-cases, inl, inr,
  length,
}
use virtual_time_kernel.Base.Int.{ℤ}
use virtual_time_kernel.Math64.{Math64}
use virtual_time_kernel.Psched.{LinkLayer}
use virtual_time_kernel.Htb.{HtbClass}
use virtual_time_kernel.Htb.Tree.{RbTree, mem, first, without}
use virtual_time_kernel.Htb.Feeds.{points_to}
use virtual_time_kernel.Htb.Packets.{Discipline, Qdisc}
use virtual_time_kernel.Htb.Forest.{IsForest-agree, is_child}
use virtual_time_kernel.Htb.Growth.{added-IsForest, removed-IsForest}
use virtual_time_kernel.Htb.Classes.{LeafOps, class_of, one_child_less}
use virtual_time_kernel.Htb.Change.{too_deep, make_inner, new_class, TcHtbOpt}
use virtual_time_kernel.Htb.Kinship.{
  HasForest, level_of, parent_of, children_of, child_count-le, make_inner-HasForest,
}

-- A family with an entry for c, and one for p after it.
module _ (g : ℕ → HtbClass) (c p : ℕ) (cl : HtbClass) (apart : p ≢ c) where
  abbrev counts_one : HtbClass → HtbClass
  counts_one parent = record parent { children = (parent.children + 1) % 2 ^ 32 }

  abbrev grown : ℕ → HtbClass
  grown = update (update g c cl) p (counts_one (update g c cl p))

  grown_new : grown c ≡ cl
  grown_new = update_ne (update g c cl) p _ c apart ∙ update_self g c cl

  grown_parent : grown p ≡ counts_one (g p)
  grown_parent =
      update_self (update g c cl) p _ ∙ ap counts_one (update_ne g c cl p (λ e. apart (sym e)))

  grown_other : (x : ℕ) → c ≢ x → p ≢ x → grown x ≡ g x
  grown_other x h k = update_ne (update g c cl) p _ x k ∙ update_ne g c cl x h

  -- What adding a class asks of the others.
  grown_old :
      (g p).children + 1 < 2 ^ 32
      → (x : ℕ) → c ≢ x
      → ((grown x).level ≡ (g x).level)
        × ((first (grown x).ancestors ≡ first (g x).ancestors)
            × ((grown x).children ≡ (if p == x then suc (g x).children else (g x).children)))
  grown_old small x h = elim (Bool-cases (p == x)) [
    | inl e ↦
        let p_x : p ≡ x = ground arith in
        let k : grown x ≡ counts_one (g x) =
          ap grown (sym p_x) ∙ (grown_parent ∙ ap (λ z. counts_one (g z)) p_x) in
        let fits : (g x).children + 1 < 2 ^ 32 =
          let same : (g p).children ≡ (g x).children = ap (λ z. (g z).children) p_x in
          omega arith in
        (
          ap (λ y. y.level) k,
          (
            ap (λ y. first y.ancestors) k,
            ap (λ y. y.children) k
                ∙ (let wrap : ((g x).children + 1) % 2 ^ 32 ≡ suc (g x).children = omega arith in
                    rw (e) wrap),
          ),
        )
    | inr e ↦
        let k = grown_other x h (λ p_x. let self = ==_refl p in ground arith) in
        (
          ap (λ y. y.level) k,
          (ap (λ y. first y.ancestors) k, ap (λ y. y.children) k ∙ sym (rw (e) refl)),
        )
  ]

module _ (m : Math64) (link : LinkLayer) (ticks2ns : ℕ → ℤ) (rb : RbTree) (prios : List ℕ)
    {Skb State : Type 0} (d : Discipline Skb State) (ops : LeafOps d) where
  -- A new class, whose memory is fresh and whose parent is a class.
  pub new_class-HasForest :
      (sch : Qdisc Skb State) (c classid : ℕ) (parent : Option ℕ) (hopt : TcHtbOpt) (clock : ℤ)
      → HasForest sch
      → mem c sch.clhash ≡ false
      → ((p : ℕ) → parent ≡ some p → mem p sch.clhash ≡ true)
      → too_deep sch parent ≡ false
      → length sch.clhash + 1 < 2 ^ 32
      → HasForest (new_class m link ticks2ns rb prios d ops sch c classid parent hopt clock)
  unfolding new_class
  new_class-HasForest sch c classid none hopt clock forest fresh known shallow room =
      added-IsForest forest c none _ _ _ fresh (λ p e. absurd (ground arith))
        (ap (λ (x : HtbClass). x.level) (update_self (class_of sch) c _))
        (ap (λ (x : HtbClass). first x.ancestors) (update_self (class_of sch) c _))
        (ap (λ (x : HtbClass). x.children) (update_self (class_of sch) c _))
        (λ x h.
          let k = update_ne (class_of sch) c _ x h in
          (
            ap (λ (y : HtbClass). y.level) k,
            (ap (λ (y : HtbClass). first y.ancestors) k, ap (λ (y : HtbClass). y.children) k),
          ))
  new_class-HasForest sch c classid (some p) hopt clock forest fresh known shallow room =
      let above = make_inner m link ticks2ns rb prios d ops sch p in
      let p_in = known p refl in
      let (forest', high, hash, _) =
        make_inner-HasForest m link ticks2ns rb prios d ops sch p forest p_in shallow in
      let p_above : mem p above.clhash ≡ true = rw (hash) p_in in
      let apart : p ≢ c = λ e.
        let c_in : mem c sch.clhash ≡ true = ap (λ z. mem z sch.clhash) (sym e) ∙ p_in in
        ground arith in
      let own = forest'.counted p p_above in
      let most = child_count-le (parent_of above) p above.clhash in
      let long : length above.clhash ≡ length sch.clhash = ap length hash in
      let small : children_of above p + 1 < 2 ^ 32 = omega arith in
      let new = grown_new (class_of above) c p _ apart in
      added-IsForest forest' c (some p) _ _ _ (rw (hash) fresh)
        (λ q e.
          let p_q : p ≡ q = ground arith in
          (
            ap (λ z. mem z above.clhash) (sym p_q) ∙ p_above,
            let same : level_of above p ≡ level_of above q = ap (level_of above) p_q in omega arith,
          ))
        (ap (λ (x : HtbClass). x.level) new) (ap (λ (x : HtbClass). first x.ancestors) new)
        (ap (λ (x : HtbClass). x.children) new) (grown_old (class_of above) c p _ apart small)

-- A family with one child less at p.
module _ (g : ℕ → HtbClass) (p : ℕ) where
  abbrev counts_less : HtbClass → HtbClass
  counts_less parent = record parent { children = (parent.children + 2 ^ 32 - 1) % 2 ^ 32 }

  shrunk_lem :
      0 < (g p).children
      → (g p).children < 2 ^ 32
      → (x : ℕ)
      → let y = update g p (counts_less (g p)) x in
        (y.level ≡ (g x).level)
        × ((first y.ancestors ≡ first (g x).ancestors)
            × (y.children ≡ (if p == x then (g x).children - 1 else (g x).children)))
  shrunk_lem one small x = elim (Bool-cases (p == x)) [
    | inl e ↦
        let p_x : p ≡ x = ground arith in
        let k : update g p (counts_less (g p)) x ≡ counts_less (g x) =
          rw (e) (ap (λ z. counts_less (g z)) p_x) in
        let same : (g p).children ≡ (g x).children = ap (λ z. (g z).children) p_x in
        let wrap : ((g x).children + 2 ^ 32 - 1) % 2 ^ 32 ≡ (g x).children - 1 = omega arith in
        (
          ap (λ y. y.level) k,
          (ap (λ y. first y.ancestors) k, ap (λ y. y.children) k ∙ (wrap ∙ sym (rw (e) refl))),
        )
    | inr e ↦
        let k : update g p (counts_less (g p)) x ≡ g x = rw (e) refl in
        (
          ap (λ y. y.level) k,
          (ap (λ y. first y.ancestors) k, ap (λ y. y.children) k ∙ sym (rw (e) refl)),
        )
  ]

module _ {Skb State : Type 0} where
  -- The class c leaves its parent and the hash table.
  pub taken_out-HasForest :
      (sch : Qdisc Skb State) (c : ℕ) (o : Option ℕ)
      → HasForest sch
      → mem c sch.clhash ≡ true
      → children_of sch c ≡ 0
      → length sch.clhash < 2 ^ 32
      → parent_of sch c ≡ o
      → let sch' = one_child_less (record sch { clhash = without c sch.clhash }) o in
        HasForest sch'
        × ((x : ℕ)
            → children_of sch' x
              ≡ (if points_to o x then children_of sch x - 1 else children_of sch x))
        × ((x : ℕ) → (level_of sch' x ≡ level_of sch x) × (parent_of sch' x ≡ parent_of sch x))
        × (sch'.clhash ≡ without c sch.clhash)
  taken_out-HasForest sch c none forest c_in alone small e = (
    removed-IsForest forest c (children_of sch) c_in alone (λ x. rw (e) refl),
    λ x. refl,
    λ x. (refl, refl),
    refl,
  )
  taken_out-HasForest sch c (some p) forest c_in alone small e =
      let (p_in, _) = forest.above c p c_in e in
      let own = forest.counted p p_in in
      let most = child_count-le (parent_of sch) p sch.clhash in
      let least = is_child (parent_of sch) p c sch.clhash c_in e in
      let one : 0 < children_of sch p = omega arith in
      let fits : children_of sch p < 2 ^ 32 = omega arith in
      let at = shrunk_lem (class_of sch) p one fits in
      (
        IsForest-agree (λ x. ((at x).0, ((at x).1.0, refl)))
            (removed-IsForest forest c _ c_in alone (λ x. rw (e) ((at x).1.1))),
        λ x. (at x).1.1,
        λ x. ((at x).0, (at x).1.0),
        refl,
      )
