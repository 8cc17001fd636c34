-- ===== src/Htb/Dropped.antt =====
-- sch_htb.c: htb_drop and htb_reset, and the packets after them.
use virtual_time_kernel.Base.{
  ℕ, zero, suc, ◌-◌, ◌≡◌, ◌≢◌, ◌<◌, sym, refl, ap, ◌∙◌, arith, true, false, ◌==◌, if_both, List, [],
  ◌∷◌, Option, none, some, update, update_self, update_ne, Bool-cases, inl, inr,
}
use virtual_time_kernel.Htb.Tree.{RbTree, mem}
use virtual_time_kernel.Htb.Feeds.{htb_deactivate}
use virtual_time_kernel.Htb.Packets.{Discipline, Qdisc}
use virtual_time_kernel.Htb.Conserved.{held, Same, OneMore, leaf-Same, leaf-OneLess}
use virtual_time_kernel.Htb.Shape.{
  Kept-refl, set_class-Kept, htb_deactivate-Kept, same_classes, Kept-trans,
}
use virtual_time_kernel.Htb.Steady.{Steady, Steady-refl, Steady-trans, htb-Steady}
use virtual_time_kernel.Htb.Growth.{same_or_other}
use virtual_time_kernel.Htb.Classes.{LeafOps, with_leaf, at_level_0}
use virtual_time_kernel.Htb.Reset.{drop_list, htb_drop, reset_class, reset_classes, htb_reset}
use virtual_time_kernel.Htb.Kinship.{level_of, same_level, with_leaf-Steady}
use virtual_time_kernel.Htb.Balance.{weight}

module _ (rb : RbTree) (prios : List ℕ) {Skb State : Type 0} (d : Discipline Skb State)
    (ops : LeafOps d) where
  -- What a length that was dropped says of the packets.
  abbrev pub Dropped : Qdisc Skb State → Qdisc Skb State × ℕ → Type 0
  Dropped sch (sch', zero) = Same d sch sch' × (sch'.qlen ≡ sch.qlen)
  Dropped sch (sch', suc len) = OneMore d sch' sch × (sch'.qlen ≡ sch.qlen - 1)

  Dropped-after :
      (sch sch₁ sch' : Qdisc Skb State) (len : ℕ)
      → Same d sch sch₁
      → sch₁.qlen ≡ sch.qlen
      → Dropped sch₁ (sch', len)
      → Dropped sch (sch', len)
  Dropped-after sch sch₁ sch' zero same q (h, k) = (λ place. h place ∙ same place, k ∙ q)
  Dropped-after sch sch₁ sch' (suc len) same q ((place, more, others), k) = (
    (place, sym (same place) ∙ more, λ other ne. sym (same other) ∙ others other ne),
    k ∙ ap (λ x. x - 1) q,
  )

  Dropped-some :
      (sch sch' : Qdisc Skb State) (len : ℕ)
      → (len == 0) ≡ false
      → OneMore d sch' sch
      → sch'.qlen ≡ sch.qlen - 1
      → Dropped sch (sch', len)
  Dropped-some sch sch' zero e more q = absurd (ground arith)
  Dropped-some sch sch' (suc len) e more q = (more, q)

  Dropped-none :
      (sch sch' : Qdisc Skb State) (len : ℕ)
      → (len == 0) ≡ true
      → Dropped sch (sch', len)
      → Same d sch sch' × (sch'.qlen ≡ sch.qlen)
  Dropped-none sch sch' zero e h = h
  Dropped-none sch sch' (suc len) e h = absurd (ground arith)

  drop_list-Dropped :
      (cs : List ℕ) (sch : Qdisc Skb State) → Dropped sch (drop_list rb prios d ops cs sch)
  unfolding drop_list
  drop_list-Dropped [] sch = (λ place. refl, refl)
  drop_list-Dropped (c ∷ cs) sch =
      let s = (ops.drop (sch.leaves c)).0 in
      let len = (ops.drop (sch.leaves c)).1 in
      let counted = ops.drop-qlen (sch.leaves c) in
      let tried = with_leaf sch c s in
      let dropped : Qdisc Skb State = record tried { qlen = sch.qlen - 1 } in
      let idle : Qdisc Skb State = record dropped { htb = htb_deactivate rb prios dropped.htb c } in
      let rest = drop_list rb prios d ops cs tried in
      elim (Bool-cases (len == 0)) [
        | inl e ↦
            let equal : d.qlen (sch.leaves c) ≡ d.qlen s = rw (e) at counted in
            rw (e) (
              Dropped-after sch tried rest.0 rest.1
                (leaf-Same d sch tried c s refl refl (sym equal)) refl (drop_list-Dropped cs tried))
        | inr e ↦
            let less : d.qlen (sch.leaves c) ≡ suc (d.qlen s) = rw (e) at counted in
            rw (e) (
              if_both (λ (x : Qdisc Skb State). Dropped sch (x, len)) (d.qlen s == 0) idle dropped
                (Dropped-some sch idle len e (leaf-OneLess d sch idle c s refl refl less) refl)
                (Dropped-some sch dropped len e (leaf-OneLess d sch dropped c s refl refl less)
                  refl))
      ]

  -- htb_drop takes one packet out of one queue and off the count, where the length that it returns is not
  -- 0; otherwise every queue is as long as it was, whichever disciplines were asked.
  pub htb_drop-Dropped :
      (downwards : List ℕ) (sch : Qdisc Skb State)
      → Dropped sch (htb_drop rb prios d ops downwards sch)
  unfolding htb_drop
  htb_drop-Dropped [] sch = (λ place. refl, refl)
  htb_drop-Dropped (p ∷ downwards) sch =
      let r = drop_list rb prios d ops (sch.htb.drops p) sch in
      let h = drop_list-Dropped (sch.htb.drops p) sch in
      elim (Bool-cases (r.1 == 0)) [
        | inl e ↦
            let (same, q) = Dropped-none sch r.0 r.1 e h in
            let rest = htb_drop rb prios d ops downwards r.0 in
            rw (e) (Dropped-after sch r.0 rest.0 rest.1 same q (htb_drop-Dropped downwards r.0))
        | inr e ↦ rw (e) h
      ]

  drop_list-Steady :
      (cs : List ℕ) (sch : Qdisc Skb State) → Steady sch (drop_list rb prios d ops cs sch).0
  unfolding drop_list
  drop_list-Steady [] sch = Steady-refl sch
  drop_list-Steady (c ∷ cs) sch =
      let s = (ops.drop (sch.leaves c)).0 in
      let len = (ops.drop (sch.leaves c)).1 in
      let tried = with_leaf sch c s in
      let dropped : Qdisc Skb State = record tried { qlen = sch.qlen - 1 } in
      let idle : Qdisc Skb State = record dropped { htb = htb_deactivate rb prios dropped.htb c } in
      elim (Bool-cases (len == 0)) [
        | inl e ↦
            rw (e)
              (Steady-trans (with_leaf-Steady rb prios d ops sch c s) (drop_list-Steady cs tried))
        | inr e ↦ rw (e) (
            if_both (Steady sch) (d.qlen s == 0) idle dropped
              (record { steady_htb = htb_deactivate-Kept rb prios sch.htb c; steady_clhash = refl })
              (record { steady_htb = Kept-refl sch.htb; steady_clhash = refl }))
      ]

  pub htb_drop-Steady :
      (downwards : List ℕ) (sch : Qdisc Skb State)
      → Steady sch (htb_drop rb prios d ops downwards sch).0
  unfolding htb_drop
  htb_drop-Steady [] sch = Steady-refl sch
  htb_drop-Steady (p ∷ downwards) sch =
      let r = drop_list rb prios d ops (sch.htb.drops p) sch in
      let first = drop_list-Steady (sch.htb.drops p) sch in
      elim (Bool-cases (r.1 == 0)) [
        | inl e ↦ rw (e) (Steady-trans first (htb_drop-Steady downwards r.0))
        | inr e ↦ rw (e) first
      ]

  reset_class-Steady :
      (sch : Qdisc Skb State) (c : ℕ) → Steady sch (reset_class rb prios d ops sch c)
  unfolding reset_class
  reset_class-Steady sch c = elim (Bool-cases (at_level_0 sch c)) [
    | inl e ↦ rw (e) (record { steady_htb = set_class-Kept sch.htb c _ refl; steady_clhash = refl })
    | inr e ↦ rw (e) (htb-Steady sch _ (set_class-Kept sch.htb c _ refl))
  ]

  -- No packets but in the classes of the list, and none in an inner class.
  abbrev EmptyBut : List ℕ → Qdisc Skb State → Type 0
  EmptyBut cs sch =
      ((x : ℕ) → mem x cs ≡ false → weight d sch x ≡ 0)
      × ((x : ℕ) → 0 < level_of sch x → weight d sch x ≡ 0)

  reset_class-weight :
      (sch : Qdisc Skb State) (c x : ℕ)
      → (0 < level_of sch c → weight d sch c ≡ 0)
      → (c ≢ x → weight d sch x ≡ 0)
      → weight d (reset_class rb prios d ops sch c) x ≡ 0
  unfolding reset_class
  reset_class-weight sch c x inner other =
      let s = ops.qdisc_reset (sch.leaves c) in
      elim (Bool-cases (at_level_0 sch c)) [
        | inl e ↦ rw (e) (elim (same_or_other c x) [
          | inl same ↦
              ap (λ z. d.qlen (update sch.leaves c s z)) (sym same)
              ∙ (ap d.qlen (update_self sch.leaves c s) ∙ ops.qdisc_reset-qlen (sch.leaves c))
          | inr n ↦ ap d.qlen (update_ne sch.leaves c s x n) ∙ other n
        ])
        | inr e ↦
            let empty : weight d sch c ≡ 0 = inner (ground arith) in
            rw (e) (elim (same_or_other c x) [
              | inl same ↦ ap (weight d sch) (sym same) ∙ empty
              | inr n ↦ other n
            ])
      ]

  reset_class-EmptyBut :
      (sch : Qdisc Skb State) (c : ℕ) (cs : List ℕ)
      → EmptyBut (c ∷ cs) sch
      → EmptyBut cs (reset_class rb prios d ops sch c)
  reset_class-EmptyBut sch c cs (out, inner) =
      let unequal : (x : ℕ) → c ≢ x → (c == x) ≡ false = λ x n. ground arith in
      let steady = reset_class-Steady sch c in
      (
        λ x k. reset_class-weight sch c x (inner c) (λ n. out x (rw (unequal x n) k)),
        λ x k.
            let up : 0 < level_of sch x = rw (same_level steady x) at k in
            reset_class-weight sch c x (inner c) (λ n. inner x up),
      )

  reset_classes_lem :
      (cs : List ℕ) (sch : Qdisc Skb State)
      → EmptyBut cs sch
      → let sch' = reset_classes rb prios d ops cs sch in
        Steady sch sch' × ((x : ℕ) → weight d sch' x ≡ 0)
  unfolding reset_classes
  reset_classes_lem [] sch (out, inner) = (Steady-refl sch, λ x. out x refl)
  reset_classes_lem (c ∷ cs) sch empty =
      let (steady, none_left) =
        reset_classes_lem cs (reset_class rb prios d ops sch c)
          (reset_class-EmptyBut sch c cs empty) in
      (Steady-trans (reset_class-Steady sch c) steady, none_left)

  pub htb_reset-Steady :
      (sch : Qdisc Skb State)
      → ((x : ℕ) → mem x sch.clhash ≡ false → weight d sch x ≡ 0)
      → ((x : ℕ) → 0 < level_of sch x → weight d sch x ≡ 0)
      → let sch' = htb_reset rb prios d ops sch in
        Steady sch sch' × ((place : Option ℕ) → held d sch' place ≡ 0)
  unfolding htb_reset
  htb_reset-Steady sch out inner =
      let (steady, none_left) = reset_classes_lem sch.clhash sch (out, inner) in
      (
        record {
          steady_htb = Kept-trans steady.steady_htb (same_classes refl);
          steady_clhash = steady.steady_clhash;
        },
        nowhere none_left,
      )
    where
      nowhere :
          ((x : ℕ) → weight d (reset_classes rb prios d ops sch.clhash sch) x ≡ 0)
          → (place : Option ℕ) → held d (htb_reset rb prios d ops sch) place ≡ 0
      nowhere h none = refl
      nowhere h (some x) = h x
