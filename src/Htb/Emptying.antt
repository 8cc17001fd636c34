-- ===== src/Htb/Emptying.antt =====
-- sch_htb.c: the count of the packets where leaves are emptied, and where they become inner classes.
use virtual_time_kernel.Base.{
  ℕ, ◌≡◌, ◌<◌, sym, refl, ap, ◌∙◌, arith, true, List, none, some, update, update_self, update_ne,
  Bool-cases, inl, inr, length,
}
use virtual_time_kernel.Base.Int.{ℤ}
use virtual_time_kernel.Math64.{Math64}
use virtual_time_kernel.Psched.{LinkLayer}
use virtual_time_kernel.Htb.{HtbClass, HtbSched, can_send, set_class}
use virtual_time_kernel.Htb.Tree.{RbTree, mem}
use virtual_time_kernel.Htb.Feeds.{any_bit, htb_deactivate, htb_safe_rb_erase}
use virtual_time_kernel.Htb.Tokens.{is_can_send}
use virtual_time_kernel.Htb.Packets.{Discipline, Qdisc}
use virtual_time_kernel.Htb.Conserved.{Same, htb-Same, Option-cases}
use virtual_time_kernel.Htb.Shape.{Kept}
use virtual_time_kernel.Htb.Steady.{Steady, htb-Steady}
use virtual_time_kernel.Htb.Growth.{same_or_other}
use virtual_time_kernel.Htb.Classes.{LeafOps, class_of, with_leaf, at_level_0, cleared_inner}
use virtual_time_kernel.Htb.Delete.{or_noop, emptied, inactive, unqueued}
use virtual_time_kernel.Htb.Change.{vacated, as_inner, make_inner, inner_level}
use virtual_time_kernel.Htb.Kinship.{HasForest, level_of, inactive-Steady, unqueued-Steady}
use virtual_time_kernel.Htb.Balance.{
  weight, total, total_agree, total-without, IsCounted, IsCounted-Same, IsCounted-leaf,
}

module _ (rb : RbTree) (prios : List ℕ) {Skb State : Type 0} (d : Discipline Skb State)
    (ops : LeafOps d) where
  pub or_noop-qlen : (id : ℕ) → d.qlen (or_noop rb prios d ops (ops.create_pfifo id)) ≡ 0
  or_noop-qlen id = elim (Option-cases (ops.create_pfifo id)) [
    | inl e ↦ rw (e) ops.noop_qdisc-qlen
    | inr (s, e) ↦ rw (e) (ops.create_pfifo-qlen id s e)
  ]

  -- Packets that tree_decrease_qlen leaves in their places.
  pub decrease-Same :
      (sch : Qdisc Skb State) (c n : ℕ) → Same d sch (ops.tree_decrease_qlen sch c n)
  decrease-Same sch c n none = ap length (ops.tree_decrease_qlen-direct sch c n)
  decrease-Same sch c n (some x) = ap (λ f. d.qlen (f x)) (ops.tree_decrease_qlen-leaves sch c n)

  pub inactive-Same :
      (sch : Qdisc Skb State) (c : ℕ)
      → Same d sch (inactive rb prios d ops sch c)
        × ((inactive rb prios d ops sch c).qlen ≡ sch.qlen)
  unfolding inactive
  inactive-Same sch c = elim (Bool-cases (any_bit prios (class_of sch c).prio_activity)) [
    | inl e ↦ rw (e) (htb-Same d sch (htb_deactivate rb prios sch.htb c), refl)
    | inr e ↦ rw (e) (λ place. refl, refl)
  ]

  pub unqueued-Same :
      (sch : Qdisc Skb State) (c l : ℕ)
      → Same d sch (unqueued rb prios d ops sch c l)
        × ((unqueued rb prios d ops sch c l).qlen ≡ sch.qlen)
  unfolding unqueued
  unqueued-Same sch c l = elim (Bool-cases (is_can_send (class_of sch c).cmode)) [
    | inl e ↦ rw (e) (λ place. refl, refl)
    | inr e ↦
        let q = sch.htb in
        let out : HtbSched = record q {
          wait_pq = update q.wait_pq l (htb_safe_rb_erase rb c (q.wait_pq l));
        } in
        rw (e) (htb-Same d sch out, refl)
  ]

  pub htb-IsCounted :
      {sch : Qdisc Skb State} (q : HtbSched)
      → Kept sch.htb q
      → IsCounted d sch
      → IsCounted d (record sch { htb = q })
  htb-IsCounted {sch} q kept counted =
      IsCounted-Same d (htb-Steady sch q kept) (htb-Same d sch q) refl counted

  pub inactive-IsCounted :
      (sch : Qdisc Skb State) (c : ℕ)
      → IsCounted d sch
      → IsCounted d (inactive rb prios d ops sch c)
  inactive-IsCounted sch c counted =
      let (same, q) = inactive-Same sch c in
      IsCounted-Same d (inactive-Steady rb prios d ops sch c) same q counted

  pub unqueued-IsCounted :
      (sch : Qdisc Skb State) (c l : ℕ)
      → IsCounted d sch
      → IsCounted d (unqueued rb prios d ops sch c l)
  unqueued-IsCounted sch c l counted =
      let (same, q) = unqueued-Same sch c l in
      IsCounted-Same d (unqueued-Steady rb prios d ops sch c l) same q counted

  -- A leaf's new queue, and the packets of the old one off the count.
  pub replaced-IsCounted :
      (sch : Qdisc Skb State) (c : ℕ) (s : State)
      → HasForest sch
      → mem c sch.clhash ≡ true
      → level_of sch c ≡ 0
      → d.qlen s ≡ 0
      → IsCounted d sch
      → let sch' = ops.tree_decrease_qlen (with_leaf sch c s) c (weight d sch c) in
        IsCounted d sch' × (weight d sch' c ≡ 0)
  replaced-IsCounted sch c s forest c_in low none_in counted =
      let n = weight d sch c in
      let placed = with_leaf sch c s in
      let sch' = ops.tree_decrease_qlen placed c n in
      let same = decrease-Same placed c n in
      let own : weight d sch' c ≡ 0 =
        same (some c) ∙ (ap d.qlen (update_self sch.leaves c s) ∙ none_in) in
      let before = counted.balance in
      let part = total-without (weight d sch) c sch.clhash c_in in
      let less = ops.tree_decrease_qlen-qlen placed c n in
      let steady : Steady sch sch' = record {
        steady_htb = ops.tree_decrease_qlen-Kept placed c n;
        steady_clhash = ops.tree_decrease_qlen-clhash placed c n;
      } in
      (
        IsCounted-leaf d c steady forest c_in low (same none)
            (λ x h. same (some x) ∙ ap d.qlen (update_ne sch.leaves c s x h)) (omega arith) counted,
        own,
      )

  pub emptied-IsCounted :
      (sch : Qdisc Skb State) (c : ℕ)
      → HasForest sch
      → mem c sch.clhash ≡ true
      → IsCounted d sch
      → let sch' = emptied rb prios d ops sch c in IsCounted d sch' × (weight d sch' c ≡ 0)
  unfolding emptied
  emptied-IsCounted sch c forest c_in counted = elim (Bool-cases (at_level_0 sch c)) [
    | inl e ↦ rw (e) (
        replaced-IsCounted sch c (ops.qdisc_reset (sch.leaves c)) forest c_in (ground arith)
          (ops.qdisc_reset-qlen (sch.leaves c)) counted)
    | inr e ↦ rw (e) (counted, counted.inner c (ground arith))
  ]

-- Other levels, where inner classes hold no packets.
pub relevelled-IsCounted :
    {Skb State : Type 0} (d : Discipline Skb State) {sch sch' : Qdisc Skb State}
    → sch'.clhash ≡ sch.clhash
    → Same d sch sch'
    → sch'.qlen ≡ sch.qlen
    → ((x : ℕ) → 0 < level_of sch' x → weight d sch x ≡ 0)
    → IsCounted d sch
    → IsCounted d sch'
relevelled-IsCounted d {sch} {sch'} hash same q empty counted =
    let sums : total (weight d sch') sch'.clhash ≡ total (weight d sch) sch.clhash =
      rw (hash) (total_agree (weight d sch) (weight d sch') sch.clhash (λ c k. same (some c))) in
    let line = same none in
    let before = counted.balance in
    record {
      balance = omega arith;
      outside = λ c k. same (some c) ∙ counted.outside c (rw (hash) at k);
      inner = λ c k. same (some c) ∙ empty c k;
    }

module _ (m : Math64) (link : LinkLayer) (ticks2ns : ℕ → ℤ) (rb : RbTree) (prios : List ℕ)
    {Skb State : Type 0} (d : Discipline Skb State) (ops : LeafOps d) where
  vacated-IsCounted :
      (sch : Qdisc Skb State) (p : ℕ)
      → HasForest sch
      → mem p sch.clhash ≡ true
      → IsCounted d sch
      → let out = vacated m link ticks2ns rb prios d ops sch p in
        IsCounted d out × (weight d out p ≡ 0)
  unfolding vacated
  vacated-IsCounted sch p forest p_in counted =
      let s₁ = emptied rb prios d ops sch p in
      let (counted₁, empty) = emptied-IsCounted rb prios d ops sch p forest p_in counted in
      let s₂ = inactive rb prios d ops s₁ p in
      (
        unqueued-IsCounted rb prios d ops s₂ p 0 (inactive-IsCounted rb prios d ops s₁ p counted₁),
        (unqueued-Same rb prios d ops s₂ p 0).0 (some p)
            ∙ ((inactive-Same rb prios d ops s₁ p).0 (some p) ∙ empty),
      )

  as_inner-IsCounted :
      (sch : Qdisc Skb State) (p : ℕ)
      → IsCounted d sch
      → weight d sch p ≡ 0
      → IsCounted d (as_inner m link ticks2ns rb prios d ops sch p)
  unfolding as_inner
  as_inner-IsCounted sch p counted empty =
      let inner : HtbClass = record (cleared_inner (class_of sch p)) {
        cmode = can_send;
        level = inner_level sch p;
      } in
      relevelled-IsCounted d refl (htb-Same d sch (set_class sch.htb p inner)) refl
        (λ x h. elim (same_or_other p x) [
          | inl e ↦ ap (weight d sch) (sym e) ∙ empty
          | inr n ↦
              let own : (update (class_of sch) p inner x).level ≡ level_of sch x =
                ap (λ (y : HtbClass). y.level) (update_ne (class_of sch) p inner x n) in
              counted.inner x (rw (own) at h)
        ])
        counted

  pub make_inner-IsCounted :
      (sch : Qdisc Skb State) (p : ℕ)
      → HasForest sch
      → mem p sch.clhash ≡ true
      → IsCounted d sch
      → IsCounted d (make_inner m link ticks2ns rb prios d ops sch p)
  unfolding make_inner
  make_inner-IsCounted sch p forest p_in counted = elim (Bool-cases (at_level_0 sch p)) [
    | inl e ↦
        let (out, empty) = vacated-IsCounted sch p forest p_in counted in
        rw (e) (as_inner-IsCounted (vacated m link ticks2ns rb prios d ops sch p) p out empty)
    | inr e ↦ rw (e) counted
  ]
