-- ===== src/Htb/Targets.antt =====
-- sch_htb.c: a scheduler whose classes are a forest and whose count is that of its packets, and the
-- packets that htb_classify sends to its leaves.
use virtual_time_kernel.Base.{
  ℕ, zero, suc, ◌+◌, ◌≡◌, refl, ap, arith, true, ◌==◌, if◌then◌else◌, if_both, List, Option, none,
  some, update, Bool-cases, inl, inr, length, ltb, update_self, update_ne, ◌≢◌,
}
use virtual_time_kernel.Htb.{HtbSched}
use virtual_time_kernel.Htb.Tree.{RbTree, mem}
use virtual_time_kernel.Htb.Feeds.{htb_activate}
use virtual_time_kernel.Htb.Packets.{
  Discipline, Qdisc, Match, unmatched, stolen, shot, to_class, to_classid, Target, nowhere, direct,
  leaf, htb_find, is_leaf, default_target, classify_from, htb_classify, enqueue_to,
}
use virtual_time_kernel.Htb.Conserved.{htb-Same, Option-cases, length-snoc}
use virtual_time_kernel.Htb.Shape.{Kept, Kept-refl, htb_activate-Kept}
use virtual_time_kernel.Htb.Steady.{Steady, htb-Steady, enqueue_to-Steady}
use virtual_time_kernel.Htb.Kinship.{HasForest, HasForest-Steady, level_of, find_class-mem}
use virtual_time_kernel.Htb.Balance.{IsCounted, IsCounted-Same, IsCounted-leaf}

-- The classes are a forest, and qlen is the number of the packets in the queues.
pub record IsSound {Skb State : Type 0} (d : Discipline Skb State) (sch : Qdisc Skb State)
    : Type 0 where
  pub forest : HasForest sch
  pub counts : IsCounted d sch

module _ {Skb State : Type 0} (d : Discipline Skb State) where
  -- A change outside the queues and the hierarchy.
  pub htb-IsSound :
      {sch : Qdisc Skb State} (q : HtbSched)
      → Kept sch.htb q
      → IsSound d sch
      → IsSound d (record sch { htb = q })
  htb-IsSound {sch} q kept sound = record {
    forest = HasForest-Steady (htb-Steady sch q kept) sound.forest;
    counts = IsCounted-Same d (htb-Steady sch q kept) (htb-Same d sch q) refl sound.counts;
  }

  -- A leaf among the classes, if the packet is for one.
  abbrev pub IsTarget : Qdisc Skb State → Target → Type 0
  IsTarget sch (leaf c) = (mem c sch.clhash ≡ true) × (level_of sch c ≡ 0)
  IsTarget sch _ = Unit {0}

  abbrev pub Finds : Qdisc Skb State → Option Target → Type 0
  Finds sch none = Unit {0}
  Finds sch (some target) = IsTarget sch target

  -- The filters name classes of the scheduler.
  abbrev pub KnowsClasses : Qdisc Skb State → (ℕ → Match) → Type 0
  KnowsClasses sch tc_classify = (f c : ℕ) → tc_classify f ≡ to_class c → mem c sch.clhash ≡ true

  leaf_or :
      (sch : Qdisc Skb State) (c : ℕ) (rest : Option Target)
      → mem c sch.clhash ≡ true
      → Finds sch rest
      → Finds sch (if is_leaf sch c then some (leaf c) else rest)
  leaf_or sch c rest c_in h = elim (Bool-cases (is_leaf sch c)) [
    | inl e ↦ rw (e) (c_in, ground arith)
    | inr e ↦ rw (e) h
  ]

  default_target-IsTarget : (sch : Qdisc Skb State) → IsTarget sch (default_target sch)
  default_target-IsTarget sch = elim (Option-cases (htb_find sch sch.default_class)) [
    | inl e ↦ rw (IsTarget, e) tt
    | inr (c, e) ↦
        let c_in = find_class-mem sch.htb sch.clhash sch.default_class c e in
        rw (IsTarget, e)
          (elim (Bool-cases (is_leaf sch c)) [
            | inl t ↦ rw (t) (c_in, ground arith)
            | inr t ↦ rw (t) tt
          ])
  ]

  classify_step :
      (tc_classify : ℕ → Match) (turns : ℕ) (sch : Qdisc Skb State) (f : ℕ)
      → ((c : ℕ) → tc_classify f ≡ to_class c → mem c sch.clhash ≡ true)
      → ((tcf : Option ℕ) → Finds sch (classify_from tc_classify turns sch tcf))
      → (r : Match) → tc_classify f ≡ r
      → Finds sch (classify_from tc_classify (suc turns) sch (some f))
  unfolding classify_from
  classify_step tc_classify turns sch f known rest unmatched e =
      rw (e, classify_from) (default_target-IsTarget sch)
  classify_step tc_classify turns sch f known rest stolen e = rw (e, classify_from) tt
  classify_step tc_classify turns sch f known rest shot e = rw (e, classify_from) tt
  classify_step tc_classify turns sch f known rest (to_class c) e =
      rw (e, classify_from) (leaf_or sch c _ (known c e) (rest (sch.class_filters c)))
  classify_step tc_classify turns sch f known rest (to_classid id) e =
      rw (e, classify_from)
        (if_both (Finds sch) (id == sch.handle) (some direct) _ tt
          (elim (Option-cases (htb_find sch id)) [
            | inl n ↦ rw (n) (default_target-IsTarget sch)
            | inr (c, n) ↦ rw (n) (
                leaf_or sch c _ (find_class-mem sch.htb sch.clhash id c n)
                  (rest (sch.class_filters c)))
          ]))

  classify_from-Finds :
      (tc_classify : ℕ → Match) (turns : ℕ) (sch : Qdisc Skb State) (tcf : Option ℕ)
      → KnowsClasses sch tc_classify
      → Finds sch (classify_from tc_classify turns sch tcf)
  unfolding classify_from
  classify_from-Finds tc_classify zero sch tcf known = tt
  classify_from-Finds tc_classify (suc turns) sch none known = default_target-IsTarget sch
  classify_from-Finds tc_classify (suc turns) sch (some f) known =
      classify_step tc_classify turns sch f (known f)
        (λ tcf. classify_from-Finds tc_classify turns sch tcf known) _ refl

  -- A leaf that htb_classify finds is one of the scheduler's leaves, if the filters name its classes.
  pub htb_classify-Finds :
      (tc_classify : ℕ → Match) (turns : ℕ) (sch : Qdisc Skb State) (priority : ℕ)
      → KnowsClasses sch tc_classify
      → Finds sch (htb_classify tc_classify turns sch priority)
  unfolding htb_classify
  htb_classify-Finds tc_classify turns sch priority known =
      if_both (Finds sch) (priority == sch.handle) (some direct) _ tt
        (elim (Option-cases (htb_find sch priority)) [
          | inl e ↦ rw (e) (classify_from-Finds tc_classify turns sch sch.filter_list known)
          | inr (c, e) ↦ rw (e) (
              leaf_or sch c _ (find_class-mem sch.htb sch.clhash priority c e)
                (classify_from-Finds tc_classify turns sch (sch.class_filters c) known))
        ])

module _ (rb : RbTree) (prios : List ℕ) {Skb State : Type 0} (d : Discipline Skb State) where
  enqueue_to-IsCounted :
      (sch : Qdisc Skb State) (skb : Skb) (target : Target)
      → IsTarget d sch target
      → IsSound d sch
      → IsCounted d (enqueue_to rb prios d sch skb target).0
  unfolding enqueue_to
  enqueue_to-IsCounted sch skb (nowhere was_stolen) good sound = sound.counts
  enqueue_to-IsCounted sch skb direct good sound =
      let before = sound.counts.balance in
      let longer = length-snoc d sch.direct_queue skb in
      elim (Bool-cases (ltb (length sch.direct_queue) sch.direct_qlen)) [
        | inl e ↦ rw (e) (record {
          balance = omega arith;
          outside = sound.counts.outside;
          inner = sound.counts.inner;
        })
        | inr e ↦ rw (e) sound.counts
      ]
  enqueue_to-IsCounted sch skb (leaf c) (c_in, low) sound =
      let s = (d.enqueue skb (sch.leaves c)).0 in
      let counted = d.enqueue-qlen skb (sch.leaves c) in
      let own : d.qlen (update sch.leaves c s c) ≡ d.qlen s =
        ap d.qlen (update_self sch.leaves c s) in
      let others = λ (x : ℕ) (n : c ≢ x). ap d.qlen (update_ne sch.leaves c s x n) in
      let queued : Qdisc Skb State = record sch { leaves = update sch.leaves c s } in
      elim (Bool-cases ((d.enqueue skb (sch.leaves c)).1 == 0)) [
        | inl e ↦
            let more : d.qlen s ≡ suc (d.qlen (sch.leaves c)) = rw (e) at counted in
            let steady : Steady sch
                (record queued { htb = htb_activate rb prios sch.htb c; qlen = sch.qlen + 1 }) =
              record { steady_htb = htb_activate-Kept rb prios sch.htb c; steady_clhash = refl } in
            rw (e) (
              IsCounted-leaf d c steady sound.forest c_in low refl others (omega arith)
                sound.counts)
        | inr e ↦
            let equal : d.qlen s ≡ d.qlen (sch.leaves c) = rw (e) at counted in
            let steady : Steady sch queued = record {
              steady_htb = Kept-refl sch.htb;
              steady_clhash = refl;
            } in
            rw (e) (
              IsCounted-leaf d c steady sound.forest c_in low refl others (omega arith)
                sound.counts)
      ]

  pub enqueue_to-IsSound :
      (sch : Qdisc Skb State) (skb : Skb) (target : Target)
      → IsTarget d sch target
      → IsSound d sch
      → IsSound d (enqueue_to rb prios d sch skb target).0
  enqueue_to-IsSound sch skb target good sound = record {
    forest = HasForest-Steady (enqueue_to-Steady rb prios d sch skb target) sound.forest;
    counts = enqueue_to-IsCounted sch skb target good sound;
  }
