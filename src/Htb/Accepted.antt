-- ===== src/Htb/Accepted.antt =====
-- sch_htb.c: where htb_enqueue puts a packet, and whether it can be found there.
use virtual_time_kernel.Base.{
  ℕ, suc, ◌≡◌, ◌≢◌, refl, arith, true, ltb, ◌==◌, List, [], ◌∷◌, ◌++◌, some, length, update_self,
  update_ne, Bool-cases, inl, inr, ◌<◌,
}
use virtual_time_kernel.Htb.Tree.{RbTree, mem}
use virtual_time_kernel.Htb.Packets.{
  Discipline, Qdisc, Match, Target, direct, nowhere, leaf, Xmit, success, enqueue_to, htb_classify,
  htb_enqueue,
}
use virtual_time_kernel.Htb.Conserved.{Same, enqueue_to-Enqueued}
use virtual_time_kernel.Htb.Active.{IsActive, htb_activate-IsActive}

module _ (rb : RbTree) (prios : List ℕ) {Skb State : Type 0} (d : Discipline Skb State) where
  -- A leaf that has packets is active: its level, or that of an ancestor, knows of it.
  abbrev pub IsBacklogged : Qdisc Skb State → Type 0
  IsBacklogged sch = (c : ℕ) → 0 < d.qlen (sch.leaves c) → IsActive prios sch.htb c

  -- Where a packet that was accepted stands, for the place that it was meant for.
  abbrev pub Placed : Qdisc Skb State → Skb → Target → Qdisc Skb State → Type 0
  Placed sch skb (nowhere was_stolen) sch' = ⊥
  Placed sch skb direct sch' =
      (sch'.direct_queue ≡ sch.direct_queue ++ (skb ∷ [])) × (sch'.leaves ≡ sch.leaves)
  Placed sch skb (leaf c) sch' =
      (sch'.direct_queue ≡ sch.direct_queue)
      × (sch'.leaves c ≡ (d.enqueue skb (sch.leaves c)).0)
      × ((e : ℕ) → c ≢ e → sch'.leaves e ≡ sch.leaves e)
      × IsActive prios sch'.htb c

  -- Only a packet that was accepted is in a queue.
  abbrev pub Answered : Qdisc Skb State → Skb → Target → Xmit → Qdisc Skb State → Type 0
  Answered sch skb target success sch' = Placed sch skb target sch' × (sch'.qlen ≡ suc sch.qlen)
  Answered sch skb target _ sch' = Same d sch sch' × (sch'.qlen ≡ sch.qlen)

  enqueue_to-Answered :
      (sch : Qdisc Skb State) (skb : Skb) (target : Target)
      → ((c : ℕ) → mem (sch.htb.classes c).prio prios ≡ true)
      → let r = enqueue_to rb prios d sch skb target in Answered sch skb target r.1 r.0
  unfolding enqueue_to
  enqueue_to-Answered sch skb (nowhere was_stolen) in_range = (λ place. refl, refl)
  enqueue_to-Answered sch skb direct in_range =
      elim (Bool-cases (ltb (length sch.direct_queue) sch.direct_qlen)) [
        | inl e ↦ rw (e) ((refl, refl), omega arith)
        | inr e ↦ rw (e) (λ place. refl, refl)
      ]
  enqueue_to-Answered sch skb (leaf c) in_range =
      let whole = enqueue_to-Enqueued d rb prios sch skb (leaf c) in
      let s = (d.enqueue skb (sch.leaves c)).0 in
      let active = htb_activate-IsActive rb prios sch.htb c (in_range c) in
      elim (Bool-cases ((d.enqueue skb (sch.leaves c)).1 == 0)) [
        | inl e ↦ rw (e) (
          (refl, update_self sch.leaves c s, λ x n. update_ne sch.leaves c s x n, active.1),
          omega arith,
        )
        | inr e ↦ let unchanged = rw (e, enqueue_to) at whole in rw (e) unchanged
      ]

  enqueue_to-IsBacklogged :
      (sch : Qdisc Skb State) (skb : Skb) (target : Target)
      → ((c : ℕ) → mem (sch.htb.classes c).prio prios ≡ true)
      → IsBacklogged sch
      → IsBacklogged (enqueue_to rb prios d sch skb target).0
  unfolding enqueue_to
  enqueue_to-IsBacklogged sch skb (nowhere was_stolen) in_range ready = ready
  enqueue_to-IsBacklogged sch skb direct in_range ready =
      elim (Bool-cases (ltb (length sch.direct_queue) sch.direct_qlen)) [
        | inl e ↦ rw (e) ready
        | inr e ↦ rw (e) ready
      ]
  enqueue_to-IsBacklogged sch skb (leaf c) in_range ready =
      let s = (d.enqueue skb (sch.leaves c)).0 in
      let counted = d.enqueue-qlen skb (sch.leaves c) in
      let active = htb_activate-IsActive rb prios sch.htb c (in_range c) in
      elim (Bool-cases ((d.enqueue skb (sch.leaves c)).1 == 0)) [
        | inl e ↦ rw (e) (λ x full. elim (Bool-cases (c == x)) [
          | inl t ↦ let c_x : c ≡ x = ground arith in rw (← c_x) active.1
          | inr t ↦ active.0 x (ready x (rw (t) at full))
        ])
        | inr e ↦
            let equal : d.qlen s ≡ d.qlen (sch.leaves c) = rw (e) at counted in
            rw (e) (λ x full. elim (Bool-cases (c == x)) [
              | inl t ↦
                  let c_x : c ≡ x = ground arith in
                  let own : 0 < d.qlen s = rw (t) at full in rw (← c_x) (ready c (rw (← equal) own))
              | inr t ↦ ready x (rw (t) at full)
            ])
      ]

  -- Where htb_classify gives a target, htb_enqueue returns. A packet that it has accepted stands at the
  -- target: at the end of the direct queue, or as the leaf's discipline has put it, and then the leaf is
  -- active; no other queue has changed, and qlen counts the packet. Where it has not accepted the packet,
  -- no queue has changed its length, nor has qlen. The priority of each class is one of the masks' bits.
  pub htb_enqueue-Answered :
      (tc_classify : Skb → ℕ → Match) (turns : ℕ) (priority : Skb → ℕ) (sch : Qdisc Skb State)
      (skb : Skb) (target : Target)
      → ((c : ℕ) → mem (sch.htb.classes c).prio prios ≡ true)
      → htb_classify (tc_classify skb) turns sch (priority skb) ≡ some target
      → (sch' : Qdisc Skb State) × (result : Xmit) × (htb_enqueue rb prios d tc_classify turns
            priority sch skb
          ≡ some (sch', result))
        × Answered sch skb target result sch'
  unfolding htb_enqueue
  htb_enqueue-Answered tc_classify turns priority sch skb target in_range e =
      let r = enqueue_to rb prios d sch skb target in
      (r.0, r.1, rw (e, htb_enqueue) refl, enqueue_to-Answered sch skb target in_range)

  -- Where htb_classify gives a target and each leaf that has packets is active, htb_enqueue returns, and
  -- each leaf that has packets is active again, whether the packet was accepted or not. The priority of
  -- each class is one of the masks' bits.
  pub htb_enqueue-IsBacklogged :
      (tc_classify : Skb → ℕ → Match) (turns : ℕ) (priority : Skb → ℕ) (sch : Qdisc Skb State)
      (skb : Skb) (target : Target)
      → ((c : ℕ) → mem (sch.htb.classes c).prio prios ≡ true)
      → htb_classify (tc_classify skb) turns sch (priority skb) ≡ some target
      → IsBacklogged sch
      → (sch' : Qdisc Skb State) × (result : Xmit) × (htb_enqueue rb prios d tc_classify turns
            priority sch skb
          ≡ some (sch', result))
        × IsBacklogged sch'
  unfolding htb_enqueue
  htb_enqueue-IsBacklogged tc_classify turns priority sch skb target in_range e ready =
      let r = enqueue_to rb prios d sch skb target in
      (r.0, r.1, rw (e, htb_enqueue) refl, enqueue_to-IsBacklogged sch skb target in_range ready)
