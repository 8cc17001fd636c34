-- ===== src/Htb/Sound.antt =====
-- sch_htb.c: each operation on a scheduler whose classes are a forest and whose count is that of its
-- packets.
use virtual_time_kernel.Base.{
  ℕ, zero, suc, ◌-◌, ◌≡◌, refl, arith, Bool, true, ◌==◌, if_both, List, Option, none, some,
  Bool-cases, inl, inr,
}
use virtual_time_kernel.Base.Int.{ℤ}
use virtual_time_kernel.Math64.{Math64}
use virtual_time_kernel.Task.{Kernel}
use virtual_time_kernel.Psched.{LinkLayer}
use virtual_time_kernel.Htb.Tree.{RbTree, mem}
use virtual_time_kernel.Htb.Feeds.{htb_deactivate}
use virtual_time_kernel.Htb.Packets.{Discipline, Qdisc, htb_find}
use virtual_time_kernel.Htb.Service.{Next, deliver, idle, reschedule, watchdog, htb_dequeue}
use virtual_time_kernel.Htb.Conserved.{Same, OneMore, Option-cases}
use virtual_time_kernel.Htb.Delivered.{Dequeued, htb_dequeue-Dequeued}
use virtual_time_kernel.Htb.Shape.{set_class-Kept, htb_deactivate-Kept}
use virtual_time_kernel.Htb.Hierarchy.{DequeueSteady, htb_dequeue-DequeueSteady}
use virtual_time_kernel.Htb.Steady.{Steady, Steady-trans}
use virtual_time_kernel.Htb.Classes.{
  LeafOps, class_of, with_leaf, at_level_0, htb_get, htb_put, htb_bind_filter, htb_unbind_filter,
  htb_qlen_notify, htb_graft,
}
use virtual_time_kernel.Htb.Reset.{htb_drop, htb_reset}
use virtual_time_kernel.Htb.Kinship.{HasForest-Steady, with_leaf-Steady, decrease-Steady}
use virtual_time_kernel.Htb.Balance.{weight, total_zero, IsCounted-Same, IsCounted-OneMore}
use virtual_time_kernel.Htb.Emptying.{replaced-IsCounted}
use virtual_time_kernel.Htb.Targets.{IsSound, htb-IsSound}
use virtual_time_kernel.Htb.Dropped.{Dropped, htb_drop-Dropped, htb_drop-Steady, htb_reset-Steady}

-- One packet has left, or none.
module _ {Skb State : Type 0} (d : Discipline Skb State) where
  pub less-IsSound :
      {sch sch' : Qdisc Skb State}
      → Steady sch sch'
      → OneMore d sch' sch
      → sch'.qlen ≡ sch.qlen - 1
      → IsSound d sch
      → IsSound d sch'
  less-IsSound steady more q sound = record {
    forest = HasForest-Steady steady sound.forest;
    counts = IsCounted-OneMore d steady sound.forest more q sound.counts;
  }

  pub Same-IsSound :
      {sch sch' : Qdisc Skb State}
      → Steady sch sch'
      → Same d sch sch'
      → sch'.qlen ≡ sch.qlen
      → IsSound d sch
      → IsSound d sch'
  Same-IsSound steady same q sound = record {
    forest = HasForest-Steady steady sound.forest;
    counts = IsCounted-Same d steady same q sound.counts;
  }

module _ (m : Math64) (link : LinkLayer) (rb : RbTree) (prios : List ℕ) (hysteresis : Bool)
    {Skb State : Type 0} (d : Discipline Skb State) (bytes : Skb → ℕ) where
  -- A result of htb_dequeue.
  from_results :
      (sch : Qdisc Skb State) (r : Option (Kernel × Qdisc Skb State × Next Skb)) (k' : Kernel)
      (sch' : Qdisc Skb State) (next : Next Skb)
      → r ≡ some (k', sch', next)
      → Dequeued m link rb prios hysteresis d bytes sch r
      → DequeueSteady m link rb prios hysteresis d bytes sch r
      → IsSound d sch
      → IsSound d sch'
  from_results sch r k' sch' (deliver skb) e h steady sound =
      let (more, q) : OneMore d sch' sch × (sch'.qlen ≡ sch.qlen - 1) = rw (Dequeued, e) at h in
      let steady' : Steady sch sch' = rw (DequeueSteady, e) at steady in
      less-IsSound d steady' more q sound
  from_results sch r k' sch' idle e h steady sound =
      let (same, q) : Same d sch sch' × (sch'.qlen ≡ sch.qlen) = rw (Dequeued, e) at h in
      let steady' : Steady sch sch' = rw (DequeueSteady, e) at steady in
      Same-IsSound d steady' same q sound
  from_results sch r k' sch' reschedule e h steady sound =
      let (same, q) : Same d sch sch' × (sch'.qlen ≡ sch.qlen) = rw (Dequeued, e) at h in
      let steady' : Steady sch sch' = rw (DequeueSteady, e) at steady in
      Same-IsSound d steady' same q sound
  from_results sch r k' sch' (watchdog time) e h steady sound =
      let (same, q) : Same d sch sch' × (sch'.qlen ≡ sch.qlen) = rw (Dequeued, e) at h in
      let steady' : Steady sch sch' = rw (DequeueSteady, e) at steady in
      Same-IsSound d steady' same q sound

  pub htb_dequeue-IsSound :
      (turns : ℕ) (ticks : ℕ → ℕ) (k : Kernel) (parent : ℕ) (clock : ℤ) (sch : Qdisc Skb State)
      (k' : Kernel) (sch' : Qdisc Skb State) (next : Next Skb)
      → htb_dequeue m link rb prios hysteresis d bytes turns ticks k parent clock sch
        ≡ some (k', sch', next)
      → IsSound d sch
      → IsSound d sch'
  htb_dequeue-IsSound turns ticks k parent clock sch k' sch' next e sound =
      from_results sch _ k' sch' next e
        (htb_dequeue-Dequeued m link rb prios hysteresis d bytes turns ticks k parent clock sch)
        (htb_dequeue-DequeueSteady m link rb prios hysteresis d bytes turns ticks k parent clock
          sch)
        sound

module _ (rb : RbTree) (prios : List ℕ) {Skb State : Type 0} (d : Discipline Skb State)
    (ops : LeafOps d) where
  Dropped-IsSound :
      (sch sch' : Qdisc Skb State) (len : ℕ)
      → Dropped rb prios d ops sch (sch', len)
      → Steady sch sch'
      → IsSound d sch
      → IsSound d sch'
  Dropped-IsSound sch sch' zero (same, q) steady sound = Same-IsSound d steady same q sound
  Dropped-IsSound sch sch' (suc len) (more, q) steady sound = less-IsSound d steady more q sound

  pub htb_drop-IsSound :
      (downwards : List ℕ) (sch : Qdisc Skb State)
      → IsSound d sch
      → IsSound d (htb_drop rb prios d ops downwards sch).0
  htb_drop-IsSound downwards sch sound =
      Dropped-IsSound sch _ _ (htb_drop-Dropped rb prios d ops downwards sch)
        (htb_drop-Steady rb prios d ops downwards sch) sound

  pub htb_qlen_notify-IsSound :
      (sch : Qdisc Skb State) (c : ℕ)
      → IsSound d sch
      → IsSound d (htb_qlen_notify rb prios d ops sch c)
  unfolding htb_qlen_notify
  htb_qlen_notify-IsSound sch c sound =
      if_both (IsSound d) (d.qlen (sch.leaves c) == 0) _ sch
        (htb-IsSound d (htb_deactivate rb prios sch.htb c) (htb_deactivate-Kept rb prios sch.htb c)
          sound)
        sound

  pub htb_reset-qlen : (sch : Qdisc Skb State) → (htb_reset rb prios d ops sch).qlen ≡ 0
  unfolding htb_reset
  htb_reset-qlen sch = refl

  pub htb_reset-IsSound :
      (sch : Qdisc Skb State) → IsSound d sch → IsSound d (htb_reset rb prios d ops sch)
  htb_reset-IsSound sch sound =
      let (steady, none_left) =
        htb_reset-Steady rb prios d ops sch sound.counts.outside sound.counts.inner in
      let sch' = htb_reset rb prios d ops sch in
      let no_count = htb_reset-qlen sch in
      let line = none_left none in
      let sum = total_zero (weight d sch') sch'.clhash (λ c. none_left (some c)) in
      record {
        forest = HasForest-Steady steady sound.forest;
        counts = record {
          balance = omega arith;
          outside = λ c k. none_left (some c);
          inner = λ c k. none_left (some c);
        };
      }

  pub htb_graft-IsSound :
      (sch : Qdisc Skb State) (c : ℕ) (new : Option State)
      → mem c sch.clhash ≡ true
      → ((s : State) → new ≡ some s → d.qlen s ≡ 0)
      → IsSound d sch
      → IsSound d (htb_graft rb prios d ops sch c new).0
  unfolding htb_graft
  htb_graft-IsSound sch c new c_in empty sound = elim (Bool-cases (at_level_0 sch c)) [
    | inl e ↦
        let placed : (s : State)
            → d.qlen s ≡ 0
            → IsSound d (ops.tree_decrease_qlen (with_leaf sch c s) c (weight d sch c)) =
          λ s none_in. record {
            forest =
                HasForest-Steady
                  (Steady-trans (with_leaf-Steady rb prios d ops sch c s)
                    (decrease-Steady rb prios d ops _ c (weight d sch c)))
                  sound.forest;
            counts =
                (replaced-IsCounted rb prios d ops sch c s sound.forest c_in (ground arith) none_in
                  sound.counts).0;
          } in
        elim (Option-cases new) [
          | inr (s, n) ↦ rw (e, n) (placed s (empty s n))
          | inl n ↦ elim (Option-cases (ops.create_pfifo (class_of sch c).classid)) [
            | inl f ↦ rw (e, n, f) sound
            | inr (s, f) ↦ rw (e, n, f) (placed s (ops.create_pfifo-qlen _ s f))
          ]
        ]
    | inr e ↦ rw (e) sound
  ]

  -- The counts of users.
  pub htb_get-IsSound :
      (sch : Qdisc Skb State) (id : ℕ) → IsSound d sch → IsSound d (htb_get sch id).0
  unfolding htb_get
  htb_get-IsSound sch id sound = elim (Option-cases (htb_find sch id)) [
    | inl e ↦ rw (e, htb_get) sound
    | inr (c, e) ↦ rw (e, htb_get) (htb-IsSound d _ (set_class-Kept sch.htb c _ refl) sound)
  ]

  pub htb_put-IsSound :
      (sch : Qdisc Skb State) (c : ℕ) → IsSound d sch → IsSound d (htb_put sch c).0
  unfolding htb_put
  htb_put-IsSound sch c sound = htb-IsSound d _ (set_class-Kept sch.htb c _ refl) sound

  pub htb_bind_filter-IsSound :
      (sch : Qdisc Skb State) (id : ℕ) → IsSound d sch → IsSound d (htb_bind_filter sch id).0
  unfolding htb_bind_filter
  htb_bind_filter-IsSound sch id sound = elim (Option-cases (htb_find sch id)) [
    | inl e ↦ rw (e, htb_bind_filter) sound
    | inr (c, e) ↦ rw (e, htb_bind_filter) (htb-IsSound d _ (set_class-Kept sch.htb c _ refl) sound)
  ]

  pub htb_unbind_filter-IsSound :
      (sch : Qdisc Skb State) (o : Option ℕ) → IsSound d sch → IsSound d (htb_unbind_filter sch o)
  unfolding htb_unbind_filter
  htb_unbind_filter-IsSound sch none sound = sound
  htb_unbind_filter-IsSound sch (some c) sound =
      htb-IsSound d _ (set_class-Kept sch.htb c _ refl) sound
