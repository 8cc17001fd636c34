-- ===== src/Htb/Steady.antt =====
-- sch_htb.c: the same classes in the same places, after htb_enqueue and where a class sends.
use virtual_time_kernel.Base.{
  ℕ, zero, suc, ◌≡◌, refl, ◌∙◌, ltb, ◌==◌, if◌then◌else◌, List, Option, none, some, length, update,
  Bool-cases, inl, inr,
}
use virtual_time_kernel.Htb.{HtbSched}
use virtual_time_kernel.Htb.Tree.{RbTree}
use virtual_time_kernel.Htb.Feeds.{htb_deactivate, points_to}
use virtual_time_kernel.Htb.Lookup.{htb_lookup_leaf}
use virtual_time_kernel.Htb.Packets.{Discipline, Qdisc, Target, direct, nowhere, leaf, enqueue_to}
use virtual_time_kernel.Htb.Service.{advance_ptr, same_class, serve}
use virtual_time_kernel.Htb.Conserved.{Option-cases}
use virtual_time_kernel.Htb.Shape.{
  Kept, Kept-refl, Kept-trans, htb_activate-Kept, htb_deactivate-Kept,
}
use virtual_time_kernel.Htb.Unmoved.{htb_lookup_leaf-Kept, advance_ptr-Kept}

module _ {Skb State : Type 0} where
  -- The same classes, in the same places.
  pub record Steady (sch sch' : Qdisc Skb State) : Type 0 where
    pub steady_htb : Kept sch.htb sch'.htb
    pub steady_clhash : sch'.clhash ≡ sch.clhash

  pub htb-Steady :
      (sch : Qdisc Skb State) (q : HtbSched) → Kept sch.htb q → Steady sch (record sch { htb = q })
  htb-Steady sch q h = record { steady_htb = h; steady_clhash = refl }

  pub Steady-refl : (sch : Qdisc Skb State) → Steady sch sch
  Steady-refl sch = record { steady_htb = Kept-refl sch.htb; steady_clhash = refl }

  pub Steady-trans : {a b c : Qdisc Skb State} → Steady a b → Steady b c → Steady a c
  Steady-trans h k = record {
    steady_htb = Kept-trans h.steady_htb k.steady_htb;
    steady_clhash = k.steady_clhash ∙ h.steady_clhash;
  }

module _ (rb : RbTree) (prios : List ℕ) {Skb State : Type 0} (d : Discipline Skb State) where
  pub enqueue_to-Steady :
      (sch : Qdisc Skb State) (skb : Skb) (target : Target)
      → Steady sch (enqueue_to rb prios d sch skb target).0
  unfolding enqueue_to
  enqueue_to-Steady sch skb direct =
      elim (Bool-cases (ltb (length sch.direct_queue) sch.direct_qlen)) [
        | inl e ↦ rw (e) (record { steady_htb = Kept-refl sch.htb; steady_clhash = refl })
        | inr e ↦ rw (e) (Steady-refl sch)
      ]
  enqueue_to-Steady sch skb (nowhere was_stolen) = Steady-refl sch
  enqueue_to-Steady sch skb (leaf c) = elim (Bool-cases ((d.enqueue skb (sch.leaves c)).1 == 0)) [
    | inl e ↦
        rw (e) (record { steady_htb = htb_activate-Kept rb prios sch.htb c; steady_clhash = refl })
    | inr e ↦ rw (e) (record { steady_htb = Kept-refl sch.htb; steady_clhash = refl })
  ]

  -- What the loop of htb_dequeue_tree leaves, where it is over.
  abbrev pub ServeSteady :
      Qdisc Skb State → Option (Qdisc Skb State × Option (ℕ × Option Skb)) → Type 0
  ServeSteady sch none = Unit {0}
  ServeSteady sch (some (sch', served)) = Steady sch sch'

  pub after-ServeSteady :
      (sch sch₁ : Qdisc Skb State) (r : Option (Qdisc Skb State × Option (ℕ × Option Skb)))
      → Steady sch sch₁
      → ServeSteady sch₁ r
      → ServeSteady sch r
  after-ServeSteady sch sch₁ none h k = tt
  after-ServeSteady sch sch₁ (some (sch', served)) h k = Steady-trans h k

  pub serve-ServeSteady :
      (turns : ℕ) (sch : Qdisc Skb State) (prio level : ℕ) (start cl : Option ℕ)
      → ServeSteady sch (serve rb prios d turns sch prio level start cl)
  unfolding serve
  serve-ServeSteady zero sch prio level start cl = tt
  serve-ServeSteady (suc turns) sch prio level start none = Steady-refl sch
  serve-ServeSteady (suc turns) sch prio level start (some c) =
      let emptied : HtbSched = htb_deactivate rb prios sch.htb c in
      let out = htb_deactivate-Kept rb prios sch.htb c in
      let s = (d.dequeue (sch.leaves c)).0 in
      let advanced : HtbSched = advance_ptr sch.htb c prio level in
      elim (Bool-cases (d.qlen (sch.leaves c) == 0)) [
        | inl e ↦ elim (Bool-cases (emptied.row_mask level prio)) [
          | inl t ↦ elim (Option-cases (htb_lookup_leaf emptied level prio)) [
            | inl n ↦ rw (e, t, n) tt
            | inr ((q₁, next₁), n) ↦
                let found : Kept emptied q₁ = rw (n) at (htb_lookup_leaf-Kept emptied level prio) in
                rw (e, t, n)
                  (after-ServeSteady sch (record sch { htb = q₁ }) _
                    (htb-Steady sch q₁ (Kept-trans out found))
                    (serve-ServeSteady turns (record sch { htb = q₁ }) prio level
                      (if points_to start c then next₁ else start) next₁))
          ]
          | inr t ↦ rw (e, t) (htb-Steady sch emptied out)
        ]
        | inr e ↦ elim (Option-cases (d.dequeue (sch.leaves c)).1) [
          | inl left ↦ elim (Option-cases (htb_lookup_leaf advanced level prio)) [
            | inl n ↦ rw (e, left, n) tt
            | inr ((q₂, next₂), n) ↦
                let passed : Qdisc Skb State = record sch {
                  leaves = update sch.leaves c s;
                  htb = q₂;
                } in
                let found : Kept advanced q₂ =
                  rw (n) at (htb_lookup_leaf-Kept advanced level prio) in
                let to_passed : Steady sch passed = record {
                  steady_htb = Kept-trans (advance_ptr-Kept sch.htb c prio level) found;
                  steady_clhash = refl;
                } in
                elim (Bool-cases (same_class next₂ start)) [
                  | inl t ↦ rw (e, left, n, t) to_passed
                  | inr t ↦
                      rw (e, left, n, t)
                        (after-ServeSteady sch passed _ to_passed
                          (serve-ServeSteady turns passed prio level start next₂))
                ]
          ]
          | inr (skb, one) ↦
              rw (e, one) (record { steady_htb = Kept-refl sch.htb; steady_clhash = refl })
        ]
      ]
