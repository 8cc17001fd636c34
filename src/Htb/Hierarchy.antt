-- ===== src/Htb/Hierarchy.antt =====
-- sch_htb.c: packets that pass through htb_dequeue leave the classes in their places.
use virtual_time_kernel.Base.{
  ℕ, ◌-◌, ◌*◌, refl, Bool, not, ◌==◌, if◌then◌else◌, List, [], ◌∷◌, Option, none, some, update,
  Bool-cases, inl, inr,
}
use virtual_time_kernel.Base.Int.{ℤ, pos, ltb_ℤ, eqb_ℤ, ◌+ℤ◌}
use virtual_time_kernel.Base.Word.{s64}
use virtual_time_kernel.Timespec.{nsec_per_sec}
use virtual_time_kernel.Math64.{Math64}
use virtual_time_kernel.Psched.{LinkLayer}
use virtual_time_kernel.Task.{Kernel}
use virtual_time_kernel.Htb.{HtbSched, set_class}
use virtual_time_kernel.Htb.Tree.{RbTree}
use virtual_time_kernel.Htb.Charge.{htb_do_events, unfrozen_now, poll_dilation}
use virtual_time_kernel.Htb.Lookup.{htb_lookup_leaf}
use virtual_time_kernel.Htb.Packets.{Discipline, Qdisc}
use virtual_time_kernel.Htb.Service.{
  advance_ptr, spend_deficit, serve, settle, htb_dequeue_tree, dequeue_prios, dequeue_levels,
  htb_dequeue, filter, levels, Next,
}
use virtual_time_kernel.Htb.Conserved.{Option-cases}
use virtual_time_kernel.Htb.Delivered.{List-cases}
use virtual_time_kernel.Htb.Shape.{
  Kept, Kept-refl, Kept-trans, same_classes, set_class-Kept, either-Kept, htb_deactivate-Kept,
}
use virtual_time_kernel.Htb.Unmoved.{
  htb_lookup_leaf-Kept, advance_ptr-Kept, poll_dilation-PollKept, htb_charge_class-Kept,
  htb_do_events-Kept,
}
use virtual_time_kernel.Htb.Steady.{
  Steady, htb-Steady, Steady-refl, Steady-trans, after-ServeSteady, serve-ServeSteady,
}

module _ (m : Math64) (link : LinkLayer) (rb : RbTree) (prios : List ℕ) (hysteresis : Bool)
    {Skb State : Type 0} (d : Discipline Skb State) (bytes : Skb → ℕ) where
  settle-Kept :
      (sch : Qdisc Skb State) (prio level c : ℕ) (skb : Skb)
      → Kept sch.htb (settle m link rb prios hysteresis d bytes sch prio level c skb)
  unfolding settle
  settle-Kept sch prio level c skb =
      let q = sch.htb in
      let spent = spend_deficit (q.classes c) level (bytes skb) in
      let q₁ : HtbSched = set_class q c spent.0 in
      let h₁ : Kept q q₁ = set_class-Kept q c spent.0 refl in
      let q₂ : HtbSched = if spent.1 then advance_ptr q₁ c prio level else q₁ in
      let h₂ : Kept q q₂ =
        either-Kept q spent.1 _ q₁ (Kept-trans h₁ (advance_ptr-Kept q₁ c prio level)) h₁ in
      Kept-trans (either-Kept q _ _ q₂ (Kept-trans h₂ (htb_deactivate-Kept rb prios q₂ c)) h₂)
        (htb_charge_class-Kept m link rb prios hysteresis _ c level (bytes skb))

  -- The result of a part of htb_dequeue.
  abbrev TreeSteady : Qdisc Skb State → Option (Kernel × Qdisc Skb State × Option Skb) → Type 0
  TreeSteady sch none = Unit {0}
  TreeSteady sch (some (k, sch', found)) = Steady sch sch'

  polled-TreeSteady :
      (k : Kernel) (parent : ℕ) (sch sch₁ : Qdisc Skb State) (prio level : ℕ)
      (served : Option (ℕ × Option Skb))
      → Steady sch sch₁
      → TreeSteady sch (elim served as (λ _. Option (Kernel × Qdisc Skb State × Option Skb)) [
        | none ↦ some (k, sch₁, none)
        | some (c, found) ↦ elim (poll_dilation m link k parent sch₁.htb c) [
          | none ↦ none
          | some (k', polled) ↦
              let sch₂ : Qdisc Skb State = record sch₁ { htb = polled } in
              elim found [
                | none ↦ some (k', sch₂, none)
                | some skb ↦ some (
                  k',
                  record sch₂ {
                    htb = settle m link rb prios hysteresis d bytes sch₂ prio level c skb;
                  },
                  some skb,
                )
              ]
        ]
      ])
  polled-TreeSteady k parent sch sch₁ prio level none h = h
  polled-TreeSteady k parent sch sch₁ prio level (some (c, found)) h =
      elim (Option-cases (poll_dilation m link k parent sch₁.htb c)) [
        | inl e₁ ↦ rw (TreeSteady, e₁) tt
        | inr (b, e₁) ↦
            let polled : Kept sch₁.htb b.1 =
              rw (e₁) at (poll_dilation-PollKept m link k parent sch₁.htb c) in
            let sch₂ : Qdisc Skb State = record sch₁ { htb = b.1 } in
            let h₂ = Steady-trans h (htb-Steady sch₁ b.1 polled) in
            elim (Option-cases found) [
              | inl e₂ ↦ rw (TreeSteady, e₁, e₂) h₂
              | inr (skb, e₂) ↦
                  rw (TreeSteady, e₁, e₂)
                    (Steady-trans h₂ (htb-Steady sch₂ _ (settle-Kept sch₂ prio level c skb)))
            ]
      ]

  htb_dequeue_tree-TreeSteady :
      (turns : ℕ) (k : Kernel) (parent : ℕ) (sch : Qdisc Skb State) (prio level : ℕ)
      → TreeSteady sch
          (htb_dequeue_tree m link rb prios hysteresis d bytes turns k parent sch prio level)
  unfolding htb_dequeue_tree
  htb_dequeue_tree-TreeSteady turns k parent sch prio level =
      elim (Option-cases (htb_lookup_leaf sch.htb level prio)) [
        | inl n ↦ rw (TreeSteady, n) tt
        | inr ((q, start), n) ↦
            let begin : Qdisc Skb State = record sch { htb = q } in
            let r = serve rb prios d turns begin prio level start start in
            let found : Kept sch.htb q = rw (n) at (htb_lookup_leaf-Kept sch.htb level prio) in
            let h =
              after-ServeSteady rb prios d sch begin r (htb-Steady sch q found)
                (serve-ServeSteady rb prios d turns begin prio level start start) in
            elim (Option-cases r) [
              | inl e₀ ↦ rw (TreeSteady, n, e₀) tt
              | inr ((sch₁, served), e₀) ↦
                  let h₀ : Steady sch sch₁ = rw (e₀) at h in
                  rw (TreeSteady, n, e₀) (polled-TreeSteady k parent sch sch₁ prio level served h₀)
            ]
      ]

  after_prio :
      (sch sch₁ : Qdisc Skb State) (r : Option (Kernel × Qdisc Skb State × Option Skb))
      → Steady sch sch₁
      → TreeSteady sch₁ r
      → TreeSteady sch r
  after_prio sch sch₁ none h k = tt
  after_prio sch sch₁ (some (k', sch', found)) h k = Steady-trans h k

  dequeue_prios-TreeSteady :
      (ps : List ℕ) (turns : ℕ) (k : Kernel) (parent : ℕ) (sch : Qdisc Skb State) (level : ℕ)
      → TreeSteady sch
          (dequeue_prios m link rb prios hysteresis d bytes ps turns k parent sch level)
  unfolding dequeue_prios
  dequeue_prios-TreeSteady [] turns k parent sch level = Steady-refl sch
  dequeue_prios-TreeSteady (p ∷ ps) turns k parent sch level =
      let h = htb_dequeue_tree-TreeSteady turns k parent sch p level in
      elim (Option-cases
        (htb_dequeue_tree m link rb prios hysteresis d bytes turns k parent sch p level)) [
          | inl e ↦ rw (TreeSteady, e) tt
          | inr (a, e) ↦
              let h₁ : Steady sch a.1 = rw (e) at h in
              elim (Option-cases a.2) [
                | inl e₁ ↦
                    rw (TreeSteady, e, e₁)
                      (after_prio sch a.1 _ h₁
                        (dequeue_prios-TreeSteady ps turns a.0 parent a.1 level))
                | inr (skb, e₁) ↦ rw (TreeSteady, e, e₁) h₁
              ]
        ]

  abbrev LevelsSteady :
      Qdisc Skb State → Option (Kernel × Qdisc Skb State × Option Skb × ℤ) → Type 0
  LevelsSteady sch none = Unit {0}
  LevelsSteady sch (some (k, sch', found, next_event)) = Steady sch sch'

  after_level :
      (sch sch₁ : Qdisc Skb State) (r : Option (Kernel × Qdisc Skb State × Option Skb × ℤ))
      → Steady sch sch₁
      → LevelsSteady sch₁ r
      → LevelsSteady sch r
  after_level sch sch₁ none h k = tt
  after_level sch sch₁ (some (k', sch', found, next_event)) h k = Steady-trans h k

  dequeue_levels-LevelsSteady :
      (ls : List ℕ) (turns : ℕ) (ticks : ℕ → ℕ) (k : Kernel) (parent : ℕ) (sch : Qdisc Skb State)
      (next_event : ℤ)
      → LevelsSteady sch
          (dequeue_levels m link rb prios hysteresis d bytes ls turns ticks k parent sch next_event)
  unfolding dequeue_levels
  dequeue_levels-LevelsSteady [] turns ticks k parent sch next_event = Steady-refl sch
  dequeue_levels-LevelsSteady (l ∷ ls) turns ticks k parent sch next_event =
      let q = sch.htb in
      let (q₁, e) = htb_do_events m link rb prios hysteresis (ticks l) q l in
      let event = if eqb_ℤ e (pos 0) then s64 (q₁.now +ℤ pos nsec_per_sec) else e in
      let due = not (ltb_ℤ q.now (q.near_ev_cache l)) in
      let ran : HtbSched = record q₁ { near_ev_cache = update q₁.near_ev_cache l event } in
      let q₂ : HtbSched = if due then ran else q in
      let near = if due then event else q.near_ev_cache l in
      let soonest = if ltb_ℤ near next_event then near else next_event in
      let begin : Qdisc Skb State = record sch { htb = q₂ } in
      let ps = filter (q₂.row_mask l) prios in
      let r = dequeue_prios m link rb prios hysteresis d bytes ps turns k parent begin l in
      let kept : Kept q q₂ =
        either-Kept q due ran q
          (Kept-trans (htb_do_events-Kept m link rb prios hysteresis (ticks l) q l)
            (same_classes refl))
          (Kept-refl q) in
      let h =
        after_prio sch begin r (htb-Steady sch q₂ kept)
          (dequeue_prios-TreeSteady ps turns k parent begin l) in
      elim (Option-cases r) [
        | inl n ↦ rw (LevelsSteady, n) tt
        | inr (a, n) ↦
            let h₁ : Steady sch a.1 = rw (n) at h in
            elim (Option-cases a.2) [
              | inl n₁ ↦
                  rw (LevelsSteady, n, n₁)
                    (after_level sch a.1 _ h₁
                      (dequeue_levels-LevelsSteady ls turns ticks a.0 parent a.1 soonest))
              | inr (skb, n₁) ↦ rw (LevelsSteady, n, n₁) h₁
            ]
      ]

  -- Where htb_dequeue returns.
  abbrev pub DequeueSteady : Qdisc Skb State → Option (Kernel × Qdisc Skb State × Next Skb) → Type 0
  DequeueSteady sch none = Unit {0}
  DequeueSteady sch (some (k, sch', next)) = Steady sch sch'

  pub htb_dequeue-DequeueSteady :
      (turns : ℕ) (ticks : ℕ → ℕ) (k : Kernel) (parent : ℕ) (clock : ℤ) (sch : Qdisc Skb State)
      → DequeueSteady sch
          (htb_dequeue m link rb prios hysteresis d bytes turns ticks k parent clock sch)
  unfolding htb_dequeue unfrozen_now
  htb_dequeue-DequeueSteady turns ticks k parent clock sch =
      let q = unfrozen_now sch.htb (k.tasks k.current) clock in
      let begin : Qdisc Skb State = record sch { htb = q } in
      let until = s64 (q.now +ℤ pos (5 * nsec_per_sec)) in
      let r =
        dequeue_levels m link rb prios hysteresis d bytes levels turns ticks k parent begin until in
      let h =
        after_level sch begin r (htb-Steady sch q (same_classes refl))
          (dequeue_levels-LevelsSteady levels turns ticks k parent begin until) in
      let counted : (a b : Qdisc Skb State)
          → Steady a b
          → Steady a (record b { qlen = b.qlen - 1 }) =
        λ a b s. record { steady_htb = s.steady_htb; steady_clhash = s.steady_clhash } in
      elim (List-cases sch.direct_queue) [
        | inr (skb, rest, e) ↦
            rw (DequeueSteady, e) (record { steady_htb = Kept-refl sch.htb; steady_clhash = refl })
        | inl e ↦ elim (Bool-cases (sch.qlen == 0)) [
          | inl empty ↦ rw (DequeueSteady, e, empty) (Steady-refl sch)
          | inr busy ↦ elim (Option-cases r) [
            | inl n ↦ rw (DequeueSteady, e, busy, n) tt
            | inr (a, n) ↦
                let h₁ : Steady sch a.1 = rw (n) at h in
                elim (Option-cases a.2) [
                  | inl n₁ ↦ rw (DequeueSteady, e, busy, n, n₁) h₁
                  | inr (skb, n₁) ↦ rw (DequeueSteady, e, busy, n, n₁) (counted sch a.1 h₁)
                ]
          ]
        ]
      ]
