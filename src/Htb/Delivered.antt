-- ===== src/Htb/Delivered.antt =====
-- sch_htb.c: htb_dequeue, and the queues before and after it.
use virtual_time_kernel.Base.{
  ℕ, suc, ◌-◌, ◌*◌, ◌≡◌, ◌≢◌, ◌⊎◌, length, refl, sym, ap, ◌∙◌, Bool, not, ◌==◌, if◌then◌else◌, List,
  [], ◌∷◌, Option, none, some, update, Bool-cases, inl, inr,
}
use virtual_time_kernel.Base.Int.{ℤ, pos, ltb_ℤ, eqb_ℤ, ◌+ℤ◌}
use virtual_time_kernel.Base.Word.{s64}
use virtual_time_kernel.Timespec.{nsec_per_sec}
use virtual_time_kernel.Math64.{Math64}
use virtual_time_kernel.Psched.{LinkLayer}
use virtual_time_kernel.Task.{Kernel}
use virtual_time_kernel.Htb.{HtbSched}
use virtual_time_kernel.Htb.Tree.{RbTree}
use virtual_time_kernel.Htb.Lookup.{htb_lookup_leaf}
use virtual_time_kernel.Htb.Charge.{htb_do_events, unfrozen_now, poll_dilation}
use virtual_time_kernel.Htb.Poll.{poll_dilation-some}
use virtual_time_kernel.Htb.Packets.{Discipline, Qdisc}
use virtual_time_kernel.Htb.Service.{
  serve, settle, htb_dequeue_tree, dequeue_prios, dequeue_levels, htb_dequeue, filter, levels, Next,
  deliver,
}
use virtual_time_kernel.Htb.Conserved.{
  held, OneMore, Same, htb-Same, Served, after-Same, before-Same, packet_of, serve-ServeServed,
  after-ServeServed, Option-cases,
}

pub List-cases :
    {A : Type 0} (xs : List A) → (xs ≡ []) ⊎ ((x : A) × (rest : List A) × (xs ≡ (x ∷ rest)))
List-cases [] = inl refl
List-cases (x ∷ xs) = inr (x, xs, refl)

module _ (m : Math64) (link : LinkLayer) (rb : RbTree) (prios : List ℕ) (hysteresis : Bool)
    {Skb State : Type 0} (d : Discipline Skb State) (bytes : Skb → ℕ) where
  abbrev TreeServed : Qdisc Skb State → Option (Kernel × Qdisc Skb State × Option Skb) → Type 0
  TreeServed sch none = Unit {0}
  TreeServed sch (some (k, sch', found)) = Served d sch found sch'

  -- After the loop.
  polled-TreeServed :
      (k : Kernel) (parent : ℕ) (sch sch₁ : Qdisc Skb State) (prio level : ℕ)
      (served : Option (ℕ × Option Skb))
      → Served d sch (packet_of d served) sch₁
      → TreeServed sch (elim served as (λ _. Option (Kernel × Qdisc Skb State × Option Skb)) [
        | none ↦ some (k, sch₁, none)
        | some (c, found) ↦ elim (poll_dilation m link k parent sch₁.htb c) [
          | none ↦ none
          | some (k', polled) ↦
              let sch₂ : Qdisc Skb State = record sch₁ { htb = polled } in
              elim found [
                | none ↦ some (k', sch₂, none)
                | some skb ↦ some (
                  k',
                  record sch₂ {
                    htb = settle m link rb prios hysteresis d bytes sch₂ prio level c skb;
                  },
                  some skb,
                )
              ]
        ]
      ])
  polled-TreeServed k parent sch sch₁ prio level none h = h
  polled-TreeServed k parent sch sch₁ prio level (some (c, none)) h =
      let (b, e₁) = poll_dilation-some m link k parent sch₁.htb c in
      rw (TreeServed, e₁) (before-Same d sch sch₁ none b.1 h)
  polled-TreeServed k parent sch sch₁ prio level (some (c, some skb)) h =
      let (b, e₁) = poll_dilation-some m link k parent sch₁.htb c in
      rw (TreeServed, e₁)
        (before-Same d sch sch₁ (some skb)
          (settle m link rb prios hysteresis d bytes (record sch₁ { htb = b.1 }) prio level c skb)
          h)

  htb_dequeue_tree-TreeServed :
      (turns : ℕ) (k : Kernel) (parent : ℕ) (sch : Qdisc Skb State) (prio level : ℕ)
      → TreeServed sch
          (htb_dequeue_tree m link rb prios hysteresis d bytes turns k parent sch prio level)
  unfolding htb_dequeue_tree
  htb_dequeue_tree-TreeServed turns k parent sch prio level =
      elim (Option-cases (htb_lookup_leaf sch.htb level prio)) [
        | inl n ↦ rw (TreeServed, n) tt
        | inr ((q, start), n) ↦
            let begin : Qdisc Skb State = record sch { htb = q } in
            let r = serve rb prios d turns begin prio level start start in
            let h =
              after-ServeServed d rb prios sch begin r (htb-Same d sch q) refl
                (serve-ServeServed d rb prios turns begin prio level start start) in
            elim (Option-cases r) [
              | inl e₀ ↦ rw (TreeServed, n, e₀) tt
              | inr ((sch₁, served), e₀) ↦
                  let h₀ : Served d sch (packet_of d served) sch₁ = rw (e₀) at h in
                  rw (TreeServed, n, e₀) (polled-TreeServed k parent sch sch₁ prio level served h₀)
            ]
      ]

  after-TreeServed :
      (sch sch₁ : Qdisc Skb State) (r : Option (Kernel × Qdisc Skb State × Option Skb))
      → Same d sch sch₁
      → sch₁.qlen ≡ sch.qlen
      → TreeServed sch₁ r
      → TreeServed sch r
  after-TreeServed sch sch₁ none same q h = tt
  after-TreeServed sch sch₁ (some (k, sch', found)) same q h =
      after-Same d sch sch₁ sch' found same q h

  dequeue_prios-TreeServed :
      (ps : List ℕ) (turns : ℕ) (k : Kernel) (parent : ℕ) (sch : Qdisc Skb State) (level : ℕ)
      → TreeServed sch
          (dequeue_prios m link rb prios hysteresis d bytes ps turns k parent sch level)
  unfolding dequeue_prios
  dequeue_prios-TreeServed [] turns k parent sch level = (λ place. refl, refl)
  dequeue_prios-TreeServed (p ∷ ps) turns k parent sch level =
      let r = htb_dequeue_tree m link rb prios hysteresis d bytes turns k parent sch p level in
      let h = htb_dequeue_tree-TreeServed turns k parent sch p level in
      elim (Option-cases r) [
        | inl e ↦ rw (TreeServed, e) tt
        | inr (a, e) ↦
            let h₁ : Served d sch a.2 a.1 = rw (e) at h in
            elim (Option-cases a.2) [
              | inl e₁ ↦
                  let (same, q) : Served d sch none a.1 = rw (e₁) at h₁ in
                  rw (TreeServed, e, e₁)
                    (after-TreeServed sch a.1 _ same q
                      (dequeue_prios-TreeServed ps turns a.0 parent a.1 level))
              | inr (skb, e₁) ↦
                  let h₂ : Served d sch (some skb) a.1 = rw (e₁) at h₁ in rw (TreeServed, e, e₁) h₂
            ]
      ]

  abbrev LevelsServed :
      Qdisc Skb State → Option (Kernel × Qdisc Skb State × Option Skb × ℤ) → Type 0
  LevelsServed sch none = Unit {0}
  LevelsServed sch (some (k, sch', found, next_event)) = Served d sch found sch'

  after-LevelsServed :
      (sch sch₁ : Qdisc Skb State) (r : Option (Kernel × Qdisc Skb State × Option Skb × ℤ))
      → Same d sch sch₁
      → sch₁.qlen ≡ sch.qlen
      → LevelsServed sch₁ r
      → LevelsServed sch r
  after-LevelsServed sch sch₁ none same q h = tt
  after-LevelsServed sch sch₁ (some (k, sch', found, next_event)) same q h =
      after-Same d sch sch₁ sch' found same q h

  dequeue_levels-LevelsServed :
      (ls : List ℕ) (turns : ℕ) (ticks : ℕ → ℕ) (k : Kernel) (parent : ℕ) (sch : Qdisc Skb State)
      (next_event : ℤ)
      → LevelsServed sch
          (dequeue_levels m link rb prios hysteresis d bytes ls turns ticks k parent sch next_event)
  unfolding dequeue_levels
  dequeue_levels-LevelsServed [] turns ticks k parent sch next_event = (λ place. refl, refl)
  dequeue_levels-LevelsServed (l ∷ ls) turns ticks k parent sch next_event =
      let q = sch.htb in
      let (q₁, e) = htb_do_events m link rb prios hysteresis (ticks l) q l in
      let event = if eqb_ℤ e (pos 0) then s64 (q₁.now +ℤ pos nsec_per_sec) else e in
      let due = not (ltb_ℤ q.now (q.near_ev_cache l)) in
      let ran : HtbSched = record q₁ { near_ev_cache = update q₁.near_ev_cache l event } in
      let q₂ : HtbSched = if due then ran else q in
      let near = if due then event else q.near_ev_cache l in
      let soonest = if ltb_ℤ near next_event then near else next_event in
      let begin : Qdisc Skb State = record sch { htb = q₂ } in
      let ps = filter (q₂.row_mask l) prios in
      let r = dequeue_prios m link rb prios hysteresis d bytes ps turns k parent begin l in
      let h =
        after-TreeServed sch begin r (htb-Same d sch q₂) refl
          (dequeue_prios-TreeServed ps turns k parent begin l) in
      elim (Option-cases r) [
        | inl n ↦ rw (LevelsServed, n) tt
        | inr (a, n) ↦
            let h₁ : Served d sch a.2 a.1 = rw (n) at h in
            elim (Option-cases a.2) [
              | inl n₁ ↦
                  let (same, k_q) : Served d sch none a.1 = rw (n₁) at h₁ in
                  rw (LevelsServed, n, n₁)
                    (after-LevelsServed sch a.1 _ same k_q
                      (dequeue_levels-LevelsServed ls turns ticks a.0 parent a.1 soonest))
              | inr (skb, n₁) ↦
                  let h₂ : Served d sch (some skb) a.1 = rw (n₁) at h₁ in
                  rw (LevelsServed, n, n₁) h₂
            ]
      ]

  -- What a result of htb_dequeue says of the packets: the one that is sent has left exactly one queue,
  -- and qlen counts it; without one, every queue is as long as it was.
  abbrev pub Dequeued : Qdisc Skb State → Option (Kernel × Qdisc Skb State × Next Skb) → Type 0
  Dequeued sch none = Unit {0}
  Dequeued sch (some (k, sch', deliver skb)) = OneMore d sch' sch × (sch'.qlen ≡ sch.qlen - 1)
  Dequeued sch (some (k, sch', _)) = Same d sch sch' × (sch'.qlen ≡ sch.qlen)

  direct-OneMore :
      (sch : Qdisc Skb State) (skb : Skb) (rest : List Skb) (n : ℕ)
      → sch.direct_queue ≡ (skb ∷ rest)
      → OneMore d (record sch { direct_queue = rest; qlen = n }) sch
  direct-OneMore sch skb rest n e = (none, ap length e, others)
    where
      others :
          (other : Option ℕ)
          → other ≢ none
          → held d sch other ≡ held d (record sch { direct_queue = rest; qlen = n }) other
      others none h = absurd (h refl)
      others (some c) h = refl

  counted-Same : (sch : Qdisc Skb State) (n : ℕ) → Same d sch (record sch { qlen = n })
  counted-Same sch n none = refl
  counted-Same sch n (some c) = refl

  counted-OneMore :
      (sch sch' : Qdisc Skb State) (n : ℕ)
      → OneMore d sch' sch
      → OneMore d (record sch' { qlen = n }) sch
  counted-OneMore sch sch' n (place, more, others) = (
    place,
    more ∙ ap suc (sym (counted-Same sch' n place)),
    λ other ne. others other ne ∙ sym (counted-Same sch' n other),
  )

  pub htb_dequeue-Dequeued :
      (turns : ℕ) (ticks : ℕ → ℕ) (k : Kernel) (parent : ℕ) (clock : ℤ) (sch : Qdisc Skb State)
      → Dequeued sch (htb_dequeue m link rb prios hysteresis d bytes turns ticks k parent clock sch)
  unfolding htb_dequeue
  htb_dequeue-Dequeued turns ticks k parent clock sch =
      let q = unfrozen_now sch.htb (k.tasks k.current) clock in
      let begin : Qdisc Skb State = record sch { htb = q } in
      let until = s64 (q.now +ℤ pos (5 * nsec_per_sec)) in
      let r =
        dequeue_levels m link rb prios hysteresis d bytes levels turns ticks k parent begin until in
      let h =
        after-LevelsServed sch begin r (htb-Same d sch q) refl
          (dequeue_levels-LevelsServed levels turns ticks k parent begin until) in
      elim (List-cases sch.direct_queue) [
        | inr (skb, rest, e) ↦ rw (Dequeued, e) (direct-OneMore sch skb rest (sch.qlen - 1) e, refl)
        | inl e ↦ elim (Bool-cases (sch.qlen == 0)) [
          | inl empty ↦ rw (Dequeued, e, empty) (λ place. refl, refl)
          | inr busy ↦ elim (Option-cases r) [
            | inl n ↦ rw (Dequeued, e, busy, n) tt
            | inr (a, n) ↦
                let h₁ : Served d sch a.2 a.1 = rw (n) at h in
                elim (Option-cases a.2) [
                  | inl n₁ ↦
                      let h₂ : Served d sch none a.1 = rw (n₁) at h₁ in
                      elim (Bool-cases (ltb_ℤ a.1.htb.now a.3)) [
                        | inl w ↦ rw (Dequeued, e, busy, n, n₁, w) h₂
                        | inr w ↦ rw (Dequeued, e, busy, n, n₁, w) h₂
                      ]
                  | inr (skb, n₁) ↦
                      let (more, count) : Served d sch (some skb) a.1 = rw (n₁) at h₁ in
                      rw (Dequeued, e, busy, n, n₁)
                        (counted-OneMore sch a.1 (a.1.qlen - 1) more, ap (λ x. x - 1) count)
                ]
          ]
        ]
      ]
