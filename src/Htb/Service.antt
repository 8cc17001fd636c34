-- ===== src/Htb/Service.antt =====
-- sch_htb.c: the packet that is sent next.
use virtual_time_kernel.Base.{
  ℕ, zero, suc, ◌-◌, ◌*◌, Bool, true, false, not, ◌==◌, if◌then◌else◌, List, [], ◌∷◌, Option, none,
  some, update,
}
use virtual_time_kernel.Base.Int.{ℤ, pos, ltb_ℤ, eqb_ℤ, ◌+ℤ◌, ◌-ℤ◌}
use virtual_time_kernel.Base.Word.{s64, s32}
use virtual_time_kernel.Math64.{Math64}
use virtual_time_kernel.Timespec.{nsec_per_sec}
use virtual_time_kernel.Psched.{LinkLayer}
use virtual_time_kernel.Task.{Kernel}
use virtual_time_kernel.Htb.{HtbClass, HtbSched, set_class}
use virtual_time_kernel.Htb.Tree.{RbTree, first}
use virtual_time_kernel.Htb.Feeds.{htb_deactivate, next_node, set_row, set_feed, points_to}
use virtual_time_kernel.Htb.Lookup.{htb_lookup_leaf}
use virtual_time_kernel.Htb.Charge.{htb_charge_class, htb_do_events, unfrozen_now, poll_dilation}
use virtual_time_kernel.Htb.Packets.{Discipline, Qdisc}

-- htb_next_rb_node on the pointer that led to the leaf c: the feed of its parent, or the row of leaves.
unfoldable pub advance_ptr : HtbSched → ℕ → ℕ → ℕ → HtbSched
advance_ptr q c prio zero =
    let h = q.hprio 0 prio in set_row q 0 prio (record h { ptr = next_node h.ptr h.tree })
advance_ptr q c prio (suc level) = elim (first (q.classes c).ancestors) [
  | none ↦ q
  | some parent ↦
      let h = (q.classes parent).clprio prio in
      set_feed q parent prio (record h { ptr = next_node h.ptr h.tree })
]

abbrev pub same_class : Option ℕ → Option ℕ → Bool
same_class none none = true
same_class none (some c) = false
same_class (some c) none = false
same_class (some c) (some e) = c == e

-- The leaf's deficit after a packet; the flag tells whether it went below 0, and its turn is over.
abbrev pub spend_deficit : HtbClass → ℕ → ℕ → HtbClass × Bool
spend_deficit cl level bytes =
    let left = s32 (cl.deficit level -ℤ pos bytes) in
    let over = ltb_ℤ left (pos 0) in
    (
      record cl {
        deficit = update cl.deficit level (if over then s32 (left +ℤ cl.quantum) else left);
      },
      over,
    )

-- What htb_dequeue ends with.
pub data Next (Skb : Type 0) : Type 0 where
  deliver : Skb → Next Skb
  idle reschedule : Next Skb
  watchdog : ℤ → Next Skb

-- TC_HTB_MAXDEPTH levels.
abbrev pub levels : List ℕ
levels = 0 ∷ 1 ∷ 2 ∷ 3 ∷ 4 ∷ 5 ∷ 6 ∷ 7 ∷ []

-- The members with their bit set.
unfoldable pub filter : (ℕ → Bool) → List ℕ → List ℕ
filter mask [] = []
filter mask (p ∷ ps) = let rest = filter mask ps in if mask p then p ∷ rest else rest

-- The loop is left without a packet, at a class.
abbrev pub given_up : {Skb : Type 0} → Option ℕ → Option (ℕ × Option Skb)
given_up none = none
given_up (some c) = some (c, none)

module _ (rb : RbTree) (prios : List ℕ) {Skb State : Type 0} (d : Discipline Skb State) where
  -- The loop of htb_dequeue_tree: the class that was left, and its packet. The result is `none` where
  -- the loop is not over after as many turns, or where the search for a leaf stops the kernel.
  unfoldable pub serve :
      ℕ
      → Qdisc Skb State
      → ℕ
      → ℕ
      → Option ℕ
      → Option ℕ
      → Option (Qdisc Skb State × Option (ℕ × Option Skb))
  serve zero sch prio level start cl = none
  serve (suc turns) sch prio level start none = some (sch, none)
  serve (suc turns) sch prio level start (some c) =
      let emptied : HtbSched = htb_deactivate rb prios sch.htb c in
      let after_empty : Option (Qdisc Skb State × Option (ℕ × Option Skb)) =
        elim (htb_lookup_leaf emptied level prio) [
          | none ↦ none
          | some (q₁, next₁) ↦
              serve turns (record sch { htb = q₁ }) prio level
                (if points_to start c then next₁ else start) next₁
        ] in
      let (s, skb) = d.dequeue (sch.leaves c) in
      let taken : Qdisc Skb State = record sch { leaves = update sch.leaves c s } in
      let after_none : Option (Qdisc Skb State × Option (ℕ × Option Skb)) =
        elim (htb_lookup_leaf (advance_ptr sch.htb c prio level) level prio) [
          | none ↦ none
          | some (q₂, next₂) ↦
              let passed : Qdisc Skb State = record taken { htb = q₂ } in
              let rest = serve turns passed prio level start next₂ in
              if same_class next₂ start then some (passed, given_up next₂) else rest
        ] in
      if d.qlen (sch.leaves c) == 0
      then (if emptied.row_mask level prio
          then after_empty
          else some (record sch { htb = emptied }, none))
      else elim skb [ some packet ↦ some (taken, some (c, some packet)) | none ↦ after_none ]

module _ (m : Math64) (link : LinkLayer) (rb : RbTree) (prios : List ℕ) (hysteresis : Bool)
    {Skb State : Type 0} (d : Discipline Skb State) (bytes : Skb → ℕ) where
  -- What a packet costs its class.
  unfoldable pub settle : Qdisc Skb State → ℕ → ℕ → ℕ → Skb → HtbSched
  unfolding advance_ptr
  settle sch prio level c skb =
      let q = sch.htb in
      let (cl, over) = spend_deficit (q.classes c) level (bytes skb) in
      let q₁ = set_class q c cl in
      let q₂ = if over then advance_ptr q₁ c prio level else q₁ in
      let q₃ = if d.qlen (sch.leaves c) == 0 then htb_deactivate rb prios q₂ c else q₂ in
      htb_charge_class m link rb prios hysteresis q₃ c level (bytes skb)

  -- `none` where `serve` has no result.
  unfoldable pub htb_dequeue_tree :
      ℕ → Kernel → ℕ → Qdisc Skb State → ℕ → ℕ → Option (Kernel × Qdisc Skb State × Option Skb)
  unfolding serve
  htb_dequeue_tree turns k parent sch prio level =
      let found_at : Option (Qdisc Skb State × Option (ℕ × Option Skb)) =
        elim (htb_lookup_leaf sch.htb level prio) [
          | none ↦ none
          | some (q, start) ↦ serve rb prios d turns (record sch { htb = q }) prio level start start
        ] in
      elim found_at [
        | none ↦ none
        | some (sch₁, none) ↦ some (k, sch₁, none)
        | some (sch₁, some (c, found)) ↦ elim (poll_dilation m link k parent sch₁.htb c) [
          | none ↦ none
          | some (k', polled) ↦
              let sch₂ : Qdisc Skb State = record sch₁ { htb = polled } in
              elim found [
                | none ↦ some (k', sch₂, none)
                | some skb ↦ some (k', record sch₂ { htb = settle sch₂ prio level c skb }, some skb)
              ]
        ]
      ]

  -- The priorities of a level whose bits were set when the level's turn came.
  unfoldable pub dequeue_prios :
      List ℕ → ℕ → Kernel → ℕ → Qdisc Skb State → ℕ → Option (Kernel × Qdisc Skb State × Option Skb)
  unfolding htb_dequeue_tree
  dequeue_prios [] turns k parent sch level = some (k, sch, none)
  dequeue_prios (p ∷ ps) turns k parent sch level =
      elim (htb_dequeue_tree turns k parent sch p level) [
        | none ↦ none
        | some (k', sch', none) ↦ dequeue_prios ps turns k' parent sch' level
        | some (k', sch', some skb) ↦ some (k', sch', some skb)
      ]

  -- The levels from the leaves up, each with its events before its packets: the packet, or the time of
  -- the next event. `ticks l` is the number of turns that the events of the level l get before the
  -- jiffies are two ticks after start_at, which all levels share.
  unfoldable pub dequeue_levels :
      List ℕ
      → ℕ
      → (ℕ → ℕ)
      → Kernel
      → ℕ
      → Qdisc Skb State
      → ℤ
      → Option (Kernel × Qdisc Skb State × Option Skb × ℤ)
  unfolding dequeue_prios
  dequeue_levels [] turns ticks k parent sch next_event = some (k, sch, none, next_event)
  dequeue_levels (l ∷ ls) turns ticks k parent sch next_event =
      let q = sch.htb in
      let (q₁, e) = htb_do_events m link rb prios hysteresis (ticks l) q l in
      let event = if eqb_ℤ e (pos 0) then s64 (q₁.now +ℤ pos nsec_per_sec) else e in
      let due = not (ltb_ℤ q.now (q.near_ev_cache l)) in
      let ran : HtbSched = record q₁ { near_ev_cache = update q₁.near_ev_cache l event } in
      let q₂ = if due then ran else q in
      let near = if due then event else q.near_ev_cache l in
      let soonest = if ltb_ℤ near next_event then near else next_event in
      elim (dequeue_prios (filter (q₂.row_mask l) prios) turns k parent (record sch { htb = q₂ })
        l) [
          | none ↦ none
          | some (k', sch', none) ↦ dequeue_levels ls turns ticks k' parent sch' soonest
          | some (k', sch', some skb) ↦ some (k', sch', some skb, soonest)
        ]

  -- `clock` is what ktime_get gives. The result has the packet, or the time for which the watchdog is
  -- set, where that is later than now, or that the work is rescheduled.
  unfoldable pub htb_dequeue :
      ℕ → (ℕ → ℕ) → Kernel → ℕ → ℤ → Qdisc Skb State → Option (Kernel × Qdisc Skb State × Next Skb)
  unfolding dequeue_levels unfrozen_now
  htb_dequeue turns ticks k parent clock sch = elim sch.direct_queue [
    | skb ∷ rest ↦ some (k, record sch { direct_queue = rest; qlen = sch.qlen - 1 }, deliver skb)
    | [] ↦
        if sch.qlen == 0
        then some (k, sch, idle)
        else (let q = unfrozen_now sch.htb (k.tasks k.current) clock in
            elim (dequeue_levels levels turns ticks k parent (record sch { htb = q })
              (s64 (q.now +ℤ pos (5 * nsec_per_sec)))) [
                | none ↦ none
                | some (k', sch', some skb, _) ↦
                    some (k', record sch' { qlen = sch'.qlen - 1 }, deliver skb)
                | some (k', sch', none, next_event) ↦ some (
                  k',
                  sch',
                  if ltb_ℤ sch'.htb.now next_event then watchdog next_event else reschedule,
                )
              ])
  ]
