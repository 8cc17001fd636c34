-- ===== src/Htb/Unmoved.antt =====
-- sch_htb.c: charging, events, the search for a leaf and htb_dequeue leave the hierarchy as it is.
use virtual_time_kernel.Base.{
  ℕ, zero, suc, ◌≡◌, refl, Bool, leb, ◌==◌, if◌then◌else◌, if_both, List, [], ◌∷◌, Option, none,
  some, update, Bool-cases, inl, inr,
}
use virtual_time_kernel.Base.Int.{pos, ltb_ℤ, ◌+ℤ◌}
use virtual_time_kernel.Base.Word.{s64}
use virtual_time_kernel.Math64.{Math64}
use virtual_time_kernel.Psched.{LinkLayer, psched_ratecfg_dilate}
use virtual_time_kernel.Task.{Kernel}
use virtual_time_kernel.Htb.{HtbPrio, HtbClass, HtbSched}
use virtual_time_kernel.Htb.Tree.{RbTree, to_list, first, is_empty}
use virtual_time_kernel.Htb.Feeds.{htb_change_class_mode, htb_safe_rb_erase, next_node}
use virtual_time_kernel.Htb.Tokens.{is_can_send}
use virtual_time_kernel.Htb.Charge.{
  charge_buckets, charge_mode, charge_classes, htb_charge_class, apply_event, htb_do_events,
  since_checkpoint, htb_accnt_tokens, htb_accnt_ctokens, poll_dilation,
}
use virtual_time_kernel.Htb.Lookup.{
  Holder, row, feed, set_prio, get_prio, recovered, lookup_from, lookup_turns, htb_lookup_leaf,
}
use virtual_time_kernel.Htb.Service.{advance_ptr}
use virtual_time_kernel.Htb.Conserved.{Option-cases}
use virtual_time_kernel.Htb.Shape.{
  shape, Kept, Kept-refl, Kept-trans, same_classes, set_class-Kept, either-Kept,
  htb_change_class_mode-Kept, htb_add_to_wait_tree-Kept,
}

set_prio-Kept : (q : HtbSched) (p : ℕ) (at : Holder) (h : HtbPrio) → Kept q (set_prio q p at h)
set_prio-Kept q p (row l) h = same_classes refl
set_prio-Kept q p (feed c) h = set_class-Kept q c _ refl

-- What a search for a leaf keeps, where it returns.
abbrev pub FoundKept : HtbSched → Option (HtbSched × Option ℕ) → Type 0
FoundKept q none = Unit {0}
FoundKept q (some (q', found)) = Kept q q'

after-FoundKept :
    (q q₁ : HtbSched) (r : Option (HtbSched × Option ℕ))
    → Kept q q₁
    → FoundKept q₁ r
    → FoundKept q r
after-FoundKept q q₁ none h k = tt
after-FoundKept q q₁ (some (q', found)) h k = Kept-trans h k

lookup_from-Kept :
    (turns : ℕ) (q : HtbSched) (p : ℕ) (top : Holder) (below : List Holder)
    → FoundKept q (lookup_from turns q p top below)
unfolding lookup_from
lookup_from-Kept zero q p top below = Kept-refl q
lookup_from-Kept (suc turns) q p top below =
    let h = get_prio q p top in
    elim (Option-cases (recovered q h)) [
      | inl e ↦ elim (Option-cases (first (to_list h.tree))) [
        | inl f ↦ rw (e, f, lookup_from) tt
        | inr (least, f) ↦
            let q₁ : HtbSched = set_prio q p top (record h { ptr = some least; last_ptr_id = 0 }) in
            rw (e, f, lookup_from)
              (after-FoundKept q q₁ _ (set_prio-Kept q p top _)
                (up turns q₁ p top below (λ r t b. lookup_from-Kept turns r p t b)))
      ]
      | inr (c, e) ↦
          let q₁ : HtbSched = set_prio q p top (record h { ptr = some c; last_ptr_id = 0 }) in
          rw (e, lookup_from)
            (elim (Bool-cases ((q.classes c).level == 0)) [
              | inl leaf ↦ rw (leaf) (set_prio-Kept q p top _)
              | inr inner ↦ rw (inner) (
                  after-FoundKept q q₁ _ (set_prio-Kept q p top _)
                    (lookup_from-Kept turns q₁ p (feed c) (top ∷ below)))
            ])
    ]
  where
    up :
        (turns : ℕ) (q₁ : HtbSched) (p : ℕ) (top : Holder) (below : List Holder)
        → ((r : HtbSched) (t : Holder) (b : List Holder) → FoundKept r (lookup_from turns r p t b))
        → FoundKept q₁ (elim below as (λ _. Option (HtbSched × Option ℕ)) [
          | [] ↦ lookup_from turns q₁ p top []
          | s ∷ ss ↦ elim (get_prio q₁ p s).ptr [
            | none ↦ some (q₁, none)
            | some d ↦
                lookup_from turns
                  (set_prio q₁ p s
                    (record (get_prio q₁ p s) { ptr = next_node (some d) (get_prio q₁ p s).tree }))
                  p
                  s
                  ss
          ]
        ])
    up turns q₁ p top [] rest = rest q₁ top []
    up turns q₁ p top (s ∷ ss) rest = elim (Option-cases (get_prio q₁ p s).ptr) [
      | inl e ↦ rw (e) (Kept-refl q₁)
      | inr (d, e) ↦ rw (e) (after-FoundKept q₁ _ _ (set_prio-Kept q₁ p s _) (rest _ s ss))
    ]

pub htb_lookup_leaf-Kept :
    (q : HtbSched) (level prio : ℕ) → FoundKept q (htb_lookup_leaf q level prio)
unfolding htb_lookup_leaf
htb_lookup_leaf-Kept q level prio =
    if_both (FoundKept q) (is_empty (q.hprio level prio).tree) none _ tt
      (lookup_from-Kept lookup_turns q prio (row level) [])

pub advance_ptr-Kept : (q : HtbSched) (c prio level : ℕ) → Kept q (advance_ptr q c prio level)
unfolding advance_ptr
advance_ptr-Kept q c prio zero = same_classes refl
advance_ptr-Kept q c prio (suc level) = elim (Option-cases (first (q.classes c).ancestors)) [
  | inl e ↦ rw (e, advance_ptr) (Kept-refl q)
  | inr (p, e) ↦ rw (e, advance_ptr) (set_class-Kept q p _ refl)
]

abbrev pub PollKept : HtbSched → Option (Kernel × HtbSched) → Type 0
PollKept q none = Unit {0}
PollKept q (some (k, q')) = Kept q q'

pub poll_dilation-PollKept :
    (m : Math64) (link : LinkLayer) (k : Kernel) (parent : ℕ) (q : HtbSched) (c : ℕ)
    → PollKept q (poll_dilation m link k parent q c)
unfolding poll_dilation
poll_dilation-PollKept m link k parent q c =
    let tdf = (k.tasks parent).dilation in
    if_both (PollKept q) (ltb_ℤ (pos 0) (k.tasks k.current).dilation) _ _
      (if_both (PollKept q) (ltb_ℤ (pos 0) tdf) _ _
        (elim (Option-cases (psched_ratecfg_dilate m link (q.classes c).rate tdf)) [
          | inl e ↦ rw (e) tt
          | inr (rate, e) ↦ rw (e) (set_class-Kept q c _ refl)
        ])
        (Kept-refl q))
      (Kept-refl q)

module _ (m : Math64) (link : LinkLayer) where
  charge_buckets-shape :
      (q : HtbSched) (cl : HtbClass) (level bytes : ℕ)
      → shape (charge_buckets m link q cl level bytes) ≡ shape cl
  unfolding charge_buckets htb_accnt_tokens htb_accnt_ctokens
  charge_buckets-shape q cl level bytes =
      let diff = since_checkpoint q cl in
      let lent : HtbClass = if cl.level == level then record cl { lends = suc cl.lends } else cl in
      let as_lent : shape lent ≡ shape cl =
        if_both (λ (x : HtbClass). shape x ≡ shape cl) (cl.level == level) _ cl refl refl in
      if_both (λ (x : HtbClass). shape x ≡ shape cl) (leb level cl.level)
        (htb_accnt_tokens m link lent bytes diff)
        (record cl { borrows = suc cl.borrows; tokens = s64 (cl.tokens +ℤ diff) }) as_lent refl

module _ (m : Math64) (link : LinkLayer) (rb : RbTree) (prios : List ℕ) (hysteresis : Bool) where
  charge_mode-Kept : (q : HtbSched) (c : ℕ) → Kept q (charge_mode m link rb prios hysteresis q c)
  unfolding charge_mode
  charge_mode-Kept q c =
      let r = htb_change_class_mode rb prios hysteresis q c (pos 0) in
      let changed = htb_change_class_mode-Kept rb prios hysteresis q c (pos 0) in
      let cl = r.0.classes c in
      let erased : HtbSched = record r.0 {
        wait_pq = update r.0.wait_pq cl.level (htb_safe_rb_erase rb c (r.0.wait_pq cl.level));
      } in
      let q₂ : HtbSched = if is_can_send (q.classes c).cmode then r.0 else erased in
      let out : Kept q q₂ =
        either-Kept q _ r.0 erased changed (Kept-trans changed (same_classes refl)) in
      either-Kept q _ r.0 _ changed
        (either-Kept q _ q₂ _ out (Kept-trans out (htb_add_to_wait_tree-Kept rb prios q₂ c r.1)))

  charge_classes-Kept :
      (cs : List ℕ) (q : HtbSched) (level bytes : ℕ)
      → Kept q (charge_classes m link rb prios hysteresis cs q level bytes)
  unfolding charge_classes
  charge_classes-Kept [] q level bytes = Kept-refl q
  charge_classes-Kept (c ∷ cs) q level bytes =
      Kept-trans (set_class-Kept q c _ (charge_buckets-shape m link q (q.classes c) level bytes))
        (Kept-trans (charge_mode-Kept _ c) (charge_classes-Kept cs _ level bytes))

  pub htb_charge_class-Kept :
      (q : HtbSched) (c level bytes : ℕ)
      → Kept q (htb_charge_class m link rb prios hysteresis q c level bytes)
  unfolding htb_charge_class
  htb_charge_class-Kept q c level bytes = charge_classes-Kept _ q level bytes

  apply_event-Kept :
      (q : HtbSched) (level c : ℕ) → Kept q (apply_event m link rb prios hysteresis q level c)
  unfolding apply_event
  apply_event-Kept q level c =
      let q₁ : HtbSched = record q {
        wait_pq = update q.wait_pq level (htb_safe_rb_erase rb c (q.wait_pq level));
      } in
      let out : Kept q q₁ = same_classes refl in
      let changed =
        Kept-trans out (
          htb_change_class_mode-Kept rb prios hysteresis q₁ c (since_checkpoint q (q.classes c))) in
      either-Kept q _ _ _ changed (Kept-trans changed (htb_add_to_wait_tree-Kept rb prios _ c _))

  pub htb_do_events-Kept :
      (turns : ℕ) (q : HtbSched) (level : ℕ)
      → Kept q (htb_do_events m link rb prios hysteresis turns q level).0
  unfolding htb_do_events
  htb_do_events-Kept zero q level = same_classes refl
  htb_do_events-Kept (suc turns) q level = elim (Option-cases (first (to_list (q.wait_pq level)))) [
    | inl e ↦ rw (e, htb_do_events) (Kept-refl q)
    | inr (c, e) ↦
        rw (e, htb_do_events)
          (elim (Bool-cases (ltb_ℤ q.now (q.classes c).pq_key)) [
            | inl later ↦ rw (later) (Kept-refl q)
            | inr due ↦
                rw (due)
                  (Kept-trans (apply_event-Kept q level c) (htb_do_events-Kept turns _ level))
          ])
  ]
