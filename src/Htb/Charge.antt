-- ===== src/Htb/Charge.antt =====
-- sch_htb.c: charging a packet to a class and its ancestors, and the events of a level.
use virtual_time_kernel.Base.{
  ℕ, zero, suc, Bool, true, leb, ◌==◌, if◌then◌else◌, List, [], ◌∷◌, Option, none, some, update,
}
use virtual_time_kernel.Base.Int.{ℤ, pos, ltb_ℤ, ◌+ℤ◌, ◌-ℤ◌}
use virtual_time_kernel.Base.Word.{s64}
use virtual_time_kernel.Math64.{Math64}
use virtual_time_kernel.Psched.{LinkLayer, psched_l2t_ns, psched_ratecfg_dilate}
use virtual_time_kernel.Task.{Kernel, Task, set_task}
use virtual_time_kernel.Htb.{HtbClass, HtbSched, set_class}
use virtual_time_kernel.Htb.Tree.{to_list, first, RbTree}
use virtual_time_kernel.Htb.Tokens.{account, is_can_send}
use virtual_time_kernel.Htb.Wait.{htb_add_to_wait_tree}
use virtual_time_kernel.Htb.Feeds.{htb_safe_rb_erase, htb_change_class_mode, same_mode}

abbrev pub min_s64 : ℤ → ℤ → ℤ
min_s64 a b = if ltb_ℤ a b then a else b

-- The time since the class was last charged, at most its mbuffer.
abbrev pub since_checkpoint : HtbSched → HtbClass → ℤ
since_checkpoint q cl = min_s64 (s64 (q.now -ℤ cl.t_c)) cl.mbuffer

module _ (m : Math64) (link : LinkLayer) where
  unfoldable pub htb_accnt_tokens : HtbClass → ℕ → ℤ → HtbClass
  htb_accnt_tokens cl bytes diff = record cl {
    tokens =
        account cl.tokens cl.buffer cl.mbuffer (s64 (pos (psched_l2t_ns m link cl.rate bytes)))
          diff;
  }

  unfoldable pub htb_accnt_ctokens : HtbClass → ℕ → ℤ → HtbClass
  htb_accnt_ctokens cl bytes diff = record cl {
    ctokens =
        account cl.ctokens cl.cbuffer cl.mbuffer (s64 (pos (psched_l2t_ns m link cl.ceil bytes)))
          diff;
  }

  -- The buckets of one class, for a packet borrowed from `level`.
  unfoldable pub charge_buckets : HtbSched → HtbClass → ℕ → ℕ → HtbClass
  charge_buckets q cl level bytes =
      let diff = since_checkpoint q cl in
      let lent : HtbClass = if cl.level == level then record cl { lends = suc cl.lends } else cl in
      let rated : HtbClass =
        if leb level cl.level
        then htb_accnt_tokens lent bytes diff
        else record cl { borrows = suc cl.borrows; tokens = s64 (cl.tokens +ℤ diff) } in
      record (htb_accnt_ctokens rated bytes diff) { t_c = q.now }

module _ (m : Math64) (link : LinkLayer) (rb : RbTree) (prios : List ℕ) (hysteresis : Bool) where
  -- A change of mode, and its effect on the event queue.
  unfoldable pub charge_mode : HtbSched → ℕ → HtbSched
  charge_mode q c =
      let old_mode = (q.classes c).cmode in
      let (q₁, diff) = htb_change_class_mode rb prios hysteresis q c (pos 0) in
      let cl = q₁.classes c in
      let erased = record q₁ {
        wait_pq = update q₁.wait_pq cl.level (htb_safe_rb_erase rb c (q₁.wait_pq cl.level));
      } in
      let q₂ = if is_can_send old_mode then q₁ else erased in
      let q₃ = if is_can_send cl.cmode then q₂ else htb_add_to_wait_tree rb q₂ c diff in
      if same_mode old_mode cl.cmode then q₁ else q₃

  -- The walk over the class and its ancestors.
  unfoldable pub charge_classes : List ℕ → HtbSched → ℕ → ℕ → HtbSched
  charge_classes [] q level bytes = q
  charge_classes (c ∷ cs) q level bytes =
      let charged = set_class q c (charge_buckets m link q (q.classes c) level bytes) in
      charge_classes cs (charge_mode charged c) level bytes

  unfoldable pub htb_charge_class : HtbSched → ℕ → ℕ → ℕ → HtbSched
  htb_charge_class q c level bytes = charge_classes (c ∷ (q.classes c).ancestors) q level bytes

  -- One event: the class c leaves the queue, changes its mode and may wait again.
  unfoldable pub apply_event : HtbSched → ℕ → ℕ → HtbSched
  apply_event q level c =
      let q₁ = record q {
        wait_pq = update q.wait_pq level (htb_safe_rb_erase rb c (q.wait_pq level));
      } in
      let (q₂, diff) =
        htb_change_class_mode rb prios hysteresis q₁ c (since_checkpoint q (q.classes c)) in
      if is_can_send (q₂.classes c).cmode then q₂ else htb_add_to_wait_tree rb q₂ c diff

  -- `turns` counts the turns until the jiffies reach the time to stop.
  unfoldable pub htb_do_events : ℕ → HtbSched → ℕ → HtbSched × ℤ
  htb_do_events zero q level = (record q { warned = true }, q.now)
  htb_do_events (suc turns) q level = elim (first (to_list (q.wait_pq level))) [
    | none ↦ (q, pos 0)
    | some c ↦
        let key = (q.classes c).pq_key in
        let rest = htb_do_events turns (apply_event q level c) level in
        if ltb_ℤ q.now key then (q, key) else rest
  ]

-- htb_dequeue reads the clock, and takes the frozen time of the caller off it.
unfoldable pub unfrozen_now : HtbSched → Task → ℤ → HtbSched
unfrozen_now q current ktime = record q { now = s64 (ktime -ℤ current.freeze_past_nsec) }

-- The end of htb_dequeue_tree, where the caller takes the dilation of its parent and the class its
-- rate at that dilation; `none` where the loop of psched_ratecfg_dilate would not end.
unfoldable pub poll_dilation :
    Math64 → LinkLayer → Kernel → ℕ → HtbSched → ℕ → Option (Kernel × HtbSched)
poll_dilation m link k parent q c =
    let tdf = (k.tasks parent).dilation in
    let current = k.tasks k.current in
    let polled = set_task k k.current (record current { dilation = tdf }) in
    if ltb_ℤ (pos 0) current.dilation
    then (if ltb_ℤ (pos 0) tdf
        then elim (psched_ratecfg_dilate m link (q.classes c).rate tdf) [
          | none ↦ none
          | some rate ↦
              some (polled, set_class q c (record (q.classes c) { dilation = tdf; rate = rate }))
        ]
        else some (k, q))
    else some (k, q)
