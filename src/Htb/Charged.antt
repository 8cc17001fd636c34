-- ===== src/Htb/Charged.antt =====
-- The masks of the rows through charging and events.
use virtual_time_kernel.Base.{
  ℕ, zero, suc, ◌≡◌, refl, arith, Bool, List, [], ◌∷◌, Option, none, some, Bool-cases, inl, inr,
  update,
}
use virtual_time_kernel.Base.Int.{pos, ltb_ℤ}
use virtual_time_kernel.Math64.{Math64}
use virtual_time_kernel.Psched.{LinkLayer}
use virtual_time_kernel.Htb.{HtbSched}
use virtual_time_kernel.Htb.Tree.{to_list, first, RbTree}
use virtual_time_kernel.Htb.Wait.{htb_add_to_wait_tree}
use virtual_time_kernel.Htb.Feeds.{htb_safe_rb_erase}
use virtual_time_kernel.Htb.Rows.{Unique, RowsMarked}
use virtual_time_kernel.Htb.Charge.{
  since_checkpoint, charge_mode, charge_classes, htb_charge_class, apply_event, htb_do_events,
}
use virtual_time_kernel.Htb.Marked.{htb_change_class_mode-RowsMarked}

module _ (m : Math64) (link : LinkLayer) (rb : RbTree) (prios : List ℕ) (hysteresis : Bool) where
  charge_mode-RowsMarked :
      (q : HtbSched) (c : ℕ)
      → Unique prios
      → RowsMarked prios q
      → RowsMarked prios (charge_mode m link rb prios hysteresis q c)
  unfolding charge_mode htb_add_to_wait_tree
  charge_mode-RowsMarked q c unique marked l p known =
      let changed =
        htb_change_class_mode-RowsMarked rb prios hysteresis q c (pos 0) unique marked l p known in
      ground arith

  charge_classes-RowsMarked :
      (cs : List ℕ) (q : HtbSched) (level bytes : ℕ)
      → Unique prios
      → RowsMarked prios q
      → RowsMarked prios (charge_classes m link rb prios hysteresis cs q level bytes)
  unfolding charge_classes
  charge_classes-RowsMarked [] q level bytes unique marked = marked
  charge_classes-RowsMarked (c ∷ cs) q level bytes unique marked =
      charge_classes-RowsMarked cs _ level bytes unique (charge_mode-RowsMarked _ c unique marked)

  apply_event-RowsMarked :
      (q : HtbSched) (level c : ℕ)
      → Unique prios
      → RowsMarked prios q
      → RowsMarked prios (apply_event m link rb prios hysteresis q level c)
  unfolding apply_event htb_add_to_wait_tree
  apply_event-RowsMarked q level c unique marked l p known =
      let q₁ : HtbSched = record q {
        wait_pq = update q.wait_pq level (htb_safe_rb_erase rb c (q.wait_pq level));
      } in
      let changed =
        htb_change_class_mode-RowsMarked rb prios hysteresis q₁ c (since_checkpoint q (q.classes c))
          unique marked l p known in
      ground arith

  due_step :
      (n : ℕ) (q : HtbSched) (level : ℕ)
      → ((r : HtbSched)
          → RowsMarked prios r
          → RowsMarked prios (htb_do_events m link rb prios hysteresis n r level).0)
      → Unique prios
      → RowsMarked prios q
      → (o : Option ℕ) → first (to_list (q.wait_pq level)) ≡ o
      → RowsMarked prios (htb_do_events m link rb prios hysteresis (suc n) q level).0
  unfolding htb_do_events
  due_step n q level rest unique marked none e = rw (e, htb_do_events) marked
  due_step n q level rest unique marked (some d) e =
      elim (Bool-cases (ltb_ℤ q.now (q.classes d).pq_key)) [
        | inl later ↦ rw (e, htb_do_events) (rw later marked)
        | inr due ↦
            rw (e, htb_do_events)
              (rw due (
                rest (apply_event m link rb prios hysteresis q level d)
                  (apply_event-RowsMarked q level d unique marked)))
      ]

  htb_do_events-RowsMarked :
      (turns : ℕ) (q : HtbSched) (level : ℕ)
      → Unique prios
      → RowsMarked prios q
      → RowsMarked prios (htb_do_events m link rb prios hysteresis turns q level).0
  unfolding htb_do_events
  htb_do_events-RowsMarked zero q level unique marked = marked
  htb_do_events-RowsMarked (suc n) q level unique marked =
      due_step n q level (λ r h. htb_do_events-RowsMarked n r level unique h) unique marked _ refl

  -- Charging a packet, and applying the events of a level, keeps the bit of each row set exactly
  -- when it holds a class.
  pub htb_charge_class-RowsMarked :
      (q : HtbSched) (c level bytes turns : ℕ)
      → Unique prios
      → RowsMarked prios q
      → RowsMarked prios (htb_charge_class m link rb prios hysteresis q c level bytes)
        × RowsMarked prios (htb_do_events m link rb prios hysteresis turns q level).0
  unfolding htb_charge_class
  htb_charge_class-RowsMarked q c level bytes turns unique marked = (
    charge_classes-RowsMarked _ q level bytes unique marked,
    htb_do_events-RowsMarked turns q level unique marked,
  )
