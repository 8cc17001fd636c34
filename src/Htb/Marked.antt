-- ===== src/Htb/Marked.antt =====
-- The masks of the rows through activation and changes of mode.
use virtual_time_kernel.Base.{
  ℕ, ◌≡◌, refl, Bool, not, ◌&&◌, ◌||◌, List, [], ◌∷◌, Bool-cases, inl, inr,
}
use virtual_time_kernel.Base.Int.{ℤ}
use virtual_time_kernel.Htb.{Mask, HtbSched}
use virtual_time_kernel.Htb.Tree.{RbTree}
use virtual_time_kernel.Htb.Tokens.{is_can_send, is_cant_send, htb_class_mode}
use virtual_time_kernel.Htb.Feeds.{
  feed_in, feed_out, is_may_borrow, any_bit, join_row, leave_row, activate_from, deactivate_from,
  htb_activate_prios, htb_deactivate_prios, htb_change_class_mode, htb_activate, htb_deactivate,
  same_mode, set_activity,
}
use virtual_time_kernel.Htb.Rows.{Unique, RowsMarked, htb_add_class_to_row-RowsMarked}
use virtual_time_kernel.Htb.Removal.{htb_remove_class_from_row-RowsMarked}

abbrev SameRows : HtbSched → HtbSched → Type 0
SameRows q q' = (q'.row_mask ≡ q.row_mask) × (q'.hprio ≡ q.hprio)

SameRows-RowsMarked :
    (prios : List ℕ) (q q' : HtbSched) → SameRows q q' → RowsMarked prios q → RowsMarked prios q'
SameRows-RowsMarked prios q q' same marked l p known = rw (same.0, same.1) (marked l p known)

module _ (rb : RbTree) where
  feed_in-SameRows :
      (is : List ℕ) (q : HtbSched) (p c : ℕ) (mask : Mask) → SameRows q (feed_in rb is q p c mask).0
  unfolding feed_in
  feed_in-SameRows [] q p c mask = (refl, refl)
  feed_in-SameRows (i ∷ is) q p c mask = elim (Bool-cases (mask i)) [
    | inl on ↦ rw (on, feed_in) (feed_in-SameRows is _ p c mask)
    | inr off ↦ rw (off, feed_in) (feed_in-SameRows is q p c mask)
  ]

  feed_out-SameRows :
      (is : List ℕ) (q : HtbSched) (p c : ℕ) (mask : Mask)
      → SameRows q (feed_out rb is q p c mask).0
  unfolding feed_out
  feed_out-SameRows [] q p c mask = (refl, refl)
  feed_out-SameRows (i ∷ is) q p c mask = elim (Bool-cases (mask i)) [
    | inl on ↦ rw (on, feed_out) (feed_out-SameRows is _ p c mask)
    | inr off ↦ rw (off, feed_out) (feed_out-SameRows is q p c mask)
  ]

module _ (rb : RbTree) (prios : List ℕ) where
  join_row-RowsMarked :
      (q : HtbSched) (c : ℕ) (mask : Mask)
      → RowsMarked prios q
      → RowsMarked prios (join_row rb prios q c mask)
  join_row-RowsMarked q c mask marked =
      elim (Bool-cases (is_can_send (q.classes c).cmode && any_bit prios mask)) [
        | inl e ↦ rw e (htb_add_class_to_row-RowsMarked rb prios q c mask marked)
        | inr e ↦ rw e marked
      ]

  leave_row-RowsMarked :
      (q : HtbSched) (c : ℕ) (mask : Mask)
      → Unique prios
      → RowsMarked prios q
      → RowsMarked prios (leave_row rb prios q c mask)
  leave_row-RowsMarked q c mask unique marked =
      elim (Bool-cases (is_can_send (q.classes c).cmode && any_bit prios mask)) [
        | inl e ↦ rw e (htb_remove_class_from_row-RowsMarked rb prios q c mask unique marked)
        | inr e ↦ rw e marked
      ]

  activate_from-RowsMarked :
      (ancestors : List ℕ) (q : HtbSched) (c : ℕ) (mask : Mask)
      → RowsMarked prios q
      → RowsMarked prios (activate_from rb prios ancestors q c mask)
  unfolding activate_from
  activate_from-RowsMarked [] q c mask marked = join_row-RowsMarked q c mask marked
  activate_from-RowsMarked (p ∷ ps) q c mask marked =
      let f : HtbSched × Mask = feed_in rb prios q p c mask in
      let joined : HtbSched = set_activity f.0 p (λ i. (f.0.classes p).prio_activity i || f.1 i) in
      elim (Bool-cases (is_may_borrow (q.classes c).cmode && any_bit prios mask)) [
        | inl e ↦
            rw (e, activate_from)
              (activate_from-RowsMarked ps joined p f.1
                (SameRows-RowsMarked prios q joined (feed_in-SameRows rb prios q p c mask) marked))
        | inr e ↦ rw (e, activate_from) (join_row-RowsMarked q c mask marked)
      ]

  deactivate_from-RowsMarked :
      (ancestors : List ℕ) (q : HtbSched) (c : ℕ) (mask : Mask)
      → Unique prios
      → RowsMarked prios q
      → RowsMarked prios (deactivate_from rb prios ancestors q c mask)
  unfolding deactivate_from
  deactivate_from-RowsMarked [] q c mask unique marked = leave_row-RowsMarked q c mask unique marked
  deactivate_from-RowsMarked (p ∷ ps) q c mask unique marked =
      let f : HtbSched × Mask = feed_out rb prios q p c mask in
      let joined : HtbSched =
        set_activity f.0 p (λ i. (f.0.classes p).prio_activity i && not (f.1 i)) in
      elim (Bool-cases (is_may_borrow (q.classes c).cmode && any_bit prios mask)) [
        | inl e ↦
            rw (e, deactivate_from)
              (deactivate_from-RowsMarked ps joined p f.1 unique
                (SameRows-RowsMarked prios q joined (feed_out-SameRows rb prios q p c mask) marked))
        | inr e ↦ rw (e, deactivate_from) (leave_row-RowsMarked q c mask unique marked)
      ]

  pub htb_change_class_mode-RowsMarked :
      (hysteresis : Bool) (q : HtbSched) (c : ℕ) (diff : ℤ)
      → Unique prios
      → RowsMarked prios q
      → RowsMarked prios (htb_change_class_mode rb prios hysteresis q c diff).0
  unfolding htb_change_class_mode htb_activate_prios htb_deactivate_prios
  htb_change_class_mode-RowsMarked hysteresis q c diff unique marked =
      let cl = q.classes c in
      let new_mode = (htb_class_mode hysteresis cl diff).0 in
      let out = deactivate_from-RowsMarked cl.ancestors q c cl.prio_activity unique marked in
      elim (Bool-cases (same_mode new_mode cl.cmode)) [
        | inl e ↦ rw (e, htb_change_class_mode) marked
        | inr e ↦ elim (Bool-cases (any_bit prios cl.prio_activity)) [
          | inr idle ↦ rw (e, idle, htb_change_class_mode) marked
          | inl active ↦ elim (Bool-cases (is_cant_send cl.cmode)) [
            | inl old ↦ elim (Bool-cases (is_cant_send new_mode)) [
              | inl new ↦ rw (e, active, old, new, htb_change_class_mode) marked
              | inr new ↦
                  rw (e, active, old, new, htb_change_class_mode)
                    (activate_from-RowsMarked _ _ c _ marked)
            ]
            | inr old ↦ elim (Bool-cases (is_cant_send new_mode)) [
              | inl new ↦ rw (e, active, old, new, htb_change_class_mode) out
              | inr new ↦
                  rw (e, active, old, new, htb_change_class_mode)
                    (activate_from-RowsMarked _ _ c _ out)
            ]
          ]
        ]
      ]

  -- Activating and deactivating a leaf keeps the bit of each row set exactly when it holds a class.
  pub htb_activate-RowsMarked :
      (q : HtbSched) (c : ℕ)
      → Unique prios
      → RowsMarked prios q
      → RowsMarked prios (htb_activate rb prios q c)
        × RowsMarked prios (htb_deactivate rb prios q c)
  unfolding htb_activate htb_deactivate htb_activate_prios htb_deactivate_prios
  htb_activate-RowsMarked q c unique marked = (
    elim (Bool-cases (any_bit prios (q.classes c).prio_activity)) [
      | inl e ↦ rw (e, htb_activate) marked
      | inr e ↦ rw (e, htb_activate) (activate_from-RowsMarked _ _ c _ marked)
    ],
    deactivate_from-RowsMarked _ q c _ unique marked,
  )
