-- ===== src/Htb/Blind.antt =====
-- sch_htb.c: what a class that joins or leaves rows and feeds, or changes its mode, leaves as it is.
use virtual_time_kernel.Base.{
  ℕ, ◌≡◌, refl, ◌∙◌, Bool, if◌then◌else◌, if_both, List, [], ◌∷◌, Bool-cases, inl, inr,
}
use virtual_time_kernel.Base.Int.{ℤ}
use virtual_time_kernel.Htb.{Mask, Cmode, HtbPrio, HtbSched, set_class}
use virtual_time_kernel.Htb.Tree.{RbTree}
use virtual_time_kernel.Htb.Feeds.{
  feed_in, feed_out, add_rows, remove_rows, any_bit, join_row, leave_row, activate_from,
  deactivate_from, htb_activate_prios, htb_deactivate_prios, htb_change_class_mode, htb_activate,
  htb_deactivate, same_mode, set_cmode, set_activity, htb_add_class_to_row,
  htb_remove_class_from_row,
}
use virtual_time_kernel.Htb.Tokens.{is_cant_send, htb_class_mode}

-- A view of the scheduler that sees neither rows, feeds and their masks, nor drops.
pub record IsBlind {V : Type 0} (see : HtbSched → V) : Type 0 where
  pub to_rows : (q : HtbSched) (h : ℕ → ℕ → HtbPrio) → see (record q { hprio = h }) ≡ see q
  pub to_masks : (q : HtbSched) (m : ℕ → Mask) → see (record q { row_mask = m }) ≡ see q
  pub to_drops : (q : HtbSched) (l : ℕ → List ℕ) → see (record q { drops = l }) ≡ see q
  pub to_feeds :
      (q : HtbSched) (c : ℕ) (f : ℕ → HtbPrio)
      → see (set_class q c (record (q.classes c) { clprio = f })) ≡ see q
  pub to_activity : (q : HtbSched) (c : ℕ) (mask : Mask) → see (set_activity q c mask) ≡ see q

module _ (rb : RbTree) {V : Type 0} (see : HtbSched → V) (blind : IsBlind see) where
  -- Either branch of a test.
  either-blind :
      (q : HtbSched) (b : Bool) (x y : HtbSched)
      → see x ≡ see q
      → see y ≡ see q
      → see (if b then x else y) ≡ see q
  either-blind q b x y h k = if_both (λ r. see r ≡ see q) b x y h k

  add_rows-blind :
      (ps : List ℕ) (q : HtbSched) (c : ℕ) (mask : Mask) → see (add_rows rb ps q c mask) ≡ see q
  unfolding add_rows
  add_rows-blind [] q c mask = refl
  add_rows-blind (p ∷ ps) q c mask =
      add_rows-blind ps _ c mask ∙ either-blind q (mask p) _ q (blind.to_rows q _) refl

  remove_rows-blind :
      (ps : List ℕ) (q : HtbSched) (c : ℕ) (mask : Mask)
      → see (remove_rows rb ps q c mask).0 ≡ see q
  unfolding remove_rows
  remove_rows-blind [] q c mask = refl
  remove_rows-blind (p ∷ ps) q c mask =
      remove_rows-blind ps _ c mask ∙ either-blind q (mask p) _ q (blind.to_rows q _) refl

  feed_in-blind :
      (is : List ℕ) (q : HtbSched) (p c : ℕ) (mask : Mask)
      → see (feed_in rb is q p c mask).0 ≡ see q
  unfolding feed_in
  feed_in-blind [] q p c mask = refl
  feed_in-blind (i ∷ is) q p c mask =
      feed_in-blind is _ p c mask ∙ either-blind q (mask i) _ q (blind.to_feeds q p _) refl

  feed_out-blind :
      (is : List ℕ) (q : HtbSched) (p c : ℕ) (mask : Mask)
      → see (feed_out rb is q p c mask).0 ≡ see q
  unfolding feed_out
  feed_out-blind [] q p c mask = refl
  feed_out-blind (i ∷ is) q p c mask =
      feed_out-blind is _ p c mask ∙ either-blind q (mask i) _ q (blind.to_feeds q p _) refl

module _ (rb : RbTree) (prios : List ℕ) {V : Type 0} (see : HtbSched → V)
    (blind : IsBlind see) where
  join_row-blind : (q : HtbSched) (c : ℕ) (mask : Mask) → see (join_row rb prios q c mask) ≡ see q
  unfolding htb_add_class_to_row
  join_row-blind q c mask =
      either-blind rb see blind q _ _ q
        (add_rows-blind rb see blind prios _ c mask ∙ blind.to_masks q _) refl

  leave_row-blind : (q : HtbSched) (c : ℕ) (mask : Mask) → see (leave_row rb prios q c mask) ≡ see q
  unfolding htb_remove_class_from_row
  leave_row-blind q c mask =
      either-blind rb see blind q _ _ q
        (blind.to_masks _ _ ∙ remove_rows-blind rb see blind prios q c mask) refl

  activate_from-blind :
      (ancestors : List ℕ) (q : HtbSched) (c : ℕ) (mask : Mask)
      → see (activate_from rb prios ancestors q c mask) ≡ see q
  unfolding activate_from
  activate_from-blind [] q c mask = join_row-blind q c mask
  activate_from-blind (p ∷ ps) q c mask =
      let f : HtbSched × Mask = feed_in rb prios q p c mask in
      either-blind rb see blind q _ _ _
        (activate_from-blind ps _ p f.1
          ∙ blind.to_activity f.0 p _
          ∙ feed_in-blind rb see blind prios q p c mask)
        (join_row-blind q c mask)

  deactivate_from-blind :
      (ancestors : List ℕ) (q : HtbSched) (c : ℕ) (mask : Mask)
      → see (deactivate_from rb prios ancestors q c mask) ≡ see q
  unfolding deactivate_from
  deactivate_from-blind [] q c mask = leave_row-blind q c mask
  deactivate_from-blind (p ∷ ps) q c mask =
      let f : HtbSched × Mask = feed_out rb prios q p c mask in
      either-blind rb see blind q _ _ _
        (deactivate_from-blind ps _ p f.1
          ∙ blind.to_activity f.0 p _
          ∙ feed_out-blind rb see blind prios q p c mask)
        (leave_row-blind q c mask)

  pub htb_activate-blind : (q : HtbSched) (c : ℕ) → see (htb_activate rb prios q c) ≡ see q
  unfolding htb_activate htb_activate_prios
  htb_activate-blind q c =
      either-blind rb see blind q _ q _ refl
        (blind.to_drops _ _ ∙ activate_from-blind _ _ c _ ∙ blind.to_activity q c _)

  pub htb_deactivate-blind : (q : HtbSched) (c : ℕ) → see (htb_deactivate rb prios q c) ≡ see q
  unfolding htb_deactivate htb_deactivate_prios
  htb_deactivate-blind q c =
      blind.to_drops _ _
      ∙ blind.to_activity (htb_deactivate_prios rb prios q c) c _
      ∙ deactivate_from-blind _ q c _

  pub htb_change_class_mode-blind :
      (hysteresis : Bool) (q : HtbSched) (c : ℕ) (diff : ℤ)
      → ((r : HtbSched) (mode : Cmode) → see (set_cmode r c mode) ≡ see r)
      → see (htb_change_class_mode rb prios hysteresis q c diff).0 ≡ see q
  unfolding htb_change_class_mode htb_activate_prios htb_deactivate_prios
  htb_change_class_mode-blind hysteresis q c diff to_mode =
      let cl = q.classes c in
      let new_mode = (htb_class_mode hysteresis cl diff).0 in
      let detached : HtbSched =
        if is_cant_send cl.cmode then q else htb_deactivate_prios rb prios q c in
      let out : see detached ≡ see q =
        either-blind rb see blind q _ q _ refl
          (deactivate_from-blind cl.ancestors q c cl.prio_activity) in
      let changed : HtbSched = set_cmode detached c new_mode in
      let set : see changed ≡ see q = to_mode detached _ ∙ out in
      let moved : HtbSched =
        if is_cant_send new_mode then changed else htb_activate_prios rb prios changed c in
      let in_again : see moved ≡ see q =
        either-blind rb see blind q _ changed _ set (activate_from-blind _ changed c _ ∙ set) in
      elim (Bool-cases (same_mode new_mode cl.cmode)) [
        | inl e ↦ rw (e) refl
        | inr e ↦ elim (Bool-cases (any_bit prios cl.prio_activity)) [
          | inl active ↦ rw (e, active) in_again
          | inr idle ↦ rw (e, idle) (to_mode q _)
        ]
      ]
