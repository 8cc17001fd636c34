-- ===== src/Htb/Active.antt =====
-- sch_htb.c: the priorities at which a class is active, while another one joins rows and feeds.
use virtual_time_kernel.Base.{
  ℕ, ◌≡◌, refl, ◌∙◌, sym, ap, arith, true, false, ◌||◌, ◌&&◌, ◌==◌, if_both, List, [], ◌∷◌, ==_refl,
  update, Bool-cases, inl, inr,
}
use virtual_time_kernel.Htb.{Mask, HtbPrio, HtbSched, set_class}
use virtual_time_kernel.Htb.Tree.{RbTree, mem}
use virtual_time_kernel.Htb.Feeds.{
  feed_in, add_rows, any_bit, join_row, activate_from, htb_activate_prios, htb_activate,
  set_activity, htb_add_class_to_row, set_bit, no_bits, is_may_borrow,
}
use virtual_time_kernel.Htb.Tokens.{is_can_send}

-- A class is active at a priority: there is something to send below it, or in its queue.
abbrev pub IsActiveAt : HtbSched → ℕ → ℕ → Type 0
IsActiveAt q c p = (q.classes c).prio_activity p ≡ true

abbrev pub IsActive : List ℕ → HtbSched → ℕ → Type 0
IsActive prios q c = any_bit prios (q.classes c).prio_activity ≡ true

-- No class has ceased to be active at a priority.
abbrev pub Wider : HtbSched → HtbSched → Type 0
Wider q q' = (c p : ℕ) → IsActiveAt q c p → IsActiveAt q' c p

any_bit-mem :
    (ps : List ℕ) (mask : Mask) (p : ℕ) → mem p ps ≡ true → mask p ≡ true → any_bit ps mask ≡ true
unfolding any_bit
any_bit-mem [] mask p h on = absurd (ground arith)
any_bit-mem (x ∷ xs) mask p h on = elim (Bool-cases (x == p)) [
  | inl e ↦ let x_p : x ≡ p = ground arith in rw (x_p, on) refl
  | inr e ↦
      let ih : any_bit xs mask ≡ true = any_bit-mem xs mask p (rw (e) at h) on in
      rw (ih) (ground arith)
]

pub any_bit-Wider :
    (ps : List ℕ) (a b : Mask)
    → ((p : ℕ) → a p ≡ true → b p ≡ true)
    → any_bit ps a ≡ true
    → any_bit ps b ≡ true
unfolding any_bit
any_bit-Wider [] a b w h = h
any_bit-Wider (x ∷ xs) a b w h = elim (Bool-cases (a x)) [
  | inl e ↦ rw (w x e) refl
  | inr e ↦
      let ih : any_bit xs b ≡ true = any_bit-Wider xs a b w (rw (e) at h) in rw (ih) (ground arith)
]

feed-Wider :
    (q : HtbSched) (x : ℕ) (f : ℕ → HtbPrio)
    → Wider q (set_class q x (record (q.classes x) { clprio = f }))
feed-Wider q x f c p h = elim (Bool-cases (x == c)) [
  | inl e ↦ let x_c : x ≡ c = ground arith in rw (e, x_c) h
  | inr e ↦ rw (e) h
]

activity-Wider :
    (q : HtbSched) (x : ℕ) (mask : Mask)
    → ((p : ℕ) → IsActiveAt q x p → mask p ≡ true)
    → Wider q (set_activity q x mask)
activity-Wider q x mask w c p h = elim (Bool-cases (x == c)) [
  | inl e ↦ let x_c : x ≡ c = ground arith in rw (e) (w p (rw (x_c) h))
  | inr e ↦ rw (e) h
]

module _ (rb : RbTree) where
  feed_in-Wider :
      (is : List ℕ) (q : HtbSched) (x c : ℕ) (mask : Mask) → Wider q (feed_in rb is q x c mask).0
  unfolding feed_in
  feed_in-Wider [] q x c mask e p h = h
  feed_in-Wider (i ∷ is) q x c mask e p h =
      feed_in-Wider is _ x c mask e p
        (if_both (λ r. IsActiveAt r e p) (mask i) _ q (feed-Wider q x _ e p h) h)

  add_rows-Wider :
      (ps : List ℕ) (q : HtbSched) (c : ℕ) (mask : Mask) → Wider q (add_rows rb ps q c mask)
  unfolding add_rows
  add_rows-Wider [] q c mask e p h = h
  add_rows-Wider (x ∷ ps) q c mask e p h =
      add_rows-Wider ps _ c mask e p (if_both (λ r. IsActiveAt r e p) (mask x) _ q h h)

module _ (rb : RbTree) (prios : List ℕ) where
  join_row-Wider : (q : HtbSched) (c : ℕ) (mask : Mask) → Wider q (join_row rb prios q c mask)
  unfolding htb_add_class_to_row
  join_row-Wider q c mask e p h =
      let l = (q.classes c).level in
      let marked : HtbSched = record q {
        row_mask = update q.row_mask l (λ i. q.row_mask l i || mask i);
      } in
      if_both (λ r. IsActiveAt r e p) (is_can_send (q.classes c).cmode && any_bit prios mask)
        (add_rows rb prios marked c mask) q (add_rows-Wider rb prios marked c mask e p h) h

  activate_from-Wider :
      (ancestors : List ℕ) (q : HtbSched) (c : ℕ) (mask : Mask)
      → Wider q (activate_from rb prios ancestors q c mask)
  unfolding activate_from
  activate_from-Wider [] q c mask e p h = join_row-Wider q c mask e p h
  activate_from-Wider (x ∷ xs) q c mask e p h =
      let f : HtbSched × Mask = feed_in rb prios q x c mask in
      if_both (λ r. IsActiveAt r e p) (is_may_borrow (q.classes c).cmode && any_bit prios mask) _ _
        (activate_from-Wider xs _ x f.1 e p (
          activity-Wider f.0 x _ (λ i on. rw (on) refl) e p
            (feed_in-Wider rb prios q x c mask e p h)))
        (join_row-Wider q c mask e p h)

  -- htb_activate keeps what is active, and the class that it is called for is active after it.
  pub htb_activate-IsActive :
      (q : HtbSched) (c : ℕ)
      → mem (q.classes c).prio prios ≡ true
      → ((e : ℕ) → IsActive prios q e → IsActive prios (htb_activate rb prios q c) e)
        × IsActive prios (htb_activate rb prios q c) c
  unfolding htb_activate htb_activate_prios
  htb_activate-IsActive q c in_range =
      let prio = (q.classes c).prio in
      let set : HtbSched = set_activity q c (set_bit no_bits prio true) in
      elim (Bool-cases (any_bit prios (q.classes c).prio_activity)) [
        | inl e ↦ rw (e) (λ x h. h, e)
        | inr e ↦
            let wider : Wider set (htb_activate_prios rb prios set c) =
              activate_from-Wider _ set c _ in
            let own : IsActiveAt set c prio = rw (==_refl c) (rw (==_refl prio) refl) in
            let others : (x : ℕ) → IsActive prios q x → IsActive prios set x = λ x h.
              elim (Bool-cases (c == x)) [
                | inl s ↦
                    let c_x : c ≡ x = ground arith in
                    let no : false ≡ true =
                      sym e ∙ ap (λ y. any_bit prios (q.classes y).prio_activity) c_x ∙ h in
                    absurd (ground arith)
                | inr s ↦ rw (s) h
              ] in
            rw (e) (
              λ x h. any_bit-Wider prios _ _ (wider x) (others x h),
              any_bit-mem prios _ prio in_range (wider c prio own),
            )
      ]
