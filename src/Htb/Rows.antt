-- ===== src/Htb/Rows.antt =====
-- The bit of a row is set exactly when the row holds a class.
use virtual_time_kernel.Base.{
  ℕ, ◌≡◌, sym, refl, ap, ◌∙◌, arith, Bool, true, false, not, ◌&&◌, ◌||◌, ◌==◌, List, [], ◌∷◌,
  Bool-cases, inl, inr, update, ==_refl,
}
use virtual_time_kernel.Htb.{Mask, HtbSched}
use virtual_time_kernel.Htb.Tree.{Rb, nil, fork, to_list, mem, is_empty, link-mem, RbTree}
use virtual_time_kernel.Htb.Feeds.{
  add_rows, htb_add_to_id_tree, htb_safe_rb_erase, htb_add_class_to_row, set_row,
}

abbrev pub Unique : List ℕ → Type 0
Unique [] = Unit
Unique (p ∷ ps) = (mem p ps ≡ false) × Unique ps

abbrev pub row_empty : HtbSched → ℕ → ℕ → Bool
row_empty q l p = is_empty (q.hprio l p).tree

module _ (prios : List ℕ) where
  abbrev pub RowsMarked : HtbSched → Type 0
  RowsMarked q = (l p : ℕ) → mem p prios ≡ true → q.row_mask l p ≡ not (row_empty q l p)

is_empty-to_list : (t : Rb) → is_empty t ≡ true → to_list t ≡ []
is_empty-to_list nil e = refl
is_empty-to_list (fork l c r) e = absurd (ground arith)

module _ (rb : RbTree) where
  member_nonempty : (t : Rb) (c : ℕ) → mem c (to_list t) ≡ true → is_empty t ≡ false
  member_nonempty t c h = elim (Bool-cases (is_empty t)) [
    | inl e ↦
        let none_in : mem c (to_list t) ≡ false = ap (mem c) (is_empty-to_list t e) in
        absurd (ground arith)
    | inr e ↦ e
  ]

  added_nonempty : (q : HtbSched) (t : Rb) (c : ℕ) → is_empty (htb_add_to_id_tree rb q t c) ≡ false
  added_nonempty q t c =
      member_nonempty _ c
        (rw rb.rb_insert_color-order (rw (link-mem _ c t c) (let e = ==_refl c in ground arith)))

  pub erased_empty :
      (c : ℕ) (t : Rb) → is_empty t ≡ true → is_empty (htb_safe_rb_erase rb c t) ≡ true
  erased_empty c t e = let l = is_empty-to_list t e in rw l e

  add_rows_empty :
      (ps : List ℕ) (q : HtbSched) (c : ℕ) (mask : Mask) (l p : ℕ)
      → row_empty (add_rows rb ps q c mask) l p
        ≡ (row_empty q l p && not ((q.classes c).level == l && (mask p && mem p ps)))
  unfolding add_rows
  add_rows_empty [] q c mask l p = ground arith
  add_rows_empty (i ∷ is) q c mask l p =
      let e = added_nonempty q (q.hprio (q.classes c).level i).tree c in
      elim (Bool-cases (mask i)) [
        | inl on ↦
            let ih =
              add_rows_empty is
                (set_row q (q.classes c).level i (record (q.hprio (q.classes c).level i) {
                  tree = htb_add_to_id_tree rb q (q.hprio (q.classes c).level i).tree c;
                }))
                c mask l p in
            rw (on, add_rows)
              (elim (Bool-cases (i == p)) [
                | inl same ↦
                    let i_p : i ≡ p = ground arith in
                    let on_p : mask p ≡ true = sym (ap mask i_p) ∙ on in rw ih (ground arith)
                | inr other ↦ rw ih (ground arith)
              ])
        | inr off ↦
            let ih = add_rows_empty is q c mask l p in
            rw (off, add_rows)
              (elim (Bool-cases (i == p)) [
                | inl same ↦
                    let i_p : i ≡ p = ground arith in
                    let off_p : mask p ≡ false = sym (ap mask i_p) ∙ off in rw ih (ground arith)
                | inr other ↦ rw ih (ground arith)
              ])
      ]

  add_rows_mask :
      (ps : List ℕ) (q : HtbSched) (c : ℕ) (mask : Mask)
      → (add_rows rb ps q c mask).row_mask ≡ q.row_mask
  unfolding add_rows
  add_rows_mask [] q c mask = refl
  add_rows_mask (i ∷ is) q c mask = elim (Bool-cases (mask i)) [
    | inl on ↦ rw (on, add_rows) (add_rows_mask is _ c mask)
    | inr off ↦ rw (off, add_rows) (add_rows_mask is q c mask)
  ]

module _ (rb : RbTree) (prios : List ℕ) where
  pub htb_add_class_to_row-RowsMarked :
      (q : HtbSched) (c : ℕ) (mask : Mask)
      → RowsMarked prios q
      → RowsMarked prios (htb_add_class_to_row rb prios q c mask)
  unfolding htb_add_class_to_row
  htb_add_class_to_row-RowsMarked q c mask marked l p known =
      let level = (q.classes c).level in
      let was = marked l p known in
      let e =
        add_rows_empty rb prios
          (record q { row_mask = update q.row_mask level (λ i. q.row_mask level i || mask i) }) c
          mask l p in
      rw (add_rows_mask rb prios, e)
        (elim (Bool-cases (level == l)) [
          | inl same ↦
              let level_l : level ≡ l = ground arith in
              let moved : q.row_mask level p ≡ q.row_mask l p =
                ap (λ (x : ℕ). q.row_mask x p) level_l in
              ground arith
          | inr other ↦ ground arith
        ])
