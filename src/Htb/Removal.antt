-- ===== src/Htb/Removal.antt =====
-- Taking a class out of its rows, and the bits that are cleared.
use virtual_time_kernel.Base.{
  ℕ, ◌≡◌, sym, refl, ap, ◌∙◌, arith, true, false, ◌&&◌, ◌==◌, if◌then◌else◌, List, [], ◌∷◌,
  Bool-cases, inl, inr, ==_refl,
}
use virtual_time_kernel.Htb.{Mask, HtbSched}
use virtual_time_kernel.Htb.Tree.{mem, is_empty, RbTree}
use virtual_time_kernel.Htb.Feeds.{
  remove_rows, htb_safe_rb_erase, htb_remove_class_from_row, set_row, set_bit, no_bits, points_to,
  next_node,
}
use virtual_time_kernel.Htb.Rows.{Unique, row_empty, RowsMarked, erased_empty}

module _ (rb : RbTree) (c : ℕ) (mask : Mask) where
  abbrev removed_at : HtbSched → ℕ → HtbSched
  removed_at q i =
      let l = (q.classes c).level in
      let h = q.hprio l i in
      set_row q l i (record h {
        tree = htb_safe_rb_erase rb c h.tree;
        ptr = if points_to h.ptr c then next_node h.ptr h.tree else h.ptr;
      })

  remove_rows_on :
      (i : ℕ) (is : List ℕ) (q : HtbSched)
      → mask i ≡ true
      → remove_rows rb (i ∷ is) q c mask ≡ (
        (remove_rows rb is (removed_at q i) c mask).0,
        if is_empty (htb_safe_rb_erase rb c (q.hprio (q.classes c).level i).tree)
            then set_bit (remove_rows rb is (removed_at q i) c mask).1 i true
            else (remove_rows rb is (removed_at q i) c mask).1,
      )
  unfolding remove_rows
  remove_rows_on i is q on = rw on refl

  remove_rows_off :
      (i : ℕ) (is : List ℕ) (q : HtbSched)
      → mask i ≡ false
      → remove_rows rb (i ∷ is) q c mask
        ≡ ((remove_rows rb is q c mask).0, (remove_rows rb is q c mask).1)
  unfolding remove_rows
  remove_rows_off i is q off = rw off refl

  remove_rows_nil : (q : HtbSched) → remove_rows rb [] q c mask ≡ (q, no_bits)
  unfolding remove_rows
  remove_rows_nil q = refl

  remove_rows_mask :
      (ps : List ℕ) (q : HtbSched) → (remove_rows rb ps q c mask).0.row_mask ≡ q.row_mask
  remove_rows_mask [] q = rw (remove_rows_nil q) refl
  remove_rows_mask (i ∷ is) q = elim (Bool-cases (mask i)) [
    | inl on ↦ rw (remove_rows_on i is q on) (remove_rows_mask is (removed_at q i))
    | inr off ↦ rw (remove_rows_off i is q off) (remove_rows_mask is q)
  ]

  remove_rows_empty :
      (ps : List ℕ) (q : HtbSched) (l p : ℕ)
      → row_empty q l p ≡ true
      → row_empty (remove_rows rb ps q c mask).0 l p ≡ true
  remove_rows_empty [] q l p e = rw (remove_rows_nil q) e
  remove_rows_empty (i ∷ is) q l p e = elim (Bool-cases (mask i)) [
    | inl on ↦
        let level = (q.classes c).level in
        let next : row_empty (removed_at q i) l p ≡ true = elim (Bool-cases (level == l)) [
          | inl same ↦ elim (Bool-cases (i == p)) [
            | inl same_p ↦
                let level_l : level ≡ l = ground arith in
                let i_p : i ≡ p = ground arith in
                let there : row_empty q level i ≡ true = rw (level_l, i_p) e in
                rw (same, same_p) (erased_empty rb c _ there)
            | inr other_p ↦
                rw (same, other_p) (let level_l : level ≡ l = ground arith in rw level_l e)
          ]
          | inr other ↦ rw other e
        ] in
        rw (remove_rows_on i is q on) (remove_rows_empty is (removed_at q i) l p next)
    | inr off ↦ rw (remove_rows_off i is q off) (remove_rows_empty is q l p e)
  ]

  remove_rows_other :
      (ps : List ℕ) (q : HtbSched) (l p : ℕ)
      → ((q.classes c).level == l && (mask p && mem p ps)) ≡ false
      → row_empty (remove_rows rb ps q c mask).0 l p ≡ row_empty q l p
  remove_rows_other [] q l p out = rw (remove_rows_nil q) refl
  remove_rows_other (i ∷ is) q l p out = elim (Bool-cases (mask i)) [
    | inl on ↦
        let ih = remove_rows_other is (removed_at q i) l p (ground arith) in
        rw (remove_rows_on i is q on) (elim (Bool-cases (i == p)) [
          | inl same ↦
              let i_p : i ≡ p = ground arith in
              let on_p : mask p ≡ true = sym (ap mask i_p) ∙ on in
              let away : ((q.classes c).level == l) ≡ false = ground arith in rw ih (rw away)
          | inr other ↦ rw ih (elim (Bool-cases ((q.classes c).level == l)) [
            | inl here ↦
                let level_l : (q.classes c).level ≡ l = ground arith in
                rw (here, other) (ap (λ (x : ℕ). row_empty q x p) level_l)
            | inr there ↦ rw there
          ])
        ])
    | inr off ↦ rw (remove_rows_off i is q off) (remove_rows_other is q l p (ground arith))
  ]

  remove_rows_bits :
      (ps : List ℕ) (q : HtbSched) (p : ℕ)
      → Unique ps
      → (remove_rows rb ps q c mask).1 p
        ≡ ((mask p && mem p ps) && row_empty (remove_rows rb ps q c mask).0 (q.classes c).level p)
  remove_rows_bits [] q p u = rw (remove_rows_nil q) (ground arith)
  remove_rows_bits (i ∷ is) q p u = elim (Bool-cases (mask i)) [
    | inl on ↦
        let level = (q.classes c).level in
        let ih = remove_rows_bits is (removed_at q i) p u.1 in
        let first : row_empty (remove_rows rb is (removed_at q i) c mask).0 level i
            ≡ is_empty (htb_safe_rb_erase rb c (q.hprio level i).tree) =
          rw (remove_rows_other is (removed_at q i) level i (let e = u.0 in ground arith))
            (rw (==_refl level, ==_refl i)) in
        rw (remove_rows_on i is q on) (elim (Bool-cases (i == p)) [
          | inl same ↦
              let i_p : i ≡ p = ground arith in
              let on_p : mask p ≡ true = sym (ap mask i_p) ∙ on in
              let out : mem p is ≡ false = sym (ap (λ (x : ℕ). mem x is) i_p) ∙ u.0 in
              let here : row_empty (remove_rows rb is (removed_at q i) c mask).0 level p
                  ≡ is_empty (htb_safe_rb_erase rb c (q.hprio level i).tree) =
                sym (
                  ap (λ (x : ℕ). row_empty (remove_rows rb is (removed_at q i) c mask).0 level x)
                    i_p)
                ∙ first in
              ground arith
          | inr other ↦ ground arith
        ])
    | inr off ↦
        let ih = remove_rows_bits is q p u.1 in
        rw (remove_rows_off i is q off) (elim (Bool-cases (i == p)) [
          | inl same ↦
              let i_p : i ≡ p = ground arith in
              let off_p : mask p ≡ false = sym (ap mask i_p) ∙ off in ground arith
          | inr other ↦ ground arith
        ])
  ]

module _ (rb : RbTree) (prios : List ℕ) where
  pub htb_remove_class_from_row-RowsMarked :
      (q : HtbSched) (c : ℕ) (mask : Mask)
      → Unique prios
      → RowsMarked prios q
      → RowsMarked prios (htb_remove_class_from_row rb prios q c mask)
  unfolding htb_remove_class_from_row
  htb_remove_class_from_row-RowsMarked q c mask unique marked l p known =
      let level = (q.classes c).level in
      let after : HtbSched = (remove_rows rb prios q c mask).0 in
      let was = marked l p known in
      let bits = remove_rows_bits rb c mask prios q p unique in
      let kept = remove_rows_mask rb c mask prios q in
      let empty = remove_rows_empty rb c mask prios q l p in
      let other = remove_rows_other rb c mask prios q l p in
      rw kept (elim (Bool-cases (level == l)) [
        | inl same ↦
            let level_l : level ≡ l = ground arith in
            let moved : q.row_mask level p ≡ q.row_mask l p =
              ap (λ (x : ℕ). q.row_mask x p) level_l in
            let at_l : row_empty after level p ≡ row_empty after l p =
              ap (λ (x : ℕ). row_empty after x p) level_l in
            rw (same, moved, was, bits, at_l)
              (elim (Bool-cases (row_empty q l p)) [
                | inl e ↦ rw (e, empty e)
                | inr e ↦ elim (Bool-cases (mask p)) [
                  | inl on ↦ rw (e, on, known) (ground arith)
                  | inr off ↦ let stays = other (rw (same, off)) ∙ e in rw (e, off, stays)
                ]
              ])
        | inr away ↦ let stays = other (rw away) in rw (away, stays, was)
      ])
