-- ===== src/Htb/Tree.antt =====
-- The search trees of sch_htb.c. Colours and rotations belong to the kernel's rbtree, of which the
-- code relies on the order of the nodes alone.
use virtual_time_kernel.Base.{
  ℕ, ◌≡◌, sym, refl, ◌∙◌, ap, Bool, true, false, ◌||◌, ◌==◌, if◌then◌else◌, List, [], ◌∷◌, ◌++◌,
  Option, none, some, arith, Bool-cases, inl, inr, ==_refl,
}
use virtual_time_kernel.Base.Int.{ℤ, ◌≤ℤ◌}

pub data Rb : Type 0 where
  nil : Rb
  fork : Rb → ℕ → Rb → Rb

-- The nodes from left to right.
abbrev pub to_list : Rb → List ℕ
to_list nil = []
to_list (fork l c r) = to_list l ++ (c ∷ to_list r)

abbrev pub mem : ℕ → List ℕ → Bool
mem y [] = false
mem y (x ∷ xs) = x == y || mem y xs

-- The list without the first `c`.
abbrev pub without : ℕ → List ℕ → List ℕ
without c [] = []
without c (x ∷ xs) = let rest = without c xs in if x == c then xs else x ∷ rest

-- The one after `c`.
abbrev pub next_of : ℕ → List ℕ → Option ℕ
next_of c [] = none
next_of c (x ∷ []) = none
next_of c (x ∷ y ∷ ys) = let rest = next_of c (y ∷ ys) in if x == c then some y else rest

abbrev pub first : List ℕ → Option ℕ
first [] = none
first (x ∷ _) = some x

-- lib/rbtree: rb_insert_color balances the tree in which the node `c` has just been linked, and
-- rb_erase takes the node out.
pub record RbTree : Type 0 where
  pub rb_insert_color : ℕ → Rb → Rb
  pub rb_insert_color-order : (c : ℕ) (t : Rb) → to_list (rb_insert_color c t) ≡ to_list t
  pub rb_erase : ℕ → Rb → Rb
  pub rb_erase-order : (c : ℕ) (t : Rb) → to_list (rb_erase c t) ≡ without c (to_list t)

-- The descent to the place of a new node, and rb_link_node there. `right d` is the comparison of the
-- new node with the node d.
unfoldable pub link : (ℕ → Bool) → ℕ → Rb → Rb
link right c nil = fork nil c nil
link right c (fork l d r) =
    let in_left = link right c l in
    let in_right = link right c r in if right d then fork l d in_right else fork in_left d r

abbrev pub is_empty : Rb → Bool
is_empty nil = true
is_empty (fork _ _ _) = false

pub mem-++ : (y : ℕ) (xs ys : List ℕ) → mem y (xs ++ ys) ≡ (mem y xs || mem y ys)
mem-++ y [] ys = refl
mem-++ y (x ∷ xs) ys = let ih = mem-++ y xs ys in rw ih (ground arith)

pub link-mem :
    (right : ℕ → Bool) (c : ℕ) (t : Rb) (y : ℕ)
    → mem y (to_list (link right c t)) ≡ (c == y || mem y (to_list t))
unfolding link
link-mem right c nil y = refl
link-mem right c (fork l d r) y =
    let ih_l = link-mem right c l y in
    let ih_r = link-mem right c r y in
    elim (Bool-cases (right d)) [
      | inl e ↦
          rw
            (
              e,
              mem-++ y (to_list l) (d ∷ to_list (link right c r)),
              ih_r,
              mem-++ y (to_list l) (d ∷ to_list r),
            )
            (ground arith)
      | inr e ↦
          rw
            (
              e,
              mem-++ y (to_list (link right c l)) (d ∷ to_list r),
              ih_l,
              mem-++ y (to_list l) (d ∷ to_list r),
            )
            (ground arith)
    ]

module _ (key : ℕ → ℤ) where
  -- From the least key to the greatest.
  abbrev pub Sorted : List ℕ → Type 0
  Sorted [] = Unit
  Sorted (x ∷ xs) = ((y : ℕ) → mem y xs ≡ true → key x ≤ℤ key y) × Sorted xs

  pub Sorted-join :
      (xs : List ℕ) (d : ℕ) (ys : List ℕ)
      → Sorted xs
      → Sorted (d ∷ ys)
      → ((x : ℕ) → mem x xs ≡ true → key x ≤ℤ key d)
      → Sorted (xs ++ (d ∷ ys))
  Sorted-join [] d ys sx sd below = sd
  Sorted-join (x ∷ xs) d ys sx sd below = (
    λ y h.
        let x_d : key x ≤ℤ key d = below x (rw (==_refl x)) in
        let d_self = ==_refl d in
        let joined = sym (mem-++ y xs (d ∷ ys)) ∙ h in
        elim (Bool-cases (mem y xs)) [
          | inl e ↦ sx.0 y e
          | inr e ↦ elim (Bool-cases (d == y)) [
            | inl same ↦
                let d_y : d ≡ y = ground arith in
                let keys : key d ≡ key y = ap key d_y in rw (sym keys) x_d
            | inr other ↦
                let in_ys : mem y ys ≡ true = ground arith in let d_y = sd.0 y in_ys in omega arith
          ]
        ],
    Sorted-join xs d ys sx.1 sd (λ z h. below z (ground arith)),
  )

  pub Sorted-split :
      (xs : List ℕ) (d : ℕ) (ys : List ℕ)
      → Sorted (xs ++ (d ∷ ys))
      → Sorted xs × Sorted (d ∷ ys) × ((x : ℕ) → mem x xs ≡ true → key x ≤ℤ key d)
  Sorted-split [] d ys s = (tt, s, λ x h. absurd (ground arith))
  Sorted-split (x ∷ xs) d ys s =
      let (a, b, c) = Sorted-split xs d ys s.1 in
      let here : key x ≤ℤ key d =
        s.0 d (rw (mem-++ d xs (d ∷ ys)) (let e = ==_refl d in ground arith)) in
      (
        (λ y h. s.0 y (rw (mem-++ y xs (d ∷ ys)) (ground arith)), a),
        b,
        λ y h. elim (Bool-cases (x == y)) [
          | inl same ↦
              let x_y : x ≡ y = ground arith in
              let keys : key x ≡ key y = ap key x_y in rw (sym keys) here
          | inr other ↦ c y (ground arith)
        ],
      )
