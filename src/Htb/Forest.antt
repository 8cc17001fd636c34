-- ===== src/Htb/Forest.antt =====
-- sch_htb.c: the hierarchy of the classes as a forest, through adding and deleting a class.
use virtual_time_kernel.Base.{
  ℕ, suc, ◌≡◌, ◌≢◌, ◌<◌, sym, refl, ap, ◌∙◌, arith, Bool, true, false, not, ◌&&◌, ◌==◌, ==_refl,
  if◌then◌else◌, List, [], ◌∷◌, Option, none, some, Bool-cases, inl, inr,
}
use virtual_time_kernel.Htb.Tree.{mem, without}
use virtual_time_kernel.Htb.Rows.{Unique}
use virtual_time_kernel.Htb.Feeds.{points_to}

-- How many of the classes have the parent p.
unfoldable pub child_count : (ℕ → Option ℕ) → ℕ → List ℕ → ℕ
child_count parent p [] = 0
child_count parent p (c ∷ cs) =
    let rest = child_count parent p cs in if points_to (parent c) p then suc rest else rest

-- Parents are classes, on higher levels than their children; each knows their number.
pub record IsForest (classes : List ℕ) (level : ℕ → ℕ) (parent : ℕ → Option ℕ) (children : ℕ → ℕ)
    : Type 0 where
  pub unique : Unique classes
  pub above :
      (c p : ℕ)
      → mem c classes ≡ true
      → parent c ≡ some p
      → (mem p classes ≡ true) × (level c < level p)
  pub bounded : (c : ℕ) → mem c classes ≡ true → level c < 8
  pub counted : (p : ℕ) → mem p classes ≡ true → children p ≡ child_count parent p classes

pub child_count_agree :
    (parent parent' : ℕ → Option ℕ) (p : ℕ) (cs : List ℕ)
    → ((c : ℕ) → mem c cs ≡ true → parent' c ≡ parent c)
    → child_count parent' p cs ≡ child_count parent p cs
unfolding child_count
child_count_agree parent parent' p [] h = refl
child_count_agree parent parent' p (c ∷ cs) h =
    rw
      (h c (rw (==_refl c) refl), child_count_agree parent parent' p cs (λ x k. h x (ground arith)))
      refl

-- The same forest by other functions.
pub IsForest-agree :
    {cs : List ℕ} {l l' : ℕ → ℕ} {f f' : ℕ → Option ℕ} {n n' : ℕ → ℕ}
    → ((c : ℕ) → (l' c ≡ l c) × ((f' c ≡ f c) × (n' c ≡ n c)))
    → IsForest cs l f n
    → IsForest cs l' f' n'
IsForest-agree {cs} {l} {l'} {f} {f'} {n} {n'} same forest = record {
  unique = forest.unique;
  above = λ c p k e.
      let (e_l, (e_f, _)) = same c in
      let (p_l, _) = same p in let up = forest.above c p k (sym e_f ∙ e) in rw (e_l, p_l) up;
  bounded = λ c k. rw ((same c).0) (forest.bounded c k);
  counted = λ p k.
      (same p).1.1 ∙ forest.counted p k ∙ sym (child_count_agree f f' p cs (λ c h. (same c).1.0));
}

-- Nobody is the child of a leaf, nor of what is no class.
pub no_children :
    (parent : ℕ → Option ℕ) (p : ℕ) (cs : List ℕ)
    → ((c : ℕ) → mem c cs ≡ true → parent c ≢ some p)
    → child_count parent p cs ≡ 0
unfolding child_count
no_children parent p [] h = refl
no_children parent p (c ∷ cs) h =
    let out : points_to (parent c) p ≡ false =
      not_parent (parent c) p (h c (rw (==_refl c) refl)) in
    rw (out) (no_children parent p cs (λ x k. h x (ground arith)))
  where
    not_parent : (o : Option ℕ) (p : ℕ) → o ≢ some p → points_to o p ≡ false
    not_parent none p h = refl
    not_parent (some x) p h = elim (Bool-cases (x == p)) [
      | inl e ↦ let x_p : x ≡ p = ground arith in absurd (h (ap some x_p))
      | inr e ↦ e
    ]

-- A class whose parent is p counts.
pub is_child :
    (parent : ℕ → Option ℕ) (p c : ℕ) (cs : List ℕ)
    → mem c cs ≡ true
    → parent c ≡ some p
    → 0 < child_count parent p cs
unfolding child_count
is_child parent p c [] k e = absurd (ground arith)
is_child parent p c (x ∷ xs) k e = elim (Bool-cases (x == c)) [
  | inl same ↦
      let x_c : x ≡ c = ground arith in
      let p_x : parent x ≡ some p = ap parent x_c ∙ e in rw (p_x, ==_refl p) (omega arith)
  | inr other ↦
      let rest = is_child parent p c xs (ground arith) e in
      if_suc (points_to (parent x) p) (child_count parent p xs) rest
]
  where
    if_suc : (b : Bool) (n : ℕ) → 0 < n → 0 < (if b then suc n else n)
    if_suc b n h = ground arith

pub without-mem :
    (c x : ℕ) (cs : List ℕ) → Unique cs → mem x (without c cs) ≡ (mem x cs && not (c == x))
without-mem c x [] u = refl
without-mem c x (y ∷ ys) (new, u) = elim (Bool-cases (y == c)) [
  | inl same ↦
      let y_c : y ≡ c = ground arith in
      let out : mem c ys ≡ false = ap (λ z. mem z ys) (sym y_c) ∙ new in
      elim (Bool-cases (c == x)) [
        | inl e ↦
            let c_x : c ≡ x = ground arith in
            let gone : mem x ys ≡ false = ap (λ z. mem z ys) (sym c_x) ∙ out in
            rw (same, e, gone) (ground arith)
        | inr e ↦ let y_x : (y == x) ≡ false = ground arith in rw (same, e, y_x) (ground arith)
      ]
  | inr other ↦ let ih = without-mem c x ys u in rw (other, ih) (ground arith)
]

pub without-Unique : (c : ℕ) (cs : List ℕ) → Unique cs → Unique (without c cs)
without-Unique c [] u = tt
without-Unique c (y ∷ ys) (new, u) = elim (Bool-cases (y == c)) [
  | inl same ↦ rw (same) u
  | inr other ↦ rw (other) (rw (without-mem c y ys u, new) refl, without-Unique c ys u)
]

-- A class that is taken out was one child of its parent.
pub child_count-without :
    (parent : ℕ → Option ℕ) (p c : ℕ) (cs : List ℕ)
    → mem c cs ≡ true
    → child_count parent p cs ≡ (
        if points_to (parent c) p
        then suc (child_count parent p (without c cs))
        else child_count parent p (without c cs))
unfolding child_count
child_count-without parent p c [] k = absurd (ground arith)
child_count-without parent p c (x ∷ xs) k = elim (Bool-cases (x == c)) [
  | inl same ↦ let x_c : x ≡ c = ground arith in rw (same, ap parent x_c) refl
  | inr other ↦
      let ih = child_count-without parent p c xs (ground arith) in rw (other, ih) (ground arith)
]
