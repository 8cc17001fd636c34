-- ===== src/Htb/Growth.antt =====
-- sch_htb.c: a forest of classes stays one where a leaf becomes an inner class, a class is added or
-- taken out, and where a parent becomes a leaf again.
use virtual_time_kernel.Base.{
  ℕ, suc, ◌-◌, ◌≡◌, ◌≢◌, ◌<◌, sym, refl, ap, ◌∙◌, arith, true, false, ◌==◌, ==_refl, if◌then◌else◌,
  List, ◌∷◌, Option, none, some, update, update_self, update_ne, Bool-cases, inl, inr, ◌⊎◌,
}
use virtual_time_kernel.Htb.Tree.{mem, without}
use virtual_time_kernel.Htb.Feeds.{points_to}
use virtual_time_kernel.Htb.Forest.{
  IsForest, child_count, child_count_agree, no_children, is_child, without-mem, without-Unique,
  child_count-without,
}

-- A decision on two numbers.
abbrev pub SameOrOther : ℕ → ℕ → Type 0
SameOrOther a b = (a ≡ b) ⊎ (a ≢ b)

pub same_or_other : (a b : ℕ) → SameOrOther a b
same_or_other a b = elim (Bool-cases (a == b)) [
  | inl e ↦ inl (ground arith)
  | inr e ↦ inr (λ a_b. let self = ==_refl a in ground arith)
]

module _ {cs : List ℕ} {l : ℕ → ℕ} {f : ℕ → Option ℕ} {n : ℕ → ℕ} (forest : IsForest cs l f n) where
  pub raised-IsForest :
      (p v : ℕ)
      → l p ≡ 0
      → 0 < v
      → v < 8
      → ((g : ℕ) → f p ≡ some g → v < l g)
      → IsForest cs (update l p v) f n
  raised-IsForest p v low pos small below = record {
    unique = forest.unique;
    above = λ c q k e.
        let (q_in, up) = forest.above c q k e in
        let p_q : p ≢ q = λ p_q. let zero_q : l q ≡ 0 = ap l (sym p_q) ∙ low in omega arith in
        (
          q_in,
          rw (update_ne l p v q p_q) (elim (same_or_other p c) [
            | inl p_c ↦
                rw (ap (update l p v) (sym p_c) ∙ update_self l p v) (below q (ap f p_c ∙ e))
            | inr p_c ↦ rw (update_ne l p v c p_c) up
          ]),
        );
    bounded = λ c k. elim (same_or_other p c) [
      | inl p_c ↦ rw (ap (update l p v) (sym p_c) ∙ update_self l p v) small
      | inr p_c ↦ rw (update_ne l p v c p_c) (forest.bounded c k)
    ];
    counted = forest.counted;
  }

  pub lowered-IsForest : (p : ℕ) → mem p cs ≡ true → n p ≡ 0 → IsForest cs (update l p 0) f n
  lowered-IsForest p p_in alone = record {
    unique = forest.unique;
    above = λ c q k e.
        let (q_in, up) = forest.above c q k e in
        let p_q : p ≢ q = λ p_q.
          let one = is_child f p c cs k (e ∙ ap some (sym p_q)) in
          let all = forest.counted p p_in in omega arith in
        (
          q_in,
          rw (update_ne l p 0 q p_q) (elim (same_or_other p c) [
            | inl p_c ↦ rw (ap (update l p 0) (sym p_c) ∙ update_self l p 0) (omega arith)
            | inr p_c ↦ rw (update_ne l p 0 c p_c) up
          ]),
        );
    bounded = λ c k. elim (same_or_other p c) [
      | inl p_c ↦ rw (ap (update l p 0) (sym p_c) ∙ update_self l p 0) (omega arith)
      | inr p_c ↦ rw (update_ne l p 0 c p_c) (forest.bounded c k)
    ];
    counted = forest.counted;
  }

  -- The class c goes below `o`.
  pub added-IsForest :
      (c : ℕ) (o : Option ℕ) (l' : ℕ → ℕ) (f' : ℕ → Option ℕ) (n' : ℕ → ℕ)
      → mem c cs ≡ false
      → ((p : ℕ) → o ≡ some p → (mem p cs ≡ true) × (0 < l p))
      → l' c ≡ 0
      → f' c ≡ o
      → n' c ≡ 0
      → ((x : ℕ)
          → c ≢ x
          → (l' x ≡ l x) × ((f' x ≡ f x) × (n' x ≡ (if points_to o x then suc (n x) else n x))))
      → IsForest (c ∷ cs) l' f' n'
  unfolding child_count
  added-IsForest c o l' f' n' new parent l_c f_c n_c old =
      let other : (x : ℕ) → mem x cs ≡ true → c ≢ x = λ x k c_x.
        let out : mem x cs ≡ false = ap (λ z. mem z cs) (sym c_x) ∙ new in ground arith in
      let in_new : (x : ℕ) → mem x cs ≡ true → mem x (c ∷ cs) ≡ true = λ x k. ground arith in
      record {
        unique = (new, forest.unique);
        above = λ x p k e. elim (same_or_other c x) [
          | inl c_x ↦
              let (p_in, high) = parent p (sym f_c ∙ (ap f' c_x ∙ e)) in
              let l_x : l' x ≡ 0 = ap l' (sym c_x) ∙ l_c in
              let l_p : l' p ≡ l p = (old p (other p p_in)).0 in (in_new p p_in, omega arith)
          | inr c_x ↦
              let x_in : mem x cs ≡ true = let ne = unequal c x c_x in ground arith in
              let (l_x, (f_x, _)) = old x c_x in
              let (p_in, up) = forest.above x p x_in (sym f_x ∙ e) in
              let l_p : l' p ≡ l p = (old p (other p p_in)).0 in (in_new p p_in, omega arith)
        ];
        bounded = λ x k. elim (same_or_other c x) [
          | inl c_x ↦ let l_x : l' x ≡ 0 = ap l' (sym c_x) ∙ l_c in omega arith
          | inr c_x ↦
              let x_in : mem x cs ≡ true = let ne = unequal c x c_x in ground arith in
              let small = forest.bounded x x_in in let l_x = (old x c_x).0 in omega arith
        ];
        counted = λ p k.
            let as_before : child_count f' p cs ≡ child_count f p cs =
              child_count_agree f f' p cs (λ x h. (old x (other x h)).1.0) in
            elim (same_or_other c p) [
              | inl c_p ↦
                  let none_below : child_count f c cs ≡ 0 =
                    no_children f c cs
                      (λ x h e. let c_in = (forest.above x c h e).0 in absurd (ground arith)) in
                  let zero_n : n' p ≡ 0 = ap n' (sym c_p) ∙ n_c in
                  let no_old : child_count f p cs ≡ 0 =
                    ap (λ z. child_count f z cs) (sym c_p) ∙ none_below in
                  let not_own : points_to o p ≡ false = points_elsewhere o p (λ e.
                    let p_in = (parent p e).0 in
                    let p_out : mem p cs ≡ false = ap (λ z. mem z cs) (sym c_p) ∙ new in
                    ground arith) in
                  rw (zero_n, f_c, not_own, as_before, no_old) refl
              | inr c_p ↦
                  let p_in : mem p cs ≡ true = let ne = unequal c p c_p in ground arith in
                  let known = forest.counted p p_in in
                  let (_, (_, n_p)) = old p c_p in rw (n_p, f_c, as_before, known) refl
            ];
      }
    where
      unequal : (a b : ℕ) → a ≢ b → (a == b) ≡ false
      unequal a b h = ground arith

      points_elsewhere : (o : Option ℕ) (p : ℕ) → (o ≡ some p → ⊥) → points_to o p ≡ false
      points_elsewhere none p h = refl
      points_elsewhere (some x) p h = elim (Bool-cases (x == p)) [
        | inl e ↦ let x_p : x ≡ p = ground arith in absurd (h (ap some x_p))
        | inr e ↦ e
      ]

  -- The class c, which has no children, is taken out.
  pub removed-IsForest :
      (c : ℕ) (n' : ℕ → ℕ)
      → mem c cs ≡ true
      → n c ≡ 0
      → ((x : ℕ) → n' x ≡ (if points_to (f c) x then n x - 1 else n x))
      → IsForest (without c cs) l f n'
  removed-IsForest c n' c_in alone n_x =
      let stays : (x : ℕ) → mem x (without c cs) ≡ true → mem x cs ≡ true =
        λ x k. let e = without-mem c x cs forest.unique in ground arith in
      record {
        unique = without-Unique c cs forest.unique;
        above = λ x p k e.
            let (p_in, up) = forest.above x p (stays x k) e in
            let p_c : (c == p) ≡ false = elim (Bool-cases (c == p)) [
              | inl same ↦
                  let c_p : c ≡ p = ground arith in
                  let one = is_child f c x cs (stays x k) (e ∙ ap some (sym c_p)) in
                  let all = forest.counted c c_in in absurd (omega arith)
              | inr other ↦ other
            ] in
            (rw (without-mem c p cs forest.unique, p_in, p_c) refl, up);
        bounded = λ x k. forest.bounded x (stays x k);
        counted = λ p k.
            let known = forest.counted p (stays p k) in
            let split = child_count-without f p c cs c_in in
            let own = n_x p in
            elim (Bool-cases (points_to (f c) p)) [
              | inl e ↦
                  let a : n' p ≡ n p - 1 = rw (e) at own in
                  let b : child_count f p cs ≡ suc (child_count f p (without c cs)) =
                    rw (e) at split in
                  omega arith
              | inr e ↦
                  let a : n' p ≡ n p = rw (e) at own in
                  let b : child_count f p cs ≡ child_count f p (without c cs) = rw (e) at split in
                  omega arith
            ];
      }
