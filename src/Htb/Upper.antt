-- ===== src/Htb/Upper.antt =====
-- The class with the least classid from an id on.
use virtual_time_kernel.Base.{
  ℕ, ◌≤◌, ◌<◌, ◌≡◌, ◌⊎◌, sym, refl, ap, ◌∙◌, arith, true, false, ◌||◌, ltb, ◌==◌, ◌∷◌, ◌++◌, Option,
  none, some, Bool-cases, inl, inr, ==_refl,
}
use virtual_time_kernel.Base.Int.{pos}
use virtual_time_kernel.Htb.Tree.{Rb, nil, fork, to_list, mem, mem-++, Sorted, Sorted-split}
use virtual_time_kernel.Htb.Lookup.{find_next_upper, htb_id_find_next_upper}

module _ (key : ℕ → ℕ) where
  abbrev pub AllBelow : ℕ → Rb → Type 0
  AllBelow id t = (d : ℕ) → mem d (to_list t) ≡ true → key d < id

  -- c is in the tree, and no class from the id on comes before it.
  abbrev pub IsNextUpper : ℕ → Rb → ℕ → Type 0
  IsNextUpper id t c =
      (mem c (to_list t) ≡ true)
      × (id ≤ key c)
      × ((d : ℕ) → mem d (to_list t) ≡ true → id ≤ key d → key c ≤ key d)

  abbrev Result : ℕ → Rb → Option ℕ → Option ℕ → Type 0
  Result id t r o = ((o ≡ r) × AllBelow id t) ⊎ ((c : ℕ) × (o ≡ some c) × IsNextUpper id t c)

  find_next_upper-Result :
      (t : Rb) (id : ℕ) (r : Option ℕ)
      → Sorted (λ c. pos (key c)) (to_list t)
      → Result id t r (find_next_upper key t id r)
  unfolding find_next_upper
  find_next_upper-Result nil id r s = inl (refl, λ d h. absurd (ground arith))
  find_next_upper-Result (fork a c b) id r s =
      let (sa, sb, below) = Sorted-split (λ x. pos (key x)) (to_list a) c (to_list b) s in
      let inside : (d : ℕ)
          → mem d (to_list a ++ (c ∷ to_list b)) ≡ true
          → (mem d (to_list a) || (c == d || mem d (to_list b))) ≡ true =
        λ d h. sym (mem-++ d (to_list a) (c ∷ to_list b)) ∙ h in
      let c_in : mem c (to_list a ++ (c ∷ to_list b)) ≡ true =
        mem-++ c (to_list a) (c ∷ to_list b) ∙ (let e = ==_refl c in ground arith) in
      elim (Bool-cases (ltb (key c) id)) [
        | inl low ↦
            rw (low, find_next_upper)
              (elim (find_next_upper-Result b id r sb.1) [
                | inl (e, under) ↦ inl (
                  e,
                  λ d h.
                      let w = inside d h in
                      elim (Bool-cases (mem d (to_list b))) [
                        | inl in_b ↦ under d in_b
                        | inr not_b ↦ elim (Bool-cases (c == d)) [
                          | inl same ↦
                              let c_d : c ≡ d = ground arith in
                              let keys : key c ≡ key d = ap key c_d in ground arith
                          | inr other ↦ let k = below d (ground arith) in ground arith
                        ]
                      ],
                )
                | inr (x, e, next) ↦
                    let (x_in, up, least) = next in
                    inr (
                      x,
                      e,
                      (
                        mem-++ x (to_list a) (c ∷ to_list b) ∙ (ground arith),
                        up,
                        λ d h over.
                            let w = inside d h in
                            elim (Bool-cases (mem d (to_list b))) [
                              | inl in_b ↦ least d in_b over
                              | inr not_b ↦ elim (Bool-cases (c == d)) [
                                | inl same ↦
                                    let c_d : c ≡ d = ground arith in
                                    let keys : key c ≡ key d = ap key c_d in absurd (ground arith)
                                | inr other ↦
                                    let k = below d (ground arith) in absurd (ground arith)
                              ]
                            ],
                      ),
                    )
              ])
        | inr not_low ↦
            let here : (d : ℕ)
                → mem d (to_list a) ≡ false
                → mem d (to_list a ++ (c ∷ to_list b)) ≡ true
                → key c ≤ key d =
              λ d out h.
                let w = inside d h in
                elim (Bool-cases (c == d)) [
                  | inl same ↦
                      let c_d : c ≡ d = ground arith in
                      let keys : key c ≡ key d = ap key c_d in ground arith
                  | inr other ↦ let k = sb.0 d (ground arith) in ground arith
                ] in
            elim (Bool-cases (ltb id (key c))) [
              | inl high ↦
                  rw (not_low, high, find_next_upper)
                    (elim (find_next_upper-Result a id (some c) sa) [
                      | inl (e, under) ↦ inr (
                        c,
                        e,
                        (
                          c_in,
                          ground arith,
                          λ d h over. elim (Bool-cases (mem d (to_list a))) [
                            | inl in_a ↦ let k = under d in_a in absurd (ground arith)
                            | inr out ↦ here d out h
                          ],
                        ),
                      )
                      | inr (x, e, next) ↦
                          let (x_in, up, least) = next in
                          inr (
                            x,
                            e,
                            (
                              mem-++ x (to_list a) (c ∷ to_list b) ∙ (ground arith),
                              up,
                              λ d h over. elim (Bool-cases (mem d (to_list a))) [
                                | inl in_a ↦ least d in_a over
                                | inr out ↦
                                    let k = here d out h in let x_c = below x x_in in ground arith
                              ],
                            ),
                          )
                    ])
              | inr not_high ↦
                  rw (not_low, not_high, find_next_upper)
                    (inr (c, refl, (c_in, ground arith, λ d h over. ground arith)))
            ]
      ]

  -- In a tree in the order of the classids the search gives the class with the least classid from
  -- the id on, and `none` only when all are below the id.
  pub htb_id_find_next_upper_lem :
      (t : Rb) (id : ℕ)
      → Sorted (λ c. pos (key c)) (to_list t)
      → ((htb_id_find_next_upper key t id ≡ none) × AllBelow id t)
        ⊎ ((c : ℕ) × (htb_id_find_next_upper key t id ≡ some c) × IsNextUpper id t c)
  unfolding htb_id_find_next_upper
  htb_id_find_next_upper_lem t id s = find_next_upper-Result t id none s
