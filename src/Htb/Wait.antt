-- ===== src/Htb/Wait.antt =====
-- sch_htb.c: the event queues, in which the classes of a level wait for a change of mode.
use virtual_time_kernel.Base.{
  ℕ, ◌+◌, ◌^◌, ◌≤◌, ◌≡◌, ◌≢◌, sym, ap, ◌∙◌, arith, Bool, true, false, ◌||◌, ◌==◌, not,
  if◌then◌else◌, List, [], ◌∷◌, Bool-cases, inl, inr, update, update_self, update_ne, ==_refl,
}
use virtual_time_kernel.Base.Int.{
  ℤ, pos, pos_part, neg_part, ◌+ℤ◌, ◌≤ℤ◌, ◌<ℤ◌, ltb_ℤ, eqb_ℤ, int_laws,
}
use virtual_time_kernel.Base.Word.{s64, s64_id}
use virtual_time_kernel.Htb.{HtbClass, HtbSched, set_class}
use virtual_time_kernel.Htb.Tree.{
  Rb, nil, fork, to_list, mem, link, link-mem, RbTree, Sorted, Sorted-join, Sorted-split,
}

-- cl->pq_key of a class that is added now.
abbrev pub event_key : ℤ → ℤ → ℤ
event_key now delay =
    let key = s64 (now +ℤ delay) in if eqb_ℤ key now then s64 (key +ℤ pos 1) else key

module _ (rb : RbTree) where
  open rb use {rb_insert_color}

  unfoldable pub htb_add_to_wait_tree : HtbSched → ℕ → ℤ → HtbSched
  htb_add_to_wait_tree q c delay =
      let cl = q.classes c in
      let key = event_key q.now delay in
      let near = q.near_ev_cache cl.level in
      let q₁ = set_class q c (record cl { pq_key = key }) in
      record q₁ {
        near_ev_cache = update q.near_ev_cache cl.level (if ltb_ℤ key near then key else near);
        wait_pq = update q.wait_pq cl.level (
            rb_insert_color c
              (link (λ d. not (ltb_ℤ key (q₁.classes d).pq_key)) c (q.wait_pq cl.level)));
      }

link-Sorted :
    (key : ℕ → ℤ) (c : ℕ) (t : Rb)
    → Sorted key (to_list t)
    → Sorted key (to_list (link (λ d. not (ltb_ℤ (key c) (key d))) c t))
unfolding link
link-Sorted key c nil s = (λ y h. absurd (ground arith), tt)
link-Sorted key c (fork l d r) s =
    let right : ℕ → Bool = λ d. not (ltb_ℤ (key c) (key d)) in
    let (sl, sr, below) = Sorted-split key (to_list l) d (to_list r) s in
    elim (Bool-cases (ltb_ℤ (key c) (key d))) [
      | inl less ↦ rw less (
          Sorted-join key (to_list (link right c l)) d (to_list r) (link-Sorted key c l sl) sr
            (λ x h. elim (Bool-cases (c == x)) [
              | inl same ↦
                  let c_x : c ≡ x = ground arith in
                  let keys : key c ≡ key x = ap key c_x in rw (sym keys) (ground arith)
              | inr other ↦ let m = sym (link-mem right c l x) ∙ h in below x (ground arith)
            ]))
      | inr more ↦ rw more (
          Sorted-join key (to_list l) d (to_list (link right c r)) sl
            (
              λ x h. elim (Bool-cases (c == x)) [
                | inl same ↦
                    let c_x : c ≡ x = ground arith in
                    let keys : key c ≡ key x = ap key c_x in rw (sym keys) (ground arith)
                | inr other ↦ let m = sym (link-mem right c r x) ∙ h in sr.0 x (ground arith)
              ],
              link-Sorted key c r sr.1,
            )
            below)
    ]

link_at-Sorted :
    (key : ℕ → ℤ) (c : ℕ) (v : ℤ) (t : Rb)
    → key c ≡ v
    → Sorted key (to_list t)
    → Sorted key (to_list (link (λ d. not (ltb_ℤ v (key d))) c t))
link_at-Sorted key c v t e s = rw (sym e) (link-Sorted key c t s)

-- Sorting looks at the keys of the members alone.
pub Sorted-agree :
    (key key' : ℕ → ℤ) (xs : List ℕ)
    → ((x : ℕ) → mem x xs ≡ true → key x ≡ key' x)
    → Sorted key xs
    → Sorted key' xs
Sorted-agree key key' [] same s = tt
Sorted-agree key key' (x ∷ xs) same s =
    let head : key x ≡ key' x = same x (let e = ==_refl x in ground arith) in
    (
      λ y h. let tail : key y ≡ key' y = same y (ground arith) in rw (sym head, sym tail) (s.0 y h),
      Sorted-agree key key' xs (λ y h. same y (ground arith)) s.1,
    )

abbrev pub keys : HtbSched → ℕ → ℤ
keys q c = (q.classes c).pq_key

-- The classes that wait at a level, the one with the earliest event first.
abbrev pub waiting : HtbSched → ℕ → List ℕ
waiting q l = to_list (q.wait_pq l)

abbrev pub IsTime : ℤ → Type 0
IsTime z = (pos_part z ≤ 2 ^ 61) × (neg_part z ≤ 2 ^ 61)

pub event_key_later :
    (now delay : ℤ) → IsTime now → IsTime delay → pos 0 ≤ℤ delay → now <ℤ event_key now delay
event_key_later now delay n d h =
    let sum : s64 (now +ℤ delay) ≡ now +ℤ delay = s64_id _ (omega int_laws) (omega int_laws) in
    let one : s64 ((now +ℤ delay) +ℤ pos 1) ≡ (now +ℤ delay) +ℤ pos 1 =
      s64_id _ (omega int_laws) (omega int_laws) in
    rw (sum, one)
      (elim (Bool-cases (eqb_ℤ (now +ℤ delay) now)) [
        | inl e ↦ let same : (now +ℤ delay) ≡ now = ground arith in rw e (omega int_laws)
        | inr e ↦
            let other : pos_part (now +ℤ delay) + neg_part now
                ≢ pos_part now + neg_part (now +ℤ delay) =
              ground arith in
            rw e (omega int_laws)
      ])

module _ (rb : RbTree) where
  -- A class that is added to the event queue of its level, in which it does not stand, waits for a
  -- time after now; the queue stays in the order of the times, it holds the classes that it held and
  -- this one, and the cached next event is no later than the class's.
  pub htb_add_to_wait_tree_lem :
      (q : HtbSched) (c : ℕ) (delay : ℤ)
      → IsTime q.now
      → IsTime delay
      → pos 0 ≤ℤ delay
      → Sorted (keys q) (waiting q (q.classes c).level)
      → mem c (waiting q (q.classes c).level) ≡ false
      → let l = (q.classes c).level in
        let q' = htb_add_to_wait_tree rb q c delay in
        (q.now <ℤ keys q' c)
        × Sorted (keys q') (waiting q' l)
        × ((d : ℕ) → mem d (waiting q' l) ≡ (c == d || mem d (waiting q l)))
        × (q'.near_ev_cache l ≤ℤ keys q' c)
  unfolding htb_add_to_wait_tree
  htb_add_to_wait_tree_lem q c delay n d h sorted out =
      let cl : HtbClass = q.classes c in
      let key : ℤ = event_key q.now delay in
      let q₁ : HtbSched = set_class q c (record cl { pq_key = key }) in
      let near : ℤ = q.near_ev_cache cl.level in
      let self : q₁.classes c ≡ record cl { pq_key = key } = update_self q.classes c _ in
      let own : keys q₁ c ≡ key = ap (λ (x : HtbClass). x.pq_key) self in
      let others : (x : ℕ) → mem x (waiting q cl.level) ≡ true → keys q x ≡ keys q₁ x = λ x m.
        ap (λ (y : HtbClass). y.pq_key)
          (sym (
            update_ne q.classes c _ x (λ e.
              let moved : mem c (waiting q cl.level) ≡ true =
                ap (λ (y : ℕ). mem y (waiting q cl.level)) e ∙ m in
              absurd (ground arith)))) in
      let before = Sorted-agree (keys q) (keys q₁) (waiting q cl.level) others sorted in
      let after = link_at-Sorted (keys q₁) c key (q.wait_pq cl.level) own before in
      let cut : (if ltb_ℤ key near then key else near) ≤ℤ key = ground arith in
      (
        rw own (event_key_later q.now delay n d h),
        rw (update_self q.wait_pq cl.level _, rb.rb_insert_color-order) after,
        λ x.
            rw (update_self q.wait_pq cl.level _, rb.rb_insert_color-order)
              (link-mem _ c (q.wait_pq cl.level) x),
        rw (own, update_self q.near_ev_cache cl.level _) cut,
      )
