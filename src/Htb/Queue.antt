-- ===== src/Htb/Queue.antt =====
-- sch_htb.c: the event queue of a level, and a class that joins it or leaves it.
use virtual_time_kernel.Base.{
  ℕ, ◌≤◌, ◌≡◌, refl, sym, ap, ◌∙◌, arith, Bool, true, false, not, ltb, ◌||◌, ◌==◌, List, ◌∷◌,
  Bool-cases, inl, inr, ==_refl, update_self,
}
use mathlib.Core.Path.{subst}
use virtual_time_kernel.Base.Int.{ℤ, pos, ◌≤ℤ◌, ◌<ℤ◌, ltb_ℤ}
use virtual_time_kernel.Htb.{HtbSched}
use virtual_time_kernel.Htb.Tree.{mem, RbTree, Sorted}
use virtual_time_kernel.Htb.Wait.{
  htb_add_to_wait_tree, htb_add_to_wait_tree_lem, keys, waiting, IsTime,
}
use virtual_time_kernel.Htb.Due.{
  count, count-link, count-agree, times, mem-times, Timing, timing, IsTimely,
}

abbrev pub timings : HtbSched → ℕ → Timing
timings q c = timing (q.classes c)

-- The event queue of a level: in the order of the times, each class once, all of that level.
pub record IsQueueOf (key : ℕ → ℤ) (tm : ℕ → Timing) (now : ℤ) (xs : List ℕ) (l : ℕ) : Type 0 where
  pub sorted : Sorted key xs
  pub once : (d : ℕ) → times d xs ≤ 1
  pub here : (d : ℕ) → mem d xs ≡ true → (tm d).level ≡ l
  pub timely : (d : ℕ) → mem d xs ≡ true → IsTimely now (tm d)
  pub now_time : IsTime now

abbrev pub IsQueue : HtbSched → ℕ → Type 0
IsQueue q l = IsQueueOf (keys q) (timings q) q.now (waiting q l) l

-- The events whose time has come.
abbrev pub is_due : HtbSched → ℕ → Bool
is_due q x = not (ltb_ℤ q.now (keys q x))

abbrev pub due : HtbSched → ℕ → ℕ
due q l = count (is_due q) (waiting q l)

-- A class c that stands in no queue joins that of its level.
module _ (rb : RbTree) where
  add-timings :
      (q : HtbSched) (c : ℕ) (delay : ℤ) (d : ℕ)
      → timings (htb_add_to_wait_tree rb q c delay) d ≡ timings q d
  unfolding htb_add_to_wait_tree
  add-timings q c delay d = elim (Bool-cases (c == d)) [
    | inl same ↦ let c_d : c ≡ d = ground arith in rw (same) (ap (timings q) c_d)
    | inr other ↦ rw (other) refl
  ]

  add-keys :
      (q : HtbSched) (c : ℕ) (delay : ℤ) (d : ℕ)
      → (c == d) ≡ false
      → keys (htb_add_to_wait_tree rb q c delay) d ≡ keys q d
  unfolding htb_add_to_wait_tree
  add-keys q c delay d other = rw (other, keys) refl

  add-count :
      (p : ℕ → Bool) (q : HtbSched) (c : ℕ) (delay : ℤ)
      → count p (waiting (htb_add_to_wait_tree rb q c delay) (q.classes c).level)
        ≡ count p (c ∷ waiting q (q.classes c).level)
  unfolding htb_add_to_wait_tree
  add-count p q c delay =
      let l = (q.classes c).level in
      rw (update_self q.wait_pq l _, rb.rb_insert_color-order) (count-link p _ c (q.wait_pq l))

  pub add-mem :
      (q : HtbSched) (c : ℕ) (delay : ℤ) (d : ℕ)
      → mem d (waiting (htb_add_to_wait_tree rb q c delay) (q.classes c).level)
        ≡ (c == d || mem d (waiting q (q.classes c).level))
  add-mem q c delay d =
      let l = (q.classes c).level in
      mem-times d (waiting (htb_add_to_wait_tree rb q c delay) l)
      ∙ ap (λ n. ltb 0 n) (add-count (λ x. x == d) q c delay)
      ∙ sym (mem-times d (c ∷ waiting q l))

  pub add-mode :
      (q : HtbSched) (c : ℕ) (delay : ℤ) (d : ℕ)
      → ((htb_add_to_wait_tree rb q c delay).classes d).cmode ≡ (q.classes d).cmode
  unfolding htb_add_to_wait_tree
  add-mode q c delay d = elim (Bool-cases (c == d)) [
    | inl same ↦ let c_d : c ≡ d = ground arith in rw (same) (ap (λ x. (q.classes x).cmode) c_d)
    | inr other ↦ rw (other) refl
  ]

  add-due :
      (q : HtbSched) (c : ℕ) (delay : ℤ)
      → mem c (waiting q (q.classes c).level) ≡ false
      → q.now <ℤ keys (htb_add_to_wait_tree rb q c delay) c
      → due (htb_add_to_wait_tree rb q c delay) (q.classes c).level ≡ due q (q.classes c).level
  unfolding htb_add_to_wait_tree
  add-due q c delay out later =
      let q' = htb_add_to_wait_tree rb q c delay in
      let xs = waiting q (q.classes c).level in
      let self : is_due q' c ≡ false = ground arith in
      let others : count (is_due q') xs ≡ count (is_due q) xs =
        count-agree (is_due q') (is_due q) xs (λ x m. elim (Bool-cases (c == x)) [
          | inl same ↦
              let c_x : c ≡ x = ground arith in
              let moved : mem c xs ≡ true = ap (λ y. mem y xs) c_x ∙ m in absurd (ground arith)
          | inr other ↦ ap (λ k. not (ltb_ℤ q.now k)) (add-keys q c delay x other)
        ]) in
      let added = add-count (is_due q') q c delay in added ∙ rw (self) (omega (arith, others))

  -- What holds of the new class and of the old ones holds of those that wait now.
  pub each :
      {P : ℕ → Type 0} (c : ℕ) (xs ys : List ℕ)
      → ((d : ℕ) → mem d ys ≡ (c == d || mem d xs))
      → P c
      → ((d : ℕ) → mem d xs ≡ true → P d)
      → (d : ℕ) → mem d ys ≡ true
      → P d
  each {P} c xs ys members new old d m = elim (Bool-cases (c == d)) [
    | inl same ↦ let c_d : c ≡ d = ground arith in subst P c_d new
    | inr other ↦ let e = sym (members d) ∙ m in old d (ground arith)
  ]

  pub join-IsQueue :
      (q : HtbSched) (c : ℕ) (delay : ℤ)
      → mem c (waiting q (q.classes c).level) ≡ false
      → IsTimely q.now (timings q c)
      → (pos 0 ≤ℤ delay) × IsTime delay
      → IsQueue q (q.classes c).level
      → let q' = htb_add_to_wait_tree rb q c delay in
        let l = (q.classes c).level in
        IsQueue q' l
        × (due q' l ≡ due q l)
        × ((d : ℕ) → mem d (waiting q' l) ≡ (c == d || mem d (waiting q l)))
  unfolding htb_add_to_wait_tree
  join-IsQueue q c delay out t d queue =
      let q' = htb_add_to_wait_tree rb q c delay in
      let l = (q.classes c).level in
      let xs = waiting q l in
      let (later, sorted, members, near) =
        htb_add_to_wait_tree_lem rb q c delay queue.now_time d.1 d.0 queue.sorted out in
      (
        record {
          sorted = sorted;
          once = λ x.
              let added = add-count (λ y. y == x) q c delay in
              let before = queue.once x in
              elim (Bool-cases (c == x)) [
                | inl same ↦
                    let c_x : c ≡ x = ground arith in
                    let out_x : mem x xs ≡ false = sym (ap (λ y. mem y xs) c_x) ∙ out in
                    let none_x = sym (mem-times x xs) ∙ out_x in
                    let one = rw (same) at added in ground arith
                | inr other ↦ let same = rw (other) at added in omega arith
              ];
          here =
              each {P = λ x. (timings q' x).level ≡ l} c xs (waiting q' l) members
                (ap (λ (t : Timing). t.level) (add-timings q c delay c))
                (λ x m. ap (λ (t : Timing). t.level) (add-timings q c delay x) ∙ queue.here x m);
          timely =
              each {P = λ x. IsTimely q.now (timings q' x)} c xs (waiting q' l) members
                (rw (add-timings q c delay c) t)
                (λ x m. rw (add-timings q c delay x) (queue.timely x m));
          now_time = queue.now_time;
        },
        add-due q c delay out later,
        members,
      )

pub tail-IsQueueOf :
    (key : ℕ → ℤ) (tm : ℕ → Timing) (now : ℤ) (c : ℕ) (cs : List ℕ) (l : ℕ)
    → IsQueueOf key tm now (c ∷ cs) l
    → IsQueueOf key tm now cs l
tail-IsQueueOf key tm now c cs l h = record {
  sorted = h.sorted.1;
  once = λ d. let o = h.once d in omega arith;
  here = λ d m. h.here d (rw (m) (ground arith));
  timely = λ d m. h.timely d (rw (m) (ground arith));
  now_time = h.now_time;
}

pub head-out : (c : ℕ) (cs : List ℕ) → times c (c ∷ cs) ≤ 1 → mem c cs ≡ false
head-out c cs o = let own = rw (==_refl c) at o in let e = mem-times c cs in ground arith
