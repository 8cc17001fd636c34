-- ===== src/Htb/Events.antt =====
-- sch_htb.c: the event queue of a level through htb_do_events.
use virtual_time_kernel.Base.{
  ℕ, zero, suc, ◌<◌, ◌≡◌, refl, sym, ap, ◌∙◌, arith, Bool, true, false, not, ◌==◌, if_both, List,
  [], ◌∷◌, Bool-cases, inl, inr, ==_refl,
}
use mathlib.Core.Path.{subst}
use virtual_time_kernel.Base.Int.{ℤ, pos, ◌≤ℤ◌, ◌<ℤ◌, ltb_ℤ}
use virtual_time_kernel.Math64.{Math64}
use virtual_time_kernel.Psched.{LinkLayer}
use virtual_time_kernel.Htb.{HtbSched}
use virtual_time_kernel.Htb.Tree.{to_list, mem, RbTree, Sorted}
use virtual_time_kernel.Htb.Tokens.{htb_class_mode}
use virtual_time_kernel.Htb.Wait.{htb_add_to_wait_tree, keys, waiting, IsTime}
use virtual_time_kernel.Htb.Feeds.{htb_change_class_mode, same_mode, any_bit}
use virtual_time_kernel.Htb.Charge.{since_checkpoint, apply_event, htb_do_events}
use virtual_time_kernel.Htb.Delivered.{List-cases}
use virtual_time_kernel.Htb.Due.{count, IsTimely, since_checkpoint-bounds, htb_class_mode-wait}
use virtual_time_kernel.Htb.Clocks.{
  Clocks, popped, changed, changed-clocks, popped-waiting, changed-waiting,
}
use virtual_time_kernel.Htb.Moves.{Moves, Moves-refl, Moves-trans, apply_event-Moves}
use virtual_time_kernel.Htb.Queue.{
  timings, IsQueueOf, IsQueue, is_due, due, join-IsQueue, tail-IsQueueOf, head-out,
}

-- A turn of htb_do_events: n events are left that are due.
pub record Advances (q q' : HtbSched) (l n : ℕ) : Type 0 where
  pub queue : IsQueue q' l
  pub left : due q' l ≡ n
  pub same_now : q'.now ≡ q.now
  pub same_warned : q'.warned ≡ q.warned

module _ (rb : RbTree) where
  again-Advances :
      (q q' : HtbSched) (c n : ℕ) (delay : ℤ)
      → IsTimely q'.now (timings q' c)
      → (pos 0 ≤ℤ delay) × IsTime delay
      → let l = (q'.classes c).level in
        mem c (waiting q' l) ≡ false
        → Advances q q' l n
        → Advances q (htb_add_to_wait_tree rb q' c delay) l n
  unfolding htb_add_to_wait_tree
  again-Advances q q' c n delay timely d out h =
      let joined = join-IsQueue rb q' c delay out timely d h.queue in
      let l = (q'.classes c).level in
      record {
        queue = joined.0;
        left = joined.1 ∙ h.left;
        same_now = h.same_now;
        same_warned = h.same_warned;
      }

  -- The class c, which has just left the queue, waits again.
  rejoin-Advances :
      (q q' : HtbSched) (l c n : ℕ) (delay : ℤ)
      → (q'.classes c).level ≡ l
      → IsTimely q'.now (timings q' c)
      → (pos 0 ≤ℤ delay) × IsTime delay
      → mem c (waiting q' l) ≡ false
      → Advances q q' l n
      → Advances q (htb_add_to_wait_tree rb q' c delay) l n
  rejoin-Advances q q' l c n delay at timely d =
      subst
        (λ k.
          mem c (waiting q' k) ≡ false
          → Advances q q' k n
          → Advances q (htb_add_to_wait_tree rb q' c delay) k n)
        at (again-Advances q q' c n delay timely d)

  htb_change_class_mode-diff :
      (prios : List ℕ) (hysteresis : Bool) (q : HtbSched) (c : ℕ) (diff : ℤ)
      → (htb_change_class_mode rb prios hysteresis q c diff).1
        ≡ (htb_class_mode hysteresis (q.classes c) diff).1
  unfolding htb_change_class_mode
  htb_change_class_mode-diff prios hysteresis q c diff =
      let cl = q.classes c in
      elim (Bool-cases (same_mode (htb_class_mode hysteresis cl diff).0 cl.cmode)) [
        | inl e ↦ rw (e) refl
        | inr e ↦ elim (Bool-cases (any_bit prios cl.prio_activity)) [
          | inl f ↦ rw (e, f) refl
          | inr f ↦ rw (e, f) refl
        ]
      ]

module _ (m : Math64) (link : LinkLayer) (rb : RbTree) (prios : List ℕ) (hysteresis : Bool) where
  apply_event-Advances :
      (q : HtbSched) (l c : ℕ) (cs : List ℕ)
      → waiting q l ≡ c ∷ cs
      → IsQueue q l
      → Advances q (apply_event m link rb prios hysteresis q l c) l (count (is_due q) cs)
  unfolding apply_event
  apply_event-Advances q l c cs e queue =
      let q₁ = popped rb prios hysteresis q l c in
      let q₂ = (changed rb prios hysteresis q l c).0 in
      let same = changed-clocks rb prios hysteresis q l c in
      let known : mem c (waiting q l) ≡ true = rw (e, ==_refl c) refl in
      let erased = popped-waiting rb prios hysteresis q l c cs e in
      let diff = since_checkpoint q (q.classes c) in
      let whole : IsQueueOf (keys q) (timings q) q.now (c ∷ cs) l = rw (e) at queue in
      let rest : IsQueueOf (keys q) (timings q) q.now (waiting q₁ l) l =
        rw (erased) (tail-IsQueueOf (keys q) (timings q) q.now c cs l whole) in
      let timely = queue.timely c known in
      let bounds = since_checkpoint-bounds q (q.classes c) queue.now_time timely in
      let wait = htb_class_mode-wait hysteresis (q.classes c) q.now diff timely bounds.0 bounds.1 in
      let out : Advances q q₂ l (count (is_due q) cs) = record {
        queue = subst (λ (v : Clocks). IsQueueOf v.0 v.1 v.2 (to_list (v.3 l)) l) (sym same) rest;
        left =
            ap (λ (v : Clocks). count (λ x. not (ltb_ℤ v.2 (v.0 x))) (to_list (v.3 l))) same
            ∙ ap (count (is_due q)) erased;
        same_now = ap (λ (v : Clocks). v.2) same;
        same_warned = ap (λ (v : Clocks). v.4) same;
      } in
      if_both (λ r. Advances q r l (count (is_due q) cs)) _ q₂ _ out
        (rejoin-Advances rb q q₂ l c _ _
          (ap (λ (v : Clocks). (v.1 c).level) same ∙ queue.here c known)
          (subst (λ (v : Clocks). IsTimely v.2 (v.1 c)) (sym same) timely)
          (rw (htb_change_class_mode-diff rb prios hysteresis q₁ c diff) wait)
          (ap (mem c) (changed-waiting rb prios hysteresis q l c cs e)
            ∙ head-out c cs (whole.once c))
          out)

-- The time of the first event, or 0 without one.
abbrev pub Announces : HtbSched → List ℕ → ℤ → Type 0
Announces q [] next = next ≡ pos 0
Announces q (c ∷ cs) next = next ≡ keys q c

-- After the events of a level.
pub record Settled (q q' : HtbSched) (l : ℕ) (next : ℤ) : Type 0 where
  pub queue : IsQueue q' l
  pub later : (d : ℕ) → mem d (waiting q' l) ≡ true → q.now <ℤ keys q' d
  pub announced : Announces q' (waiting q' l) next
  pub same_warned : q'.warned ≡ q.warned
  pub moves : Moves q q' l

all_later :
    (key : ℕ → ℤ) (now : ℤ) (c : ℕ) (cs : List ℕ)
    → Sorted key (c ∷ cs)
    → now <ℤ key c
    → (d : ℕ) → mem d (c ∷ cs) ≡ true
    → now <ℤ key d
all_later key now c cs s first_later d m = elim (Bool-cases (c == d)) [
  | inl same ↦ let c_d : c ≡ d = ground arith in subst (λ x. now <ℤ key x) c_d first_later
  | inr other ↦ let above = s.0 d (ground arith) in omega arith
]

Settled-Advances :
    (q q₁ q' : HtbSched) (l n : ℕ) (next : ℤ)
    → Advances q q₁ l n
    → Moves q q₁ l
    → Settled q₁ q' l next
    → Settled q q' l next
Settled-Advances q q₁ q' l n next h moves k = record {
  queue = k.queue;
  later = λ d m. subst (λ t. t <ℤ keys q' d) h.same_now (k.later d m);
  announced = k.announced;
  same_warned = k.same_warned ∙ h.same_warned;
  moves = Moves-trans q q₁ q' l moves k.moves;
}

module _ (m : Math64) (link : LinkLayer) (rb : RbTree) (prios : List ℕ) (hysteresis : Bool) where
  -- A turn for each event that is due, and one more, are enough for htb_do_events to apply the events of
  -- a level. No class is left in its queue whose time has come; the classes stand in the order of their
  -- times, each once; none is new, and one that has left may send; the mode of no class outside the queue has
  -- changed; and the result is the time of the first event, or 0 without one. This holds for a queue
  -- in order, of classes of the level that were charged by now, with times and buckets of some decades
  -- at most.
  pub htb_do_events-Settled :
      (turns : ℕ) (q : HtbSched) (l : ℕ)
      → IsQueue q l
      → due q l < turns
      → let (q', next) = htb_do_events m link rb prios hysteresis turns q l in Settled q q' l next
  unfolding htb_do_events
  htb_do_events-Settled zero q l queue enough = absurd (omega arith)
  htb_do_events-Settled (suc turns) q l queue enough = elim (List-cases (waiting q l)) [
    | inl e ↦
        rw (e, htb_do_events)
          (record {
            queue = queue;
            later = λ d k. absurd (let no = rw (e) at k in ground arith);
            announced = rw (e) refl;
            same_warned = refl;
            moves = Moves-refl q l;
          })
    | inr (c, cs, e) ↦ elim (Bool-cases (ltb_ℤ q.now (keys q c))) [
      | inl f ↦
          let sorted : Sorted (keys q) (c ∷ cs) = rw (e) at queue.sorted in
          rw (e, htb_do_events, f)
            (record {
              queue = queue;
              later = λ d k. all_later (keys q) q.now c cs sorted (ground arith) d (rw (e) at k);
              announced = rw (e) refl;
              same_warned = refl;
              moves = Moves-refl q l;
            })
      | inr f ↦
          let q₁ = apply_event m link rb prios hysteresis q l c in
          let turn = apply_event-Advances m link rb prios hysteresis q l c cs e queue in
          let at = queue.here c (rw (e, ==_refl c) refl) in
          let fewer : due q₁ l < turns =
            let all = rw (e, f) at enough in let left = turn.left in omega arith in
          rw (e, htb_do_events, f)
            (Settled-Advances q q₁ _ l _ _ turn
              (apply_event-Moves m link rb prios hysteresis q l c cs e at)
              (htb_do_events-Settled turns q₁ l turn.queue fewer))
    ]
  ]
