-- ===== src/Htb/Clocks.antt =====
-- sch_htb.c: what the event queues depend on, through a change of mode.
use virtual_time_kernel.Base.{
  ℕ, ◌≡◌, refl, ap, ◌∙◌, arith, Bool, true, ◌==◌, List, ◌∷◌, Bool-cases, inl, inr, ==_refl, update,
  update_self,
}
use virtual_time_kernel.Base.Int.{ℤ}
use virtual_time_kernel.Htb.{HtbClass, HtbSched, set_class}
use virtual_time_kernel.Htb.Tree.{Rb, to_list, mem, RbTree}
use virtual_time_kernel.Htb.Wait.{keys, waiting}
use virtual_time_kernel.Htb.Feeds.{htb_change_class_mode, htb_safe_rb_erase}
use virtual_time_kernel.Htb.Charge.{since_checkpoint}
use virtual_time_kernel.Htb.Blind.{IsBlind, htb_change_class_mode-blind}
use virtual_time_kernel.Htb.Due.{Timing, timing}
use virtual_time_kernel.Htb.Queue.{timings}

-- What the queues of events depend on.
abbrev pub Clocks : Type 0
Clocks = (ℕ → ℤ) × (ℕ → Timing) × ℤ × (ℕ → Rb) × Bool

abbrev pub clocks : HtbSched → Clocks
clocks q = (keys q, timings q, q.now, q.wait_pq, q.warned)

pub set_class-clocks :
    (q : HtbSched) (c : ℕ) (cl : HtbClass)
    → cl.pq_key ≡ (q.classes c).pq_key
    → timing cl ≡ timing (q.classes c)
    → clocks (set_class q c cl) ≡ clocks q
set_class-clocks q c cl e f i = (λ d. key d i, λ d. tm d i, q.now, q.wait_pq, q.warned)
  where
    key : (d : ℕ) → keys (set_class q c cl) d ≡ keys q d
    key d = elim (Bool-cases (c == d)) [
      | inl same ↦ let c_d : c ≡ d = ground arith in rw (same, keys) (e ∙ ap (keys q) c_d)
      | inr other ↦ rw (other, keys) refl
    ]

    tm : (d : ℕ) → timings (set_class q c cl) d ≡ timings q d
    tm d = elim (Bool-cases (c == d)) [
      | inl same ↦ let c_d : c ≡ d = ground arith in rw (same) (f ∙ ap (timings q) c_d)
      | inr other ↦ rw (other) refl
    ]

pub clocks-IsBlind : IsBlind clocks
clocks-IsBlind = record {
  to_rows = λ q h. refl;
  to_masks = λ q m. refl;
  to_drops = λ q l. refl;
  to_feeds = λ q c f. set_class-clocks q c _ refl refl;
  to_activity = λ q c mask. set_class-clocks q c _ refl refl;
}

-- A class that is taken out of the event queue and changes its mode.
module _ (rb : RbTree) (prios : List ℕ) (hysteresis : Bool) where
  -- The queue without its first class.
  abbrev pub popped : HtbSched → ℕ → ℕ → HtbSched
  popped q l c = record q { wait_pq = update q.wait_pq l (htb_safe_rb_erase rb c (q.wait_pq l)) }

  abbrev pub changed : HtbSched → ℕ → ℕ → HtbSched × ℤ
  changed q l c =
      htb_change_class_mode rb prios hysteresis (popped q l c) c (since_checkpoint q (q.classes c))

  pub changed-clocks : (q : HtbSched) (l c : ℕ) → clocks (changed q l c).0 ≡ clocks (popped q l c)
  changed-clocks q l c =
      htb_change_class_mode-blind rb prios clocks clocks-IsBlind hysteresis (popped q l c) c _
        (λ r mode. set_class-clocks r c _ refl refl)

  pub popped-waiting :
      (q : HtbSched) (l c : ℕ) (cs : List ℕ) → waiting q l ≡ c ∷ cs → waiting (popped q l c) l ≡ cs
  popped-waiting q l c cs e =
      let known : mem c (waiting q l) ≡ true = rw (e, ==_refl c) refl in
      rw (update_self q.wait_pq l _, known, rb.rb_erase-order, e, ==_refl c) refl

  pub changed-waiting :
      (q : HtbSched) (l c : ℕ) (cs : List ℕ)
      → waiting q l ≡ c ∷ cs
      → waiting (changed q l c).0 l ≡ cs
  changed-waiting q l c cs e =
      ap (λ (v : Clocks). to_list (v.3 l)) (changed-clocks q l c) ∙ popped-waiting q l c cs e
