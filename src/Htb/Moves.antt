-- ===== src/Htb/Moves.antt =====
-- sch_htb.c: the classes that an event takes out of the event queue.
use virtual_time_kernel.Base.{
  ◌⊎◌, ℕ, ◌≡◌, refl, sym, ap, ◌∙◌, arith, Bool, true, false, ◌==◌, ◌||◌, List, ◌∷◌, Bool-cases, inl,
  inr,
}
use mathlib.Core.Path.{subst}
use virtual_time_kernel.Math64.{Math64}
use virtual_time_kernel.Psched.{LinkLayer}
use virtual_time_kernel.Htb.{HtbClass, HtbSched, set_class}
use virtual_time_kernel.Htb.Tree.{mem, RbTree}
use virtual_time_kernel.Htb.Tokens.{is_can_send}
use virtual_time_kernel.Htb.Wait.{htb_add_to_wait_tree, waiting}
use virtual_time_kernel.Htb.Charge.{apply_event}
use virtual_time_kernel.Htb.Blind.{IsBlind, htb_change_class_mode-blind}
use virtual_time_kernel.Htb.Clocks.{Clocks, changed, changed-clocks, changed-waiting}
use virtual_time_kernel.Htb.Queue.{add-mem, add-mode}

-- Which classes leave the event queue of a level, and whose mode changes.
pub record Moves (q q' : HtbSched) (l : ℕ) : Type 0 where
  pub members : (d : ℕ) → mem d (waiting q' l) ≡ true → mem d (waiting q l) ≡ true
  pub stays :
      (d : ℕ)
      → mem d (waiting q l) ≡ true
      → (mem d (waiting q' l) ≡ true) ⊎ (is_can_send (q'.classes d).cmode ≡ true)
  pub others : (d : ℕ) → mem d (waiting q l) ≡ false → (q'.classes d).cmode ≡ (q.classes d).cmode

pub Moves-refl : (q : HtbSched) (l : ℕ) → Moves q q l
Moves-refl q l = record { members = λ d k. k; stays = λ d k. inl k; others = λ d k. refl }

out_before :
    (q q' : HtbSched) (l d : ℕ)
    → Moves q q' l
    → mem d (waiting q l) ≡ false
    → mem d (waiting q' l) ≡ false
out_before q q' l d h k = elim (Bool-cases (mem d (waiting q' l))) [
  | inl e ↦ let was = h.members d e in absurd (ground arith)
  | inr e ↦ e
]

pub Moves-trans : (q q₁ q' : HtbSched) (l : ℕ) → Moves q q₁ l → Moves q₁ q' l → Moves q q' l
Moves-trans q q₁ q' l h k = record {
  members = λ d e. h.members d (k.members d e);
  stays = λ d e. elim (Bool-cases (mem d (waiting q₁ l))) [
    | inl f ↦ k.stays d f
    | inr f ↦
        elim (h.stays d e)
          as (λ _. (mem d (waiting q' l) ≡ true) ⊎ (is_can_send (q'.classes d).cmode ≡ true)) [
            | inl g ↦ absurd (ground arith)
            | inr g ↦ inr (ap is_can_send (k.others d f) ∙ g)
          ]
  ];
  others = λ d e. k.others d (out_before q q₁ l d h e) ∙ h.others d e;
}

module _ (m : Math64) (link : LinkLayer) (rb : RbTree) (prios : List ℕ) (hysteresis : Bool) where
  mode-IsBlind : (d : ℕ) → IsBlind (λ q. (q.classes d).cmode)
  mode-IsBlind d = record {
    to_rows = λ q h. refl;
    to_masks = λ q r. refl;
    to_drops = λ q l. refl;
    to_feeds = λ q c f. kept q c d _ refl;
    to_activity = λ q c mask. kept q c d _ refl;
  }
    where
      kept :
          (q : HtbSched) (c d : ℕ) (cl : HtbClass)
          → cl.cmode ≡ (q.classes c).cmode
          → ((set_class q c cl).classes d).cmode ≡ (q.classes d).cmode
      kept q c d cl e = elim (Bool-cases (c == d)) [
        | inl same ↦
            let c_d : c ≡ d = ground arith in rw (same) (e ∙ ap (λ x. (q.classes x).cmode) c_d)
        | inr other ↦ rw (other) refl
      ]

  -- Where the class c is first in the queue.
  pub apply_event-Moves :
      (q : HtbSched) (l c : ℕ) (cs : List ℕ)
      → waiting q l ≡ c ∷ cs
      → (q.classes c).level ≡ l
      → Moves q (apply_event m link rb prios hysteresis q l c) l
  unfolding apply_event
  apply_event-Moves q l c cs e level =
      let q₂ = (changed rb prios hysteresis q l c).0 in
      let w = changed-waiting rb prios hysteresis q l c cs e in
      let added = htb_add_to_wait_tree rb q₂ c (changed rb prios hysteresis q l c).1 in
      let at : (q₂.classes c).level ≡ l =
        ap (λ (v : Clocks). (v.1 c).level) (changed-clocks rb prios hysteresis q l c) ∙ level in
      let joined : (d : ℕ) → mem d (waiting added l) ≡ (c == d || mem d (waiting q₂ l)) =
        subst (λ k. (d : ℕ) → mem d (waiting added k) ≡ (c == d || mem d (waiting q₂ k))) at
          (λ d. add-mem rb q₂ c _ d) in
      let before : (d : ℕ) → mem d (waiting q l) ≡ (c == d || mem d (waiting q₂ l)) =
        λ d. ap (mem d) e ∙ sym (ap (λ xs. c == d || mem d xs) w) in
      let modes : (d : ℕ)
          → mem d (waiting q l) ≡ false
          → (q₂.classes d).cmode ≡ (q.classes d).cmode =
        λ d k.
          let apart : (c == d) ≡ false = let b = before d in ground arith in
          htb_change_class_mode-blind rb prios (λ r. (r.classes d).cmode) (mode-IsBlind d)
            hysteresis _ c _ (λ r mode. rw (apart) refl) in
      elim (Bool-cases (is_can_send (q₂.classes c).cmode)) [
        | inl sends ↦ rw (sends) (record {
          members = λ d k. let b = before d in ground arith;
          stays = λ d k. elim (Bool-cases (c == d)) [
            | inl same ↦
                let c_d : c ≡ d = ground arith in
                inr (ap (λ x. is_can_send (q₂.classes x).cmode) (sym c_d) ∙ sends)
            | inr other ↦ let b = before d in inl (ground arith)
          ];
          others = modes;
        })
        | inr waits ↦ rw (waits) (record {
          members = λ d k. let b = before d in let j = joined d in ground arith;
          stays = λ d k. inl (let b = before d in let j = joined d in ground arith);
          others = λ d k. add-mode rb q₂ c _ d ∙ modes d k;
        })
      ]
