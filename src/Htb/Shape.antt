-- ===== src/Htb/Shape.antt =====
-- sch_htb.c: what packets leave of the classes as it is: their identifiers, their places in the
-- hierarchy and the numbers of their children.
use virtual_time_kernel.Base.{
  ℕ, ◌≡◌, refl, ap, ◌∙◌, Bool, ◌==◌, if◌then◌else◌, if_both, List, Bool-cases, inl, inr, arith,
}
use virtual_time_kernel.Base.Int.{ℤ}
use virtual_time_kernel.Htb.{HtbClass, HtbSched, set_class}
use virtual_time_kernel.Htb.Tree.{RbTree}
use virtual_time_kernel.Htb.Wait.{htb_add_to_wait_tree}
use virtual_time_kernel.Htb.Feeds.{htb_change_class_mode, htb_activate, htb_deactivate}
use virtual_time_kernel.Htb.Blind.{
  IsBlind, htb_activate-blind, htb_deactivate-blind, htb_change_class_mode-blind,
}

abbrev pub shape : HtbClass → ℕ × (List ℕ × (ℕ × ℕ))
shape cl = (cl.level, (cl.ancestors, (cl.classid, cl.children)))

-- A record, so that its two schedulers are read off it.
pub record Kept (q q' : HtbSched) : Type 0 where
  pub kept : (c : ℕ) → shape (q'.classes c) ≡ shape (q.classes c)

pub Kept-refl : (q : HtbSched) → Kept q q
Kept-refl q = record { kept = λ c. refl }

-- The same classes.
pub same_classes : {q q' : HtbSched} → q'.classes ≡ q.classes → Kept q q'
same_classes e = record { kept = λ c. ap (λ f. shape (f c)) e }

pub Kept-trans : {q q₁ q₂ : HtbSched} → Kept q q₁ → Kept q₁ q₂ → Kept q q₂
Kept-trans h k = record { kept = λ c. k.kept c ∙ h.kept c }

pub set_class-Kept :
    (q : HtbSched) (c : ℕ) (cl : HtbClass)
    → shape cl ≡ shape (q.classes c)
    → Kept q (set_class q c cl)
set_class-Kept q c cl h = record {
  kept = λ d. elim (Bool-cases (c == d)) [
    | inl same ↦ let c_d : c ≡ d = ground arith in rw (same) (h ∙ ap (λ x. shape (q.classes x)) c_d)
    | inr other ↦ rw (other) refl
  ];
}

-- Either branch of a test.
pub either-Kept :
    (q : HtbSched) (b : Bool) (q₁ q₂ : HtbSched)
    → Kept q q₁
    → Kept q q₂
    → Kept q (if b then q₁ else q₂)
either-Kept q b q₁ q₂ h k = if_both (Kept q) b q₁ q₂ h k

abbrev shapes : HtbSched → ℕ → ℕ × (List ℕ × (ℕ × ℕ))
shapes q c = shape (q.classes c)

from_Kept : {q q' : HtbSched} → Kept q q' → shapes q' ≡ shapes q
from_Kept h i c = h.kept c i

to_Kept : {q q' : HtbSched} → shapes q' ≡ shapes q → Kept q q'
to_Kept e = record { kept = λ c. ap (λ f. f c) e }

shapes-IsBlind : IsBlind shapes
shapes-IsBlind = record {
  to_rows = λ q h. refl;
  to_masks = λ q m. refl;
  to_drops = λ q l. refl;
  to_feeds = λ q c f. from_Kept (set_class-Kept q c _ refl);
  to_activity = λ q c mask. from_Kept (set_class-Kept q c _ refl);
}

module _ (rb : RbTree) (prios : List ℕ) where
  pub htb_activate-Kept : (q : HtbSched) (c : ℕ) → Kept q (htb_activate rb prios q c)
  htb_activate-Kept q c = to_Kept (htb_activate-blind rb prios shapes shapes-IsBlind q c)

  pub htb_deactivate-Kept : (q : HtbSched) (c : ℕ) → Kept q (htb_deactivate rb prios q c)
  htb_deactivate-Kept q c = to_Kept (htb_deactivate-blind rb prios shapes shapes-IsBlind q c)

  pub htb_change_class_mode-Kept :
      (hysteresis : Bool) (q : HtbSched) (c : ℕ) (diff : ℤ)
      → Kept q (htb_change_class_mode rb prios hysteresis q c diff).0
  htb_change_class_mode-Kept hysteresis q c diff = to_Kept (
      htb_change_class_mode-blind rb prios shapes shapes-IsBlind hysteresis q c diff
        (λ r mode. from_Kept (set_class-Kept r c _ refl)))

  pub htb_add_to_wait_tree-Kept :
      (q : HtbSched) (c : ℕ) (delay : ℤ) → Kept q (htb_add_to_wait_tree rb q c delay)
  unfolding htb_add_to_wait_tree
  htb_add_to_wait_tree-Kept q c delay = Kept-trans (set_class-Kept q c _ refl) (same_classes refl)
