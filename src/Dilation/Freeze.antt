-- ===== src/Dilation/Freeze.antt =====
-- Freezing and unfreezing: what they record, whom they reach, and that a frozen span leaves no
-- trace in the virtual clock.
use virtual_time_kernel.Base.{ℕ, ◌≡◌, ◌⊎◌, refl, ◌∙◌, inl, inr, true, false, arith, ◌==◌}
use virtual_time_kernel.Base.Int.{ℤ}
use virtual_time_kernel.Task.{Task, Forest, node, none, more, In_forest, Kernel, set_task}
use virtual_time_kernel.Dilation.{populate_frozen_time, inherit_frozen}

-- The frozen time of a task.
abbrev pub HasFrozen : ℤ → ℤ → Task → Type 0
HasFrozen start past t = (t.freeze_start_nsec ≡ start) × (t.freeze_past_nsec ≡ past)

inherit-HasFrozen :
    (k : Kernel) (p c : ℕ) (start past : ℤ) (q : ℕ)
    → HasFrozen start past (k.tasks p)
    → HasFrozen start past (k.tasks q) ⊎ (c ≡ q)
    → HasFrozen start past ((set_task k c (inherit_frozen (k.tasks p) (k.tasks c))).tasks q)
inherit-HasFrozen k p c start past q hp (inl hq) = ground arith
inherit-HasFrozen k p c start past q hp (inr e) = ground arith

populate-keeps :
    (p : ℕ) (ts : Forest) (k : Kernel) (start past : ℤ) (q : ℕ)
    → HasFrozen start past (k.tasks p)
    → HasFrozen start past (k.tasks q)
    → HasFrozen start past ((populate_frozen_time p ts k).tasks q)
unfolding populate_frozen_time
populate-keeps p none k start past q hp hq = hq
populate-keeps p (more (node c kids) ts) k start past q hp hq =
    let k₁ : Kernel = set_task k c (inherit_frozen (k.tasks p) (k.tasks c)) in
    let at_c = inherit-HasFrozen k p c start past c hp (inr refl) in
    let at_p = inherit-HasFrozen k p c start past p hp (inl hp) in
    let at_q = inherit-HasFrozen k p c start past q hp (inl hq) in
    populate-keeps p ts (populate_frozen_time c kids k₁) start past q
      (populate-keeps c kids k₁ start past p at_c at_p)
      (populate-keeps c kids k₁ start past q at_c at_q)

-- `q` is `c`, or below it, or in the rest of the forest.
In_forest-cases :
    (q c : ℕ) (kids ts : Forest)
    → In_forest q (more (node c kids) ts) ≡ true
    → (c ≡ q) ⊎ ((In_forest q kids ≡ true) ⊎ (In_forest q ts ≡ true))
In_forest-cases q c kids ts h = ground arith

-- Every process below `p` gets the frozen time of `p`.
pub populate_frozen_time_lem :
    (p : ℕ) (ts : Forest) (k : Kernel) (start past : ℤ) (q : ℕ)
    → HasFrozen start past (k.tasks p)
    → In_forest q ts ≡ true
    → HasFrozen start past ((populate_frozen_time p ts k).tasks q)
unfolding populate_frozen_time
populate_frozen_time_lem p none k start past q hp found = cc
populate_frozen_time_lem p (more (node c kids) ts) k start past q hp found =
    let k₁ : Kernel = set_task k c (inherit_frozen (k.tasks p) (k.tasks c)) in
    let at_c = inherit-HasFrozen k p c start past c hp (inr refl) in
    let at_p = inherit-HasFrozen k p c start past p hp (inl hp) in
    let k₂ : Kernel = populate_frozen_time c kids k₁ in
    let then_p = populate-keeps c kids k₁ start past p at_c at_p in
    elim (In_forest-cases q c kids ts found) [
      | inl here ↦ populate-keeps p ts k₂ start past q then_p (
          populate-keeps c kids k₁ start past q at_c
            (inherit-HasFrozen k p c start past q hp (inr here)))
      | inr (inl below) ↦
          populate-keeps p ts k₂ start past q then_p
            (populate_frozen_time_lem c kids k₁ start past q at_c below)
      | inr (inr later) ↦ populate_frozen_time_lem p ts k₂ start past q then_p later
    ]

-- A process outside the forest is left alone.
pub populate-frame :
    (p : ℕ) (ts : Forest) (k : Kernel) (q : ℕ)
    → In_forest q ts ≡ false
    → (populate_frozen_time p ts k).tasks q ≡ k.tasks q
unfolding populate_frozen_time
populate-frame p none k q out = refl
populate-frame p (more (node c kids) ts) k q out =
    let k₁ : Kernel = set_task k c (inherit_frozen (k.tasks p) (k.tasks c)) in
    let elsewhere : (q == c ≡ false) × (In_forest q kids ≡ false) × (In_forest q ts ≡ false) =
      ground arith in
    populate-frame p ts (populate_frozen_time c kids k₁) q elsewhere.2
    ∙ populate-frame c kids k₁ q elsewhere.1
    ∙ ground arith

-- It sends no signal and reads no clock.
pub populate-quiet :
    (p : ℕ) (ts : Forest) (k : Kernel)
    → let k' = populate_frozen_time p ts k in
      (k'.signals ≡ k.signals) × (k'.reads ≡ k.reads) × (k'.current ≡ k.current)
unfolding populate_frozen_time
populate-quiet p none k = (refl, refl, refl)
populate-quiet p (more (node c kids) ts) k =
    let k₁ : Kernel = set_task k c (inherit_frozen (k.tasks p) (k.tasks c)) in
    let a = populate-quiet c kids k₁ in
    let b = populate-quiet p ts (populate_frozen_time c kids k₁) in
    (b.0 ∙ a.0, b.1 ∙ a.1, b.2 ∙ a.2)

-- The other clocks of a process are left alone.
abbrev pub SameClocks : Task → Task → Type 0
SameClocks t u =
    (t.physical_start_nsec ≡ u.physical_start_nsec)
    × (t.physical_past_nsec ≡ u.physical_past_nsec)
    × (t.virtual_start_nsec ≡ u.virtual_start_nsec)
    × (t.virtual_past_nsec ≡ u.virtual_past_nsec)
    × (t.dilation ≡ u.dilation)

pub populate-SameClocks :
    (p : ℕ) (ts : Forest) (k : Kernel) (q : ℕ)
    → SameClocks ((populate_frozen_time p ts k).tasks q) (k.tasks q)
unfolding populate_frozen_time
populate-SameClocks p none k q = (refl, refl, refl, refl, refl)
populate-SameClocks p (more (node c kids) ts) k q =
    let k₁ : Kernel = set_task k c (inherit_frozen (k.tasks p) (k.tasks c)) in
    let a = populate-SameClocks c kids k₁ q in
    let b = populate-SameClocks p ts (populate_frozen_time c kids k₁) q in
    let same : SameClocks (k₁.tasks q) (k.tasks q) = ground arith in
    (
      b.0 ∙ a.0 ∙ same.0,
      b.1 ∙ a.1 ∙ same.1,
      b.2 ∙ a.2 ∙ same.2,
      b.3 ∙ a.3 ∙ same.3,
      b.4 ∙ a.4 ∙ same.4,
    )
