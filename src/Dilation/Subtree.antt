-- ===== src/Dilation/Subtree.antt =====
-- set_dilation over a process subtree.
use virtual_time_kernel.Base.{
  ℕ, ◌<◌, ◌≡◌, refl, ◌∙◌, inl, inr, true, false, arith, Bool-cases, ==_refl,
}
use virtual_time_kernel.Base.Int.{ℤ, neg_part, eqb_ℤ, eq_of_parts}
use virtual_time_kernel.Math64.{Math64}
use virtual_time_kernel.Timespec.{Timespec}
use virtual_time_kernel.Task.{Tree, Forest, node, none, more, In, In_forest, Kernel}
use virtual_time_kernel.Dilation.{set_dilation, set_dilation_children, retune, descend}
use virtual_time_kernel.Dilation.Retune.{retune-dilation, retune-verdict, retune-negative}

-- No process occurs twice.
abbrev mutual
  pub Distinct : Tree → Type 0
  Distinct (node p kids) = (In_forest p kids ≡ false) × DistinctForest kids

  pub DistinctForest : Forest → Type 0
  DistinctForest none = Unit
  DistinctForest (more t ts) =
      Distinct t × DistinctForest ts × ((q : ℕ) → In q t ≡ true → In_forest q ts ≡ false)

module _ (m : Math64) (wall : ℕ → Timespec) (new_tdf : ℤ) where
  walk_descends :
      (p : ℕ) (kids : Forest) (k : Kernel)
      → (retune m wall p new_tdf k).1 ≡ descend
      → (set_dilation m wall (node p kids) new_tdf k).0
        ≡ set_dilation_children m wall kids new_tdf (retune m wall p new_tdf k).0
  unfolding set_dilation
  walk_descends p kids k e = ground arith

  walk_stops :
      (p : ℕ) (kids : Forest) (k : Kernel)
      → eqb_ℤ (k.tasks p).dilation new_tdf ≡ true
      → (set_dilation m wall (node p kids) new_tdf k).0 ≡ k
  unfolding set_dilation retune
  walk_stops p kids k e = ground arith

  mutual
    unfolding set_dilation

    negative_tree :
        (t : Tree) (k : Kernel) → 0 < neg_part new_tdf → (set_dilation m wall t new_tdf k).0 ≡ k
    negative_tree (node p kids) k neg =
        let same = retune-negative m wall p new_tdf k neg in
        ground (arith, negative_forest kids (retune m wall p new_tdf k).0 neg)

    negative_forest :
        (ts : Forest) (k : Kernel)
        → 0 < neg_part new_tdf
        → set_dilation_children m wall ts new_tdf k ≡ k
    negative_forest none k neg = refl
    negative_forest (more t ts) k neg =
        negative_forest ts (set_dilation m wall t new_tdf k).0 neg ∙ negative_tree t k neg

  -- A negative dilation changes no process and reads no clock, in the whole subtree.
  pub set_dilation-negative :
      (t : Tree) (k : Kernel) → 0 < neg_part new_tdf → (set_dilation m wall t new_tdf k).0 ≡ k
  set_dilation-negative = negative_tree

  abbrev Keeps : ℕ → Kernel → Kernel → Type 0
  Keeps q k k' = (k'.tasks q).dilation ≡ (k.tasks q).dilation

  mutual
    unfolding set_dilation

    dilation_frame_tree :
        (t : Tree) (k : Kernel) (q : ℕ)
        → neg_part new_tdf ≡ 0
        → In q t ≡ false
        → Keeps q k (set_dilation m wall t new_tdf k).0
    dilation_frame_tree (node p kids) k q nonneg out = ground (
      arith,
      retune-dilation m wall p new_tdf k q nonneg,
      dilation_frame_forest kids (retune m wall p new_tdf k).0 q nonneg,
    )

    dilation_frame_forest :
        (ts : Forest) (k : Kernel) (q : ℕ)
        → neg_part new_tdf ≡ 0
        → In_forest q ts ≡ false
        → Keeps q k (set_dilation_children m wall ts new_tdf k)
    dilation_frame_forest none k q nonneg out = refl
    dilation_frame_forest (more t ts) k q nonneg out =
        let apart : (In q t ≡ false) × (In_forest q ts ≡ false) = ground arith in
        dilation_frame_forest ts (set_dilation m wall t new_tdf k).0 q nonneg apart.1
        ∙ dilation_frame_tree t k q nonneg apart.0

  -- The root of the tree has the new dilation, whatever its processes had.
  pub set_dilation-root :
      (p : ℕ) (kids : Forest) (k : Kernel)
      → neg_part new_tdf ≡ 0
      → In_forest p kids ≡ false
      → ((set_dilation m wall (node p kids) new_tdf k).0.tasks p).dilation ≡ new_tdf
  unfolding set_dilation
  set_dilation-root p kids k nonneg out =
      let own = retune-dilation m wall p new_tdf k p nonneg in
      let kept = dilation_frame_forest kids (retune m wall p new_tdf k).0 p nonneg out in
      let self = ==_refl p in ground arith

  -- All processes of a tree have the dilation `old`.
  abbrev pub Uniform : ℤ → Tree → Kernel → Type 0
  Uniform old t k = (q : ℕ) → In q t ≡ true → (k.tasks q).dilation ≡ old

  abbrev UniformForest : ℤ → Forest → Kernel → Type 0
  UniformForest old ts k = (q : ℕ) → In_forest q ts ≡ true → (k.tasks q).dilation ≡ old

  -- Where the root has the new dilation already, nothing changes.
  same_tree :
      (t : Tree) (k : Kernel) (old : ℤ) (q : ℕ)
      → neg_part new_tdf ≡ 0
      → eqb_ℤ old new_tdf ≡ true
      → Uniform old t k
      → In q t ≡ true
      → ((set_dilation m wall t new_tdf k).0.tasks q).dilation ≡ new_tdf
  same_tree (node p kids) k old q nonneg equal same found =
      let own : (k.tasks p).dilation ≡ old = same p (rw (==_refl p)) in
      let e : old ≡ new_tdf = ground (arith, eq_of_parts old new_tdf) in
      rw (walk_stops p kids k (rw own equal)) (same q found ∙ e)

  -- After the root, the children still have the dilation `old`.
  Uniform-retune :
      (p : ℕ) (kids : Forest) (k : Kernel) (old : ℤ)
      → neg_part new_tdf ≡ 0
      → In_forest p kids ≡ false
      → Uniform old (node p kids) k
      → UniformForest old kids (retune m wall p new_tdf k).0
  Uniform-retune p kids k old nonneg out same q below =
      ground (arith, retune-dilation m wall p new_tdf k q nonneg, same q)

  -- After the first tree, the others still have it.
  Uniform-first :
      (t : Tree) (ts : Forest) (k : Kernel) (old : ℤ)
      → neg_part new_tdf ≡ 0
      → DistinctForest (more t ts)
      → UniformForest old (more t ts) k
      → UniformForest old ts (set_dilation m wall t new_tdf k).0
  Uniform-first t ts k old nonneg distinct same q later =
      ground (arith, distinct.2 q, dilation_frame_tree t k q nonneg, same q)

  retune_descends :
      (p : ℕ) (k : Kernel) (old : ℤ)
      → neg_part new_tdf ≡ 0
      → eqb_ℤ old new_tdf ≡ false
      → (k.tasks p).dilation ≡ old
      → (retune m wall p new_tdf k).1 ≡ descend
  retune_descends p k old nonneg differs own =
      retune-verdict m wall p new_tdf k nonneg ∙ rw (own, differs)

  mutual
    unfolding set_dilation

    change_tree :
        (t : Tree) (k : Kernel) (old : ℤ) (q : ℕ)
        → neg_part new_tdf ≡ 0
        → eqb_ℤ old new_tdf ≡ false
        → Distinct t
        → Uniform old t k
        → In q t ≡ true
        → ((set_dilation m wall t new_tdf k).0.tasks q).dilation ≡ new_tdf
    change_tree (node p kids) k old q nonneg differs distinct same found =
        let own : (k.tasks p).dilation ≡ old = same p (rw (==_refl p)) in
        let k₁ : Kernel = (retune m wall p new_tdf k).0 in
        let kids_same = Uniform-retune p kids k old nonneg distinct.0 same in
        rw (walk_descends p kids k (retune_descends p k old nonneg differs own))
          (elim (Bool-cases (In_forest q kids)) [
            | inl below ↦ change_forest kids k₁ old q nonneg differs distinct.1 kids_same below
            | inr here ↦
                dilation_frame_forest kids k₁ q nonneg here
                ∙ ground (arith, retune-dilation m wall p new_tdf k q nonneg)
          ])

    change_forest :
        (ts : Forest) (k : Kernel) (old : ℤ) (q : ℕ)
        → neg_part new_tdf ≡ 0
        → eqb_ℤ old new_tdf ≡ false
        → DistinctForest ts
        → UniformForest old ts k
        → In_forest q ts ≡ true
        → ((set_dilation_children m wall ts new_tdf k).tasks q).dilation ≡ new_tdf
    change_forest none k old q nonneg differs distinct same found = cc
    change_forest (more t ts) k old q nonneg differs distinct same found =
        let k₁ : Kernel = (set_dilation m wall t new_tdf k).0 in
        elim (Bool-cases (In q t)) [
          | inl first ↦
              dilation_frame_forest ts k₁ q nonneg (distinct.2 q first)
              ∙ change_tree t k old q nonneg differs distinct.0 (λ r inside. same r (rw inside))
                  first
          | inr later ↦
              change_forest ts k₁ old q nonneg differs distinct.1
                (Uniform-first t ts k old nonneg distinct same) (ground arith)
        ]

  -- set_dilation on a tree whose processes share one dilation gives all of them the new one, for a
  -- new one of 0 or more, and leaves the dilation of every process outside the tree, the caller's
  -- too.
  pub set_dilation-Uniform :
      (t : Tree) (k : Kernel) (old : ℤ)
      → neg_part new_tdf ≡ 0
      → Distinct t
      → Uniform old t k
      → let k' = (set_dilation m wall t new_tdf k).0 in
        Uniform new_tdf t k' × ((q : ℕ) → In q t ≡ false → Keeps q k k')
  set_dilation-Uniform t k old nonneg distinct same = (
    λ q inside. elim (Bool-cases (eqb_ℤ old new_tdf)) [
      | inl equal ↦ same_tree t k old q nonneg equal same inside
      | inr differs ↦ change_tree t k old q nonneg differs distinct same inside
    ],
    λ q outside. dilation_frame_tree t k q nonneg outside,
  )
