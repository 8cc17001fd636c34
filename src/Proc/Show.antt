-- ===== src/Proc/Show.antt =====
-- What the show methods print.
use virtual_time_kernel.Base.{
  ℕ, ◌+◌, ◌*◌, ◌/◌, ◌≤◌, ◌<◌, ◌≡◌, inl, inr, refl, arith, true, false, List, [], ◌∷◌, some,
  Bool-cases, div_bounds,
}
use virtual_time_kernel.Base.Int.{ℤ, pos, ltb_ℤ, quot, pos_part, neg_part, quot_parts, ◌<ℤ◌, ◌≤ℤ◌}
use virtual_time_kernel.Timespec.{nsec_per_sec}
use virtual_time_kernel.Task.{Kernel}
use virtual_time_kernel.Proc.{
  Line, kiloseconds, seconds, milliseconds, microseconds, nanoseconds, nsec_per_msec, nsec_per_usec,
  fpt_show, vpt_show, ppt_show, show_frozen_past, show_past, show_below_kiloseconds, thousands,
}

-- The line says `t` in its unit, cut to a whole number of it.
abbrev pub IsCut : ℕ → ℤ → ℤ → Type 0
IsCut unit n t =
    (neg_part n ≡ 0) × (pos_part n * unit ≤ pos_part t) × (pos_part t < (pos_part n + 1) * unit)

abbrev pub Says : Line → ℤ → Type 0
Says (kiloseconds n) t = IsCut (1000 * nsec_per_sec) n t
Says (seconds n) t = IsCut nsec_per_sec n t
Says (milliseconds n) t = IsCut nsec_per_msec n t
Says (microseconds n) t = IsCut nsec_per_usec n t
Says (nanoseconds n) t = n ≡ t
Says _ t = ⊥

abbrev pub SaysOnce : List Line → ℤ → Type 0
SaysOnce (l ∷ []) t = Says l t
SaysOnce _ t = ⊥

quot-IsCut : (d : ℕ) (t : ℤ) → neg_part t ≡ 0 → 0 < d → IsCut d (quot t (pos d)) t
quot-IsCut d t h p =
    let q = quot_parts t d p in
    let bounds = div_bounds (pos_part t) d p in
    let none_lost : neg_part t / d ≡ 0 = rw h (grind arith) in
    rw (q.0, q.1) (none_lost, omega arith, omega arith)

below-Says : (t : ℤ) → neg_part t ≡ 0 → SaysOnce (show_below_kiloseconds t) t
unfolding show_below_kiloseconds
below-Says t h = elim (Bool-cases (ltb_ℤ (pos nsec_per_sec) t)) [
  | inl s ↦ rw s (quot-IsCut nsec_per_sec t h (omega arith))
  | inr not_s ↦ rw not_s (elim (Bool-cases (ltb_ℤ (pos nsec_per_msec) t)) [
    | inl ms ↦ rw ms (quot-IsCut nsec_per_msec t h (omega arith))
    | inr not_ms ↦ rw not_ms (elim (Bool-cases (ltb_ℤ (pos nsec_per_usec) t)) [
      | inl us ↦ rw us (quot-IsCut nsec_per_usec t h (omega arith))
      | inr not_us ↦ rw not_us
    ])
  ])
]

thousands-IsCut : (t : ℤ) → neg_part t ≡ 0 → IsCut (1000 * nsec_per_sec) (thousands t) t
thousands-IsCut t h =
    let q = quot-IsCut nsec_per_sec t h (omega arith) in
    let r = quot-IsCut 1000 (quot t (pos nsec_per_sec)) q.0 (omega arith) in omega arith

-- The file fpt prints one line, which says the frozen time in the unit that it names, cut to a whole
-- number of it.
pub fpt_show-SaysOnce :
    (p : ℕ) (k : Kernel)
    → neg_part (k.tasks p).freeze_past_nsec ≡ 0
    → ((fpt_show (some p) k).0 ≡ pos 0)
      × SaysOnce (fpt_show (some p) k).1 (k.tasks p).freeze_past_nsec
unfolding fpt_show show_frozen_past
fpt_show-SaysOnce p k h =
    let t : ℤ = (k.tasks p).freeze_past_nsec in
    elim (Bool-cases (ltb_ℤ (pos (1000 * nsec_per_sec)) t)) [
      | inl ks ↦ rw ks (refl, thousands-IsCut t h)
      | inr not_ks ↦ rw not_ks (refl, below-Says t h)
    ]

below_seconds :
    (t : ℤ)
    → ltb_ℤ (pos nsec_per_sec) t ≡ true
    → show_below_kiloseconds t ≡ seconds (quot t (pos nsec_per_sec)) ∷ []
unfolding show_below_kiloseconds
below_seconds t s = rw s

-- The file vpt prints one such line for a time of up to 1000 seconds, and so does ppt.
pub vpt_show-SaysOnce :
    (p : ℕ) (k : Kernel)
    → neg_part (k.tasks p).virtual_past_nsec ≡ 0
    → neg_part (k.tasks p).physical_past_nsec ≡ 0
    → (k.tasks p).virtual_past_nsec ≤ℤ pos (1000 * nsec_per_sec)
    → (k.tasks p).physical_past_nsec ≤ℤ pos (1000 * nsec_per_sec)
    → SaysOnce (vpt_show (some p) k).1 (k.tasks p).virtual_past_nsec
      × SaysOnce (ppt_show (some p) k).1 (k.tasks p).physical_past_nsec
unfolding vpt_show ppt_show show_past
vpt_show-SaysOnce p k vh ph v_short p_short =
    let v_not : ltb_ℤ (pos (1000 * nsec_per_sec)) (k.tasks p).virtual_past_nsec ≡ false =
      ground arith in
    let p_not : ltb_ℤ (pos (1000 * nsec_per_sec)) (k.tasks p).physical_past_nsec ≡ false =
      ground arith in
    rw (v_not, p_not) (below-Says _ vh, below-Says _ ph)

-- For a time of more than 1000 seconds vpt and ppt print two lines, in kiloseconds and in seconds.
vpt_show_twice :
    (p : ℕ) (k : Kernel)
    → pos (1000 * nsec_per_sec) <ℤ (k.tasks p).virtual_past_nsec
    → pos (1000 * nsec_per_sec) <ℤ (k.tasks p).physical_past_nsec
    → let v = (k.tasks p).virtual_past_nsec in
      let t = (k.tasks p).physical_past_nsec in
      ((vpt_show (some p) k).1
        ≡ kiloseconds (thousands v) ∷ seconds (quot v (pos nsec_per_sec)) ∷ [])
      × ((ppt_show (some p) k).1
          ≡ kiloseconds (thousands t) ∷ seconds (quot t (pos nsec_per_sec)) ∷ [])
unfolding vpt_show ppt_show show_past
vpt_show_twice p k v_long p_long =
    let v : ℤ = (k.tasks p).virtual_past_nsec in
    let t : ℤ = (k.tasks p).physical_past_nsec in
    let v_ks : ltb_ℤ (pos (1000 * nsec_per_sec)) v ≡ true = ground arith in
    let v_s : ltb_ℤ (pos nsec_per_sec) v ≡ true = ground arith in
    let p_ks : ltb_ℤ (pos (1000 * nsec_per_sec)) t ≡ true = ground arith in
    let p_s : ltb_ℤ (pos nsec_per_sec) t ≡ true = ground arith in
    rw (v_ks, p_ks, below_seconds v v_s, below_seconds t p_s) (refl, refl)
