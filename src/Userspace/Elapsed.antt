-- ===== src/Userspace/Elapsed.antt =====
-- vt_userspace/vtutil.c: the time between two readings of gettimeofday.
use virtual_time_kernel.Base.{
  ◌+◌, ◌/◌, ◌^◌, ◌<◌, ◌≤◌, ◌≡◌, refl, ap, ◌∙◌, false, arith, Bool-cases, inl, inr, ltb,
}
use virtual_time_kernel.Base.Int.{
  ℤ, pos, pos_part, neg_part, ◌+ℤ◌, ◌-ℤ◌, ◌*ℤ◌, ltb_ℤ, int_laws, scale_parts, eq_of_parts,
}
use virtual_time_kernel.Base.Word.{s64, to_u64, s64_id, s32_id, to_u64_id}
use virtual_time_kernel.Jiffies.{Timeval}
use virtual_time_kernel.Userspace.{timeval_substract, timeval_to_usec, moved_seconds, usec_per_sec}

-- What gettimeofday gives: microseconds below a million, and seconds below 2 ^ 42.
pub record IsReading (tv : Timeval) : Type 0 where
  pub sec_nonneg : neg_part tv.tv_sec ≡ 0
  pub sec_bound : pos_part tv.tv_sec < 2 ^ 42
  pub usec_nonneg : neg_part tv.tv_usec ≡ 0
  pub usec_bound : pos_part tv.tv_usec < usec_per_sec

-- A second is borrowed where the first reading has fewer microseconds.
moved_one : (z : ℤ) → neg_part z ≡ 0 → pos_part z < usec_per_sec → moved_seconds z ≡ pos 1
moved_one z h k =
    let e : to_u64 z ≡ pos_part z = to_u64_id z h (omega arith) in
    let q : pos_part z / usec_per_sec + 1 ≡ 1 = omega arith in
    rw (e, q) (s32_id (pos 1) (omega arith) (omega arith))

not_over :
    (z : ℤ) → neg_part z ≡ 0 → pos_part z < usec_per_sec + 1 → ltb usec_per_sec (to_u64 z) ≡ false
not_over z h k =
    let e : to_u64 z ≡ pos_part z = to_u64_id z h (omega arith) in rw (e) (ground arith)

one_second : s64 (pos 1 *ℤ pos usec_per_sec) ≡ pos usec_per_sec
unfolding ◌*ℤ◌ s64
one_second = refl

-- Times that are not far outside a reading's range.
abbrev IsNear : Timeval → Type 0
IsNear tv =
    (pos_part tv.tv_sec < 2 ^ 43)
    × (neg_part tv.tv_sec < 2 ^ 43)
    × (pos_part tv.tv_usec < 2 ^ 21)
    × (neg_part tv.tv_usec < 2 ^ 21)

abbrev at_usec : Timeval → ℤ
at_usec tv = tv.tv_sec *ℤ pos usec_per_sec +ℤ tv.tv_usec

usec_lem : (tv : Timeval) → IsNear tv → timeval_to_usec tv ≡ at_usec tv
unfolding timeval_to_usec
usec_lem tv near =
    let (up, down) = scale_parts tv.tv_sec usec_per_sec in
    let e : s64 (tv.tv_sec *ℤ pos usec_per_sec) ≡ tv.tv_sec *ℤ pos usec_per_sec =
      s64_id _ (omega arith) (omega arith) in
    rw (e) (s64_id _ (omega int_laws) (omega int_laws))

-- The difference by fields, which both need not be of normal times.
abbrev minus : Timeval → Timeval → Timeval
minus x y = record { tv_sec = s64 (x.tv_sec -ℤ y.tv_sec); tv_usec = s64 (x.tv_usec -ℤ y.tv_usec) }

minus_lem :
    (x y : Timeval)
    → IsReading x
    → pos_part y.tv_sec < 2 ^ 42 + 1
    → neg_part y.tv_sec ≡ 0
    → pos_part y.tv_usec < usec_per_sec
    → neg_part y.tv_usec < usec_per_sec + 1
    → timeval_to_usec (minus x y) ≡ timeval_to_usec x -ℤ timeval_to_usec y
minus_lem x y h k₁ k₂ k₃ k₄ =
    let h₁ = h.sec_nonneg in
    let h₂ = h.sec_bound in
    let h₃ = h.usec_nonneg in
    let h₄ = h.usec_bound in
    let sec : s64 (x.tv_sec -ℤ y.tv_sec) ≡ x.tv_sec -ℤ y.tv_sec =
      s64_id _ (omega int_laws) (omega int_laws) in
    let usec : s64 (x.tv_usec -ℤ y.tv_usec) ≡ x.tv_usec -ℤ y.tv_usec =
      s64_id _ (omega int_laws) (omega int_laws) in
    let ex = usec_lem x (omega arith, omega arith, omega arith, omega arith) in
    let ey = usec_lem y (omega arith, omega arith, omega arith, omega arith) in
    let d : Timeval = record { tv_sec = x.tv_sec -ℤ y.tv_sec; tv_usec = x.tv_usec -ℤ y.tv_usec } in
    let ed = usec_lem d (omega int_laws, omega int_laws, omega int_laws, omega int_laws) in
    let (x₁, x₂) = scale_parts x.tv_sec usec_per_sec in
    let (y₁, y₂) = scale_parts y.tv_sec usec_per_sec in
    let (d₁, d₂) = scale_parts (x.tv_sec -ℤ y.tv_sec) usec_per_sec in
    rw (sec, usec, ed, ex, ey) (eq_of_parts _ _ (omega int_laws))

-- A borrowed second leaves the time as it was.
abbrev borrowed : Timeval → Timeval
borrowed y = record { tv_sec = y.tv_sec +ℤ pos 1; tv_usec = y.tv_usec -ℤ pos usec_per_sec }

borrow_lem :
    (y : Timeval)
    → IsReading y
    → (s64 (y.tv_sec +ℤ pos 1) ≡ y.tv_sec +ℤ pos 1)
      × (s64 (y.tv_usec -ℤ pos usec_per_sec) ≡ y.tv_usec -ℤ pos usec_per_sec)
borrow_lem y k =
    let k₁ = k.sec_nonneg in
    let k₂ = k.sec_bound in
    let k₃ = k.usec_nonneg in
    let k₄ = k.usec_bound in
    (s64_id _ (omega int_laws) (omega int_laws), s64_id _ (omega int_laws) (omega int_laws))

borrowed_lem : (y : Timeval) → IsReading y → timeval_to_usec (borrowed y) ≡ timeval_to_usec y
borrowed_lem y k =
    let k₁ = k.sec_nonneg in
    let k₂ = k.sec_bound in
    let k₃ = k.usec_nonneg in
    let k₄ = k.usec_bound in
    let ey = usec_lem y (omega arith, omega arith, omega arith, omega arith) in
    let eb =
      usec_lem (borrowed y) (omega int_laws, omega int_laws, omega int_laws, omega int_laws) in
    let (y₁, y₂) = scale_parts y.tv_sec usec_per_sec in
    let (b₁, b₂) = scale_parts (y.tv_sec +ℤ pos 1) usec_per_sec in
    rw (ey, eb) (eq_of_parts _ _ (omega int_laws))

-- For two readings of gettimeofday, the result has microseconds from 0 to below a million and stands for
-- the difference; the second reading is changed, but still stands for the same time.
pub timeval_substract_lem :
    (x y : Timeval)
    → IsReading x
    → IsReading y
    → let (result, y', _) = timeval_substract x y in
      (timeval_to_usec result ≡ timeval_to_usec x -ℤ timeval_to_usec y)
      × (timeval_to_usec y' ≡ timeval_to_usec y)
      × (neg_part result.tv_usec ≡ 0)
      × (pos_part result.tv_usec < usec_per_sec)
unfolding timeval_substract
timeval_substract_lem x y h k =
    let h₃ = h.usec_nonneg in
    let h₄ = h.usec_bound in
    let k₁ = k.sec_nonneg in
    let k₂ = k.sec_bound in
    let k₃ = k.usec_nonneg in
    let k₄ = k.usec_bound in
    elim (Bool-cases (ltb_ℤ x.tv_usec y.tv_usec)) [
      | inl e ↦
          let less : pos_part x.tv_usec < pos_part y.tv_usec = ground arith in
          let short : s64 (y.tv_usec -ℤ x.tv_usec) ≡ y.tv_usec -ℤ x.tv_usec =
            s64_id _ (omega int_laws) (omega int_laws) in
          let one : moved_seconds (s64 (y.tv_usec -ℤ x.tv_usec)) ≡ pos 1 =
            rw (short) (moved_one (y.tv_usec -ℤ x.tv_usec) (omega int_laws) (omega int_laws)) in
          let over = x.tv_usec -ℤ (borrowed y).tv_usec in
          let fits : s64 over ≡ over = s64_id _ (omega int_laws) (omega int_laws) in
          let no : ltb usec_per_sec (to_u64 (s64 over)) ≡ false =
            rw (fits) (not_over over (omega int_laws) (omega int_laws)) in
          let same = borrowed_lem y k in
          let difference =
            minus_lem x (borrowed y) h (omega int_laws) (omega int_laws) (omega int_laws)
              (omega int_laws) in
          let below : (neg_part (s64 over) ≡ 0) × (pos_part (s64 over) < usec_per_sec) =
            rw (fits) (omega int_laws, omega int_laws) in
          let (sec, usec) = borrow_lem y k in
          rw (e, one, one_second, sec, usec, no)
            (difference ∙ ap (λ z. timeval_to_usec x -ℤ z) same, same, below.0, below.1)
      | inr e ↦
          let more : pos_part y.tv_usec ≤ pos_part x.tv_usec = ground arith in
          let over = x.tv_usec -ℤ y.tv_usec in
          let fits : s64 over ≡ over = s64_id _ (omega int_laws) (omega int_laws) in
          let no : ltb usec_per_sec (to_u64 (s64 over)) ≡ false =
            rw (fits) (not_over over (omega int_laws) (omega int_laws)) in
          let below : (neg_part (s64 over) ≡ 0) × (pos_part (s64 over) < usec_per_sec) =
            rw (fits) (omega int_laws, omega int_laws) in
          let difference =
            minus_lem x y h (omega arith) (omega arith) (omega arith) (omega arith) in
          rw (e, no) (difference, refl, below.0, below.1)
    ]
