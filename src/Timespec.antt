-- ===== src/Timespec.antt =====
-- include/linux/time.h and kernel/time.c: `struct timespec`, its normal form, and its conversions
-- to and from nanoseconds. `long` and `time_t` have 64 bits.
pub mod Normal
pub mod RoundTrip
use virtual_time_kernel.Base.{
  ℕ, zero, suc, ◌+◌, ◌-◌, ◌*◌, ◌/◌, ◌%◌, ◌^◌, ◌≤◌, ◌<◌, ◌≡◌, Bool, true, false, ◌&&◌, ◌||◌, not,
  ltb, leb, ◌==◌, if◌then◌else◌,
}
use virtual_time_kernel.Base.Int.{
  ℤ, pos, negsuc, pos_part, neg_part, ◌+ℤ◌, ◌-ℤ◌, ◌*ℤ◌, ltb_ℤ, eqb_ℤ, ◌≤ℤ◌, ◌<ℤ◌,
}
use virtual_time_kernel.Base.Word.{s64, s32, to_u64}
use virtual_time_kernel.Math64.{Math64}

abbrev pub nsec_per_sec : ℕ
nsec_per_sec = 1_000_000_000

pub record Timespec : Type 0 where
  pub tv_sec : ℤ
  pub tv_nsec : ℤ

unfoldable pub timespec_to_ns : Timespec → ℤ
unfolding ◌+ℤ◌ ◌*ℤ◌ s64
timespec_to_ns ts = s64 (ts.tv_sec *ℤ pos nsec_per_sec +ℤ ts.tv_nsec)

-- `while (nsec >= NSEC_PER_SEC)`, on fuel.
unfoldable pub carry_up : ℕ → ℤ → ℤ → ℤ × ℤ
carry_up zero sec nsec = (sec, nsec)
carry_up (suc fuel) sec nsec =
    let rest = carry_up fuel (s64 (sec +ℤ pos 1)) (s64 (nsec -ℤ pos nsec_per_sec)) in
    if ltb_ℤ nsec (pos nsec_per_sec) then (sec, nsec) else rest

-- `while (nsec < 0)`, on fuel.
unfoldable pub carry_down : ℕ → ℤ → ℤ → ℤ × ℤ
carry_down zero sec nsec = (sec, nsec)
carry_down (suc fuel) sec nsec =
    let rest = carry_down fuel (s64 (sec -ℤ pos 1)) (s64 (nsec +ℤ pos nsec_per_sec)) in
    if ltb_ℤ nsec (pos 0) then rest else (sec, nsec)

-- As many rounds as a loop can take, which moves `nsec` by a second each.
abbrev pub rounds : ℤ → ℕ
rounds nsec = (pos_part nsec + neg_part nsec) / nsec_per_sec + 2

unfoldable pub set_normalized_timespec : ℤ → ℤ → Timespec
unfolding carry_up carry_down
set_normalized_timespec sec nsec =
    let (sec₁, nsec₁) = carry_up (rounds nsec) sec nsec in
    let (sec₂, nsec₂) = carry_down (rounds nsec₁) sec₁ nsec₁ in
    record { tv_sec = sec₂; tv_nsec = nsec₂ }

unfoldable pub timespec_equal : Timespec → Timespec → Bool
timespec_equal a b = eqb_ℤ a.tv_sec b.tv_sec && eqb_ℤ a.tv_nsec b.tv_nsec

unfoldable pub timespec_compare : Timespec → Timespec → ℤ
timespec_compare lhs rhs =
    if ltb_ℤ lhs.tv_sec rhs.tv_sec
    then negsuc 0
    else if ltb_ℤ rhs.tv_sec lhs.tv_sec
    then pos 1
    else s32 (lhs.tv_nsec -ℤ rhs.tv_nsec)

unfoldable pub timespec_add : Timespec → Timespec → Timespec
unfolding set_normalized_timespec
timespec_add lhs rhs =
    set_normalized_timespec (s64 (lhs.tv_sec +ℤ rhs.tv_sec)) (s64 (lhs.tv_nsec +ℤ rhs.tv_nsec))

unfoldable pub timespec_sub : Timespec → Timespec → Timespec
unfolding set_normalized_timespec
timespec_sub lhs rhs =
    set_normalized_timespec (s64 (lhs.tv_sec -ℤ rhs.tv_sec)) (s64 (lhs.tv_nsec -ℤ rhs.tv_nsec))

unfoldable pub timespec_valid : Timespec → Bool
unfolding to_u64
timespec_valid ts =
    if ltb_ℤ ts.tv_sec (pos 0)
    then false
    else if leb nsec_per_sec (to_u64 ts.tv_nsec)
    then false
    else true

-- KTIME_MAX / NSEC_PER_SEC
abbrev pub ktime_sec_max : ℕ
ktime_sec_max = (2 ^ 63 - 1) / nsec_per_sec

unfoldable pub timespec_valid_strict : Timespec → Bool
unfolding timespec_valid
timespec_valid_strict ts =
    if not (timespec_valid ts)
    then false
    else if leb ktime_sec_max (to_u64 ts.tv_sec)
    then false
    else true

abbrev pub time_t_max : ℤ
time_t_max = pos (2 ^ 63 - 1)

unfoldable pub timespec_add_safe : Timespec → Timespec → Timespec
unfolding set_normalized_timespec
timespec_add_safe lhs rhs =
    let res =
      set_normalized_timespec (s64 (lhs.tv_sec +ℤ rhs.tv_sec)) (s64 (lhs.tv_nsec +ℤ rhs.tv_nsec)) in
    if ltb_ℤ res.tv_sec lhs.tv_sec || ltb_ℤ res.tv_sec rhs.tv_sec
    then record res { tv_sec = time_t_max }
    else res

module _ (m : Math64) where
  open m use {div_s64_rem, iter_div_u64_rem}

  unfoldable pub ns_to_timespec : ℤ → Timespec
  ns_to_timespec nsec =
      let (q, r) = div_s64_rem nsec (pos nsec_per_sec) in
      if eqb_ℤ nsec (pos 0)
      then record { tv_sec = pos 0; tv_nsec = pos 0 }
      else if ltb_ℤ r (pos 0)
      then record { tv_sec = s64 (q -ℤ pos 1); tv_nsec = s32 (r +ℤ pos nsec_per_sec) }
      else record { tv_sec = q; tv_nsec = r }

  -- `ns` is unsigned; the sum with `tv_nsec` is taken in 64 bits.
  unfoldable pub timespec_add_ns : Timespec → ℕ → Timespec
  unfolding to_u64
  timespec_add_ns a ns =
      let (q, r) = iter_div_u64_rem ((to_u64 a.tv_nsec + ns) % 2 ^ 64) nsec_per_sec in
      record { tv_sec = s64 (a.tv_sec +ℤ pos q); tv_nsec = pos r }

-- The normal form: 0 <= tv_nsec < NSEC_PER_SEC.
pub record IsNormal (ts : Timespec) : Type 0 where
  pub nonneg : neg_part ts.tv_nsec ≡ 0
  pub below : pos_part ts.tv_nsec < nsec_per_sec
