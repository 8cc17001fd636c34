-- ===== src/Htb/Tokens.antt =====
-- sch_htb.c: the two token buckets of a class, and the mode that they put it in.
use virtual_time_kernel.Base.{
  ℕ, ◌^◌, ◌≤◌, ◌<◌, ◌≡◌, refl, inl, inr, arith, Bool, true, false, if◌then◌else◌, Bool-cases,
}
use virtual_time_kernel.Base.Int.{
  ℤ, pos, pos_part, neg_part, ◌+ℤ◌, ◌-ℤ◌, ◌≤ℤ◌, ◌<ℤ◌, ltb_ℤ, int_laws, eq_of_parts,
}
use virtual_time_kernel.Base.Word.{s64, s64_id}
use virtual_time_kernel.Htb.{HtbClass, Cmode, cant_send, may_borrow, can_send}

abbrev pub is_cant_send : Cmode → Bool
is_cant_send cant_send = true
is_cant_send _ = false

abbrev pub is_can_send : Cmode → Bool
is_can_send can_send = true
is_can_send _ = false

abbrev pub neg : ℤ → ℤ
neg z = s64 (pos 0 -ℤ z)

-- `hysteresis` is the module's parameter htb_hysteresis.
unfoldable pub htb_lowater : Bool → HtbClass → ℤ
htb_lowater hysteresis cl =
    if hysteresis then (if is_cant_send cl.cmode then pos 0 else neg cl.cbuffer) else pos 0

unfoldable pub htb_hiwater : Bool → HtbClass → ℤ
htb_hiwater hysteresis cl =
    if hysteresis then (if is_can_send cl.cmode then neg cl.buffer else pos 0) else pos 0

-- The mode, and what is left in `*diff`.
unfoldable pub htb_class_mode : Bool → HtbClass → ℤ → Cmode × ℤ
htb_class_mode hysteresis cl diff =
    let ctoks = s64 (cl.ctokens +ℤ diff) in
    let toks = s64 (cl.tokens +ℤ diff) in
    if ltb_ℤ ctoks (htb_lowater hysteresis cl)
    then (cant_send, neg ctoks)
    else if ltb_ℤ toks (htb_hiwater hysteresis cl)
    then (may_borrow, neg toks)
    else (can_send, diff)

-- The bucket after `diff` ns in which it filled up, and a packet that takes `cost` ns. `cost` is the
-- result of psched_l2t_ns as an s64.
unfoldable pub account : ℤ → ℤ → ℤ → ℤ → ℤ → ℤ
account tokens buffer mbuffer cost diff =
    let filled = s64 (diff +ℤ tokens) in
    let capped = if ltb_ℤ buffer filled then buffer else filled in
    let spent = s64 (capped -ℤ cost) in
    if ltb_ℤ (neg mbuffer) spent then spent else s64 (pos 1 -ℤ mbuffer)

-- A value of a bucket, a time or a cost: far from the ends of an s64.
abbrev pub IsSpan : ℤ → Type 0
IsSpan z = (pos_part z ≤ 2 ^ 61) × (neg_part z ≤ 2 ^ 61)

sum_fits : (a b : ℤ) → IsSpan a → IsSpan b → s64 (a +ℤ b) ≡ a +ℤ b
sum_fits a b p q = s64_id _ (omega int_laws) (omega int_laws)

pub neg_fits : (a : ℤ) → (pos_part a ≤ 2 ^ 62) × (neg_part a ≤ 2 ^ 62) → neg a ≡ pos 0 -ℤ a
neg_fits a p = s64_id _ (omega int_laws) (omega int_laws)

-- What htb_accnt_tokens and htb_accnt_ctokens compute for the bucket that pays for a packet is no more
-- than the bucket's depth, and is above -mbuffer, for values far from the ends of an s64. It says nothing
-- of the tokens of a class that borrows, to which diff is added without this calculation.
pub account_bounds :
    (tokens mbuffer cost diff : ℤ) (buffer : ℕ)
    → IsSpan tokens
    → IsSpan diff
    → buffer ≤ 2 ^ 61
    → neg_part cost ≡ 0
    → pos_part cost ≤ 2 ^ 61
    → neg_part mbuffer ≡ 0
    → 0 < pos_part mbuffer
    → pos_part mbuffer ≤ 2 ^ 61
    → let left = account tokens (pos buffer) mbuffer cost diff in
      (left ≤ℤ pos buffer) × ((pos 0 -ℤ mbuffer) <ℤ left)
unfolding account
account_bounds tokens mbuffer cost diff buffer t d b c0 c m0 m1 m2 =
    let filled = sum_fits diff tokens d t in
    let floor = neg_fits mbuffer (omega arith, omega arith) in
    let reset : s64 (pos 1 -ℤ mbuffer) ≡ pos 1 -ℤ mbuffer =
      s64_id _ (omega int_laws) (omega int_laws) in
    let capped : ℤ = if ltb_ℤ (pos buffer) (diff +ℤ tokens) then pos buffer else diff +ℤ tokens in
    let cap : (capped ≤ℤ pos buffer) × (pos_part capped ≤ 2 ^ 62) × (neg_part capped ≤ 2 ^ 62) =
      elim (Bool-cases (ltb_ℤ (pos buffer) (diff +ℤ tokens))) [
        | inl e ↦ rw e (omega arith, omega arith, omega arith)
        | inr e ↦ rw e (ground arith, omega int_laws, omega int_laws)
      ] in
    let spent : s64 (capped -ℤ cost) ≡ capped -ℤ cost =
      s64_id _ (omega int_laws) (omega int_laws) in
    rw (filled, floor, reset)
      (rw spent (elim (Bool-cases (ltb_ℤ (pos 0 -ℤ mbuffer) (capped -ℤ cost))) [
        | inl e ↦ rw e (omega int_laws, ground arith)
        | inr e ↦ rw e (omega int_laws, omega int_laws)
      ]))

-- The mode, with the time to wait, fits the buckets.
abbrev pub Waits : HtbClass → ℤ → Cmode × ℤ → Type 0
Waits cl diff (cant_send, wait) = (pos 0 <ℤ wait) × ((cl.ctokens +ℤ diff) +ℤ wait ≡ pos 0)
Waits cl diff (may_borrow, wait) =
    (pos 0 ≤ℤ (cl.ctokens +ℤ diff)) × (pos 0 <ℤ wait) × ((cl.tokens +ℤ diff) +ℤ wait ≡ pos 0)
Waits cl diff (can_send, wait) =
    (pos 0 ≤ℤ (cl.ctokens +ℤ diff)) × (pos 0 ≤ℤ (cl.tokens +ℤ diff)) × (wait ≡ diff)

-- Without hysteresis a class that may not send waits a positive time, after which the bucket that
-- held it back is at 0; one that may borrow has its ceiling bucket, and one that may send both
-- buckets, at 0 or more.
pub htb_class_mode-Waits :
    (cl : HtbClass) (diff : ℤ)
    → IsSpan cl.tokens
    → IsSpan cl.ctokens
    → IsSpan diff
    → Waits cl diff (htb_class_mode false cl diff)
unfolding htb_class_mode htb_lowater htb_hiwater
htb_class_mode-Waits cl diff t c d =
    let c_sum = sum_fits cl.ctokens diff c d in
    let t_sum = sum_fits cl.tokens diff t d in
    let c_neg = neg_fits (cl.ctokens +ℤ diff) (omega int_laws, omega int_laws) in
    let t_neg = neg_fits (cl.tokens +ℤ diff) (omega int_laws, omega int_laws) in
    rw (c_sum, t_sum)
      (elim (Bool-cases (ltb_ℤ (cl.ctokens +ℤ diff) (pos 0))) [
        | inl low ↦
            let below : (cl.ctokens +ℤ diff) <ℤ pos 0 = ground arith in
            rw (low, c_neg) (omega int_laws, eq_of_parts _ _ (omega int_laws))
        | inr high ↦ rw high (elim (Bool-cases (ltb_ℤ (cl.tokens +ℤ diff) (pos 0))) [
          | inl low ↦
              let below : (cl.tokens +ℤ diff) <ℤ pos 0 = ground arith in
              rw (low, t_neg) (ground arith, omega int_laws, eq_of_parts _ _ (omega int_laws))
          | inr top ↦ rw top (ground arith, ground arith, refl)
        ])
      ])
