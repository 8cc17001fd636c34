-- ===== src/Htb/Due.antt =====
-- sch_htb.c: counts of the classes in an event queue, and how long a class waits for its next event.
use virtual_time_kernel.Base.{
  ℕ, ◌+◌, ◌^◌, ◌≤◌, ◌≡◌, refl, arith, Bool, true, false, ltb, ◌==◌, if◌then◌else◌, List, [], ◌∷◌,
  ◌++◌, Bool-cases, inl, inr, ==_refl,
}
use virtual_time_kernel.Base.Int.{ℤ, pos, pos_part, neg_part, ◌+ℤ◌, ◌-ℤ◌, ◌≤ℤ◌, ltb_ℤ, int_laws}
use virtual_time_kernel.Base.Word.{s64, s64_id}
use virtual_time_kernel.Htb.{HtbClass, HtbSched}
use virtual_time_kernel.Htb.Tree.{Rb, nil, fork, to_list, mem, link}
use virtual_time_kernel.Htb.Tokens.{
  neg_fits, htb_class_mode, htb_lowater, htb_hiwater, is_cant_send, is_can_send,
}
use virtual_time_kernel.Htb.Wait.{IsTime}
use virtual_time_kernel.Htb.Charge.{since_checkpoint}

abbrev pub count : (ℕ → Bool) → List ℕ → ℕ
count p [] = 0
count p (x ∷ xs) = (if p x then 1 else 0) + count p xs

count-++ : (p : ℕ → Bool) (xs ys : List ℕ) → count p (xs ++ ys) ≡ count p xs + count p ys
count-++ p [] ys = omega arith
count-++ p (x ∷ xs) ys = let ih = count-++ p xs ys in rw (ih) (omega arith)

pub count-link :
    (p right : ℕ → Bool) (c : ℕ) (t : Rb)
    → count p (to_list (link right c t)) ≡ count p (c ∷ to_list t)
unfolding link
count-link p right c nil = refl
count-link p right c (fork l d r) =
    let in_l = count-link p right c l in
    let in_r = count-link p right c r in
    let all = count-++ p (to_list l) (d ∷ to_list r) in
    elim (Bool-cases (right d)) [
      | inl e ↦
          rw (e, count-++ p (to_list l) (d ∷ to_list (link right c r)), in_r, all) (omega arith)
      | inr e ↦
          rw (e, count-++ p (to_list (link right c l)) (d ∷ to_list r), in_l, all) (omega arith)
    ]

pub count-agree :
    (p p' : ℕ → Bool) (xs : List ℕ)
    → ((x : ℕ) → mem x xs ≡ true → p x ≡ p' x)
    → count p xs ≡ count p' xs
count-agree p p' [] same = refl
count-agree p p' (x ∷ xs) same =
    let head : p x ≡ p' x = same x (let e = ==_refl x in ground arith) in
    let ih = count-agree p p' xs (λ y h. same y (ground arith)) in rw (head, ih) refl

-- How often a class stands in a list.
abbrev pub times : ℕ → List ℕ → ℕ
times d xs = count (λ x. x == d) xs

pub mem-times : (d : ℕ) (xs : List ℕ) → mem d xs ≡ ltb 0 (times d xs)
mem-times d [] = refl
mem-times d (x ∷ xs) =
    let ih = mem-times d xs in
    elim (Bool-cases (x == d)) [ inl e ↦ rw (e) (ground arith) | inr e ↦ rw (e) (ground arith) ]

-- What the next event of a class depends on.
pub record Timing : Type 0 where
  pub level : ℕ
  pub tokens : ℤ
  pub ctokens : ℤ
  pub t_c : ℤ
  pub mbuffer : ℤ
  pub buffer : ℤ
  pub cbuffer : ℤ

abbrev pub timing : HtbClass → Timing
timing cl = record {
  level = cl.level;
  tokens = cl.tokens;
  ctokens = cl.ctokens;
  t_c = cl.t_c;
  mbuffer = cl.mbuffer;
  buffer = cl.buffer;
  cbuffer = cl.cbuffer;
}

-- Up to 36 years.
abbrev pub IsShort : ℤ → Type 0
IsShort z = (pos_part z ≤ 2 ^ 60) × (neg_part z ≤ 2 ^ 60)

-- A class that was charged no later than now.
pub record IsTimely (now : ℤ) (t : Timing) : Type 0 where
  pub tokens_short : IsShort t.tokens
  pub ctokens_short : IsShort t.ctokens
  pub t_c_time : IsTime t.t_c
  pub past : t.t_c ≤ℤ now
  pub mbuffer_short : IsShort t.mbuffer
  pub mbuffer_nonneg : pos 0 ≤ℤ t.mbuffer
  pub buffer_short : IsShort t.buffer
  pub buffer_nonneg : pos 0 ≤ℤ t.buffer
  pub cbuffer_short : IsShort t.cbuffer
  pub cbuffer_nonneg : pos 0 ≤ℤ t.cbuffer

pub since_checkpoint-bounds :
    (q : HtbSched) (cl : HtbClass)
    → IsTime q.now
    → IsTimely q.now (timing cl)
    → (pos 0 ≤ℤ since_checkpoint q cl) × IsShort (since_checkpoint q cl)
since_checkpoint-bounds q cl n t =
    let early = t.past in
    let at = t.t_c_time in
    let span : s64 (q.now -ℤ cl.t_c) ≡ q.now -ℤ cl.t_c =
      s64_id _ (omega int_laws) (omega int_laws) in
    let most = t.mbuffer_short in
    let least = t.mbuffer_nonneg in
    rw (span) (elim (Bool-cases (ltb_ℤ (q.now -ℤ cl.t_c) cl.mbuffer)) [
      | inl e ↦
          let less : (q.now -ℤ cl.t_c) ≤ℤ cl.mbuffer = ground arith in
          rw (e) (omega int_laws, (omega int_laws, omega int_laws))
      | inr e ↦ rw (e) (least, most)
    ])

below_zero : (b : Bool) (z : ℤ) → pos 0 ≤ℤ z → (if b then pos 0 else pos 0 -ℤ z) ≤ℤ pos 0
below_zero true z h = omega int_laws
below_zero false z h = omega int_laws

low_nonpos :
    (h : Bool) (cl : HtbClass) (now : ℤ) → IsTimely now (timing cl) → htb_lowater h cl ≤ℤ pos 0
unfolding htb_lowater
low_nonpos true cl now t =
    let small = t.cbuffer_short in
    let n = neg_fits cl.cbuffer (omega arith, omega arith) in
    rw (n) (below_zero (is_cant_send cl.cmode) cl.cbuffer t.cbuffer_nonneg)
low_nonpos false cl now t = omega arith

high_nonpos :
    (h : Bool) (cl : HtbClass) (now : ℤ) → IsTimely now (timing cl) → htb_hiwater h cl ≤ℤ pos 0
unfolding htb_hiwater
high_nonpos true cl now t =
    let small = t.buffer_short in
    let n = neg_fits cl.buffer (omega arith, omega arith) in
    let b = t.buffer_nonneg in
    rw (n) (elim (Bool-cases (is_can_send cl.cmode)) [
      | inl e ↦ rw (e) (omega int_laws)
      | inr e ↦ rw (e) (omega arith)
    ])
high_nonpos false cl now t = omega arith

-- The time that a class waits is not negative, with hysteresis or without.
pub htb_class_mode-wait :
    (hysteresis : Bool) (cl : HtbClass) (now diff : ℤ)
    → IsTimely now (timing cl)
    → pos 0 ≤ℤ diff
    → IsShort diff
    → (pos 0 ≤ℤ (htb_class_mode hysteresis cl diff).1)
      × IsTime (htb_class_mode hysteresis cl diff).1
unfolding htb_class_mode
htb_class_mode-wait hysteresis cl now diff t d s =
    let ts = t.tokens_short in
    let cs = t.ctokens_short in
    let c_sum : s64 (cl.ctokens +ℤ diff) ≡ cl.ctokens +ℤ diff =
      s64_id _ (omega int_laws) (omega int_laws) in
    let t_sum : s64 (cl.tokens +ℤ diff) ≡ cl.tokens +ℤ diff =
      s64_id _ (omega int_laws) (omega int_laws) in
    let c_neg = neg_fits (cl.ctokens +ℤ diff) (omega int_laws, omega int_laws) in
    let t_neg = neg_fits (cl.tokens +ℤ diff) (omega int_laws, omega int_laws) in
    let low = low_nonpos hysteresis cl now t in
    let high = high_nonpos hysteresis cl now t in
    rw (c_sum, t_sum)
      (elim (Bool-cases (ltb_ℤ (cl.ctokens +ℤ diff) (htb_lowater hysteresis cl))) [
        | inl e ↦
            let below : (cl.ctokens +ℤ diff) ≤ℤ htb_lowater hysteresis cl = ground arith in
            rw (e, c_neg) (omega int_laws, (omega int_laws, omega int_laws))
        | inr e ↦
            rw (e) (elim (Bool-cases (ltb_ℤ (cl.tokens +ℤ diff) (htb_hiwater hysteresis cl))) [
              | inl f ↦
                  let below : (cl.tokens +ℤ diff) ≤ℤ htb_hiwater hysteresis cl = ground arith in
                  rw (f, t_neg) (omega int_laws, (omega int_laws, omega int_laws))
              | inr f ↦ rw (f) (d, (omega arith, omega arith))
            ])
      ])
