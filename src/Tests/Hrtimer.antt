-- ===== src/Tests/Hrtimer.antt =====
-- A periodic timer that has missed two of its intervals.
use virtual_time_kernel.Base.{ℕ, ◌+◌, ◌*◌, ◌/◌, ◌^◌, ◌≤◌, ◌<◌, ◌≡◌, ◌∙◌, refl, ap, arith}
use virtual_time_kernel.Base.Int.{ℤ, pos, pos_part, ◌+ℤ◌, int_laws, eq_of_parts}
use virtual_time_kernel.Base.Word.{s64, s64_id}
use virtual_time_kernel.Hrtimer.{HrtimerOps, hrtimer_forward, hrtimer_forward_lem}

sum_fits : (t : ℤ) (e d : ℕ) → t ≡ pos e → e + d < 2 ^ 63 → s64 (t +ℤ pos d) ≡ pos (e + d)
sum_fits t e d same fits =
    ap (λ x. s64 (x +ℤ pos d)) same
    ∙ s64_id _ (omega int_laws) (omega int_laws)
    ∙ eq_of_parts _ _ (omega int_laws)

-- A timer that is its expiry.
abbrev timers : HrtimerOps ℤ
timers = record {
  hrtimer_get_expires = λ t. t;
  hrtimer_add_expires = λ t d. s64 (t +ℤ d);
  hrtimer_add_expires-moves = sum_fits;
  hrtimer_add_expires_ns = λ t d. s64 (t +ℤ pos d);
  hrtimer_add_expires_ns-moves = sum_fits;
  ktime_divns = λ a d. pos_part a / pos_part d;
  ktime_divns-div = λ a d p. refl;
}

hrtimer_forward_example :
    let (timer', orun) = hrtimer_forward timers (pos 1) (pos 1000) (pos 1250) (pos 100) in
    (timer' ≡ pos (1000 + 100 * orun))
    × (1250 < 1000 + 100 * orun)
    × (1000 + 100 * orun ≤ 1250 + 100)
hrtimer_forward_example =
    hrtimer_forward_lem timers 1 (pos 1000) 1000 1250 100 refl (omega arith) (omega arith)
      (omega arith)
