-- ===== src/Math64.antt =====
-- The kernel's 64-bit division helpers (linux/math64.h), which the sources call and do not hold.
-- A parameter of the model: what the helpers return is what their documentation says of them.
use virtual_time_kernel.Base.{ℕ, ◌/◌, ◌%◌, ◌^◌, ◌<◌, ◌≡◌}
use virtual_time_kernel.Base.Int.{ℤ, pos, quot, rem}

pub record Math64 : Type 0 where
  -- signed 64bit divide
  pub div_s64 : ℤ → ℤ → ℤ
  pub div_s64-quot : (a : ℤ) (d : ℕ) → 0 < d → div_s64 a (pos d) ≡ quot a (pos d)
  -- signed 64bit divide with remainder: the quotient, and what is stored through the pointer
  pub div_s64_rem : ℤ → ℤ → ℤ × ℤ
  pub div_s64_rem-quot :
      (a : ℤ) (d : ℕ) → 0 < d → div_s64_rem a (pos d) ≡ (quot a (pos d), rem a (pos d))
  -- unsigned 64bit divide
  pub div64_u64 : ℕ → ℕ → ℕ
  pub div64_u64-div : (a d : ℕ) → 0 < d → div64_u64 a d ≡ a / d
  -- unsigned divide by repeated subtraction: the quotient as a `u32`, and the remainder
  pub iter_div_u64_rem : ℕ → ℕ → ℕ × ℕ
  pub iter_div_u64_rem-div : (a d : ℕ) → 0 < d → iter_div_u64_rem a d ≡ (a / d % 2 ^ 32, a % d)
  -- unsigned 64bit divide by a 32bit number, and the same with the remainder
  pub div_u64 : ℕ → ℕ → ℕ
  pub div_u64-div : (a d : ℕ) → 0 < d → d < 2 ^ 32 → div_u64 a d ≡ a / d
  pub div_u64_rem : ℕ → ℕ → ℕ × ℕ
  pub div_u64_rem-div : (a d : ℕ) → 0 < d → d < 2 ^ 32 → div_u64_rem a d ≡ (a / d, a % d)
  -- the macro do_div: the quotient that it leaves, and the remainder that it returns
  pub do_div : ℕ → ℕ → ℕ × ℕ
  pub do_div-div : (a d : ℕ) → 0 < d → d < 2 ^ 32 → do_div a d ≡ (a / d, a % d)
