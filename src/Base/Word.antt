-- ===== src/Base/Word.antt =====
-- Machine words: signed ones as integers that wrap, unsigned ones as numbers.
use virtual_time_kernel.Base.{
  ℕ, ◌-◌, ◌*◌, ◌/◌, ◌%◌, ◌^◌, ◌≤◌, ◌<◌, ◌≡◌, ap, arith, ltb, if◌then◌else◌,
}
use Prim.Native.Nat.{zero, suc, min, digits, bit_and, bit_and-bitwise}
use virtual_time_kernel.Base.Int.{ℤ, pos, negsuc, pos_part, neg_part}

-- A value stored into an `s64`: the representative of its class modulo 2 ^ 64.
wrap_pos : ℕ → ℕ → ℤ
wrap_pos half m = if ltb m half then pos m else negsuc (2 * half - 1 - m)

wrap_neg : ℕ → ℕ → ℤ
wrap_neg half m = if ltb m half then negsuc m else pos (2 * half - 1 - m)

unfoldable pub s64 : ℤ → ℤ
unfolding wrap_pos wrap_neg
s64 (pos n) = wrap_pos (2 ^ 63) (n % 2 ^ 64)
s64 (negsuc n) = wrap_neg (2 ^ 63) (n % 2 ^ 64)

-- A value stored into an `int` or an `s32`.
unfoldable pub s32 : ℤ → ℤ
unfolding wrap_pos wrap_neg
s32 (pos n) = wrap_pos (2 ^ 31) (n % 2 ^ 32)
s32 (negsuc n) = wrap_neg (2 ^ 31) (n % 2 ^ 32)

-- The bit pattern of a signed value, as a `u64`.
unfoldable pub to_u64 : ℤ → ℕ
to_u64 (pos n) = n % 2 ^ 64
to_u64 (negsuc n) = 2 ^ 64 - 1 - n % 2 ^ 64

abbrev pub u64 : ℕ → ℕ
u64 n = n % 2 ^ 64

abbrev pub u32 : ℕ → ℕ
u32 n = n % 2 ^ 32

-- The values of an `s64`.
abbrev pub InS64 : ℤ → Type 0
InS64 z = (pos_part z < 2 ^ 63) × (neg_part z ≤ 2 ^ 63)

abbrev pub InS32 : ℤ → Type 0
InS32 z = (pos_part z < 2 ^ 31) × (neg_part z ≤ 2 ^ 31)

pub s64_id : (z : ℤ) → pos_part z < 2 ^ 63 → neg_part z ≤ 2 ^ 63 → s64 z ≡ z
unfolding s64
s64_id (pos n) p q = ground arith
s64_id (negsuc n) p q = ground arith

-- The same by parts, for arithmetic over values that wrap.
pub s64_pos : (z : ℤ) → pos_part z < 2 ^ 63 → neg_part z ≤ 2 ^ 63 → pos_part (s64 z) ≡ pos_part z
s64_pos z p q = ap pos_part (s64_id z p q)

pub s64_neg : (z : ℤ) → pos_part z < 2 ^ 63 → neg_part z ≤ 2 ^ 63 → neg_part (s64 z) ≡ neg_part z
s64_neg z p q = ap neg_part (s64_id z p q)

pub s32_id : (z : ℤ) → pos_part z < 2 ^ 31 → neg_part z ≤ 2 ^ 31 → s32 z ≡ z
unfolding s32
s32_id (pos n) p q = ground arith
s32_id (negsuc n) p q = ground arith

pub s64-InS64 : (z : ℤ) → InS64 (s64 z)
unfolding s64
s64-InS64 (pos n) = ground arith
s64-InS64 (negsuc n) = ground arith

pub to_u64_id : (z : ℤ) → neg_part z ≡ 0 → pos_part z < 2 ^ 64 → to_u64 z ≡ pos_part z
unfolding to_u64
to_u64_id (pos n) p q = omega arith
to_u64_id (negsuc n) p q = ground arith

digits_le : (n a b : ℕ) → digits (λ b. zero) min n a b ≤ a
digits_le zero a b = omega arith
digits_le (suc n) zero b = omega arith
digits_le (suc n) (suc a) b = let ih = digits_le n (suc a / 2) (b / 2) in ground arith

-- A number under a mask is not larger.
pub bit_and_le : (a b : ℕ) → bit_and a b ≤ a
bit_and_le a b = rw (bit_and-bitwise a b) (digits_le a a b)
