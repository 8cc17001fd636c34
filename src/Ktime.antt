-- ===== src/Ktime.antt =====
-- include/linux/ktime.h: times as 64-bit nanosecond counts. A `ktime_t` is its field tv64, on a
-- machine whose `long` has 64 bits.
pub mod Saturate
use virtual_time_kernel.Base.{
  ℕ, ◌-◌, ◌*◌, ◌^◌, Bool, true, false, Option, none, some, leb, if◌then◌else◌,
}
use virtual_time_kernel.Base.Int.{ℤ, pos, negsuc, ◌+ℤ◌, ◌-ℤ◌, ◌*ℤ◌, ltb_ℤ, eqb_ℤ, quot}
use virtual_time_kernel.Base.Word.{s64, u64, to_u64}
use virtual_time_kernel.Math64.{Math64}
use virtual_time_kernel.Timespec.{Timespec, nsec_per_sec, ns_to_timespec, ktime_sec_max}
use virtual_time_kernel.Jiffies.{Timeval, ns_to_timeval}

-- KTIME_MAX
abbrev pub ktime_max : ℤ
ktime_max = pos (2 ^ 63 - 1)

-- `nsecs` is an unsigned long.
unfoldable pub ktime_set : ℤ → ℕ → ℤ
ktime_set secs nsecs =
    if ltb_ℤ secs (pos ktime_sec_max)
    then s64 (s64 (secs *ℤ pos nsec_per_sec) +ℤ s64 (pos nsecs))
    else ktime_max

abbrev pub ktime_sub : ℤ → ℤ → ℤ
ktime_sub lhs rhs = s64 (lhs -ℤ rhs)

abbrev pub ktime_add : ℤ → ℤ → ℤ
ktime_add lhs rhs = s64 (lhs +ℤ rhs)

unfoldable pub timespec_to_ktime : Timespec → ℤ
unfolding ktime_set to_u64
timespec_to_ktime ts = ktime_set ts.tv_sec (to_u64 ts.tv_nsec)

unfoldable pub timeval_to_ktime : Timeval → ℤ
unfolding ktime_set to_u64
timeval_to_ktime tv = ktime_set tv.tv_sec (to_u64 (s64 (tv.tv_usec *ℤ pos 1000)))

abbrev pub ktime_equal : ℤ → ℤ → Bool
ktime_equal cmp1 cmp2 = eqb_ℤ cmp1 cmp2

unfoldable pub ktime_compare : ℤ → ℤ → ℤ
ktime_compare cmp1 cmp2 =
    if ltb_ℤ cmp1 cmp2 then negsuc 0 else if ltb_ℤ cmp2 cmp1 then pos 1 else pos 0

unfoldable pub ktime_after : ℤ → ℤ → Bool
unfolding ktime_compare
ktime_after cmp1 cmp2 = ltb_ℤ (pos 0) (ktime_compare cmp1 cmp2)

unfoldable pub ktime_before : ℤ → ℤ → Bool
unfolding ktime_compare
ktime_before cmp1 cmp2 = ltb_ℤ (ktime_compare cmp1 cmp2) (pos 0)

-- The signed sum of a time and an unsigned count.
abbrev pub ktime_add_ns : ℤ → ℕ → ℤ
ktime_add_ns kt nsval = s64 (kt +ℤ pos nsval)

abbrev pub ktime_sub_ns : ℤ → ℕ → ℤ
ktime_sub_ns kt nsval = s64 (kt -ℤ pos nsval)

abbrev pub ktime_add_us : ℤ → ℕ → ℤ
ktime_add_us kt usec = ktime_add_ns kt (u64 (usec * 1000))

abbrev pub ktime_add_ms : ℤ → ℕ → ℤ
ktime_add_ms kt msec = ktime_add_ns kt (u64 (msec * 1_000_000))

abbrev pub ktime_sub_us : ℤ → ℕ → ℤ
ktime_sub_us kt usec = ktime_sub_ns kt (u64 (usec * 1000))

abbrev pub ns_to_ktime : ℕ → ℤ
ns_to_ktime ns = ktime_add_ns (pos 0) ns

abbrev pub ms_to_ktime : ℕ → ℤ
ms_to_ktime ms = ktime_add_ms (pos 0) ms

-- kernel/hrtimer.c: a sum that overflowed stands at KTIME_SEC_MAX seconds.
unfoldable pub ktime_add_safe : ℤ → ℤ → ℤ
unfolding ktime_set
ktime_add_safe lhs rhs =
    let res = ktime_add lhs rhs in
    if ltb_ℤ res (pos 0)
    then ktime_set (pos ktime_sec_max) 0
    else if ltb_ℤ res lhs
    then ktime_set (pos ktime_sec_max) 0
    else if ltb_ℤ res rhs
    then ktime_set (pos ktime_sec_max) 0
    else res

module _ (m : Math64) where
  abbrev pub ktime_to_timespec : ℤ → Timespec
  ktime_to_timespec kt = ns_to_timespec m kt

  unfoldable pub ktime_to_timespec_cond : ℤ → Option Timespec
  ktime_to_timespec_cond kt = if eqb_ℤ kt (pos 0) then none else some (ktime_to_timespec kt)

  unfoldable pub ktime_to_us : ℤ → ℤ
  ktime_to_us kt =
      let tv = ns_to_timeval m kt in s64 (s64 (tv.tv_sec *ℤ pos 1_000_000) +ℤ tv.tv_usec)

  unfoldable pub ktime_to_ms : ℤ → ℤ
  ktime_to_ms kt =
      let tv = ns_to_timeval m kt in s64 (s64 (tv.tv_sec *ℤ pos 1000) +ℤ quot tv.tv_usec (pos 1000))

  unfoldable pub ktime_us_delta : ℤ → ℤ → ℤ
  unfolding ktime_to_us
  ktime_us_delta later earlier = ktime_to_us (ktime_sub later earlier)
