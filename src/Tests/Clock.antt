-- ===== src/Tests/Clock.antt =====
-- Readings of a virtual clock.
use virtual_time_kernel.Base.{◌≡◌, refl, ◌+◌, ◌*◌, ◌≤◌, ◌<◌, arith}
use virtual_time_kernel.Base.Int.{pos_part, neg_part, ◌+ℤ◌, ◌-ℤ◌, ◌≤ℤ◌, quot, rem}
use virtual_time_kernel.Timespec.{Timespec, timespec_to_ns, ns_to_timespec, IsNormal}
use virtual_time_kernel.Clock.{
  real_virtual_timekeeping, update_physical_past_nsec, update_virtual_past_nsec,
}
use virtual_time_kernel.Base.{List, [], ◌∷◌}
use virtual_time_kernel.Clock.Range.{InVirtualTime, IsReading, accounted, elapsed}
use virtual_time_kernel.Clock.Advance.{read_at, virtual_clock, reading_lem, advance_rate}
use virtual_time_kernel.Tests.Samples.{math64, ns, half_speed}

pub half_speed-InVirtualTime : InVirtualTime 2000 half_speed
half_speed-InVirtualTime = record {
  is_tdf = refl;
  tdf_pos = omega arith;
  tdf_bound = omega arith;
  physical_start = omega arith;
  physical_past = omega arith;
  virtual_start = omega arith;
  started = omega arith;
  virtual_past = omega arith;
  freeze_past = omega arith;
}

pub half_speed-IsReading : IsReading half_speed (timespec_to_ns (ns 5000))
unfolding timespec_to_ns ◌-ℤ◌
half_speed-IsReading = omega arith

-- 4000 ns of running time are 2000 ns of virtual time.
half_speed_reads : (real_virtual_timekeeping math64 half_speed (ns 5000)).1 ≡ ns 3000
unfolding real_virtual_timekeeping update_physical_past_nsec update_virtual_past_nsec timespec_to_ns
    ns_to_timespec ◌-ℤ◌ quot rem
half_speed_reads = refl

reading_lem_example :
    let r = real_virtual_timekeeping math64 half_speed (ns 5000) in
    (r.0 ≡ read_at 2000 half_speed (timespec_to_ns (ns 5000)))
    × IsNormal r.1
    × (timespec_to_ns r.1 ≡ virtual_clock r.0)
    × (accounted r.0 ≡ timespec_to_ns (ns 5000))
reading_lem_example =
    reading_lem math64 half_speed (ns 5000) half_speed-InVirtualTime half_speed-IsReading

forward : accounted half_speed ≤ℤ timespec_to_ns (ns 5000)
unfolding timespec_to_ns ◌+ℤ◌
forward = omega arith

advance_rate_example :
    let advance =
      timespec_to_ns (real_virtual_timekeeping math64 half_speed (ns 5000)).1
      -ℤ virtual_clock half_speed in
    (neg_part advance ≡ 0)
    × (2000 * pos_part advance ≤ 1000 * pos_part (elapsed half_speed (timespec_to_ns (ns 5000))))
    × (1000 * pos_part (elapsed half_speed (timespec_to_ns (ns 5000)))
        < 2000 * (pos_part advance + 1))
advance_rate_example =
    advance_rate math64 half_speed (ns 5000) half_speed-InVirtualTime half_speed-IsReading forward

abbrev twice : List Timespec
twice = ns 5000 ∷ ns 9000 ∷ []
