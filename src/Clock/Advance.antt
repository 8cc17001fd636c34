-- ===== src/Clock/Advance.antt =====
-- The virtual clock between two readings: continuity, rate and monotonicity.
use virtual_time_kernel.Base.{div_bounds, ℕ, ◌+◌, ◌*◌, ◌/◌, ◌≤◌, ◌<◌, ◌≡◌, refl, false, arith, ◌||◌}
use virtual_time_kernel.Base.Int.{
  ℤ, pos, pos_part, neg_part, ◌+ℤ◌, ◌-ℤ◌, ◌≤ℤ◌, eqb_ℤ, int_laws, eq_of_parts,
}
use virtual_time_kernel.Base.Word.{s64, s64_id, InS64}
use virtual_time_kernel.Math64.{Math64}
use virtual_time_kernel.Timespec.{Timespec, timespec_to_ns, ns_to_timespec, IsNormal}
use virtual_time_kernel.Timespec.RoundTrip.{timespec_to_ns-ns_to_timespec}
use virtual_time_kernel.Task.{Task}
use virtual_time_kernel.Clock.{real_virtual_timekeeping}
use virtual_time_kernel.Clock.Range.{InVirtualTime, accounted, elapsed, IsReading}
use virtual_time_kernel.Clock.Reading.{
  dilated, dilated_parts, dilated_bound, update_physical_lem, update_virtual_lem,
}

-- The virtual clock before it is wrapped.
abbrev pub virtual_clock : Task → ℤ
virtual_clock t = t.virtual_start_nsec +ℤ t.virtual_past_nsec

-- A task as a reading at `now` leaves it, without machine arithmetic.
abbrev pub read_at : ℕ → Task → ℤ → Task
read_at d t now = record t {
  physical_past_nsec = t.physical_past_nsec +ℤ elapsed t now;
  virtual_past_nsec = t.virtual_past_nsec +ℤ dilated d (elapsed t now);
}

module _ (m : Math64) {d : ℕ} (t : Task) (ts : Timespec) (v : InVirtualTime d t)
    (r : IsReading t (timespec_to_ns ts)) where
  dilation_nonzero : eqb_ℤ t.dilation (pos 0) || eqb_ℤ t.virtual_start_nsec (pos 0) ≡ false
  dilation_nonzero =
      let p = v.tdf_pos in
      let q = v.started in let z = v.virtual_start.nonneg in rw v.is_tdf (ground arith)

  reading_eq : real_virtual_timekeeping m t ts ≡ (
    read_at d t (timespec_to_ns ts),
    ns_to_timespec m (virtual_clock (read_at d t (timespec_to_ns ts))),
  )
  unfolding real_virtual_timekeeping
  reading_eq =
      let now : ℤ = timespec_to_ns ts in
      let b = dilated_bound d (elapsed t now) v.tdf_pos in
      let fits : s64 (virtual_clock (read_at d t now)) ≡ virtual_clock (read_at d t now) =
        s64_id _ (omega int_laws) (omega int_laws) in
      rw (
        dilation_nonzero,
        update_physical_lem ts v r,
        update_virtual_lem m
            (record t { physical_past_nsec = t.physical_past_nsec +ℤ elapsed t now })
            (elapsed t now) v.is_tdf v.tdf_pos v.tdf_bound v.virtual_past (r.ahead, r.behind),
        fits,
      )

  -- A reading by a task in virtual time accounts for all physical time up to the reading, and adds
  -- the elapsed running time divided by the dilation, on the branch without division too; it
  -- reports the new virtual clock as a normal timespec. No sum overflows.
  pub reading_lem :
      let (t', ts') = real_virtual_timekeeping m t ts in
      (t' ≡ read_at d t (timespec_to_ns ts))
      × IsNormal ts'
      × (timespec_to_ns ts' ≡ virtual_clock t')
      × (accounted t' ≡ timespec_to_ns ts)
  reading_lem =
      let now : ℤ = timespec_to_ns ts in
      let b = dilated_bound d (elapsed t now) v.tdf_pos in
      let fits : InS64 (virtual_clock (read_at d t now)) = omega int_laws in
      let back = timespec_to_ns-ns_to_timespec m (virtual_clock (read_at d t now)) fits in
      rw reading_eq (refl, back.0, back.1, eq_of_parts _ _ (omega int_laws))

  -- The reported virtual time moves by the elapsed running time over the dilation, rounded towards
  -- the last reading, by less than a nanosecond: d * advance <= 1000 * elapsed < d * (advance + 1).
  pub advance_rate :
      accounted t ≤ℤ timespec_to_ns ts
      → let advance = timespec_to_ns (real_virtual_timekeeping m t ts).1 -ℤ virtual_clock t in
        (neg_part advance ≡ 0)
        × (d * pos_part advance ≤ 1000 * pos_part (elapsed t (timespec_to_ns ts)))
        × (1000 * pos_part (elapsed t (timespec_to_ns ts)) < d * (pos_part advance + 1))
  advance_rate forward =
      let (same, _, reported, _) = reading_lem in
      let e : timespec_to_ns (real_virtual_timekeeping m t ts).1 -ℤ virtual_clock t
          ≡ dilated d (elapsed t (timespec_to_ns ts)) =
        rw (reported, same) (eq_of_parts _ _ (omega int_laws)) in
      let parts = dilated_parts d (elapsed t (timespec_to_ns ts)) v.tdf_pos in
      let split = div_bounds (pos_part (elapsed t (timespec_to_ns ts)) * 1000) d v.tdf_pos in
      let none_behind : neg_part (elapsed t (timespec_to_ns ts)) ≡ 0 = omega int_laws in
      let none_lost : neg_part (elapsed t (timespec_to_ns ts)) * 1000 / d ≡ 0 =
        rw none_behind (grind arith) in
      rw (e, parts.0, parts.1) (none_lost, omega arith, omega arith)

  -- Time does not run backwards: a reading no earlier than the last one reports no earlier time.
  pub advance_monotone :
      accounted t ≤ℤ timespec_to_ns ts
      → virtual_clock t ≤ℤ timespec_to_ns (real_virtual_timekeeping m t ts).1
  advance_monotone forward = let a = advance_rate forward in omega int_laws
