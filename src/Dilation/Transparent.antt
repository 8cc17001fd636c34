-- ===== src/Dilation/Transparent.antt =====
-- What a frozen span does to the virtual clocks of the group.
use virtual_time_kernel.Base.{ℕ, suc, ◌+◌, ◌^◌, ◌<◌, ◌≡◌, refl, ap, false}
use virtual_time_kernel.Base.Int.{
  ℤ, pos, pos_part, neg_part, ◌+ℤ◌, ◌-ℤ◌, ◌≤ℤ◌, ◌<ℤ◌, int_laws, eq_of_parts,
}
use virtual_time_kernel.Math64.{Math64}
use virtual_time_kernel.Timespec.{Timespec, timespec_to_ns}
use virtual_time_kernel.Task.{Task, Forest, node, In_forest, Kernel}
use virtual_time_kernel.Clock.{real_virtual_timekeeping}
use virtual_time_kernel.Clock.Range.{IsInstant, elapsed, InVirtualTime, IsReading}
use virtual_time_kernel.Clock.Reading.{dilated}
use virtual_time_kernel.Clock.Advance.{reading_lem, virtual_clock}
use virtual_time_kernel.Dilation.{freeze_time, unfreeze_time}
use virtual_time_kernel.Dilation.Thaw.{at_reading, unfreeze_time-freeze_time}

-- Two readings find the same running time, so they report the same virtual time.
same_report :
    (m : Math64) {d : ℕ} (t u : Task) (ts us : Timespec)
    → InVirtualTime d t
    → IsReading t (timespec_to_ns ts)
    → InVirtualTime d u
    → IsReading u (timespec_to_ns us)
    → virtual_clock t ≡ virtual_clock u
    → elapsed t (timespec_to_ns ts) ≡ elapsed u (timespec_to_ns us)
    → timespec_to_ns (real_virtual_timekeeping m t ts).1
      ≡ timespec_to_ns (real_virtual_timekeeping m u us).1
same_report m {d} t u ts us v r w s clocks spans =
    let (t_same, _, t_reported, _) = reading_lem m t ts v r in
    let (u_same, _, u_reported, _) = reading_lem m u us w s in
    let grown : dilated d (elapsed t (timespec_to_ns ts))
        ≡ dilated d (elapsed u (timespec_to_ns us)) =
      ap (dilated d) spans in
    rw (t_reported, u_reported, t_same, u_same)
      (eq_of_parts _ _ (
        omega
          (int_laws, ap pos_part clocks, ap neg_part clocks, ap pos_part grown, ap neg_part grown)))

module _ (m : Math64) (wall : ℕ → Timespec) where
  -- A frozen span leaves no trace in the leader's virtual time: after a freeze and an unfreeze it is
  -- told, at a reading, what it would have been told that much earlier without them.
  pub freeze_is_transparent :
      {d : ℕ} (p : ℕ) (kids : Forest) (k : Kernel) (ts us : Timespec)
      → In_forest p kids ≡ false
      → (k.tasks p).freeze_start_nsec ≡ pos 0
      → InVirtualTime d (k.tasks p)
      → IsInstant (at_reading wall k.reads)
      → IsInstant (at_reading wall (suc k.reads))
      → pos 0 <ℤ at_reading wall k.reads
      → at_reading wall k.reads ≤ℤ at_reading wall (suc k.reads)
      → pos_part (k.tasks p).freeze_past_nsec + pos_part (at_reading wall (suc k.reads)) < 2 ^ 61
      → IsReading (k.tasks p) (timespec_to_ns us)
      → IsInstant (timespec_to_ns ts)
      → timespec_to_ns us +ℤ (at_reading wall (suc k.reads) -ℤ at_reading wall k.reads)
        ≡ timespec_to_ns ts
      → let k' = unfreeze_time m wall (node p kids) (freeze_time m wall p k) in
        timespec_to_ns (real_virtual_timekeeping m (k'.tasks p) ts).1
        ≡ timespec_to_ns (real_virtual_timekeeping m (k.tasks p) us).1
  freeze_is_transparent {d} p kids k ts us out idle v first second after forward room reading late
        shifted =
      let t : Task = k.tasks p in
      let span : ℤ = at_reading wall (suc k.reads) -ℤ at_reading wall k.reads in
      let u : Task = record t { freeze_past_nsec = t.freeze_past_nsec +ℤ span } in
      let done =
        unfreeze_time-freeze_time m wall p kids k out idle v.freeze_past first second after in
      let spans : elapsed u (timespec_to_ns ts) ≡ elapsed t (timespec_to_ns us) =
        rw (← shifted) (eq_of_parts _ _ (omega int_laws)) in
      let w : InVirtualTime d u = record {
        is_tdf = v.is_tdf;
        tdf_pos = v.tdf_pos;
        tdf_bound = v.tdf_bound;
        physical_start = v.physical_start;
        physical_past = v.physical_past;
        virtual_start = v.virtual_start;
        started = v.started;
        virtual_past = v.virtual_past;
        freeze_past = omega int_laws;
      } in
      let r : IsReading u (timespec_to_ns ts) = record {
        instant = late;
        ahead = rw spans reading.ahead;
        behind = rw spans reading.behind;
      } in
      rw done.0 (same_report m u t ts us w r v reading refl spans)
