-- ===== src/Timekeeper/Read.antt =====
-- kernel/time/timekeeping.c: the clocks that are read from the timekeeper. Each is what one round of
-- the reading loop gives whose sequence number did not change; `cycle_now` is the counter then.
use virtual_time_kernel.Base.{ℕ, Bool, if◌then◌else◌}
use virtual_time_kernel.Base.Int.{ℤ, pos, negsuc, ◌+ℤ◌, quot}
use virtual_time_kernel.Base.Word.{s64, to_u64}
use virtual_time_kernel.Math64.{Math64}
use virtual_time_kernel.Timespec.{Timespec, timespec_add, timespec_add_ns, set_normalized_timespec}
use virtual_time_kernel.Ktime.{ktime_set, ktime_add_ns, ktime_sub, timespec_to_ktime}
use virtual_time_kernel.Jiffies.{Timeval}
use virtual_time_kernel.Task.{Task}
use virtual_time_kernel.Clock.{real_virtual_timekeeping, monotonic_virtual_timekeeping}
use virtual_time_kernel.Timekeeper.{
  Timekeeping, Ntp, timekeeping_get_ns, timekeeping_get_ns_raw, tk_xtime, negated,
}

-- -EAGAIN
abbrev pub eagain : ℤ
eagain = negsuc 10

abbrev pub whole : ℤ → Timespec
whole sec = record { tv_sec = s64 sec; tv_nsec = pos 0 }

module _ (m : Math64) where
  unfoldable pub getnstimeofday_raw : Timekeeping → ℕ → Timespec × ℤ
  unfolding timekeeping_get_ns to_u64
  getnstimeofday_raw w cycle_now = (
    timespec_add_ns m (whole (pos w.tk.xtime_sec)) (to_u64 (timekeeping_get_ns w cycle_now)),
    if w.suspended then eagain else pos 0,
  )

  unfoldable pub ktime_get_ts : Timekeeping → ℕ → Timespec
  unfolding timekeeping_get_ns to_u64
  ktime_get_ts w cycle_now =
      timespec_add_ns m (whole (s64 (pos w.tk.xtime_sec) +ℤ w.tk.wall_to_monotonic.tv_sec))
        (to_u64 (s64 (timekeeping_get_ns w cycle_now +ℤ w.tk.wall_to_monotonic.tv_nsec)))

  unfoldable pub ktime_get : Timekeeping → ℕ → ℤ
  unfolding timekeeping_get_ns ktime_set
  ktime_get w cycle_now = s64 (
      ktime_set (s64 (pos w.tk.xtime_sec +ℤ w.tk.wall_to_monotonic.tv_sec)) 0
      +ℤ s64 (timekeeping_get_ns w cycle_now +ℤ w.tk.wall_to_monotonic.tv_nsec))

  unfoldable pub timekeeping_clocktai : Timekeeping → ℕ → Timespec
  unfolding timekeeping_get_ns to_u64
  timekeeping_clocktai w cycle_now =
      timespec_add_ns m (whole (pos w.tk.xtime_sec +ℤ w.tk.tai_offset))
        (to_u64 (timekeeping_get_ns w cycle_now))

  unfoldable pub ktime_get_clocktai : Timekeeping → ℕ → ℤ
  unfolding timekeeping_clocktai timespec_to_ktime
  ktime_get_clocktai w cycle_now = timespec_to_ktime (timekeeping_clocktai w cycle_now)

  unfoldable pub getrawmonotonic : Ntp → Timekeeping → ℕ → Timespec
  unfolding timekeeping_get_ns_raw to_u64
  getrawmonotonic ntp w cycle_now =
      timespec_add_ns m w.tk.raw_time (to_u64 (timekeeping_get_ns_raw ntp w cycle_now))

  unfoldable pub getnstime_raw_and_real : Ntp → Timekeeping → ℕ → Timespec × Timespec
  unfolding timekeeping_get_ns_raw timekeeping_get_ns to_u64
  getnstime_raw_and_real ntp w cycle_now = (
    timespec_add_ns m w.tk.raw_time (to_u64 (timekeeping_get_ns_raw ntp w cycle_now)),
    timespec_add_ns m (whole (pos w.tk.xtime_sec)) (to_u64 (timekeeping_get_ns w cycle_now)),
  )

  -- The virtual clocks of a task, over a reading of the timekeeper.
  unfoldable pub realtime_clock : Task → Timekeeping → ℕ → Task × Timespec
  unfolding getnstimeofday_raw
  realtime_clock t w cycle_now = real_virtual_timekeeping m t (getnstimeofday_raw w cycle_now).0

  unfoldable pub monotonic_clock : Task → Timekeeping → ℕ → Task × Timespec
  unfolding timekeeping_get_ns
  monotonic_clock t w cycle_now =
      monotonic_virtual_timekeeping m t (s64 (pos w.tk.xtime_sec)) (timekeeping_get_ns w cycle_now)
        w.tk.wall_to_monotonic

  unfoldable pub do_gettimeofday : Task → Timekeeping → ℕ → Task × Timeval
  unfolding realtime_clock
  do_gettimeofday t w cycle_now =
      let (t', now) = realtime_clock t w cycle_now in
      (t', record { tv_sec = now.tv_sec; tv_usec = quot now.tv_nsec (pos 1000) })

  unfoldable pub ktime_get_real : Task → Timekeeping → ℕ → Task × ℤ
  unfolding realtime_clock timespec_to_ktime
  ktime_get_real t w cycle_now =
      let (t', now) = realtime_clock t w cycle_now in (t', timespec_to_ktime now)

  unfoldable pub get_monotonic_boottime : Timekeeping → ℕ → Timespec
  unfolding timekeeping_get_ns to_u64
  get_monotonic_boottime w cycle_now =
      let tomono = w.tk.wall_to_monotonic in
      let sleep = w.tk.total_sleep_time in
      timespec_add_ns m (whole (s64 (pos w.tk.xtime_sec) +ℤ s64 (tomono.tv_sec +ℤ sleep.tv_sec)))
        (to_u64 (s64 (s64 (timekeeping_get_ns w cycle_now +ℤ tomono.tv_nsec) +ℤ sleep.tv_nsec)))

  unfoldable pub ktime_get_boottime : Timekeeping → ℕ → ℤ
  unfolding get_monotonic_boottime timespec_to_ktime
  ktime_get_boottime w cycle_now = timespec_to_ktime (get_monotonic_boottime w cycle_now)

-- The real time of boot.
unfoldable pub getboottime : Timekeeping → Timespec
unfolding negated
getboottime w =
    let mono = w.tk.wall_to_monotonic in
    let sleep = w.tk.total_sleep_time in
    negated (record {
      tv_sec = s64 (mono.tv_sec +ℤ sleep.tv_sec);
      tv_nsec = s64 (mono.tv_nsec +ℤ sleep.tv_nsec);
    })

unfoldable pub monotonic_to_bootbased : Timekeeping → Timespec → Timespec
unfolding timespec_add
monotonic_to_bootbased w ts = timespec_add ts w.tk.total_sleep_time

abbrev pub get_seconds : Timekeeping → ℕ
get_seconds w = w.tk.xtime_sec

abbrev pub current_kernel_time : Timekeeping → Timespec
current_kernel_time w = tk_xtime w.tk

unfoldable pub get_monotonic_coarse : Timekeeping → Timespec
unfolding tk_xtime set_normalized_timespec
get_monotonic_coarse w =
    let now = tk_xtime w.tk in
    let mono = w.tk.wall_to_monotonic in
    set_normalized_timespec (s64 (now.tv_sec +ℤ mono.tv_sec)) (s64 (now.tv_nsec +ℤ mono.tv_nsec))

unfoldable pub get_xtime_and_monotonic_and_sleep_offset :
    Timekeeping → Timespec × Timespec × Timespec
unfolding tk_xtime
get_xtime_and_monotonic_and_sleep_offset w =
    (tk_xtime w.tk, w.tk.wall_to_monotonic, w.tk.total_sleep_time)

-- The monotonic time, and the three offsets.
unfoldable pub ktime_get_update_offsets : Timekeeping → ℕ → ℤ × ℤ × ℤ × ℤ
unfolding timekeeping_get_ns ktime_set to_u64
ktime_get_update_offsets w cycle_now =
    let tk = w.tk in
    let now =
      ktime_add_ns (ktime_set (s64 (pos tk.xtime_sec)) 0)
        (to_u64 (timekeeping_get_ns w cycle_now)) in
    (ktime_sub now tk.offs_real, tk.offs_real, tk.offs_boot, tk.offs_tai)

unfoldable pub ktime_get_monotonic_offset : Timekeeping → ℤ
unfolding timespec_to_ktime
ktime_get_monotonic_offset w = timespec_to_ktime w.tk.wall_to_monotonic

abbrev pub timekeeping_get_tai_offset : Timekeeping → ℤ
timekeeping_get_tai_offset w = w.tk.tai_offset

abbrev pub timekeeping_valid_for_hres : Timekeeping → Bool
timekeeping_valid_for_hres w = w.clock.valid_for_hres

abbrev pub timekeeping_max_deferment : Timekeeping → ℕ
timekeeping_max_deferment w = w.clock.max_idle_ns
