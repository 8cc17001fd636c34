-- ===== src/Tests/Psched.antt =====
-- Dilated rates.
use virtual_time_kernel.Base.{ℕ, ◌≡◌, refl, ◌+◌, ◌-◌, ◌*◌, ◌/◌, ◌≤◌, arith, some}
use virtual_time_kernel.Base.Int.{pos}
use virtual_time_kernel.Timespec.{nsec_per_sec}
use virtual_time_kernel.Psched.{
  PschedRatecfg, TcRatespec, LinkLayer, calibrate, loop_fuel, set_mult, dilate_rate,
  psched_ratecfg_precompute, psched_ratecfg_dilate, psched_l2t_ns,
}
use virtual_time_kernel.Psched.Calibrate.{IsReciprocal, calibrate_lem}
use virtual_time_kernel.Psched.Dilated.{psched_l2t_ns-le, psched_ratecfg_dilate-precompute}
use virtual_time_kernel.Tests.Samples.{math64}

abbrev pub ethernet : LinkLayer
ethernet = record {
  linklayer_mask = 15;
  linklayer_atm = 2;
  linklayer_unaware = 0;
  div_round_up = λ a b. (a + b - 1) / b;
}

-- 10 Mbit/s, in bytes, with no overhead.
abbrev ten_mbit : TcRatespec
ten_mbit = record { rate = 1_250_000; overhead = 0; linklayer = 1 }

abbrev pub configured : PschedRatecfg
configured = record {
  rate_bytes_ps = 1_250_000;
  undilated_rate_bytes_ps = 1_250_000;
  mult = 3_355_443_200;
  overhead = 0;
  linklayer = 1;
  shift = 22;
}

precomputed : psched_ratecfg_precompute math64 ethernet (pos 0) ten_mbit 0 ≡ some configured
unfolding psched_ratecfg_precompute dilate_rate set_mult calibrate
precomputed = refl

-- At half speed the link carries half as many bytes in a second of the wall clock.
calibrate_example :
    (mult shift : ℕ) × (calibrate math64 loop_fuel nsec_per_sec 1_250_000 0 ≡ some (mult, shift))
    × IsReciprocal 1_250_000 mult shift
calibrate_example = calibrate_lem math64 1_250_000 (omega arith)

configured-IsReciprocal : IsReciprocal 1_250_000 3_355_443_200 22
configured-IsReciprocal = record { exact = refl; fits = omega arith; short = omega arith }

psched_l2t_ns-le_example :
    psched_l2t_ns math64 ethernet configured 1500 * 1_250_000 ≤ nsec_per_sec * (1500 + 0)
psched_l2t_ns-le_example =
    psched_l2t_ns-le math64 ethernet configured 1500 configured-IsReciprocal (omega arith) refl
      (omega arith)

psched_ratecfg_dilate-precompute_example :
    psched_ratecfg_dilate math64 ethernet configured (pos 2000)
    ≡ psched_ratecfg_precompute math64 ethernet (pos 2000) ten_mbit 0
psched_ratecfg_dilate-precompute_example =
    psched_ratecfg_dilate-precompute math64 ethernet ten_mbit 0 2000 configured (omega arith)
      precomputed
