-- ===== src/Psched.antt =====
-- net_both/sched/sch_generic.c and include/net/sch_generic.h: rates of a traffic class, dilated, and
-- the reciprocal by which the fast path multiplies in place of a division.
pub mod Calibrate
pub mod Dilated
use virtual_time_kernel.Base.{
  ℕ, zero, suc, ◌+◌, ◌-◌, ◌*◌, ◌/◌, ◌%◌, ◌^◌, Bool, true, false, ◌||◌, Option, none, some, ltb, leb,
  ◌==◌, if◌then◌else◌,
}
use virtual_time_kernel.Base.Int.{ℤ, pos, ltb_ℤ}
use virtual_time_kernel.Base.Word.{u32, u64, to_u64}
use virtual_time_kernel.Math64.{Math64}
use virtual_time_kernel.Timespec.{nsec_per_sec}
use Prim.Native.Nat.{bit_and}

pub record PschedRatecfg : Type 0 where
  pub rate_bytes_ps : ℕ
  pub undilated_rate_bytes_ps : ℕ
  pub mult : ℕ
  pub overhead : ℕ
  pub linklayer : ℕ
  pub shift : ℕ

-- The fields of `struct tc_ratespec` that the code reads.
pub record TcRatespec : Type 0 where
  pub rate : ℕ
  pub overhead : ℕ
  pub linklayer : ℕ

-- TC_LINKLAYER_MASK, TC_LINKLAYER_ATM and TC_LINKLAYER_UNAWARE of the kernel's interface for traffic control, and the
-- macro DIV_ROUND_UP, which the sources use and do not hold.
pub record LinkLayer : Type 0 where
  pub linklayer_mask : ℕ
  pub linklayer_atm : ℕ
  pub linklayer_unaware : ℕ
  pub div_round_up : ℕ → ℕ → ℕ

-- What both routines do with the rate, for a caller at the dilation `tdf`.
unfoldable pub dilate_rate : ℕ → ℤ → ℕ
unfolding to_u64
dilate_rate rate tdf = if ltb_ℤ (pos 0) tdf then u64 (rate * 1000) / to_u64 tdf else rate

-- From 10^9 the top bit is reached after 34 shifts.
abbrev pub loop_fuel : ℕ
loop_fuel = 35

-- ~0U
abbrev pub u32_max : ℕ
u32_max = 2 ^ 32 - 1

abbrev pub with_mult : PschedRatecfg → Option (ℕ × ℕ) → Option PschedRatecfg
with_mult r none = none
with_mult r (some (mult, shift)) = some (record r { mult = mult; shift = shift })

module _ (m : Math64) where
  -- The endless loop, on fuel: `none` where the fuel runs out.
  unfoldable pub calibrate : ℕ → ℕ → ℕ → ℕ → Option (ℕ × ℕ)
  calibrate zero factor rate shift = none
  calibrate (suc fuel) factor rate shift =
      let mult = u32 (m.div64_u64 factor rate) in
      let rest = calibrate fuel (u64 (factor * 2)) rate ((shift + 1) % 256) in
      if (mult / 2 ^ 31 % 2 == 1) || (factor / 2 ^ 63 % 2 == 1) then some (mult, shift) else rest

  unfoldable pub set_mult : PschedRatecfg → Option PschedRatecfg
  set_mult r =
      let unit : PschedRatecfg = record r { mult = 1; shift = 0 } in
      if ltb 0 r.rate_bytes_ps
      then with_mult r (calibrate loop_fuel nsec_per_sec r.rate_bytes_ps 0)
      else some unit

module _ (m : Math64) (link : LinkLayer) where
  -- `tdf` is the dilation of the caller.
  unfoldable pub psched_ratecfg_precompute : ℤ → TcRatespec → ℕ → Option PschedRatecfg
  psched_ratecfg_precompute tdf conf rate64 =
      let rate = if ltb conf.rate rate64 then rate64 else conf.rate in
      set_mult m (record {
        rate_bytes_ps = dilate_rate rate tdf;
        undilated_rate_bytes_ps = rate;
        mult = 1;
        overhead = conf.overhead;
        linklayer = bit_and conf.linklayer link.linklayer_mask;
        shift = 0;
      })

  unfoldable pub psched_ratecfg_dilate : PschedRatecfg → ℤ → Option PschedRatecfg
  psched_ratecfg_dilate r tdf =
      if ltb_ℤ (pos 0) tdf
      then set_mult m (record r { rate_bytes_ps = dilate_rate r.undilated_rate_bytes_ps tdf })
      else some r

  unfoldable pub psched_l2t_ns : PschedRatecfg → ℕ → ℕ
  psched_l2t_ns r len =
      let total = u32 (len + r.overhead) in
      if r.linklayer == link.linklayer_atm
      then u64 (u32 (link.div_round_up total 48 * 53) * r.mult) / 2 ^ r.shift
      else u64 (total * r.mult) / 2 ^ r.shift

  unfoldable pub psched_ratecfg_getrate : PschedRatecfg → TcRatespec
  psched_ratecfg_getrate r = record {
    rate = if ltb u32_max r.rate_bytes_ps then u32_max else r.rate_bytes_ps;
    overhead = r.overhead;
    linklayer = bit_and r.linklayer link.linklayer_mask;
  }
