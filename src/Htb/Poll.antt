-- ===== src/Htb/Poll.antt =====
-- sch_htb.c and sch_generic.c: taking over a dilation always ends, whatever the rate.
use virtual_time_kernel.Base.{ℕ, ◌≡◌, refl, ap, ltb, ltb→lt, some, Bool-cases, inl, inr}
use virtual_time_kernel.Base.Int.{ℤ, pos, ltb_ℤ}
use virtual_time_kernel.Math64.{Math64}
use virtual_time_kernel.Psched.{
  TcRatespec, psched_ratecfg_precompute, PschedRatecfg, LinkLayer, with_mult, set_mult,
  psched_ratecfg_dilate,
}
use virtual_time_kernel.Psched.Calibrate.{calibrate_lem}
use virtual_time_kernel.Task.{Kernel}
use virtual_time_kernel.Htb.{HtbSched}
use virtual_time_kernel.Htb.Charge.{poll_dilation}

set_mult-some : (m : Math64) (r : PschedRatecfg) → (r' : PschedRatecfg) × (set_mult m r ≡ some r')
unfolding set_mult
set_mult-some m r = elim (Bool-cases (ltb 0 r.rate_bytes_ps)) [
  | inl e ↦
      let (mult, shift, found, _) = calibrate_lem m r.rate_bytes_ps (ltb→lt 0 r.rate_bytes_ps e) in
      let r' : PschedRatecfg = record r { mult = mult; shift = shift } in
      rw (e) (r', ap (with_mult r) found)
  | inr e ↦ let r' : PschedRatecfg = record r { mult = 1; shift = 0 } in rw (e) (r', refl)
]

pub psched_ratecfg_precompute-some :
    (m : Math64) (link : LinkLayer) (tdf : ℤ) (conf : TcRatespec) (rate64 : ℕ)
    → (r : PschedRatecfg) × (psched_ratecfg_precompute m link tdf conf rate64 ≡ some r)
unfolding psched_ratecfg_precompute
psched_ratecfg_precompute-some m link tdf conf rate64 = set_mult-some m _

psched_ratecfg_dilate-some :
    (m : Math64) (link : LinkLayer) (r : PschedRatecfg) (tdf : ℤ)
    → (r' : PschedRatecfg) × (psched_ratecfg_dilate m link r tdf ≡ some r')
unfolding psched_ratecfg_dilate
psched_ratecfg_dilate-some m link r tdf = elim (Bool-cases (ltb_ℤ (pos 0) tdf)) [
  | inl e ↦ rw (e) (set_mult-some m _)
  | inr e ↦ rw (e) (r, refl)
]

pub poll_dilation-some :
    (m : Math64) (link : LinkLayer) (k : Kernel) (parent : ℕ) (q : HtbSched) (c : ℕ)
    → (r : Kernel × HtbSched) × (poll_dilation m link k parent q c ≡ some r)
unfolding poll_dilation
poll_dilation-some m link k parent q c =
    let tdf = (k.tasks parent).dilation in
    let (rate, dilated) = psched_ratecfg_dilate-some m link (q.classes c).rate tdf in
    elim (Bool-cases (ltb_ℤ (pos 0) (k.tasks k.current).dilation)) [
      | inl e ↦ elim (Bool-cases (ltb_ℤ (pos 0) tdf)) [
        | inl e₁ ↦ rw (e, e₁, dilated) (_, refl)
        | inr e₁ ↦ rw (e, e₁) ((k, q), refl)
      ]
      | inr e ↦ rw (e) ((k, q), refl)
    ]
