-- ===== src/Htb/Refused.antt =====
-- sch_htb.c: changes of classes that are refused.
use virtual_time_kernel.Base.{
  ℕ, ◌≡◌, refl, ◌⊎◌, inl, inr, true, false, not, if_both, ◌&&◌, Bool-cases, ◌||◌, ◌==◌, List,
  Option, none, some,
}
use virtual_time_kernel.Base.Int.{ℤ, pos, eqb_ℤ}
use virtual_time_kernel.Math64.{Math64}
use virtual_time_kernel.Psched.{LinkLayer}
use virtual_time_kernel.Htb.Tree.{RbTree}
use virtual_time_kernel.Htb.Packets.{Discipline, Qdisc}
use virtual_time_kernel.Htb.Poll.{psched_ratecfg_precompute-some}
use virtual_time_kernel.Htb.Conserved.{Option-cases}
use virtual_time_kernel.Htb.Classes.{LeafOps}
use virtual_time_kernel.Htb.Change.{
  TcHtbOpt, Attributes, Surroundings, aware, with_estimator, change_class, too_deep, bad_classid,
  new_class, configure, add_class, htb_change_class,
}

module _ (m : Math64) (link : LinkLayer) (ticks2ns : ℕ → ℤ) (rb : RbTree) (prios : List ℕ)
    {Skb State : Type 0} (d : Discipline Skb State) (ops : LeafOps d) where
  -- The scheduler as it was, but for the estimator of a class that was there.
  abbrev pub ButEstimator : Qdisc Skb State → Option ℕ → Qdisc Skb State → Type 0
  ButEstimator sch none sch' = sch' ≡ sch
  ButEstimator sch (some c) sch' = (sch' ≡ sch) ⊎ (sch' ≡ with_estimator sch c false)

  -- Success, or nothing else has changed.
  abbrev pub AllOrNothing :
      Qdisc Skb State → Option ℕ → Option (Qdisc Skb State × (ℤ × Option ℕ)) → Type 0
  AllOrNothing sch arg none = ⊥
  AllOrNothing sch arg (some (sch', (err, arg'))) =
      (err ≡ pos 0) ⊎ (ButEstimator sch arg sch' × (arg' ≡ arg))

  unchanged : (sch : Qdisc Skb State) (arg : Option ℕ) → ButEstimator sch arg sch
  unchanged sch none = refl
  unchanged sch (some c) = inl refl

  configure-AllOrNothing :
      (env : Surroundings) (hopt : TcHtbOpt) (attrs : Attributes) (before sch : Qdisc Skb State)
      (arg : Option ℕ) (c : ℕ)
      → AllOrNothing before arg (configure m link ticks2ns rb prios d ops env hopt attrs sch c)
  unfolding configure
  configure-AllOrNothing env hopt attrs before sch arg c =
      let (rate, e) =
        psched_ratecfg_precompute-some m link env.tdf (aware link env hopt.rate attrs.rtab)
          attrs.rate64 in
      let (ceil, f) =
        psched_ratecfg_precompute-some m link env.tdf (aware link env hopt.ceil attrs.ctab)
          attrs.ceil64 in
      rw (AllOrNothing, e, f) (inl refl)

  add_class-AllOrNothing :
      (env : Surroundings) (hopt : TcHtbOpt) (attrs : Attributes) (sch : Qdisc Skb State)
      (classid : ℕ) (parent : Option ℕ)
      → AllOrNothing sch none
          (add_class m link ticks2ns rb prios d ops env hopt attrs sch classid parent)
  unfolding add_class
  add_class-AllOrNothing env hopt attrs sch classid parent =
      let asked = env.htb_rate_est || attrs.tca_rate in
      elim (Bool-cases (bad_classid sch classid || too_deep sch parent)) [
        | inl e ↦ rw (AllOrNothing, e) (inr (refl, refl))
        | inr e ↦ elim (Option-cases env.memory) [
          | inl n ↦ rw (AllOrNothing, e, n) (inr (refl, refl))
          | inr (c, n) ↦
              let joined =
                new_class m link ticks2ns rb prios d ops sch c classid parent hopt env.clock in
              rw (AllOrNothing, e, n)
                (if_both (AllOrNothing sch none) (asked && not (eqb_ℤ env.estimator (pos 0))) _ _
                  (inr (refl, refl))
                  (configure-AllOrNothing env hopt attrs sch (with_estimator joined c asked) none
                    c))
        ]
      ]

  change_class-AllOrNothing :
      (env : Surroundings) (hopt : TcHtbOpt) (attrs : Attributes) (sch : Qdisc Skb State) (c : ℕ)
      → AllOrNothing sch (some c) (change_class m link ticks2ns rb prios d ops env hopt attrs sch c)
  unfolding change_class
  change_class-AllOrNothing env hopt attrs sch c =
      if_both (AllOrNothing sch (some c)) (not attrs.tca_rate) _ _
        (configure-AllOrNothing env hopt attrs sch sch (some c) c)
        (if_both (AllOrNothing sch (some c)) (eqb_ℤ env.estimator (pos 0)) _ _
          (configure-AllOrNothing env hopt attrs sch (with_estimator sch c true) (some c) c)
          (inr (inr refl, refl)))

  -- htb_change_class returns, and has succeeded, or it has left the scheduler and *arg as they were, but
  -- that the class which it was to change may have lost its rate estimator.
  pub htb_change_class-AllOrNothing :
      (env : Surroundings) (sch : Qdisc Skb State) (classid parentid : ℕ)
      (opt : Option (ℤ ⊎ Attributes)) (arg : Option ℕ)
      → AllOrNothing sch arg
          (htb_change_class m link ticks2ns rb prios d ops env sch classid parentid opt arg)
  unfolding htb_change_class
  htb_change_class-AllOrNothing env sch classid parentid none arg = inr (unchanged sch arg, refl)
  htb_change_class-AllOrNothing env sch classid parentid (some (inl err)) arg =
      inr (unchanged sch arg, refl)
  htb_change_class-AllOrNothing env sch classid parentid (some (inr attrs)) none =
      elim (Option-cases attrs.parms) [
        | inl e ↦ rw (AllOrNothing, e) (inr (unchanged sch none, refl))
        | inr (hopt, e) ↦ elim (Bool-cases ((hopt.rate.rate == 0) || (hopt.ceil.rate == 0))) [
          | inl z ↦ rw (AllOrNothing, e, z) (inr (unchanged sch none, refl))
          | inr z ↦ rw (AllOrNothing, e, z) (add_class-AllOrNothing env hopt attrs sch classid _)
        ]
      ]
  htb_change_class-AllOrNothing env sch classid parentid (some (inr attrs)) (some c) =
      elim (Option-cases attrs.parms) [
        | inl e ↦ rw (AllOrNothing, e) (inr (unchanged sch (some c), refl))
        | inr (hopt, e) ↦ elim (Bool-cases ((hopt.rate.rate == 0) || (hopt.ceil.rate == 0))) [
          | inl z ↦ rw (AllOrNothing, e, z) (inr (unchanged sch (some c), refl))
          | inr z ↦ rw (AllOrNothing, e, z) (change_class-AllOrNothing env hopt attrs sch c)
        ]
      ]
