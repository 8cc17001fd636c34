-- ===== src/Htb/Changes.antt =====
-- sch_htb.c: htb_change_class on a scheduler whose count and hierarchy are right.
use virtual_time_kernel.Base.{
  ℕ, ◌+◌, ◌^◌, ◌≡◌, ◌<◌, refl, arith, Bool, true, false, not, ◌&&◌, ◌||◌, ◌==◌, ◌⊎◌, inl, inr,
  if◌then◌else◌, if_both, List, Option, none, some, Bool-cases, length,
}
use virtual_time_kernel.Base.Int.{ℤ, pos, eqb_ℤ}
use virtual_time_kernel.Math64.{Math64}
use virtual_time_kernel.Psched.{LinkLayer, PschedRatecfg, psched_ratecfg_precompute}
use virtual_time_kernel.Htb.{HtbClass}
use virtual_time_kernel.Htb.Tree.{RbTree, mem}
use virtual_time_kernel.Htb.Packets.{Discipline, Qdisc, htb_find}
use virtual_time_kernel.Htb.Conserved.{Option-cases}
use virtual_time_kernel.Htb.Shape.{shape, set_class-Kept}
use virtual_time_kernel.Htb.Classes.{LeafOps, class_of}
use virtual_time_kernel.Htb.Change.{
  TcHtbOpt, Attributes, Surroundings, aware, with_estimator, change_class, tc_h_root, too_deep,
  bad_classid, new_class, set_rates, configure, add_class, htb_change_class,
}
use virtual_time_kernel.Htb.Kinship.{find_class-mem}
use virtual_time_kernel.Htb.Lifecycle.{new_class-HasForest}
use virtual_time_kernel.Htb.Counted.{new_class-IsCounted}
use virtual_time_kernel.Htb.Targets.{IsSound, htb-IsSound}

module _ (m : Math64) (link : LinkLayer) (ticks2ns : ℕ → ℤ) (rb : RbTree) (prios : List ℕ)
    {Skb State : Type 0} (d : Discipline Skb State) (ops : LeafOps d) where
  set_rates-IsSound :
      (sch : Qdisc Skb State) (c : ℕ) (hopt : TcHtbOpt) (rate ceil : PschedRatecfg)
      → IsSound d sch
      → IsSound d (set_rates m link ticks2ns rb prios d ops sch c hopt rate ceil)
  unfolding set_rates
  set_rates-IsSound sch c hopt rate ceil sound =
      htb-IsSound d _
        (set_class-Kept sch.htb c _ (
          if_both (λ (x : HtbClass). shape x ≡ shape (class_of sch c)) ((class_of sch c).level == 0)
            _ _ refl refl))
        sound

  with_estimator-IsSound :
      (sch : Qdisc Skb State) (c : ℕ) (on : Bool)
      → IsSound d sch
      → IsSound d (with_estimator sch c on)
  with_estimator-IsSound sch c on sound = htb-IsSound d _ (set_class-Kept sch.htb c _ refl) sound

  -- What holds of the scheduler that a change of a class leaves.
  abbrev pub Changes : Option (Qdisc Skb State × (ℤ × Option ℕ)) → Type 0
  Changes none = Unit {0}
  Changes (some (sch, r)) = IsSound d sch

  configure-Changes :
      (env : Surroundings) (hopt : TcHtbOpt) (attrs : Attributes) (sch : Qdisc Skb State) (c : ℕ)
      → IsSound d sch
      → Changes (configure m link ticks2ns rb prios d ops env hopt attrs sch c)
  unfolding configure
  configure-Changes env hopt attrs sch c sound =
      elim (Option-cases (
        psched_ratecfg_precompute m link env.tdf (aware link env hopt.rate attrs.rtab)
          attrs.rate64)) [
            | inl e ↦ rw (Changes, e) tt
            | inr (rate, e) ↦
                elim (Option-cases (
                  psched_ratecfg_precompute m link env.tdf (aware link env hopt.ceil attrs.ctab)
                    attrs.ceil64)) [
                      | inl f ↦ rw (Changes, e, f) tt
                      | inr (ceil, f) ↦
                          rw (Changes, e, f) (set_rates-IsSound sch c hopt rate ceil sound)
                    ]
          ]

  add_class-Changes :
      (env : Surroundings) (hopt : TcHtbOpt) (attrs : Attributes) (sch : Qdisc Skb State)
      (classid : ℕ) (parent : Option ℕ)
      → ((c : ℕ) → env.memory ≡ some c → mem c sch.clhash ≡ false)
      → ((p : ℕ) → parent ≡ some p → mem p sch.clhash ≡ true)
      → length sch.clhash + 1 < 2 ^ 32
      → IsSound d sch
      → Changes (add_class m link ticks2ns rb prios d ops env hopt attrs sch classid parent)
  unfolding add_class
  add_class-Changes env hopt attrs sch classid parent fresh known room sound =
      elim (Bool-cases (bad_classid sch classid || too_deep sch parent)) [
        | inl e ↦ rw (Changes, e) sound
        | inr e ↦
            let shallow : too_deep sch parent ≡ false = ground arith in
            elim (Option-cases env.memory) [
              | inl n ↦ rw (Changes, e, n) sound
              | inr (c, n) ↦
                  let asked = env.htb_rate_est || attrs.tca_rate in
                  let joined =
                    new_class m link ticks2ns rb prios d ops sch c classid parent hopt env.clock in
                  let added : IsSound d joined = record {
                    forest =
                        new_class-HasForest m link ticks2ns rb prios d ops sch c classid parent hopt
                          env.clock sound.forest (fresh c n) known shallow room;
                    counts =
                        new_class-IsCounted m link ticks2ns rb prios d ops sch c classid parent hopt
                          env.clock sound.forest (fresh c n) known shallow sound.counts;
                  } in
                  rw (Changes, e, n)
                    (if_both Changes (asked && not (eqb_ℤ env.estimator (pos 0))) _ _ sound (
                      configure-Changes env hopt attrs (with_estimator joined c asked) c
                        (with_estimator-IsSound joined c asked added)))
            ]
      ]

  change_class-Changes :
      (env : Surroundings) (hopt : TcHtbOpt) (attrs : Attributes) (sch : Qdisc Skb State) (c : ℕ)
      → IsSound d sch
      → Changes (change_class m link ticks2ns rb prios d ops env hopt attrs sch c)
  unfolding change_class
  change_class-Changes env hopt attrs sch c sound =
      if_both Changes (not attrs.tca_rate) _ _ (configure-Changes env hopt attrs sch c sound) (
        if_both Changes (eqb_ℤ env.estimator (pos 0)) _ _
          (configure-Changes env hopt attrs (with_estimator sch c true) c
            (with_estimator-IsSound sch c true sound))
          (with_estimator-IsSound sch c false sound))

  parent-known :
      (sch : Qdisc Skb State) (parentid p : ℕ)
      → (if parentid == tc_h_root then none else htb_find sch parentid) ≡ some p
      → mem p sch.clhash ≡ true
  parent-known sch parentid p e = elim (Bool-cases (parentid == tc_h_root)) [
    | inl t ↦ let no : Option.none ≡ some p = rw (t) at e in absurd (ground arith)
    | inr t ↦ find_class-mem sch.htb sch.clhash parentid p (rw (t) at e)
  ]

  pub htb_change_class-Changes :
      (env : Surroundings) (sch : Qdisc Skb State) (classid parentid : ℕ)
      (opt : Option (ℤ ⊎ Attributes)) (arg : Option ℕ)
      → ((c : ℕ) → env.memory ≡ some c → mem c sch.clhash ≡ false)
      → length sch.clhash + 1 < 2 ^ 32
      → IsSound d sch
      → Changes (htb_change_class m link ticks2ns rb prios d ops env sch classid parentid opt arg)
  unfolding htb_change_class
  htb_change_class-Changes env sch classid parentid none arg fresh room sound = sound
  htb_change_class-Changes env sch classid parentid (some (inl err)) arg fresh room sound = sound
  htb_change_class-Changes env sch classid parentid (some (inr attrs)) arg fresh room sound =
      elim (Option-cases attrs.parms) [
        | inl e ↦ rw (Changes, e) sound
        | inr (hopt, e) ↦ elim (Bool-cases ((hopt.rate.rate == 0) || (hopt.ceil.rate == 0))) [
          | inl z ↦ rw (Changes, e, z) sound
          | inr z ↦ elim (Option-cases arg) [
            | inl a ↦
                rw (Changes, e, z, a)
                  (add_class-Changes env hopt attrs sch classid _ fresh
                    (λ p h. parent-known sch parentid p h) room sound)
            | inr (c, a) ↦ rw (Changes, e, z, a) (change_class-Changes env hopt attrs sch c sound)
          ]
        ]
      ]
