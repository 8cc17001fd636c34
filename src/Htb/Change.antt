-- ===== src/Htb/Change.antt =====
-- sch_htb.c: adding and changing classes. What nla_parse_nested read, what the rate estimator returned
-- and whether memory was there are arguments.
use virtual_time_kernel.Base.{
  ℕ, ◌+◌, ◌-◌, ◌*◌, ◌/◌, ◌%◌, ◌^◌, Bool, true, false, not, ltb, ◌==◌, if◌then◌else◌, List, [], ◌∷◌,
  Option, none, some, ◌||◌, ◌&&◌, ◌⊎◌, inl, inr,
}
use virtual_time_kernel.Base.Int.{ℤ, pos, eqb_ℤ}
use virtual_time_kernel.Base.Word.{s32}
use virtual_time_kernel.Math64.{Math64}
use virtual_time_kernel.Timespec.{nsec_per_sec}
use virtual_time_kernel.Dilation.{einval}
use virtual_time_kernel.Psched.{PschedRatecfg, TcRatespec, LinkLayer, psched_ratecfg_precompute}
use virtual_time_kernel.Htb.{HtbClass, can_send}
use virtual_time_kernel.Htb.Tree.{RbTree, first}
use virtual_time_kernel.Htb.Feeds.{no_bits}
use virtual_time_kernel.Htb.Packets.{Discipline, Qdisc, htb_find}
use virtual_time_kernel.Htb.Classes.{
  LeafOps, enobufs, empty_prio, cleared_inner, class_of, with_class, with_leaf, at_level_0,
}
use virtual_time_kernel.Htb.Delete.{or_noop, emptied, inactive, unqueued}

-- `struct tc_htb_opt`
pub record TcHtbOpt : Type 0 where
  pub rate : TcRatespec
  pub ceil : TcRatespec
  pub buffer : ℕ
  pub cbuffer : ℕ
  pub quantum : ℕ
  pub prio : ℕ

-- The attributes of a change, with the tables of old tools, and whether TCA_RATE is there; the 64-bit
-- rates are 0 where they are missing.
pub record Attributes : Type 0 where
  pub parms : Option TcHtbOpt
  pub rate64 : ℕ
  pub ceil64 : ℕ
  pub rtab : Option (List ℕ)
  pub ctab : Option (List ℕ)
  pub tca_rate : Bool

-- What the kernel gives: the module's parameter htb_rate_est, what gen_new_estimator or
-- gen_replace_estimator returns, 0 or an error, memory for a class as a number or none, the clock, the
-- caller's dilation, and the rate as qdisc_get_rtab leaves it for a table, in which that finds the link
-- layer.
pub record Surroundings : Type 0 where
  pub htb_rate_est : Bool
  pub estimator : ℤ
  pub memory : Option ℕ
  pub clock : ℤ
  pub tdf : ℤ
  pub get_rtab : TcRatespec → Option (List ℕ) → TcRatespec

-- The rate of a tool that does not know of link layers.
abbrev pub aware : LinkLayer → Surroundings → TcRatespec → Option (List ℕ) → TcRatespec
aware link env spec table =
    if spec.linklayer == link.linklayer_unaware then env.get_rtab spec table else spec

-- TC_H_ROOT
abbrev pub tc_h_root : ℕ
tc_h_root = 2 ^ 32 - 1

-- TC_HTB_MAXDEPTH and TC_HTB_NUMPRIO
abbrev pub max_depth : ℕ
max_depth = 8

abbrev pub num_prio : ℕ
num_prio = 8

abbrev pub int_max : ℕ
int_max = 2 ^ 31 - 1

abbrev pub no_rate : PschedRatecfg
no_rate = record {
  rate_bytes_ps = 0;
  undilated_rate_bytes_ps = 0;
  mult = 0;
  overhead = 0;
  linklayer = 0;
  shift = 0;
}

abbrev pub ancestors_of : {Skb State : Type 0} → Qdisc Skb State → Option ℕ → List ℕ
ancestors_of sch none = []
ancestors_of sch (some p) = p ∷ (class_of sch p).ancestors

-- Of a parent's parent, if there is one: that its level is below 2, and the level that is one below.
abbrev pub is_low : (ℕ → ℕ) → Option ℕ → Bool
is_low level none = false
is_low level (some g) = ltb (level g) 2

abbrev pub level_below : (ℕ → ℕ) → Option ℕ → ℕ
level_below level none = max_depth - 1
level_below level (some g) = level g - 1

module _ {Skb State : Type 0} where
  abbrev pub too_deep : Qdisc Skb State → Option ℕ → Bool
  too_deep sch none = false
  too_deep sch (some p) = is_low (λ g. (class_of sch g).level) (first (class_of sch p).ancestors)

  abbrev pub is_taken : Qdisc Skb State → ℕ → Bool
  is_taken sch id = elim (htb_find sch id) [ none ↦ false | some c ↦ true ]

  -- The identifiers that a new class cannot have: 0, one of another scheduler, and one in use.
  abbrev pub bad_classid : Qdisc Skb State → ℕ → Bool
  bad_classid sch id = (id == 0) || not (id / 2 ^ 16 == sch.handle / 2 ^ 16) || is_taken sch id

  -- The level of a parent that has been a leaf.
  abbrev pub inner_level : Qdisc Skb State → ℕ → ℕ
  inner_level sch p = level_below (λ g. (class_of sch g).level) (first (class_of sch p).ancestors)

  abbrev pub with_child : Qdisc Skb State → Option ℕ → Qdisc Skb State
  with_child sch none = sch
  with_child sch (some p) =
      let parent = class_of sch p in
      with_class sch p (record parent { children = (parent.children + 1) % 2 ^ 32 })

  abbrev pub with_estimator : Qdisc Skb State → ℕ → Bool → Qdisc Skb State
  with_estimator sch c on = with_class sch c (record (class_of sch c) { rate_est = on })

module _ (m : Math64) (link : LinkLayer) (ticks2ns : ℕ → ℤ) (rb : RbTree) (prios : List ℕ)
    {Skb State : Type 0} (d : Discipline Skb State) (ops : LeafOps d) where
  -- A leaf that becomes a parent gives up its packets and leaves the queues.
  unfoldable pub vacated : Qdisc Skb State → ℕ → Qdisc Skb State
  vacated sch p =
      let rest = inactive rb prios d ops (emptied rb prios d ops sch p) p in
      unqueued rb prios d ops rest p 0

  unfoldable pub as_inner : Qdisc Skb State → ℕ → Qdisc Skb State
  as_inner sch p =
      with_class sch p
        (record (cleared_inner (class_of sch p)) { cmode = can_send; level = inner_level sch p })

  unfoldable pub make_inner : Qdisc Skb State → ℕ → Qdisc Skb State
  make_inner sch p = if at_level_0 sch p then as_inner (vacated sch p) p else sch

  abbrev pub parent_inner : Qdisc Skb State → Option ℕ → Qdisc Skb State
  parent_inner sch none = sch
  parent_inner sch (some p) = make_inner sch p

  -- A class in the fresh memory at `c`.
  unfoldable pub new_class : Qdisc Skb State → ℕ → ℕ → Option ℕ → TcHtbOpt → ℤ → Qdisc Skb State
  new_class sch c classid parent hopt clock =
      let new_q = ops.create_pfifo classid in
      let above = parent_inner sch parent in
      let cl : HtbClass = record {
        classid = classid;
        rate = no_rate;
        dilation = pos 0;
        ceil = no_rate;
        buffer = pos 0;
        cbuffer = pos 0;
        mbuffer = pos (60 * nsec_per_sec);
        prio = 0;
        quantum = pos 0;
        filter_cnt = pos 0;
        rate_est = false;
        refcnt = pos 1;
        level = 0;
        children = 0;
        ancestors = ancestors_of above parent;
        lends = 0;
        borrows = 0;
        tokens = ticks2ns hopt.buffer;
        ctokens = ticks2ns hopt.cbuffer;
        t_c = clock;
        deficit = λ l. pos 0;
        clprio = λ p. empty_prio;
        pq_key = pos 0;
        prio_activity = no_bits;
        cmode = can_send;
      } in
      let attached = with_leaf (with_class above c cl) c (or_noop rb prios d ops new_q) in
      with_child (record attached { clhash = c ∷ attached.clhash }) parent

  -- The bytes that a leaf may send in its turn.
  unfoldable pub quantum_of : ℕ → ℕ → ℕ → ℤ
  quantum_of rate2quantum rate_bytes_ps wanted =
      let share = (m.do_div rate_bytes_ps rate2quantum).0 in
      let fitted = if ltb share int_max then share else int_max in
      let raised = if wanted == 0 && ltb fitted 1000 then 1000 else fitted in
      let lowered = if wanted == 0 && ltb 200_000 raised then 200_000 else raised in
      if wanted == 0 then pos lowered else s32 (pos wanted)

  -- The rates, and what a leaf has of its own.
  unfoldable pub set_rates :
      Qdisc Skb State → ℕ → TcHtbOpt → PschedRatecfg → PschedRatecfg → Qdisc Skb State
  unfolding quantum_of
  set_rates sch c hopt rate ceil =
      let cl = class_of sch c in
      let rated : HtbClass = record cl {
        rate = rate;
        ceil = ceil;
        buffer = ticks2ns hopt.buffer;
        cbuffer = ticks2ns hopt.cbuffer;
      } in
      let leaf : HtbClass = record rated {
        quantum = quantum_of sch.rate2quantum rate.rate_bytes_ps hopt.quantum;
        prio = if ltb hopt.prio num_prio then hopt.prio else num_prio - 1;
      } in
      with_class sch c (if cl.level == 0 then leaf else rated)

  -- The rates at the caller's dilation, for the class c; `none` where psched_ratecfg_precompute would
  -- not end.
  unfoldable pub configure :
      Surroundings
      → TcHtbOpt
      → Attributes
      → Qdisc Skb State
      → ℕ
      → Option (Qdisc Skb State × (ℤ × Option ℕ))
  configure env hopt attrs sch c =
      elim (psched_ratecfg_precompute m link env.tdf (aware link env hopt.rate attrs.rtab)
        attrs.rate64) [
          | none ↦ none
          | some rate ↦
              elim (psched_ratecfg_precompute m link env.tdf (aware link env hopt.ceil attrs.ctab)
                attrs.ceil64) [
                  | none ↦ none
                  | some ceil ↦ some (set_rates sch c hopt rate ceil, (pos 0, some c))
                ]
        ]

  unfoldable pub add_class :
      Surroundings
      → TcHtbOpt
      → Attributes
      → Qdisc Skb State
      → ℕ
      → Option ℕ
      → Option (Qdisc Skb State × (ℤ × Option ℕ))
  add_class env hopt attrs sch classid parent =
      if bad_classid sch classid || too_deep sch parent
      then some (sch, (einval, none))
      else elim env.memory [
        | none ↦ some (sch, (enobufs, none))
        | some c ↦
            let asked = env.htb_rate_est || attrs.tca_rate in
            let joined = new_class sch c classid parent hopt env.clock in
            if asked && not (eqb_ℤ env.estimator (pos 0))
            then some (sch, (env.estimator, none))
            else configure env hopt attrs (with_estimator joined c asked) c
      ]

  -- gen_replace_estimator ends the estimator that runs, before it may fail to start the new one.
  unfoldable pub change_class :
      Surroundings
      → TcHtbOpt
      → Attributes
      → Qdisc Skb State
      → ℕ
      → Option (Qdisc Skb State × (ℤ × Option ℕ))
  change_class env hopt attrs sch c =
      if not attrs.tca_rate
      then configure env hopt attrs sch c
      else if eqb_ℤ env.estimator (pos 0)
      then configure env hopt attrs (with_estimator sch c true) c
      else some (with_estimator sch c false, (env.estimator, some c))

  -- `arg` is the class that is changed, if it is there; the result has the error and what *arg is then.
  unfoldable pub htb_change_class :
      Surroundings
      → Qdisc Skb State
      → ℕ
      → ℕ
      → Option (ℤ ⊎ Attributes)
      → Option ℕ
      → Option (Qdisc Skb State × (ℤ × Option ℕ))
  htb_change_class env sch classid parentid none arg = some (sch, (einval, arg))
  htb_change_class env sch classid parentid (some (inl err)) arg = some (sch, (err, arg))
  htb_change_class env sch classid parentid (some (inr attrs)) arg = elim attrs.parms [
    | none ↦ some (sch, (einval, arg))
    | some hopt ↦
        let parent = if parentid == tc_h_root then none else htb_find sch parentid in
        if (hopt.rate.rate == 0) || (hopt.ceil.rate == 0)
        then some (sch, (einval, arg))
        else elim arg [
          | none ↦ add_class env hopt attrs sch classid parent
          | some c ↦ change_class env hopt attrs sch c
        ]
  ]
