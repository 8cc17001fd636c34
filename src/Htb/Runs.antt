-- ===== src/Htb/Runs.antt =====
-- sch_htb.c: the scheduler from htb_init on, under any operations on packets and classes.
use virtual_time_kernel.Base.{
  ℕ, ◌+◌, ◌^◌, ◌≡◌, ◌<◌, ap, ◌∙◌, sym, arith, Bool, true, false, ◌==◌, ◌⊎◌, inl, inr, List, [],
  Option, none, some, Bool-cases, length,
}
use virtual_time_kernel.Base.Int.{ℤ, pos, ltb_ℤ}
use virtual_time_kernel.Math64.{Math64}
use virtual_time_kernel.Task.{Kernel}
use virtual_time_kernel.Psched.{LinkLayer}
use virtual_time_kernel.Htb.Tree.{RbTree, mem}
use virtual_time_kernel.Htb.Packets.{
  Discipline, Qdisc, Match, Target, Xmit, htb_classify, enqueue_to, htb_enqueue,
}
use virtual_time_kernel.Htb.Service.{Next, htb_dequeue}
use virtual_time_kernel.Htb.Classes.{
  LeafOps, htb_get, htb_put, htb_bind_filter, htb_unbind_filter, htb_qlen_notify, htb_graft,
}
use virtual_time_kernel.Htb.Reset.{htb_drop, htb_reset}
use virtual_time_kernel.Htb.Delete.{htb_delete}
use virtual_time_kernel.Htb.Change.{Attributes, Surroundings, htb_change_class}
use virtual_time_kernel.Htb.Init.{InitOptions, htb_init, htb_version}
use virtual_time_kernel.Htb.Deletion.{htb_delete-HasForest}
use virtual_time_kernel.Htb.Balance.{weight, total}
use virtual_time_kernel.Htb.Counted.{htb_delete-IsCounted}
use virtual_time_kernel.Htb.Targets.{
  IsSound, KnowsClasses, Finds, htb_classify-Finds, enqueue_to-IsSound,
}
use virtual_time_kernel.Htb.Sound.{
  htb_dequeue-IsSound, htb_drop-IsSound, htb_qlen_notify-IsSound, htb_reset-IsSound,
  htb_graft-IsSound, htb_get-IsSound, htb_put-IsSound, htb_bind_filter-IsSound,
  htb_unbind_filter-IsSound,
}
use virtual_time_kernel.Htb.Changes.{htb_change_class-Changes}

-- Memory from qdisc_alloc, with no packets anywhere.
pub record IsAllocated {Skb State : Type 0} (d : Discipline Skb State) (sch : Qdisc Skb State)
    : Type 0 where
  pub no_count : sch.qlen ≡ 0
  pub no_packets : (c : ℕ) → weight d sch c ≡ 0

module _ (m : Math64) (link : LinkLayer) (ticks2ns : ℕ → ℤ) (rb : RbTree) (prios : List ℕ)
    (hysteresis : Bool) {Skb State : Type 0} (d : Discipline Skb State) (bytes : Skb → ℕ)
    (ops : LeafOps d) where
  -- What may happen next. Filters name classes of the scheduler, a class that is named is one of its
  -- classes, memory for a class is fresh, and the number of classes fits the type of `children`.
  pub data Step (sch : Qdisc Skb State) : Qdisc Skb State → Type 0 where
    enqueue :
        {sch' : Qdisc Skb State} (tc_classify : Skb → ℕ → Match) (turns : ℕ) (priority : Skb → ℕ)
        (skb : Skb) (result : Xmit)
        → KnowsClasses d sch (tc_classify skb)
        → htb_enqueue rb prios d tc_classify turns priority sch skb ≡ some (sch', result)
        → Step sch sch'
    dequeue :
        {sch' : Qdisc Skb State} (turns : ℕ) (ticks : ℕ → ℕ) (k : Kernel) (parent : ℕ) (clock : ℤ)
        (k' : Kernel) (sent : Next Skb)
        → htb_dequeue m link rb prios hysteresis d bytes turns ticks k parent clock sch
          ≡ some (k', sch', sent)
        → Step sch sch'
    drop : (downwards : List ℕ) → Step sch (htb_drop rb prios d ops downwards sch).0
    reset : Step sch (htb_reset rb prios d ops sch)
    notify : (c : ℕ) → Step sch (htb_qlen_notify rb prios d ops sch c)
    graft :
        (c : ℕ) (new : Option State)
        → mem c sch.clhash ≡ true
        → ((s : State) → new ≡ some s → d.qlen s ≡ 0)
        → Step sch (htb_graft rb prios d ops sch c new).0
    get : (id : ℕ) → Step sch (htb_get sch id).0
    put : (c : ℕ) → Step sch (htb_put sch c).0
    bind_filter : (id : ℕ) → Step sch (htb_bind_filter sch id).0
    unbind_filter : (o : Option ℕ) → Step sch (htb_unbind_filter sch o)
    change :
        {sch' : Qdisc Skb State} (env : Surroundings) (classid parentid : ℕ)
        (opt : Option (ℤ ⊎ Attributes)) (arg : Option ℕ) (r : ℤ × Option ℕ)
        → ((c : ℕ) → env.memory ≡ some c → mem c sch.clhash ≡ false)
        → length sch.clhash + 1 < 2 ^ 32
        → htb_change_class m link ticks2ns rb prios d ops env sch classid parentid opt arg
          ≡ some (sch', r)
        → Step sch sch'
    delete :
        {sch' : Qdisc Skb State} (c : ℕ) (clock : ℤ) (err : ℤ)
        → mem c sch.clhash ≡ true
        → length sch.clhash < 2 ^ 32
        → htb_delete rb prios d ops sch c clock ≡ some (sch', err)
        → Step sch sch'

  pub data Reachable : Qdisc Skb State → Type 0 where
    init :
        {sch sch' : Qdisc Skb State} (gopt : InitOptions) (hash_error : ℤ) (tx_queue_len : ℕ)
        → IsAllocated d sch
        → htb_init (some (inr (some gopt))) hash_error tx_queue_len sch ≡ (sch', pos 0)
        → Reachable sch'
    next : {sch sch' : Qdisc Skb State} → Reachable sch → Step sch sch' → Reachable sch'

  empty-IsSound :
      (sch : Qdisc Skb State)
      → sch.clhash ≡ []
      → sch.direct_queue ≡ []
      → IsAllocated d sch
      → IsSound d sch
  unfolding total
  empty-IsSound sch hash line fresh =
      let n = ap length line in
      let q = fresh.no_count in
      let sum : total (weight d sch) sch.clhash ≡ 0 = ap (total (weight d sch)) hash in
      let out : (c : ℕ) → mem c sch.clhash ≡ true → ⊥ =
        λ c k. let no : false ≡ true = sym (ap (mem c) hash) ∙ k in absurd (ground arith) in
      record {
        forest = record {
          unique = rw (hash) tt;
          above = λ c p k e. absurd (out c k);
          bounded = λ c k. absurd (out c k);
          counted = λ p k. absurd (out p k);
        };
        counts = record {
          balance = omega arith;
          outside = λ c k. fresh.no_packets c;
          inner = λ c k. fresh.no_packets c;
        };
      }

  htb_init-IsSound :
      (sch sch' : Qdisc Skb State) (gopt : InitOptions) (hash_error : ℤ) (tx_queue_len : ℕ)
      → IsAllocated d sch
      → htb_init (some (inr (some gopt))) hash_error tx_queue_len sch ≡ (sch', pos 0)
      → IsSound d sch'
  unfolding htb_init
  htb_init-IsSound sch sch' gopt hash_error tx_queue_len fresh e =
      elim (Bool-cases (gopt.version == htb_version)) [
        | inr v ↦ let err = ap (λ r. r.1) (rw (v) at e) in absurd (ground arith)
        | inl v ↦ elim (Bool-cases (ltb_ℤ hash_error (pos 0))) [
          | inl h ↦ let err = ap (λ r. r.1) (rw (v, h) at e) in absurd (ground arith)
          | inr h ↦
              let made = ap (λ r. r.0) (rw (v, h) at e) in
              empty-IsSound sch' (sym (ap (λ (s : Qdisc Skb State). s.clhash) made))
                (sym (ap (λ (s : Qdisc Skb State). s.direct_queue) made))
                (record {
                  no_count = sym (ap (λ (s : Qdisc Skb State). s.qlen) made) ∙ fresh.no_count;
                  no_packets = λ c.
                      sym (ap (λ (s : Qdisc Skb State). weight d s c) made) ∙ fresh.no_packets c;
                })
        ]
      ]

  enqueue-IsSound :
      (sch : Qdisc Skb State) (skb : Skb) (o : Option Target) (sch' : Qdisc Skb State)
      (result : Xmit)
      → Finds d sch o
      → elim o as (λ _. Option (Qdisc Skb State × Xmit)) [
        | none ↦ none
        | some target ↦ some (enqueue_to rb prios d sch skb target)
      ]
        ≡ some (sch', result)
      → IsSound d sch
      → IsSound d sch'
  enqueue-IsSound sch skb none sch' result good e sound = absurd (ground arith)
  enqueue-IsSound sch skb (some target) sch' result good e sound =
      let made : enqueue_to rb prios d sch skb target ≡ (sch', result) = cc in
      rw (sym (ap (λ r. r.0) made)) (enqueue_to-IsSound rb prios d sch skb target good sound)

  Step-IsSound : {sch sch' : Qdisc Skb State} → Step sch sch' → IsSound d sch → IsSound d sch'
  unfolding htb_enqueue
  Step-IsSound {sch} {sch'} (enqueue tc_classify turns priority skb result known e) sound =
      enqueue-IsSound sch skb (htb_classify (tc_classify skb) turns sch (priority skb)) sch' result
        (htb_classify-Finds d (tc_classify skb) turns sch (priority skb) known) e sound
  Step-IsSound {sch} {sch'} (dequeue turns ticks k parent clock k' sent e) sound =
      htb_dequeue-IsSound m link rb prios hysteresis d bytes turns ticks k parent clock sch k' sch'
        sent e sound
  Step-IsSound {sch} (drop downwards) sound = htb_drop-IsSound rb prios d ops downwards sch sound
  Step-IsSound {sch} reset sound = htb_reset-IsSound rb prios d ops sch sound
  Step-IsSound {sch} (notify c) sound = htb_qlen_notify-IsSound rb prios d ops sch c sound
  Step-IsSound {sch} (graft c new c_in empty) sound =
      htb_graft-IsSound rb prios d ops sch c new c_in empty sound
  Step-IsSound {sch} (get id) sound = htb_get-IsSound rb prios d ops sch id sound
  Step-IsSound {sch} (put c) sound = htb_put-IsSound rb prios d ops sch c sound
  Step-IsSound {sch} (bind_filter id) sound = htb_bind_filter-IsSound rb prios d ops sch id sound
  Step-IsSound {sch} (unbind_filter o) sound = htb_unbind_filter-IsSound rb prios d ops sch o sound
  Step-IsSound {sch} (change env classid parentid opt arg r fresh room e) sound = rw (e) at (
      htb_change_class-Changes m link ticks2ns rb prios d ops env sch classid parentid opt arg fresh
        room sound)
  Step-IsSound {sch} (delete c clock err c_in small e) sound = record {
    forest = rw (e) at (htb_delete-HasForest rb prios d ops sch c clock sound.forest c_in small);
    counts =
        rw (e) at
          (htb_delete-IsCounted rb prios d ops sch c clock sound.forest c_in small sound.counts);
  }

  -- From htb_init on, whatever packets and classes come and go and in whichever order, the classes are a
  -- forest: a parent is a class on a higher level and knows the number of its children, and the levels
  -- are below 8, so that they index the rows; and qlen is the number of the packets in the direct
  -- queue and in the queues of the leaves, where alone packets stand.
  pub Reachable-IsSound : {sch : Qdisc Skb State} → Reachable sch → IsSound d sch
  Reachable-IsSound (init gopt hash_error tx_queue_len fresh e) =
      htb_init-IsSound _ _ gopt hash_error tx_queue_len fresh e
  Reachable-IsSound (next r step) = Step-IsSound step (Reachable-IsSound r)
