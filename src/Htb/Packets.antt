-- ===== src/Htb/Packets.antt =====
-- sch_htb.c: packets through the scheduler. The queue of a leaf is a discipline of its own, which the
-- code calls and the file does not hold; so are the filters, and the hash table of the classes.
use virtual_time_kernel.Base.{
  ℕ, zero, suc, ◌+◌, ◌≡◌, Bool, true, false, ltb, ◌==◌, if◌then◌else◌, List, [], ◌∷◌, ◌++◌, Option,
  none, some, length, update,
}
use virtual_time_kernel.Htb.{HtbSched}
use virtual_time_kernel.Htb.Tree.{RbTree}
use virtual_time_kernel.Htb.Feeds.{htb_activate}

-- The discipline of a leaf: qlen is the number of packets that it holds. An enqueue that does not return
-- NET_XMIT_SUCCESS, which is 0, has not taken the packet in.
pub record Discipline (Skb State : Type 0) : Type 0 where
  pub qlen : State → ℕ
  pub enqueue : Skb → State → State × ℕ
  pub enqueue-qlen :
      (skb : Skb) (s : State)
      → qlen (enqueue skb s).0 ≡ (if (enqueue skb s).1 == 0 then suc (qlen s) else qlen s)
  pub dequeue : State → State × Option Skb
  pub dequeue-some :
      (s : State) (skb : Skb) → (dequeue s).1 ≡ some skb → qlen s ≡ suc (qlen (dequeue s).0)
  pub dequeue-none : (s : State) → (dequeue s).1 ≡ none → qlen (dequeue s).0 ≡ qlen s

-- What a chain of filters says of a packet.
pub data Match : Type 0 where
  unmatched stolen shot : Match
  -- a class, or its identifier
  to_class : ℕ → Match
  to_classid : ℕ → Match

-- `struct Qdisc` with the scheduler's private data; `clhash` has the classes, by number, and
-- `default_class` is the identifier TC_H_MAKE(TC_H_MAJ(handle), defcls).
pub record Qdisc (Skb State : Type 0) : Type 0 where
  pub htb : HtbSched
  pub handle : ℕ
  pub default_class : ℕ
  pub rate2quantum : ℕ
  pub clhash : List ℕ
  pub filter_list : Option ℕ
  pub class_filters : ℕ → Option ℕ
  pub leaves : ℕ → State
  pub direct_queue : List Skb
  pub direct_qlen : ℕ
  pub direct_pkts : ℕ
  pub qlen : ℕ

-- NULL with what *qerr says, HTB_DIRECT, or a leaf.
pub data Target : Type 0 where
  nowhere : Bool → Target
  direct : Target
  leaf : ℕ → Target

-- What htb_enqueue returns: success, a full direct queue, what the filters said (true for a stolen
-- packet), or the leaf's refusal.
pub data Xmit : Type 0 where
  success dropped : Xmit
  filtered : Bool → Xmit
  refused : ℕ → Xmit

-- The class with an identifier.
unfoldable pub find_class : HtbSched → List ℕ → ℕ → Option ℕ
find_class q [] id = none
find_class q (c ∷ cs) id =
    let rest = find_class q cs id in if (q.classes c).classid == id then some c else rest

module _ {Skb State : Type 0} where
  abbrev pub htb_find : Qdisc Skb State → ℕ → Option ℕ
  htb_find sch id = find_class sch.htb sch.clhash id

  abbrev pub is_leaf : Qdisc Skb State → ℕ → Bool
  is_leaf sch c = (sch.htb.classes c).level == 0

  abbrev pub default_target : Qdisc Skb State → Target
  default_target sch = elim (htb_find sch sch.default_class) [
    | none ↦ direct
    | some c ↦ if is_leaf sch c then leaf c else direct
  ]

  -- The loop over chains of filters, `none` where it has not ended after `turns`.
  unfoldable pub classify_from : (ℕ → Match) → ℕ → Qdisc Skb State → Option ℕ → Option Target
  classify_from tc_classify zero sch tcf = none
  classify_from tc_classify (suc turns) sch none = some (default_target sch)
  classify_from tc_classify (suc turns) sch (some f) =
      let hit = λ (c : ℕ).
        let rest = classify_from tc_classify turns sch (sch.class_filters c) in
        if is_leaf sch c then some (leaf c) else rest in
      elim (tc_classify f) [
        | unmatched ↦ some (default_target sch)
        | stolen ↦ some (nowhere true)
        | shot ↦ some (nowhere false)
        | to_class c ↦ hit c
        | to_classid id ↦
            if id == sch.handle
            then some direct
            else elim (htb_find sch id) [ none ↦ some (default_target sch) | some c ↦ hit c ]
      ]

  -- `priority` is the packet's.
  unfoldable pub htb_classify : (ℕ → Match) → ℕ → Qdisc Skb State → ℕ → Option Target
  unfolding classify_from
  htb_classify tc_classify turns sch priority =
      if priority == sch.handle then some direct else elim (htb_find sch priority) [
        | none ↦ classify_from tc_classify turns sch sch.filter_list
        | some c ↦
            if is_leaf sch c
            then some (leaf c)
            else classify_from tc_classify turns sch (sch.class_filters c)
      ]

module _ (rb : RbTree) (prios : List ℕ) {Skb State : Type 0} (d : Discipline Skb State) where
  open d use {enqueue}

  unfoldable pub enqueue_to : Qdisc Skb State → Skb → Target → Qdisc Skb State × Xmit
  enqueue_to sch skb direct =
      if ltb (length sch.direct_queue) sch.direct_qlen
      then (
        record sch {
          direct_queue = sch.direct_queue ++ (skb ∷ []);
          direct_pkts = sch.direct_pkts + 1;
          qlen = sch.qlen + 1;
        },
        success,
      )
      else (sch, dropped)
  enqueue_to sch skb (nowhere was_stolen) = (sch, filtered was_stolen)
  enqueue_to sch skb (leaf c) =
      let (s, ret) = enqueue skb (sch.leaves c) in
      let queued : Qdisc Skb State = record sch { leaves = update sch.leaves c s } in
      if ret == 0
      then (record queued { htb = htb_activate rb prios sch.htb c; qlen = sch.qlen + 1 }, success)
      else (queued, refused ret)

  unfoldable pub htb_enqueue :
      (Skb → ℕ → Match) → ℕ → (Skb → ℕ) → Qdisc Skb State → Skb → Option (Qdisc Skb State × Xmit)
  unfolding enqueue_to htb_classify
  htb_enqueue tc_classify turns priority sch skb =
      elim (htb_classify (tc_classify skb) turns sch (priority skb)) [
        | none ↦ none
        | some target ↦ some (enqueue_to sch skb target)
      ]
