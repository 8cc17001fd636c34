-- ===== src/Tests/Classes.antt =====
-- Classes of the token bucket that come and go, with stacks of packets by their lengths.
use virtual_time_kernel.Base.{
  ℕ, suc, ◌-◌, ◌*◌, ◌≡◌, refl, arith, false, ◌==◌, if◌then◌else◌, List, [], ◌∷◌, none, some, length,
  inr,
}
use virtual_time_kernel.Base.Int.{pos}
use virtual_time_kernel.Psched.{
  TcRatespec, psched_ratecfg_precompute, set_mult, calibrate, dilate_rate,
}
use virtual_time_kernel.Htb.Feeds.{
  htb_deactivate, htb_activate, htb_activate_prios, activate_from, htb_add_class_to_row, add_rows,
  any_bit,
}
use virtual_time_kernel.Htb.Shape.{htb_deactivate-Kept}
use virtual_time_kernel.Htb.Packets.{
  Qdisc, unmatched, success, find_class, htb_enqueue, htb_classify, enqueue_to,
}
use virtual_time_kernel.Htb.Classes.{LeafOps}
use virtual_time_kernel.Htb.Reset.{drop_list, htb_drop}
use virtual_time_kernel.Htb.Change.{
  TcHtbOpt, Attributes, Surroundings, htb_change_class, add_class, configure, new_class, set_rates,
  quantum_of, tc_h_root,
}
use virtual_time_kernel.Htb.Init.{InitOptions, htb_init}
use virtual_time_kernel.Htb.Dropped.{Dropped, htb_drop-Dropped}
use virtual_time_kernel.Htb.Targets.{IsSound}
use virtual_time_kernel.Htb.Runs.{
  Reachable, init, next, change, drop, enqueue, IsAllocated, Reachable-IsSound,
}
use virtual_time_kernel.Htb.Refused.{AllOrNothing, htb_change_class-AllOrNothing}
use virtual_time_kernel.Tests.Samples.{math64}
use virtual_time_kernel.Tests.Psched.{ethernet}
use virtual_time_kernel.Tests.Htb.{rbtree, prios}
use virtual_time_kernel.Tests.Packets.{stack, port}

-- Dropping takes the packet from the top.
abbrev pop : List ℕ → List ℕ × ℕ
pop [] = ([], 0)
pop (x ∷ xs) = (xs, suc x)

pop-qlen :
    (s : List ℕ) → length s ≡ (if (pop s).1 == 0 then length (pop s).0 else suc (length (pop s).0))
pop-qlen [] = refl
pop-qlen (x ∷ xs) = ground arith

empty : (id : ℕ) (s : List ℕ) → some [] ≡ some s → length s ≡ 0
empty id s e = ground arith

abbrev ops : LeafOps stack
ops = record {
  qdisc_reset = λ s. [];
  qdisc_reset-qlen = λ s. refl;
  drop = pop;
  drop-qlen = pop-qlen;
  create_pfifo = λ id. some [];
  create_pfifo-qlen = empty;
  noop_qdisc = [];
  noop_qdisc-qlen = refl;
  tree_decrease_qlen =
      λ sch c n. record sch { htb = htb_deactivate rbtree prios sch.htb c; qlen = sch.qlen - n };
  tree_decrease_qlen-qlen = λ sch c n. refl;
  tree_decrease_qlen-leaves = λ sch c n. refl;
  tree_decrease_qlen-direct = λ sch c n. refl;
  tree_decrease_qlen-clhash = λ sch c n. refl;
  tree_decrease_qlen-Kept = λ sch c n. htb_deactivate-Kept rbtree prios sch.htb c;
}

abbrev fresh : Qdisc ℕ (List ℕ)
fresh = record port { direct_queue = []; qlen = 0 }

fresh-IsAllocated : IsAllocated stack fresh
fresh-IsAllocated = record { no_count = refl; no_packets = λ c. refl }

abbrev options : InitOptions
options = record { version = 3; rate2quantum = 10; defcls = 5; direct_qlen = none }

abbrev ready : Qdisc ℕ (List ℕ)
ready = (htb_init (some (inr (some options))) (pos 0) 1000 fresh).0

ready-Reachable :
    Reachable math64 ethernet (λ n. pos (n * 64)) rbtree prios false stack (λ x. x) ops ready
unfolding htb_init
ready-Reachable = init options (pos 0) 1000 fresh-IsAllocated refl

abbrev megabyte : TcRatespec
megabyte = record { rate = 1_000_000; overhead = 0; linklayer = 1 }

abbrev wish : TcHtbOpt
wish = record {
  rate = megabyte;
  ceil = megabyte;
  buffer = 1000;
  cbuffer = 1000;
  quantum = 0;
  prio = 3;
}

abbrev env : Surroundings
env = record {
  htb_rate_est = false;
  estimator = pos 0;
  memory = some 7;
  clock = pos 100;
  tdf = pos 0;
  get_rtab = λ spec table. spec;
}

abbrev attributes : Attributes
attributes = record {
  parms = some wish;
  rate64 = 0;
  ceil64 = 0;
  rtab = none;
  ctab = none;
  tca_rate = false;
}

-- The class 1:5 below the root.
abbrev with_one : Qdisc ℕ (List ℕ)
with_one =
    elim (htb_change_class math64 ethernet (λ n. pos (n * 64)) rbtree prios stack ops env ready
        65541 tc_h_root (some (inr attributes)) none)
      as (λ _. Qdisc ℕ (List ℕ)) [ none ↦ ready | some (sch, r) ↦ sch ]

with_one-Reachable :
    Reachable math64 ethernet (λ n. pos (n * 64)) rbtree prios false stack (λ x. x) ops with_one
unfolding htb_init htb_change_class add_class configure psched_ratecfg_precompute set_mult calibrate
    dilate_rate find_class
with_one-Reachable = next ready-Reachable (
    change env 65541 tc_h_root (some (inr attributes)) none (pos 0, some 7) (λ c e. refl)
      (omega arith) refl)

-- A packet of 600 bytes in its queue.
abbrev with_packet : Qdisc ℕ (List ℕ)
with_packet =
    elim (htb_enqueue rbtree prios stack (λ skb f. unmatched) 4 (λ skb. 65541) with_one 600)
      as (λ _. Qdisc ℕ (List ℕ)) [ none ↦ with_one | some (sch, r) ↦ sch ]

with_packet-Reachable :
    Reachable math64 ethernet (λ n. pos (n * 64)) rbtree prios false stack (λ x. x) ops with_packet
unfolding htb_enqueue htb_classify htb_init htb_change_class add_class configure
    psched_ratecfg_precompute set_mult calibrate dilate_rate find_class new_class set_rates
    quantum_of
with_packet-Reachable = next with_one-Reachable (
    enqueue (λ skb f. unmatched) 4 (λ skb. 65541) 600 success (λ f c e. absurd (ground arith)) refl)

Reachable-IsSound_example :
    IsSound stack (htb_drop rbtree prios stack ops (7 ∷ 6 ∷ 5 ∷ 4 ∷ 3 ∷ []) with_packet).0
Reachable-IsSound_example =
    Reachable-IsSound math64 ethernet (λ n. pos (n * 64)) rbtree prios false stack (λ x. x) ops
      (next with_packet-Reachable (drop (7 ∷ 6 ∷ 5 ∷ 4 ∷ 3 ∷ [])))

-- The packet is dropped from its queue.
packet_dropped : (htb_drop rbtree prios stack ops (7 ∷ 6 ∷ 5 ∷ 4 ∷ 3 ∷ []) with_packet).1 ≡ 601
unfolding htb_drop drop_list htb_enqueue htb_classify htb_init htb_change_class add_class configure
    psched_ratecfg_precompute set_mult calibrate dilate_rate find_class new_class set_rates
    quantum_of enqueue_to htb_activate htb_activate_prios activate_from htb_add_class_to_row
    add_rows any_bit
packet_dropped = refl

htb_drop-Dropped_example :
    Dropped rbtree prios stack ops with_packet
      (htb_drop rbtree prios stack ops (7 ∷ 6 ∷ 5 ∷ 4 ∷ 3 ∷ []) with_packet)
htb_drop-Dropped_example =
    htb_drop-Dropped rbtree prios stack ops (7 ∷ 6 ∷ 5 ∷ 4 ∷ 3 ∷ []) with_packet

-- Another class of the same identifier.
htb_change_class-AllOrNothing_example :
    AllOrNothing math64 ethernet
      (λ n. pos (n * 64))
      rbtree
      prios
      stack
      ops
      with_one
      none
      (htb_change_class math64 ethernet
        (λ n. pos (n * 64))
        rbtree
        prios
        stack
        ops
        env
        with_one
        65541
        tc_h_root
        (some (inr attributes))
        none)
htb_change_class-AllOrNothing_example =
    htb_change_class-AllOrNothing math64 ethernet (λ n. pos (n * 64)) rbtree prios stack ops env
      with_one 65541 tc_h_root (some (inr attributes)) none
