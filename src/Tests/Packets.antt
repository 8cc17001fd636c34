-- ===== src/Tests/Packets.antt =====
-- Packets by their lengths, through the token bucket.
use virtual_time_kernel.Base.{
  ℕ, suc, arith, ◌≡◌, refl, true, false, length, List, [], ◌∷◌, Option, none, some,
}
use virtual_time_kernel.Base.Int.{pos}
use virtual_time_kernel.Htb.Charge.{unfrozen_now}
use virtual_time_kernel.Htb.Packets.{
  Discipline, Qdisc, Match, unmatched, Xmit, leaf, find_class, htb_classify, htb_enqueue,
}
use virtual_time_kernel.Htb.{HtbPrio, HtbSched}
use virtual_time_kernel.Htb.Tree.{fork, nil, mem}
use virtual_time_kernel.Htb.Feeds.{any_bit}
use virtual_time_kernel.Htb.Service.{htb_dequeue, deliver}
use virtual_time_kernel.Htb.Accepted.{
  IsBacklogged, Answered, htb_enqueue-Answered, htb_enqueue-IsBacklogged,
}
use virtual_time_kernel.Tests.Samples.{math64, emulation}
use virtual_time_kernel.Tests.Psched.{ethernet}
use virtual_time_kernel.Tests.Htb.{sched, rbtree, prios}

abbrev pub take : List ℕ → List ℕ × Option ℕ
take [] = ([], none)
take (x ∷ xs) = (xs, some x)

pub take-some : (s : List ℕ) (x : ℕ) → (take s).1 ≡ some x → length s ≡ suc (length (take s).0)
take-some [] x h = ground arith
take-some (y ∷ ys) x h = refl

pub take-none : (s : List ℕ) → (take s).1 ≡ none → length (take s).0 ≡ length s
take-none [] h = refl
take-none (x ∷ xs) h = ground arith

-- A discipline that sends the last packet first.
abbrev pub stack : Discipline ℕ (List ℕ)
stack = record {
  qlen = λ s. length s;
  enqueue = λ x s. (x ∷ s, 0);
  enqueue-qlen = λ x s. refl;
  dequeue = take;
  dequeue-some = take-some;
  dequeue-none = take-none;
}

abbrev pub port : Qdisc ℕ (List ℕ)
port = record {
  htb = sched;
  handle = 65536;
  default_class = 5;
  rate2quantum = 10;
  clhash = 5 ∷ [];
  filter_list = none;
  class_filters = λ c. none;
  leaves = λ c. [];
  direct_queue = 60 ∷ [];
  direct_qlen = 2;
  direct_pkts = 1;
  qlen = 1;
}

-- The direct queue is served first.
direct_first :
    htb_dequeue math64 ethernet rbtree prios false stack
      (λ x. x)
      4
      (λ l. 4)
      emulation
      1
      (pos 2000)
      port
    ≡ some (emulation, record port { direct_queue = []; qlen = 0 }, deliver 60)
unfolding htb_dequeue
direct_first = refl

-- Every class has the priority 0, and the packets for 5 are those of priority 5.
abbrev filters : ℕ → ℕ → Match
filters skb f = unmatched

sched-in_range : (c : ℕ) → mem (sched.classes c).prio prios ≡ true
sched-in_range c = refl

to_5 : htb_classify (filters 1500) 1 port 5 ≡ some (leaf 5)
unfolding htb_classify find_class
to_5 = refl

htb_enqueue-Answered_example :
    (sch' : Qdisc ℕ (List ℕ)) × (result : Xmit) × (htb_enqueue rbtree prios stack filters 1
        (λ skb. 5)
        port
        1500
      ≡ some (sch', result))
    × Answered rbtree prios stack port 1500 (leaf 5) result sch'
htb_enqueue-Answered_example =
    htb_enqueue-Answered rbtree prios stack filters 1 (λ skb. 5) port 1500 (leaf 5) sched-in_range
      to_5

-- A packet waits in every leaf, and every leaf is active.
abbrev busy : Qdisc ℕ (List ℕ)
busy = record port {
  htb = record sched { classes = λ c. record (sched.classes c) { prio_activity = λ p. true } };
  leaves = λ c. 60 ∷ [];
}

busy-IsBacklogged : IsBacklogged rbtree prios stack busy
unfolding any_bit
busy-IsBacklogged c full = refl

busy_to_5 : htb_classify (filters 1500) 1 busy 5 ≡ some (leaf 5)
unfolding htb_classify find_class
busy_to_5 = refl

htb_enqueue-IsBacklogged_example :
    (sch' : Qdisc ℕ (List ℕ)) × (result : Xmit) × (htb_enqueue rbtree prios stack filters 1
        (λ skb. 5)
        busy
        1500
      ≡ some (sch', result))
    × IsBacklogged rbtree prios stack sch'
htb_enqueue-IsBacklogged_example =
    htb_enqueue-IsBacklogged rbtree prios stack filters 1 (λ skb. 5) busy 1500 (leaf 5) (λ c. refl)
      busy_to_5 busy-IsBacklogged

-- With a packet in the leaf's queue alone.
abbrev waiting : Qdisc ℕ (List ℕ)
waiting = record port { direct_queue = []; leaves = λ c. 1500 ∷ [] }

-- The class 5 in the row of the leaves, and no event before 9000.
abbrev first_row : HtbPrio
first_row = record { tree = fork nil 5 nil; ptr = some 5; last_ptr_id = 0 }

abbrev ready : HtbSched
ready = record sched {
  hprio = λ l p. first_row;
  row_mask = λ l p. true;
  near_ev_cache = λ l. pos 9000;
}

abbrev loaded : Qdisc ℕ (List ℕ)
loaded = record port { htb = ready; direct_queue = []; leaves = λ c. 1500 ∷ [] }

-- The scheduler at 2000.
abbrev at_2000 : HtbSched
at_2000 = unfrozen_now ready (emulation.tasks 9) (pos 2000)
