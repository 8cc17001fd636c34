-- ===== src/Htb.antt =====
-- net_both/sched/sch_htb.c: the classes of the hierarchical token bucket and the queues that they
-- stand in. Classes go by numbers in place of pointers.
pub mod Tree
pub mod Tokens
pub mod Wait
pub mod Feeds
pub mod Rows
pub mod Removal
pub mod Charge
pub mod Lookup
pub mod Marked
pub mod Charged
pub mod Upper
pub mod Packets
pub mod Service
pub mod Poll
pub mod Conserved
pub mod Delivered
pub mod Sending
pub mod Active
pub mod Accepted
pub mod Blind
pub mod Shape
pub mod Unmoved
pub mod Steady
pub mod Hierarchy
pub mod Classes
pub mod Reset
pub mod Delete
pub mod Forest
pub mod Growth
pub mod Kinship
pub mod Lifecycle
pub mod Deletion
pub mod Balance
pub mod Emptying
pub mod Family
pub mod Counted
pub mod Targets
pub mod Sound
pub mod Changes
pub mod Runs
pub mod Refused
pub mod Quiet
pub mod Dropped
pub mod Init
pub mod Change
pub mod Due
pub mod Queue
pub mod Clocks
pub mod Moves
pub mod Events
use virtual_time_kernel.Base.{ℕ, Bool, Option, List, update}
use virtual_time_kernel.Base.Int.{ℤ}
use virtual_time_kernel.Psched.{PschedRatecfg}
use virtual_time_kernel.Htb.Tree.{Rb}

-- enum htb_cmode
pub data Cmode : Type 0 where
  cant_send may_borrow can_send : Cmode

-- One bit for each priority.
abbrev pub Mask : Type 0
Mask = ℕ → Bool

-- `tree` is the row of a level or the feed of a class; `ptr` is the class that is served next.
pub record HtbPrio : Type 0 where
  pub tree : Rb
  pub ptr : Option ℕ
  pub last_ptr_id : ℕ

-- `ancestors` is what the parent pointers lead to, the parent first; `rate_est` tells whether an
-- estimator runs for the class. A leaf uses `deficit`, an inner
-- class uses `clprio`.
pub record HtbClass : Type 0 where
  pub classid : ℕ
  pub rate : PschedRatecfg
  pub dilation : ℤ
  pub ceil : PschedRatecfg
  pub buffer : ℤ
  pub cbuffer : ℤ
  pub mbuffer : ℤ
  pub prio : ℕ
  pub quantum : ℤ
  pub filter_cnt : ℤ
  pub rate_est : Bool
  pub refcnt : ℤ
  pub level : ℕ
  pub children : ℕ
  pub ancestors : List ℕ
  pub lends : ℕ
  pub borrows : ℕ
  pub tokens : ℤ
  pub ctokens : ℤ
  pub t_c : ℤ
  pub deficit : ℕ → ℤ
  pub clprio : ℕ → HtbPrio
  pub pq_key : ℤ
  pub prio_activity : Mask
  pub cmode : Cmode

-- The queues are indexed by level, and by priority after it.
pub record HtbSched : Type 0 where
  pub classes : ℕ → HtbClass
  pub now : ℤ
  pub drops : ℕ → List ℕ
  pub near_ev_cache : ℕ → ℤ
  pub row_mask : ℕ → Mask
  pub wait_pq : ℕ → Rb
  pub hprio : ℕ → ℕ → HtbPrio
  pub warned : Bool

abbrev pub set_class : HtbSched → ℕ → HtbClass → HtbSched
set_class q c cl = record q { classes = update q.classes c cl }
