-- ===== src/Tests/Htb.antt =====
-- The hierarchical token bucket.
use virtual_time_kernel.Base.{
  ℕ, ◌≡◌, refl, ◌⊎◌, arith, false, ◌||◌, ◌==◌, List, [], ◌∷◌, none, some,
}
use virtual_time_kernel.Base.Int.{pos, negsuc, ◌-ℤ◌, ◌≤ℤ◌, ◌<ℤ◌}
use virtual_time_kernel.Htb.{HtbClass, HtbPrio, HtbSched, can_send}
use virtual_time_kernel.Htb.Tree.{Rb, nil, fork, to_list, mem, without, RbTree, Sorted}
use virtual_time_kernel.Htb.Tokens.{
  account, account_bounds, htb_class_mode, htb_class_mode-Waits, Waits,
}
use virtual_time_kernel.Htb.Wait.{htb_add_to_wait_tree, htb_add_to_wait_tree_lem, keys, waiting}
use virtual_time_kernel.Htb.Rows.{RowsMarked, Unique}
use virtual_time_kernel.Htb.Charged.{htb_charge_class-RowsMarked}
use virtual_time_kernel.Htb.Charge.{htb_charge_class, htb_do_events}
use virtual_time_kernel.Htb.Lookup.{htb_id_find_next_upper}
use virtual_time_kernel.Htb.Upper.{htb_id_find_next_upper_lem, AllBelow, IsNextUpper}
use virtual_time_kernel.Tests.Samples.{math64}
use virtual_time_kernel.Tests.Psched.{configured, ethernet}

-- A list as a tree that leans to the right.
abbrev pub chain : List ℕ → Rb
chain [] = nil
chain (x ∷ xs) = fork nil x (chain xs)

pub chain_order : (xs : List ℕ) → to_list (chain xs) ≡ xs
chain_order [] = refl
chain_order (x ∷ xs) = rw (chain_order xs) refl

-- Trees that are not balanced.
abbrev pub rbtree : RbTree
rbtree = record {
  rb_insert_color = λ c t. t;
  rb_insert_color-order = λ c t. refl;
  rb_erase = λ c t. chain (without c (to_list t));
  rb_erase-order = λ c t. chain_order (without c (to_list t));
}

abbrev idle : HtbPrio
idle = record { tree = nil; ptr = none; last_ptr_id = 0 }

-- A leaf below class 9, with buckets of 1 ms.
abbrev pub leaf : HtbClass
leaf = record {
  classid = 5;
  rate = configured;
  dilation = pos 0;
  ceil = configured;
  buffer = pos 1_000_000;
  cbuffer = pos 1_000_000;
  mbuffer = pos 60_000_000_000;
  prio = 0;
  quantum = pos 1500;
  filter_cnt = pos 0;
  rate_est = false;
  refcnt = pos 1;
  level = 0;
  children = 0;
  ancestors = 9 ∷ [];
  lends = 0;
  borrows = 0;
  tokens = pos 1000;
  ctokens = pos 1000;
  t_c = pos 0;
  deficit = λ l. pos 0;
  clprio = λ p. idle;
  pq_key = pos 0;
  prio_activity = λ p. false;
  cmode = can_send;
}

abbrev pub sched : HtbSched
sched = record {
  classes = λ c. leaf;
  now = pos 500;
  drops = λ p. [];
  near_ev_cache = λ l. pos 0;
  row_mask = λ l p. false;
  wait_pq = λ l. nil;
  hprio = λ l p. idle;
  warned = false;
}

abbrev pub prios : List ℕ
prios = 0 ∷ 1 ∷ 2 ∷ 3 ∷ 4 ∷ 5 ∷ 6 ∷ 7 ∷ []

prios-Unique : Unique prios
prios-Unique = (refl, (refl, (refl, (refl, (refl, (refl, (refl, (refl, tt))))))))

account_bounds_example :
    let left = account (pos 1000) (pos 1_000_000) (pos 60_000_000_000) (pos 1_200_000) (pos 500) in
    (left ≤ℤ pos 1_000_000) × ((pos 0 -ℤ pos 60_000_000_000) <ℤ left)
account_bounds_example =
    account_bounds (pos 1000) (pos 60_000_000_000) (pos 1_200_000) (pos 500) 1_000_000
      (omega arith, omega arith) (omega arith, omega arith) (omega arith) refl (omega arith) refl
      (omega arith) (omega arith)

abbrev overdrawn : HtbClass
overdrawn = record leaf { tokens = negsuc 699 }

htb_class_mode-Waits_example : Waits overdrawn (pos 0) (htb_class_mode false overdrawn (pos 0))
htb_class_mode-Waits_example =
    htb_class_mode-Waits overdrawn (pos 0) (omega arith, omega arith) (omega arith, omega arith)
      (omega arith, omega arith)

htb_add_to_wait_tree_example :
    let q' = htb_add_to_wait_tree rbtree sched 3 (pos 700) in
    (pos 500 <ℤ keys q' 3)
    × Sorted (keys q') (waiting q' 0)
    × ((d : ℕ) → mem d (waiting q' 0) ≡ (3 == d || false))
    × (q'.near_ev_cache 0 ≤ℤ keys q' 3)
htb_add_to_wait_tree_example =
    htb_add_to_wait_tree_lem rbtree sched 3 (pos 700) (omega arith, omega arith)
      (omega arith, omega arith) (omega arith) tt refl

sched-RowsMarked : RowsMarked prios sched
sched-RowsMarked l p known = refl

htb_charge_class-RowsMarked_example :
    RowsMarked prios (htb_charge_class math64 ethernet rbtree prios false sched 3 0 1500)
    × RowsMarked prios (htb_do_events math64 ethernet rbtree prios false 8 sched 0).0
htb_charge_class-RowsMarked_example =
    htb_charge_class-RowsMarked math64 ethernet rbtree prios false sched 3 0 1500 8 prios-Unique
      sched-RowsMarked

-- The classes 1, 4 and 8, which go by their classids.
abbrev three : Rb
three = fork (fork nil 1 nil) 4 (fork nil 8 nil)

three-Sorted : Sorted (λ c. pos c) (to_list three)
three-Sorted = (λ y h. ground arith, (λ y h. ground arith, (λ y h. absurd (ground arith), tt)))

htb_id_find_next_upper_example :
    ((htb_id_find_next_upper (λ c. c) three 5 ≡ none) × AllBelow (λ c. c) 5 three)
    ⊎ ((c : ℕ) × (htb_id_find_next_upper (λ c. c) three 5 ≡ some c)
        × IsNextUpper (λ c. c) 5 three c)
htb_id_find_next_upper_example = htb_id_find_next_upper_lem (λ c. c) three 5 three-Sorted
