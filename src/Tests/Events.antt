-- ===== src/Tests/Events.antt =====
-- An event queue of which one event is due.
use virtual_time_kernel.Base.{ℕ, ◌≡◌, refl, arith, false, ◌==◌, if◌then◌else◌, if_both}
use virtual_time_kernel.Base.Int.{pos, negsuc, ◌+ℤ◌, ◌-ℤ◌}
use virtual_time_kernel.Base.Word.{s64}
use virtual_time_kernel.Htb.{HtbClass, HtbSched, cant_send}
use virtual_time_kernel.Htb.Tree.{nil, fork, link}
use virtual_time_kernel.Htb.Wait.{htb_add_to_wait_tree}
use virtual_time_kernel.Htb.Tokens.{htb_class_mode, htb_lowater, htb_hiwater}
use virtual_time_kernel.Htb.Feeds.{htb_change_class_mode, any_bit}
use virtual_time_kernel.Htb.Charge.{htb_do_events, apply_event}
use virtual_time_kernel.Htb.Due.{timing, IsTimely}
use virtual_time_kernel.Htb.Queue.{IsQueue}
use virtual_time_kernel.Htb.Events.{Settled, htb_do_events-Settled}
use virtual_time_kernel.Tests.Samples.{math64}
use virtual_time_kernel.Tests.Psched.{ethernet}
use virtual_time_kernel.Tests.Htb.{rbtree, prios, sched, leaf}

-- A class that is short of tokens, and waits until a time.
abbrev short : ℕ → HtbClass
short key = record leaf { tokens = negsuc 1999; cmode = cant_send; pq_key = pos key }

abbrev busy : HtbSched
busy = record sched {
  classes = λ c. if c == 1 then short 400 else short 900;
  wait_pq = λ l. fork nil 1 (fork nil 2 nil);
}

short-IsTimely : (key : ℕ) → IsTimely (pos 500) (timing (short key))
short-IsTimely key = record {
  tokens_short = (omega arith, omega arith);
  ctokens_short = (omega arith, omega arith);
  t_c_time = (omega arith, omega arith);
  past = omega arith;
  mbuffer_short = (omega arith, omega arith);
  mbuffer_nonneg = omega arith;
  buffer_short = (omega arith, omega arith);
  buffer_nonneg = omega arith;
  cbuffer_short = (omega arith, omega arith);
  cbuffer_nonneg = omega arith;
}

busy-IsQueue : IsQueue busy 0
busy-IsQueue = record {
  sorted = (λ y m. ground arith, (λ y m. absurd (ground arith), tt));
  once = λ d. ground arith;
  here = λ d m. ground arith;
  timely = λ d m.
      if_both (λ cl. IsTimely (pos 500) (timing cl)) (d == 1) _ _ (short-IsTimely 400)
        (short-IsTimely 900);
  now_time = (omega arith, omega arith);
}

htb_do_events-Settled_example :
    let (q', next) = htb_do_events math64 ethernet rbtree prios false 2 busy 0 in
    Settled busy q' 0 next
htb_do_events-Settled_example =
    htb_do_events-Settled math64 ethernet rbtree prios false 2 busy 0 busy-IsQueue (ground arith)

-- The class 1 waits until its bucket is at 0, after the class 2.
next_event : (htb_do_events math64 ethernet rbtree prios false 2 busy 0).1 ≡ pos 900
unfolding htb_do_events apply_event htb_change_class_mode htb_class_mode htb_lowater htb_hiwater
    any_bit htb_add_to_wait_tree s64 ◌+ℤ◌ ◌-ℤ◌ link
next_event = refl
