-- ===== src/Lib.antt =====
-- Virtual time for Linux processes.
--
-- The program patches the Linux kernel so that each process can have a clock of its own, which runs
-- slower or faster than the wall clock by a time dilation factor (1000 stands for 1) and stands
-- still while the process is frozen. A network emulator runs each host as a group of processes in
-- virtual time, and shapes the traffic of the group at rates that follow its dilation.
--
-- Parts, and how they interact:
--   * Task: the fields that the patch adds to `struct task_struct` (include/linux/sched.h), the
--     process tree and the process table. A process goes by its number in place of a pointer, a
--     process's `children` list is a forest, and the table is a function from numbers.
--   * Timespec: include/linux/time.h and kernel/time.c, times as seconds and nanoseconds; Normal and
--     RoundTrip have their laws.
--   * Clock: kernel/time/timekeeping.c, what a reading of the clock does to the reader's fields
--     (real_virtual_timekeeping and the two updates below it). Range says in which range the fields
--     do not overflow, Reading unfolds a reading within it, Advance has its laws, History those of any
--     number of readings.
--   * Dilation: kernel/time.c and init_virtual_start_time of kernel/fork.c, entering, changing and
--     leaving virtual time and freezing, over the process table. Freeze and Thaw have the laws of
--     freezing, Transparent relates them to Clock, Retune and Subtree are about set_dilation.
--   * Fork: kernel/fork.c, do_fork and unshare, which enter virtual time through Dilation. Readings is
--     about the clock of the process that do_fork makes.
--   * Proc: fs/proc/base.c, the files by which a user drives Dilation and reads the fields of Task.
--     Show is about reading them, Write about writing them.
--   * Psched: net_both/sched/sch_generic.c and include/net/sch_generic.h, rates of a traffic class
--     divided by the dilation. Calibrate is about the loop that replaces a division by a
--     multiplication, Dilated about rates and the time of a packet.
--   * Htb: net_both/sched/sch_htb.c, the token bucket scheduler over Psched. Tree has its search
--     trees, Tokens its buckets, Wait its event queues, Feeds its rows and feeds, Charge the
--     charging of packets and the events, Lookup the search for the next leaf, Packets the way of a
--     packet into the queues, Service its way out (htb_dequeue), Classes the users and disciplines of
--     the classes, Init, Reset, Change and Delete the operations of those names (htb_init; htb_drop
--     and htb_reset; htb_change_class; htb_delete). Rows, Removal, Marked and Charged have laws of
--     the rows, Upper of the search, Poll, Conserved, Active, Accepted, Delivered and Sending of the
--     packets. Shape, Unmoved,
--     Steady and Hierarchy show that packets leave the classes in their places; Forest says what a
--     hierarchy is, and Growth, Kinship, Lifecycle and Deletion are about classes that come and go
--     in it. Balance says what the count of packets is, and Emptying, Family, Counted, Dropped,
--     Targets, Sound and Changes that the operations keep it; Runs has the runs of the scheduler,
--     any sequence of its operations from htb_init on, Refused the errors of a change, and Quiet
--     the scheduler after a reset and the quantum. Blind says what a change of mode does not touch;
--     Due, Queue, Clocks and Moves are about the event queue of a level, for the events of Events.
--   * Sleep: kernel/hrtimer.c and kernel/futex.c, requested waits multiplied by the dilation.
--   * Hrtimer: kernel/hrtimer.c, how a periodic timer is moved past now.
--   * Jiffies: kernel/time.c, conversions between ticks and times, and mktime; Rounding has laws.
--   * Userspace: vt_userspace/vtutil.c, the library of the user's programs, which writes to the files of
--     Proc. Threads is about a group that is frozen by threads, Elapsed about differences of times.
--   * Base has the shared names, signed integers (Int) and machine words (Word). Tests has runs on
--     concrete inputs.
--
-- How the code is modelled: state is passed in and out. An `s64` is an integer to which the stores
-- of the source apply `s64`, which wraps; unsigned words are numbers with their remainder written
-- out. In Dilation and Fork the n-th reading of the wall clock is `wall n`, an arbitrary function;
-- Timekeeper.Read has the readings of a timekeeper. What a clocksource counts and converts, and what
-- the NTP code returns, is a parameter (Timekeeper.Ntp). Division helpers of
-- the kernel (Math64), the balancing of trees (Htb.Tree.RbTree), and what copy_process,
-- copy_from_user and kstrtoint return, the filters of packets and the queues of the leaves
-- (Htb.Packets.Discipline, Htb.Classes.LeafOps), and the accessors of a timer (Hrtimer.HrtimerOps)
-- are parameters, with what their documentation says of them; the netlink attributes that were
-- parsed, what the rate estimator's functions return and the memory for a new class are arguments of
-- htb_change_class.
-- The parent pointers of traffic classes are a list of ancestors, and a bit mask of priorities is
-- a family of bits. Locks are not modelled: each operation runs alone.
--
-- Bounds and fuel: the loops of set_normalized_timespec move the nanoseconds by a second in each
-- round and have fuel for as many rounds as that takes; the walks over trees, ancestors and masks
-- recur on their data. The loop of psched_ratecfg_precompute has fuel 35, since 10^9 reaches the
-- top bit of a word after 34 doublings. htb_do_events stops when a given number of turns have
-- passed, as the source does when two ticks have passed, of which Htb.Events needs one for each
-- event that is due and one more, and htb_lookup_leaf after 65535 turns,
-- the source's own bound. The loops that carry seconds have fuel for as many seconds as the
-- nanoseconds hold, the loop of update_wall_time for the cycles and the shift, of which each round
-- takes some; those of timekeeping_bigadjust have a round for each bit of their word. The levels of
-- htb_dequeue share the two ticks, so each has a number of turns of its own (`ticks`). The chains of
-- filters in htb_classify and the search of htb_dequeue_tree for a packet have no bound in the source;
-- they have fuel, and no result (`none`) where it is used up. So has htb_dequeue_tree where the source
-- stops the kernel (BUG_ON, a root that is not there).
--
-- Not modelled: timers and wait queues, the kernel's NTP code, the retries of a reading whose
-- sequence number changed, the dumps, the statistics and the destruction of the token bucket, and the
-- programs that measure and print what they measured.
pub mod Base
pub mod Math64
pub mod Timespec
pub mod Task
pub mod Clock
pub mod Dilation
pub mod Proc
pub mod Psched
pub mod Htb
pub mod Jiffies
pub mod Fork
pub mod Sleep
pub mod Hrtimer
pub mod Ktime
pub mod Timekeeper
pub mod Userspace
pub mod Tests
