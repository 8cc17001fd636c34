-- ===== src/Htb/Quiet.antt =====
-- sch_htb.c: the scheduler after htb_reset, and the quantum of a leaf.
use virtual_time_kernel.Math64.{Math64}
