-- ===== src/Htb/Sending.antt =====
-- sch_htb.c: htb_dequeue where a leaf has a packet.
use virtual_time_kernel.Math64.{Math64}
