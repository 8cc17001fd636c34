-- ===== src/Htb/Init.antt =====
-- sch_htb.c: htb_init. What nla_parse_nested read is an argument.
use virtual_time_kernel.Base.{
  ℕ, ◌+◌, ◌*◌, ◌/◌, ◌%◌, ◌^◌, ◌==◌, if◌then◌else◌, [], Option, none, some, ◌⊎◌, inl, inr,
}
use virtual_time_kernel.Base.Int.{ℤ, pos, ltb_ℤ}
use virtual_time_kernel.Base.Word.{s32}
use virtual_time_kernel.Dilation.{einval}
use virtual_time_kernel.Htb.{HtbSched}
use virtual_time_kernel.Htb.Packets.{Qdisc}

-- `struct tc_htb_glob`, and the length of the direct queue where it is given.
pub record InitOptions : Type 0 where
  pub version : ℕ
  pub rate2quantum : ℕ
  pub defcls : ℕ
  pub direct_qlen : Option ℕ

-- HTB_VER >> 16
abbrev pub htb_version : ℕ
htb_version = 3

-- Below 1 as an int.
abbrev pub at_least_one : ℕ → ℕ
at_least_one n = if ltb_ℤ (s32 (pos n)) (pos 1) then 1 else n

abbrev pub at_least_two : ℕ → ℕ
at_least_two n = if ltb_ℤ (s32 (pos n)) (pos 2) then 2 else n

-- `hash_error` is what qdisc_class_hash_init returns. An attribute that is missing is `none`.
unfoldable pub htb_init :
    {Skb State : Type 0}
    → Option (ℤ ⊎ Option InitOptions)
    → ℤ
    → ℕ
    → Qdisc Skb State
    → Qdisc Skb State × ℤ
htb_init none hash_error tx_queue_len sch = (sch, einval)
htb_init (some (inl err)) hash_error tx_queue_len sch = (sch, err)
htb_init (some (inr none)) hash_error tx_queue_len sch = (sch, einval)
htb_init (some (inr (some gopt))) hash_error tx_queue_len sch =
    let q = sch.htb in
    let listed : HtbSched = record q { drops = λ p. [] } in
    let direct : ℕ = elim gopt.direct_qlen [ some n ↦ n | none ↦ at_least_two tx_queue_len ] in
    if gopt.version == htb_version
    then (if ltb_ℤ hash_error (pos 0) then (sch, hash_error) else (
      record sch {
        htb = listed;
        clhash = [];
        direct_queue = [];
        direct_qlen = direct;
        rate2quantum = at_least_one gopt.rate2quantum;
        default_class = sch.handle / 2 ^ 16 * 2 ^ 16 + gopt.defcls % 2 ^ 16;
      },
      pos 0,
    ))
    else (sch, einval)
