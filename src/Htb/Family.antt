-- ===== src/Htb/Family.antt =====
-- sch_htb.c: the count of packets while a class joins the others or leaves them.
use virtual_time_kernel.Base.{
  ℕ, ◌≡◌, ◌≢◌, sym, ap, ◌∙◌, arith, Bool, true, false, not, ◌&&◌, ◌==◌, ◌∷◌, none, some, update,
  inl, inr,
}
use virtual_time_kernel.Htb.Tree.{mem, without}
use virtual_time_kernel.Htb.Packets.{Discipline, Qdisc}
use virtual_time_kernel.Htb.Conserved.{Same, leaf-Same}
use virtual_time_kernel.Htb.Forest.{without-mem}
use virtual_time_kernel.Htb.Growth.{same_or_other}
use virtual_time_kernel.Htb.Kinship.{HasForest, level_of}
use virtual_time_kernel.Htb.Balance.{weight, total, total_agree, total-without, IsCounted}

module _ {Skb State : Type 0} (d : Discipline Skb State) where
  -- A class joins with an empty queue.
  pub joined-IsCounted :
      {sch sch' : Qdisc Skb State} (c : ℕ) (s : State)
      → mem c sch.clhash ≡ false
      → sch'.clhash ≡ (c ∷ sch.clhash)
      → sch'.leaves ≡ update sch.leaves c s
      → d.qlen s ≡ 0
      → sch'.direct_queue ≡ sch.direct_queue
      → sch'.qlen ≡ sch.qlen
      → ((x : ℕ) → c ≢ x → level_of sch' x ≡ level_of sch x)
      → IsCounted d sch
      → IsCounted d sch'
  unfolding total
  joined-IsCounted {sch} {sch'} c s fresh hash leaves none_in line q levels counted =
      let empty = counted.outside c fresh in
      let same : Same d sch sch' = leaf-Same d sch sch' c s line leaves (none_in ∙ sym empty) in
      let sums : total (weight d sch') sch'.clhash ≡ total (weight d sch) (c ∷ sch.clhash) =
        rw (hash)
          (total_agree (weight d sch) (weight d sch') (c ∷ sch.clhash) (λ x k. same (some x))) in
      let direct = same none in
      let before = counted.balance in
      record {
        balance = omega arith;
        outside = λ x k.
            let k' : mem x (c ∷ sch.clhash) ≡ false = rw (hash) at k in
            same (some x) ∙ counted.outside x (ground arith);
        inner = λ x k. elim (same_or_other c x) [
          | inl e ↦ same (some x) ∙ (ap (weight d sch) (sym e) ∙ empty)
          | inr n ↦ same (some x) ∙ counted.inner x (rw (levels x n) at k)
        ];
      }

  -- A class without packets leaves.
  pub parted-IsCounted :
      {sch sch' : Qdisc Skb State} (c : ℕ)
      → HasForest sch
      → mem c sch.clhash ≡ true
      → weight d sch c ≡ 0
      → sch'.clhash ≡ without c sch.clhash
      → Same d sch sch'
      → sch'.qlen ≡ sch.qlen
      → ((x : ℕ) → level_of sch' x ≡ level_of sch x)
      → IsCounted d sch
      → IsCounted d sch'
  parted-IsCounted {sch} {sch'} c forest c_in empty hash same q levels counted =
      let sums : total (weight d sch') sch'.clhash ≡ total (weight d sch) (without c sch.clhash) =
        rw (hash) (
          total_agree (weight d sch) (weight d sch') (without c sch.clhash)
            (λ x k. same (some x))) in
      let split = total-without (weight d sch) c sch.clhash c_in in
      let direct = same none in
      let before = counted.balance in
      record {
        balance = omega arith;
        outside = λ x k.
            let k' : mem x (without c sch.clhash) ≡ false = rw (hash) at k in
            let member = without-mem c x sch.clhash forest.unique in
            same (some x) ∙ elim (same_or_other c x) [
              | inl e ↦ ap (weight d sch) (sym e) ∙ empty
              | inr n ↦ counted.outside x (not_in (mem x sch.clhash) c x n (sym member ∙ k'))
            ];
        inner = λ x k. same (some x) ∙ counted.inner x (rw (levels x) at k);
      }
    where
      not_in : (b : Bool) (c x : ℕ) → c ≢ x → (b && not (c == x)) ≡ false → b ≡ false
      not_in b c x n h = ground arith
