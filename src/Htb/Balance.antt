-- ===== src/Htb/Balance.antt =====
-- sch_htb.c: qlen as the number of packets in the direct queue and in the queues of the leaves.
use virtual_time_kernel.Base.{
  ℕ, ◌+◌, ◌-◌, ◌≡◌, ◌≢◌, ◌<◌, sym, refl, ap, ◌∙◌, arith, true, false, ◌==◌, ==_refl, List, [], ◌∷◌,
  none, some, Bool-cases, inl, inr, length,
}
use virtual_time_kernel.Htb.Tree.{mem, without}
use virtual_time_kernel.Htb.Rows.{Unique}
use virtual_time_kernel.Htb.Packets.{Discipline, Qdisc}
use virtual_time_kernel.Htb.Conserved.{Same, OneMore}
use virtual_time_kernel.Htb.Steady.{Steady}
use virtual_time_kernel.Htb.Growth.{same_or_other}
use virtual_time_kernel.Htb.Kinship.{HasForest, level_of, same_level}

-- The sum over a list.
unfoldable pub total : (ℕ → ℕ) → List ℕ → ℕ
total w [] = 0
total w (c ∷ cs) = w c + total w cs

pub total_agree :
    (w w' : ℕ → ℕ) (cs : List ℕ)
    → ((c : ℕ) → mem c cs ≡ true → w' c ≡ w c)
    → total w' cs ≡ total w cs
unfolding total
total_agree w w' [] h = refl
total_agree w w' (c ∷ cs) h =
    let own = h c (rw (==_refl c) refl) in
    let rest = total_agree w w' cs (λ x k. h x (ground arith)) in omega arith

pub total_zero : (w : ℕ → ℕ) (cs : List ℕ) → ((c : ℕ) → w c ≡ 0) → total w cs ≡ 0
unfolding total
total_zero w [] h = refl
total_zero w (c ∷ cs) h = let own = h c in let rest = total_zero w cs h in omega arith

-- One member weighs another number.
pub total_change :
    (w w' : ℕ → ℕ) (c : ℕ) (cs : List ℕ)
    → Unique cs
    → mem c cs ≡ true
    → ((x : ℕ) → c ≢ x → w' x ≡ w x)
    → total w' cs + w c ≡ total w cs + w' c
unfolding total
total_change w w' c [] u k h = absurd (ground arith)
total_change w w' c (y ∷ ys) (new, u) k h = elim (same_or_other c y) [
  | inl e ↦
      let rest = total_agree w w' ys (λ x m. h x (λ c_x.
        let out : mem x ys ≡ false = ap (λ z. mem z ys) (sym c_x ∙ e) ∙ new in ground arith)) in
      let a : w c ≡ w y = ap w e in let b : w' c ≡ w' y = ap w' e in omega arith
  | inr n ↦
      let here = h y n in
      let y_c : (y == c) ≡ false = differ c y n in
      let rest = total_change w w' c ys u (ground arith) h in omega arith
]
  where
    differ : (a b : ℕ) → a ≢ b → (b == a) ≡ false
    differ a b h = ground arith

pub total-without :
    (w : ℕ → ℕ) (c : ℕ) (cs : List ℕ) → mem c cs ≡ true → total w cs ≡ w c + total w (without c cs)
unfolding total
total-without w c [] k = absurd (ground arith)
total-without w c (y ∷ ys) k = elim (Bool-cases (y == c)) [
  | inl e ↦ let y_c : y ≡ c = ground arith in rw (e, ap w y_c) refl
  | inr n ↦ let ih = total-without w c ys (ground arith) in rw (n) (omega arith)
]

module _ {Skb State : Type 0} (d : Discipline Skb State) where
  abbrev pub weight : Qdisc Skb State → ℕ → ℕ
  weight sch c = d.qlen (sch.leaves c)

  -- The scheduler's count is that of its packets, which stand in the leaves among its classes.
  pub record IsCounted (sch : Qdisc Skb State) : Type 0 where
    pub balance : sch.qlen ≡ length sch.direct_queue + total (weight sch) sch.clhash
    pub outside : (c : ℕ) → mem c sch.clhash ≡ false → weight sch c ≡ 0
    pub inner : (c : ℕ) → 0 < level_of sch c → weight sch c ≡ 0

  -- A queue that holds a packet is that of a leaf among the classes.
  pub busy-IsLeaf :
      {sch : Qdisc Skb State} (c : ℕ)
      → IsCounted sch
      → 0 < weight sch c
      → (mem c sch.clhash ≡ true) × (level_of sch c ≡ 0)
  busy-IsLeaf {sch} c counted busy =
      let in_hash : mem c sch.clhash ≡ true = elim (Bool-cases (mem c sch.clhash)) [
        | inl e ↦ e
        | inr e ↦ let none_here = counted.outside c e in absurd (omega arith)
      ] in
      let low : level_of sch c ≡ 0 = elim (same_or_other (level_of sch c) 0) [
        | inl e ↦ e
        | inr n ↦ let none_here = counted.inner c (omega arith) in absurd (omega arith)
      ] in
      (in_hash, low)

  -- The packets are where they were.
  pub IsCounted-Same :
      {sch sch' : Qdisc Skb State}
      → Steady sch sch'
      → Same d sch sch'
      → sch'.qlen ≡ sch.qlen
      → IsCounted sch
      → IsCounted sch'
  IsCounted-Same {sch} {sch'} steady same q counted =
      let hash = steady.steady_clhash in
      let sums : total (weight sch') sch'.clhash ≡ total (weight sch) sch.clhash =
        rw (hash) (total_agree (weight sch) (weight sch') sch.clhash (λ c k. same (some c))) in
      let line = same none in
      let before = counted.balance in
      record {
        balance = omega arith;
        outside = λ c k. same (some c) ∙ counted.outside c (rw (hash) at k);
        inner = λ c k. same (some c) ∙ counted.inner c (rw (same_level steady c) at k);
      }

  -- One leaf holds another number of packets, which the count follows.
  pub IsCounted-leaf :
      {sch sch' : Qdisc Skb State} (c : ℕ)
      → Steady sch sch'
      → HasForest sch
      → mem c sch.clhash ≡ true
      → level_of sch c ≡ 0
      → length sch'.direct_queue ≡ length sch.direct_queue
      → ((x : ℕ) → c ≢ x → weight sch' x ≡ weight sch x)
      → sch'.qlen + weight sch c ≡ sch.qlen + weight sch' c
      → IsCounted sch
      → IsCounted sch'
  IsCounted-leaf {sch} {sch'} c steady forest c_in low line others q counted =
      let hash = steady.steady_clhash in
      let sums = total_change (weight sch) (weight sch') c sch.clhash forest.unique c_in others in
      let same : total (weight sch') sch'.clhash ≡ total (weight sch') sch.clhash =
        ap (total (weight sch')) hash in
      let before = counted.balance in
      record {
        balance = omega arith;
        outside = λ x k.
            let out : mem x sch.clhash ≡ false = rw (hash) at k in
            others x (λ c_x.
              let here : mem x sch.clhash ≡ true = ap (λ z. mem z sch.clhash) (sym c_x) ∙ c_in in
              ground arith)
            ∙ counted.outside x out;
        inner = λ x k.
            let up : 0 < level_of sch x = rw (same_level steady x) at k in
            others x (λ c_x.
              let at_0 : level_of sch x ≡ 0 = ap (level_of sch) (sym c_x) ∙ low in omega arith)
            ∙ counted.inner x up;
      }

  -- One packet has left a place.
  pub IsCounted-OneMore :
      {sch sch' : Qdisc Skb State}
      → Steady sch sch'
      → HasForest sch
      → OneMore d sch' sch
      → sch'.qlen ≡ sch.qlen - 1
      → IsCounted sch
      → IsCounted sch'
  IsCounted-OneMore {sch} {sch'} steady forest (none, more, others) q counted =
      let hash = steady.steady_clhash in
      let same = λ (c : ℕ). sym (others (some c) (λ e. absurd (ground arith))) in
      let sums : total (weight sch') sch'.clhash ≡ total (weight sch) sch.clhash =
        rw (hash) (total_agree (weight sch) (weight sch') sch.clhash (λ c k. same c)) in
      let before = counted.balance in
      record {
        balance = omega arith;
        outside = λ c k. same c ∙ counted.outside c (rw (hash) at k);
        inner = λ c k. same c ∙ counted.inner c (rw (same_level steady c) at k);
      }
  IsCounted-OneMore {sch} {sch'} steady forest (some c, more, others) q counted =
      let (c_in, low) = busy-IsLeaf c counted (omega arith) in
      let before = counted.balance in
      let own = total-without (weight sch) c sch.clhash c_in in
      IsCounted-leaf c steady forest c_in low (sym (others none (λ e. absurd (ground arith))))
        (λ x n. sym (others (some x) (λ e. n (some_eq x c e)))) (omega arith) counted
    where
      some_eq : (x c : ℕ) → some x ≡ some c → c ≡ x
      some_eq x c e = ground arith
