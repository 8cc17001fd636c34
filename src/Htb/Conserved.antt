-- ===== src/Htb/Conserved.antt =====
-- sch_htb.c: where packets are, before and after the scheduler's operations.
use virtual_time_kernel.Base.{
  ℕ, zero, suc, ◌+◌, ◌≡◌, ◌≢◌, sym, refl, ap, ◌∙◌, arith, ltb, ◌==◌, if◌then◌else◌, List, [], ◌∷◌,
  ◌++◌, Option, none, some, length, update, update_self, update_ne, Bool-cases, ◌⊎◌, inl, inr,
}
use virtual_time_kernel.Htb.{HtbSched}
use virtual_time_kernel.Htb.Tree.{RbTree}
use virtual_time_kernel.Htb.Feeds.{htb_activate, htb_deactivate, points_to}
use virtual_time_kernel.Htb.Lookup.{htb_lookup_leaf}
use virtual_time_kernel.Htb.Packets.{
  Discipline, Qdisc, Target, direct, nowhere, leaf, Xmit, success, enqueue_to,
}
use virtual_time_kernel.Htb.Service.{advance_ptr, given_up, same_class, serve}

pub Option-cases : {A : Type 0} (o : Option A) → (o ≡ none) ⊎ ((a : A) × (o ≡ some a))
Option-cases none = inl refl
Option-cases (some a) = inr (a, refl)

module _ {Skb State : Type 0} (d : Discipline Skb State) where
  -- Packets in a place: the queue of a leaf, or the direct queue.
  abbrev pub held : Qdisc Skb State → Option ℕ → ℕ
  held sch none = length sch.direct_queue
  held sch (some c) = d.qlen (sch.leaves c)

  -- The same number of packets in each place.
  abbrev pub Same : Qdisc Skb State → Qdisc Skb State → Type 0
  Same sch sch' = (place : Option ℕ) → held sch' place ≡ held sch place

  -- One packet more in one place.
  abbrev pub OneMore : Qdisc Skb State → Qdisc Skb State → Type 0
  OneMore sch sch' =
      (place : Option ℕ) × (held sch' place ≡ suc (held sch place))
      × ((other : Option ℕ) → other ≢ place → held sch' other ≡ held sch other)

  -- What a result of htb_enqueue says of the packets and of their count.
  abbrev pub Enqueued : Qdisc Skb State → Xmit → Qdisc Skb State → Type 0
  Enqueued sch success sch' = OneMore sch sch' × (sch'.qlen ≡ suc sch.qlen)
  Enqueued sch _ sch' = Same sch sch' × (sch'.qlen ≡ sch.qlen)

  pub length-snoc : (xs : List Skb) (x : Skb) → length (xs ++ (x ∷ [])) ≡ suc (length xs)
  length-snoc [] x = refl
  length-snoc (y ∷ ys) x = ap suc (length-snoc ys x)

  -- One leaf's queue is replaced, and the other queues are as they were.
  pub leaf-Same :
      (sch sch' : Qdisc Skb State) (c : ℕ) (s : State)
      → sch'.direct_queue ≡ sch.direct_queue
      → sch'.leaves ≡ update sch.leaves c s
      → d.qlen s ≡ d.qlen (sch.leaves c)
      → Same sch sch'
  leaf-Same sch sch' c s p q h none = ap length p
  leaf-Same sch sch' c s p q h (some e) = ap (λ f. d.qlen (f e)) q ∙ elim (Bool-cases (c == e)) [
    | inl same ↦
        let c_e : c ≡ e = ground arith in rw (same) (h ∙ ap (λ x. d.qlen (sch.leaves x)) c_e)
    | inr other ↦ rw (other) refl
  ]

  leaf-OneMore :
      (sch sch' : Qdisc Skb State) (c : ℕ) (s : State)
      → sch'.direct_queue ≡ sch.direct_queue
      → sch'.leaves ≡ update sch.leaves c s
      → d.qlen s ≡ suc (d.qlen (sch.leaves c))
      → OneMore sch sch'
  leaf-OneMore sch sch' c s p q h =
      (some c, ap (λ f. d.qlen (f c)) q ∙ ap d.qlen (update_self sch.leaves c s) ∙ h, others)
    where
      others : (other : Option ℕ) → other ≢ some c → held sch' other ≡ held sch other
      others none k = ap length p
      others (some e) k =
          ap (λ f. d.qlen (f e)) q
          ∙ ap d.qlen (update_ne sch.leaves c s e (λ c_e. k (ap some (sym c_e))))

  pub leaf-OneLess :
      (sch sch' : Qdisc Skb State) (c : ℕ) (s : State)
      → sch'.direct_queue ≡ sch.direct_queue
      → sch'.leaves ≡ update sch.leaves c s
      → d.qlen (sch.leaves c) ≡ suc (d.qlen s)
      → OneMore sch' sch
  leaf-OneLess sch sch' c s p q h = (
    some c,
    h ∙ ap suc (sym (ap (λ f. d.qlen (f c)) q ∙ ap d.qlen (update_self sch.leaves c s))),
    others,
  )
    where
      others : (other : Option ℕ) → other ≢ some c → held sch other ≡ held sch' other
      others none k = sym (ap length p)
      others (some e) k = sym (
          ap (λ f. d.qlen (f e)) q
          ∙ ap d.qlen (update_ne sch.leaves c s e (λ c_e. k (ap some (sym c_e)))))

  -- The rest of the scheduler's state holds no packets.
  pub htb-Same : (sch : Qdisc Skb State) (q : HtbSched) → Same sch (record sch { htb = q })
  htb-Same sch q none = refl
  htb-Same sch q (some c) = refl

  -- What serving a level says of the packets: one of them, if any, has left one queue.
  abbrev pub Served : Qdisc Skb State → Option Skb → Qdisc Skb State → Type 0
  Served sch none sch' = Same sch sch' × (sch'.qlen ≡ sch.qlen)
  Served sch (some skb) sch' = OneMore sch' sch × (sch'.qlen ≡ sch.qlen)

  pub after-Same :
      (sch sch₁ sch' : Qdisc Skb State) (found : Option Skb)
      → Same sch sch₁
      → sch₁.qlen ≡ sch.qlen
      → Served sch₁ found sch'
      → Served sch found sch'
  after-Same sch sch₁ sch' none same q (h, k) = (λ place. h place ∙ same place, k ∙ q)
  after-Same sch sch₁ sch' (some skb) same q ((place, more, others), k) =
      ((place, sym (same place) ∙ more, λ other ne. sym (same other) ∙ others other ne), k ∙ q)

  -- A change outside the queues after it.
  pub before-Same :
      (sch sch₁ : Qdisc Skb State) (found : Option Skb) (q : HtbSched)
      → Served sch found sch₁
      → Served sch found (record sch₁ { htb = q })
  before-Same sch sch₁ none q (h, k) = (λ place. htb-Same sch₁ q place ∙ h place, k)
  before-Same sch sch₁ (some skb) q ((place, more, others), k) = (
    (
      place,
      more ∙ ap suc (sym (htb-Same sch₁ q place)),
      λ other ne. others other ne ∙ sym (htb-Same sch₁ q other),
    ),
    k,
  )

  abbrev pub packet_of : Option (ℕ × Option Skb) → Option Skb
  packet_of none = none
  packet_of (some (c, found)) = found

  module _ (rb : RbTree) (prios : List ℕ) where
    -- Of the lengths of the queues, one has grown by one where a packet was accepted, and none otherwise;
    -- so has qlen.
    pub enqueue_to-Enqueued :
        (sch : Qdisc Skb State) (skb : Skb) (target : Target)
        → let (sch', result) = enqueue_to rb prios d sch skb target in Enqueued sch result sch'
    unfolding enqueue_to
    enqueue_to-Enqueued sch skb (nowhere was_stolen) = (λ place. refl, refl)
    enqueue_to-Enqueued sch skb direct =
        elim (Bool-cases (ltb (length sch.direct_queue) sch.direct_qlen)) [
          | inl e ↦ rw (e) ((none, length-snoc sch.direct_queue skb, others), omega arith)
          | inr e ↦ rw (e) (λ place. refl, refl)
        ]
      where
        others :
            (other : Option ℕ)
            → other ≢ none
            → held
                (record sch {
                  direct_queue = sch.direct_queue ++ (skb ∷ []);
                  direct_pkts = sch.direct_pkts + 1;
                  qlen = sch.qlen + 1;
                })
                other
              ≡ held sch other
        others none h = absurd (h refl)
        others (some c) h = refl
    enqueue_to-Enqueued sch skb (leaf c) =
        let counted = d.enqueue-qlen skb (sch.leaves c) in
        let s = (d.enqueue skb (sch.leaves c)).0 in
        elim (Bool-cases ((d.enqueue skb (sch.leaves c)).1 == 0)) [
          | inl e ↦
              let more : d.qlen s ≡ suc (d.qlen (sch.leaves c)) = rw (e) at counted in
              rw (e) (
                leaf-OneMore sch
                    (record sch {
                      htb = htb_activate rb prios sch.htb c;
                      leaves = update sch.leaves c s;
                      qlen = sch.qlen + 1;
                    })
                    c s refl refl more,
                omega arith,
              )
          | inr e ↦
              let equal : d.qlen s ≡ d.qlen (sch.leaves c) = rw (e) at counted in
              rw (e) (
                leaf-Same sch (record sch { leaves = update sch.leaves c s }) c s refl refl equal,
                refl,
              )
        ]

    given_up-Served :
        (sch sch' : Qdisc Skb State) (at : Option ℕ)
        → Served sch none sch'
        → Served sch (packet_of (given_up at)) sch'
    given_up-Served sch sch' none h = h
    given_up-Served sch sch' (some c) h = h

    -- What the loop of htb_dequeue_tree says of the packets, where it is over.
    abbrev pub ServeServed :
        Qdisc Skb State → Option (Qdisc Skb State × Option (ℕ × Option Skb)) → Type 0
    ServeServed sch none = Unit {0}
    ServeServed sch (some (sch', served)) = Served sch (packet_of served) sch'

    pub after-ServeServed :
        (sch sch₁ : Qdisc Skb State) (r : Option (Qdisc Skb State × Option (ℕ × Option Skb)))
        → Same sch sch₁
        → sch₁.qlen ≡ sch.qlen
        → ServeServed sch₁ r
        → ServeServed sch r
    after-ServeServed sch sch₁ none same q h = tt
    after-ServeServed sch sch₁ (some (sch', served)) same q h =
        after-Same sch sch₁ sch' (packet_of served) same q h

    pub serve-ServeServed :
        (turns : ℕ) (sch : Qdisc Skb State) (prio level : ℕ) (start cl : Option ℕ)
        → ServeServed sch (serve rb prios d turns sch prio level start cl)
    unfolding serve
    serve-ServeServed zero sch prio level start cl = tt
    serve-ServeServed (suc turns) sch prio level start none = (λ place. refl, refl)
    serve-ServeServed (suc turns) sch prio level start (some c) =
        let emptied : HtbSched = htb_deactivate rb prios sch.htb c in
        let s = (d.dequeue (sch.leaves c)).0 in
        let taken : Qdisc Skb State = record sch { leaves = update sch.leaves c s } in
        let advanced : HtbSched = advance_ptr sch.htb c prio level in
        elim (Bool-cases (d.qlen (sch.leaves c) == 0)) [
          | inl e ↦ elim (Bool-cases (emptied.row_mask level prio)) [
            | inl t ↦ elim (Option-cases (htb_lookup_leaf emptied level prio)) [
              | inl n ↦ rw (e, t, n) tt
              | inr ((q₁, next₁), n) ↦
                  rw (e, t, n)
                    (after-ServeServed sch (record sch { htb = q₁ }) _ (htb-Same sch q₁) refl
                      (serve-ServeServed turns (record sch { htb = q₁ }) prio level
                        (if points_to start c then next₁ else start) next₁))
            ]
            | inr t ↦ rw (e, t) (htb-Same sch emptied, refl)
          ]
          | inr e ↦ elim (Option-cases (d.dequeue (sch.leaves c)).1) [
            | inl none_left ↦ elim (Option-cases (htb_lookup_leaf advanced level prio)) [
              | inl n ↦ rw (e, none_left, n) tt
              | inr ((q₂, next₂), n) ↦
                  let passed : Qdisc Skb State = record taken { htb = q₂ } in
                  let same : Same sch passed =
                    leaf-Same sch passed c s refl refl (d.dequeue-none (sch.leaves c) none_left) in
                  elim (Bool-cases (same_class next₂ start)) [
                    | inl t ↦
                        rw (e, none_left, n, t) (given_up-Served sch passed next₂ (same, refl))
                    | inr t ↦
                        rw (e, none_left, n, t)
                          (after-ServeServed sch passed _ same refl
                            (serve-ServeServed turns passed prio level start next₂))
                  ]
            ]
            | inr (skb, one) ↦
                rw (e, one)
                  (
                    leaf-OneLess sch taken c s refl refl (d.dequeue-some (sch.leaves c) skb one),
                    refl,
                  )
          ]
        ]
