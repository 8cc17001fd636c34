-- ===== src/Htb/Lookup.antt =====
-- sch_htb.c: the search for the leaf that is served next.
use virtual_time_kernel.Base.{
  ℕ, zero, suc, ltb, ◌==◌, if◌then◌else◌, List, [], ◌∷◌, Option, none, some,
}
use virtual_time_kernel.Htb.{HtbPrio, HtbSched}
use virtual_time_kernel.Htb.Tree.{Rb, nil, fork, to_list, first, is_empty}
use virtual_time_kernel.Htb.Feeds.{set_row, set_feed, next_node}

-- `key` is the class's classid.
unfoldable pub find_next_upper : (ℕ → ℕ) → Rb → ℕ → Option ℕ → Option ℕ
find_next_upper key nil id r = r
find_next_upper key (fork l c right) id r =
    let on_right = find_next_upper key right id r in
    let on_left = find_next_upper key l id (some c) in
    if ltb (key c) id then on_right else if ltb id (key c) then on_left else some c

unfoldable pub htb_id_find_next_upper : (ℕ → ℕ) → Rb → ℕ → Option ℕ
htb_id_find_next_upper key t id = find_next_upper key t id none

-- An entry of the stack: the row of a level or the feed of a class.
pub data Holder : Type 0 where
  row feed : ℕ → Holder

abbrev pub get_prio : HtbSched → ℕ → Holder → HtbPrio
get_prio q p (row l) = q.hprio l p
get_prio q p (feed c) = (q.classes c).clprio p

abbrev pub set_prio : HtbSched → ℕ → Holder → HtbPrio → HtbSched
set_prio q p (row l) h = set_row q l p h
set_prio q p (feed c) h = set_feed q c p h

abbrev pub recovered : HtbSched → HtbPrio → Option ℕ
recovered q h = elim h.ptr [
  | some c ↦ some c
  | none ↦
      if h.last_ptr_id == 0
      then none
      else htb_id_find_next_upper (λ c. (q.classes c).classid) h.tree h.last_ptr_id
]

abbrev pub lookup_turns : ℕ
lookup_turns = 65535

-- The loop: `top` is the entry that sp points to, the list has those below it. The result is `none`
-- where the kernel stops, at the root of a tree that is empty.
unfoldable pub lookup_from : ℕ → HtbSched → ℕ → Holder → List Holder → Option (HtbSched × Option ℕ)
lookup_from zero q p top below = some (q, none)
lookup_from (suc turns) q p top below =
    let h = get_prio q p top in
    elim (recovered q h) [
      | none ↦ elim (first (to_list h.tree)) [
        | none ↦ none
        | some least ↦
            let q₁ = set_prio q p top (record h { ptr = some least; last_ptr_id = 0 }) in
            elim below [
              | [] ↦ lookup_from turns q₁ p top []
              | s ∷ ss ↦
                  let up = get_prio q₁ p s in
                  elim up.ptr [
                    | none ↦ some (q₁, none)
                    | some d ↦
                        lookup_from turns
                          (set_prio q₁ p s (record up { ptr = next_node (some d) up.tree })) p s ss
                  ]
            ]
      ]
      | some c ↦
          let q₁ = set_prio q p top (record h { ptr = some c; last_ptr_id = 0 }) in
          if (q.classes c).level == 0
          then some (q₁, some c)
          else lookup_from turns q₁ p (feed c) (top ∷ below)
    ]

-- `none` also where BUG_ON stops the kernel, at a row without classes.
unfoldable pub htb_lookup_leaf : HtbSched → ℕ → ℕ → Option (HtbSched × Option ℕ)
htb_lookup_leaf q level prio =
    if is_empty (q.hprio level prio).tree
    then none
    else lookup_from lookup_turns q prio (row level) []
