-- ===== src/Htb/Feeds.antt =====
-- sch_htb.c: rows and feeds, the trees of the classes that may send or borrow at a priority, and
-- changes of mode.
use virtual_time_kernel.Base.{
  ℕ, Bool, true, false, not, ◌&&◌, ◌||◌, ltb, ◌==◌, if◌then◌else◌, List, [], ◌∷◌, ◌++◌, Option,
  none, some, update,
}
use virtual_time_kernel.Base.Int.{ℤ}
use virtual_time_kernel.Htb.{
  Cmode, cant_send, may_borrow, can_send, Mask, HtbPrio, HtbSched, set_class,
}
use virtual_time_kernel.Htb.Tree.{Rb, to_list, mem, without, next_of, is_empty, link, RbTree}
use virtual_time_kernel.Htb.Tokens.{htb_class_mode, is_can_send, is_cant_send}

abbrev pub is_may_borrow : Cmode → Bool
is_may_borrow may_borrow = true
is_may_borrow _ = false

abbrev pub same_mode : Cmode → Cmode → Bool
same_mode cant_send cant_send = true
same_mode may_borrow may_borrow = true
same_mode can_send can_send = true
same_mode _ _ = false

abbrev pub points_to : Option ℕ → ℕ → Bool
points_to none c = false
points_to (some d) c = d == c

abbrev pub next_node : Option ℕ → Rb → Option ℕ
next_node none t = none
next_node (some c) t = next_of c (to_list t)

abbrev pub set_bit : Mask → ℕ → Bool → Mask
set_bit mask p b = update mask p b

abbrev pub no_bits : Mask
no_bits p = false

-- The mask is not 0.
unfoldable pub any_bit : List ℕ → Mask → Bool
any_bit [] mask = false
any_bit (p ∷ ps) mask = mask p || any_bit ps mask

abbrev pub set_row : HtbSched → ℕ → ℕ → HtbPrio → HtbSched
set_row q l p h = record q { hprio = update q.hprio l (update (q.hprio l) p h) }

abbrev pub set_feed : HtbSched → ℕ → ℕ → HtbPrio → HtbSched
set_feed q c p h =
    let cl = q.classes c in set_class q c (record cl { clprio = update cl.clprio p h })

abbrev pub set_activity : HtbSched → ℕ → Mask → HtbSched
set_activity q c mask = set_class q c (record (q.classes c) { prio_activity = mask })

abbrev pub set_cmode : HtbSched → ℕ → Cmode → HtbSched
set_cmode q c mode = set_class q c (record (q.classes c) { cmode = mode })

module _ (rb : RbTree) where
  open rb use {rb_insert_color, rb_erase}

  abbrev pub htb_add_to_id_tree : HtbSched → Rb → ℕ → Rb
  htb_add_to_id_tree q t c =
      rb_insert_color c (link (λ d. ltb (q.classes d).classid (q.classes c).classid) c t)

  -- A node that is in no tree stays out of it.
  abbrev pub htb_safe_rb_erase : ℕ → Rb → Rb
  htb_safe_rb_erase c t = if mem c (to_list t) then rb_erase c t else t

  -- The loops run over the bits of a mask from the lowest on.
  unfoldable pub add_rows : List ℕ → HtbSched → ℕ → Mask → HtbSched
  add_rows [] q c mask = q
  add_rows (p ∷ ps) q c mask =
      let l = (q.classes c).level in
      let h = q.hprio l p in
      let added = set_row q l p (record h { tree = htb_add_to_id_tree q h.tree c }) in
      add_rows ps (if mask p then added else q) c mask

  unfoldable pub remove_rows : List ℕ → HtbSched → ℕ → Mask → HtbSched × Mask
  remove_rows [] q c mask = (q, no_bits)
  remove_rows (p ∷ ps) q c mask =
      let l = (q.classes c).level in
      let h = q.hprio l p in
      let next = if points_to h.ptr c then next_node h.ptr h.tree else h.ptr in
      let tree = htb_safe_rb_erase c h.tree in
      let removed = set_row q l p (record h { tree = tree; ptr = next }) in
      let (q', m) = remove_rows ps (if mask p then removed else q) c mask in
      (q', if mask p && is_empty tree then set_bit m p true else m)

  -- The result is the mask without the priorities at which the feed of p was in use.
  unfoldable pub feed_in : List ℕ → HtbSched → ℕ → ℕ → Mask → HtbSched × Mask
  feed_in [] q p c mask = (q, mask)
  feed_in (i ∷ is) q p c mask =
      let h = (q.classes p).clprio i in
      let q' = set_feed q p i (record h { tree = htb_add_to_id_tree q h.tree c }) in
      let (q'', left) = feed_in is (if mask i then q' else q) p c mask in
      (q'', if mask i && not (is_empty h.tree) then set_bit left i false else left)

  -- The result is the mask of the priorities at which the feed of p became empty.
  unfoldable pub feed_out : List ℕ → HtbSched → ℕ → ℕ → Mask → HtbSched × Mask
  feed_out [] q p c mask = (q, no_bits)
  feed_out (i ∷ is) q p c mask =
      let h = (q.classes p).clprio i in
      let forgotten : HtbPrio =
        if points_to h.ptr c
        then record h { ptr = none; last_ptr_id = (q.classes c).classid }
        else h in
      let tree' = htb_safe_rb_erase c h.tree in
      let q' = set_feed q p i (record forgotten { tree = tree' }) in
      let (q'', emptied) = feed_out is (if mask i then q' else q) p c mask in
      (q'', if mask i && is_empty tree' then set_bit emptied i true else emptied)

-- `prios` is the list of the priorities from 0 to TC_HTB_NUMPRIO - 1.
module _ (rb : RbTree) (prios : List ℕ) where
  unfoldable pub htb_add_class_to_row : HtbSched → ℕ → Mask → HtbSched
  htb_add_class_to_row q c mask =
      let l = (q.classes c).level in
      let marked = record q { row_mask = update q.row_mask l (λ p. q.row_mask l p || mask p) } in
      add_rows rb prios marked c mask

  unfoldable pub htb_remove_class_from_row : HtbSched → ℕ → Mask → HtbSched
  htb_remove_class_from_row q c mask =
      let l = (q.classes c).level in
      let (q', m) = remove_rows rb prios q c mask in
      record q' { row_mask = update q'.row_mask l (λ p. q'.row_mask l p && not (m p)) }

  -- Where the walk of htb_activate_prios ends, and where that of htb_deactivate_prios ends.
  abbrev pub join_row : HtbSched → ℕ → Mask → HtbSched
  join_row q c mask =
      if is_can_send (q.classes c).cmode && any_bit prios mask
      then htb_add_class_to_row q c mask
      else q

  abbrev pub leave_row : HtbSched → ℕ → Mask → HtbSched
  leave_row q c mask =
      if is_can_send (q.classes c).cmode && any_bit prios mask
      then htb_remove_class_from_row q c mask
      else q

  -- The walk from the class c, whose ancestors are the list.
  unfoldable pub activate_from : List ℕ → HtbSched → ℕ → Mask → HtbSched
  activate_from [] q c mask = join_row q c mask
  activate_from (p ∷ ps) q c mask =
      let (q', left) = feed_in rb prios q p c mask in
      let q'' = set_activity q' p (λ i. (q'.classes p).prio_activity i || left i) in
      let above = activate_from ps q'' p left in
      if is_may_borrow (q.classes c).cmode && any_bit prios mask then above else join_row q c mask

  unfoldable pub deactivate_from : List ℕ → HtbSched → ℕ → Mask → HtbSched
  deactivate_from [] q c mask = leave_row q c mask
  deactivate_from (p ∷ ps) q c mask =
      let (q', left) = feed_out rb prios q p c mask in
      let q'' = set_activity q' p (λ i. (q'.classes p).prio_activity i && not (left i)) in
      let above = deactivate_from ps q'' p left in
      if is_may_borrow (q.classes c).cmode && any_bit prios mask then above else leave_row q c mask

  unfoldable pub htb_activate_prios : HtbSched → ℕ → HtbSched
  htb_activate_prios q c = activate_from (q.classes c).ancestors q c (q.classes c).prio_activity

  unfoldable pub htb_deactivate_prios : HtbSched → ℕ → HtbSched
  htb_deactivate_prios q c = deactivate_from (q.classes c).ancestors q c (q.classes c).prio_activity

  -- The state, and what is left in `*diff`.
  unfoldable pub htb_change_class_mode : Bool → HtbSched → ℕ → ℤ → HtbSched × ℤ
  htb_change_class_mode hysteresis q c diff =
      let cl = q.classes c in
      let (new_mode, diff') = htb_class_mode hysteresis cl diff in
      let detached = if is_cant_send cl.cmode then q else htb_deactivate_prios q c in
      let changed = set_cmode detached c new_mode in
      let moved = if is_cant_send new_mode then changed else htb_activate_prios changed c in
      if same_mode new_mode cl.cmode
      then (q, diff')
      else if any_bit prios cl.prio_activity
      then (moved, diff')
      else (set_cmode q c new_mode, diff')

  unfoldable pub htb_activate : HtbSched → ℕ → HtbSched
  htb_activate q c =
      let prio = (q.classes c).prio in
      let q₁ = htb_activate_prios (set_activity q c (set_bit no_bits prio true)) c in
      if any_bit prios (q.classes c).prio_activity
      then q
      else record q₁ { drops = update q₁.drops prio (q₁.drops prio ++ (c ∷ [])) }

  -- The class stands in one list of drops at most, from which it is taken.
  unfoldable pub htb_deactivate : HtbSched → ℕ → HtbSched
  htb_deactivate q c =
      let q₁ = set_activity (htb_deactivate_prios q c) c no_bits in
      record q₁ { drops = λ p. without c (q₁.drops p) }
