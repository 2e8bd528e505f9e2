-- ===== src/Equipment/Slots.antt =====
-- What the operations of the equipment do to the slots, and the marks for the next flush
-- (backend/internal/equipment/state.go).
use milkyway_liluo_idle.Prelude.{
  ◌≡◌, ◌≢◌, refl, subst, ◌∙◌, Bool, true, false, ◌&&◌, inl, inr, Option, none, some, List, [], ◌∷◌,
  arith, String, Table, lookup, member, IsKeyed, Option-cases, ◌=?◌, if_rule, member-include,
  member-exclude, lookup-insert, lookup-delete, if◌then◌else◌, string_eq, eq_of_eq,
}
use milkyway_liluo_idle.Item.{Item}
use milkyway_liluo_idle.Equipment.{
  SlotEntry, State, with_anchor, equip, take_off, unequip, take_off_part, take_off_all,
  unequip_by_anchor, Op, run, run_all,
}

-- Whether an entry is part of the piece with the given anchor.
unfoldable pub belongs : String → Option SlotEntry → Bool
belongs anchor none = false
belongs anchor (some e) = e.anchor_slot =? anchor

unfoldable pub item_of : Option SlotEntry → Option Item
item_of none = none
item_of (some e) = some e.item

lookup-take_off_part :
    (anchor slot : String) (e : SlotEntry) (acc : State × Table String Item) (j : String)
    → let mine = (e.anchor_slot =? anchor) && (slot =? j) in
      let next = take_off_part anchor slot e acc in
      (lookup j next.0.slots ≡ (if mine then none else lookup j acc.0.slots))
      × (lookup j next.1 ≡ (if mine then some e.item else lookup j acc.1))
unfolding take_off_part take_off
lookup-take_off_part anchor slot e acc j = (
  ground (arith, lookup-delete slot j acc.0.slots),
  ground (arith, lookup-insert slot j e.item acc.1),
)

lookup-take_off_all :
    (anchor : String) (es : Table String SlotEntry) (acc : State × Table String Item) (j : String)
    → IsKeyed es
    → let part = belongs anchor (lookup j es) in
      let left = take_off_all anchor es acc in
      (lookup j left.0.slots ≡ (if part then none else lookup j acc.0.slots))
      × (lookup j left.1 ≡ (if part then item_of (lookup j es) else lookup j acc.1))
unfolding take_off_all belongs item_of lookup IsKeyed
lookup-take_off_all anchor [] acc j k = (refl, refl)
lookup-take_off_all anchor ((slot, e) ∷ es) acc j k =
    let rest = lookup-take_off_all anchor es (take_off_part anchor slot e acc) j k.1 in
    let here = lookup-take_off_part anchor slot e acc j in
    let apart : (slot =? j) ≡ true → lookup j es ≡ none =
      λ p. subst (λ (i : String). lookup i es ≡ none) (eq_of_eq slot j p) k.0 in
    (rest.0 ∙ ground (arith, here.0, apart), rest.1 ∙ ground (arith, here.1, apart))

-- A non-empty anchor: `UnequipByAnchor` empties the slots of its piece, leaves all others, and returns
-- the items of the slots that it emptied.
pub lookup-unequip_by_anchor :
    (anchor : String) (s : State) (slot : String)
    → IsKeyed s.slots
    → (anchor =? "") ≡ false
    → let part = belongs anchor (lookup slot s.slots) in
      let left = unequip_by_anchor anchor s in
      (lookup slot left.0.slots ≡ (if part then none else lookup slot s.slots))
      × (lookup slot left.1 ≡ (if part then item_of (lookup slot s.slots) else none))
unfolding unequip_by_anchor lookup
lookup-unequip_by_anchor anchor s slot k h =
    rw (h) (lookup-take_off_all anchor s.slots (s, []) slot k)

-- A slot that will be written is in use, and one that will be deleted is empty.
unfoldable pub IsMarked : State → Type 0
unfolding member lookup
IsMarked s =
    (slot : String)
    → (member slot s.dirty ≡ true → lookup slot s.slots ≢ none)
      × (member slot s.deleted ≡ true → lookup slot s.slots ≡ none)

equip-IsMarked :
    (slot : String) (it : Item) (anchor : String) (s : State)
    → IsMarked s
    → IsMarked (equip slot it anchor s)
unfolding IsMarked equip
equip-IsMarked slot it anchor s h j =
    let e = with_anchor slot (record { item = it; anchor_slot = anchor }) in
    (
      ground (arith, h j, lookup-insert slot j e s.slots, member-include slot j s.dirty),
      ground (arith, h j, lookup-insert slot j e s.slots, member-exclude slot j s.deleted),
    )

take_off-IsMarked :
    (slot : String) (e : SlotEntry) (s : State) → IsMarked s → IsMarked (take_off slot e s)
unfolding IsMarked take_off
take_off-IsMarked slot e s h j = (
  ground (arith, h j, lookup-delete slot j s.slots, member-exclude slot j s.dirty),
  ground (arith, h j, lookup-delete slot j s.slots, member-include slot j s.deleted),
)

unequip-IsMarked : (slot : String) (s : State) → IsMarked s → IsMarked (unequip slot s)
unfolding unequip
unequip-IsMarked slot s h = elim (Option-cases (lookup slot s.slots)) [
  | inl p ↦ rw (unequip, p) h
  | inr (e, p) ↦ rw (unequip, p) (take_off-IsMarked slot e s h)
]

take_off_all-IsMarked :
    (anchor : String) (es : Table String SlotEntry) (acc : State × Table String Item)
    → IsMarked acc.0
    → IsMarked (take_off_all anchor es acc).0
unfolding take_off_all take_off_part
take_off_all-IsMarked anchor [] acc h = h
take_off_all-IsMarked anchor ((slot, e) ∷ es) acc h = take_off_all-IsMarked anchor es _ (
    if_rule (λ (a : State × Table String Item). IsMarked a.0) (e.anchor_slot =? anchor)
      (take_off-IsMarked slot e acc.0 h) h)

-- If every slot that is marked dirty is in use and every one that is marked deleted is empty, they are
-- so after any operations; so no slot has both marks, and the two loops of `Flush` do not meet.
pub run_all-IsMarked : (os : List Op) (s : State) → IsMarked s → IsMarked (run_all os s)
unfolding run_all run unequip_by_anchor
run_all-IsMarked [] s h = h
run_all-IsMarked (Op.equips slot it anchor ∷ os) s h =
    run_all-IsMarked os (equip slot it anchor s) (equip-IsMarked slot it anchor s h)
run_all-IsMarked (Op.unequips slot ∷ os) s h =
    run_all-IsMarked os (unequip slot s) (unequip-IsMarked slot s h)
run_all-IsMarked (Op.unequips_by_anchor anchor ∷ os) s h = run_all-IsMarked os _ (
    if_rule (λ (a : State × Table String Item). IsMarked a.0) (anchor =? "") h
      (take_off_all-IsMarked anchor s.slots (s, []) h))
