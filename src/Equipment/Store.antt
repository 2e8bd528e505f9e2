-- ===== src/Equipment/Store.antt =====
-- The stored equipment: `Flush` and `Load` (backend/internal/equipment/state.go) with the queries of
-- backend/internal/db/queries/equipment.sql.
use milkyway_liluo_idle.Prelude.{
  ◌≡◌, refl, sym, ◌∙◌, ap, inl, inr, Option, none, some, List, [], ◌∷◌, arith, String, Table,
  lookup, or_zero, member, IsKeyed, lookup-fill_empty, lookup-write_rows, write_rows-IsKeyed,
  lookup-delete_rows, delete_rows-IsKeyed, Bool-cases, if_rule, Option-cases, ◌=?◌, member-include,
  member-exclude, lookup-insert, lookup-delete, if◌then◌else◌, string_eq, eq_of_eq,
}
use milkyway_liluo_idle.Item.{Item}
use milkyway_liluo_idle.Equipment.{
  SlotEntry, State, with_anchor, equip, take_off, unequip, take_off_part, take_off_all,
  unequip_by_anchor, slot_row, flush, read_rows, load, Op, run, run_all,
}

-- The entry that `Load` makes of a row.
abbrev read : String → Option SlotEntry → Option SlotEntry
read slot none = none
read slot (some e) = some (with_anchor slot e)

-- The row of a slot after a flush.
abbrev row_after : Table String SlotEntry → State → String → Option SlotEntry
row_after rows s slot =
    if member slot s.deleted
    then none
    else if member slot s.dirty
    then some (slot_row s slot)
    else lookup slot rows

-- A flush would store what the slots have.
IsBacked : Table String SlotEntry → State → Type 0
IsBacked rows s = (slot : String) → read slot (row_after rows s slot) ≡ lookup slot s.slots

with_anchor_twice :
    (slot : String) (e : SlotEntry) → with_anchor slot (with_anchor slot e) ≡ with_anchor slot e
unfolding with_anchor
with_anchor_twice slot e = ground arith

equip-IsBacked :
    (slot : String) (it : Item) (anchor : String) (rows : Table String SlotEntry) (s : State)
    → IsBacked rows s
    → IsBacked rows (equip slot it anchor s)
unfolding IsBacked equip slot_row or_zero with_anchor
equip-IsBacked slot it anchor rows s h j = elim (Bool-cases (slot =? j)) [
  | inl p ↦
      rw
        (
          lookup-insert slot j (with_anchor slot (record { item = it; anchor_slot = anchor }))
              s.slots,
          member-exclude slot j s.deleted,
          member-include slot j s.dirty,
          p,
        )
        (rw (eq_of_eq slot j p) (
          ap some (
            with_anchor_twice j (with_anchor j (record { item = it; anchor_slot = anchor }))
            ∙ with_anchor_twice j (record { item = it; anchor_slot = anchor }))))
  | inr p ↦
      rw
        (
          lookup-insert slot j (with_anchor slot (record { item = it; anchor_slot = anchor }))
              s.slots,
          member-exclude slot j s.deleted,
          member-include slot j s.dirty,
          p,
        )
        (h j)
]

take_off-IsBacked :
    (slot : String) (e : SlotEntry) (rows : Table String SlotEntry) (s : State)
    → IsBacked rows s
    → IsBacked rows (take_off slot e s)
unfolding IsBacked take_off slot_row or_zero
take_off-IsBacked slot e rows s h j = elim (Bool-cases (slot =? j)) [
  | inl p ↦
      rw
        (
          lookup-delete slot j s.slots,
          member-exclude slot j s.dirty,
          member-include slot j s.deleted,
          p,
        )
        refl
  | inr p ↦
      rw
        (
          lookup-delete slot j s.slots,
          member-exclude slot j s.dirty,
          member-include slot j s.deleted,
          p,
        )
        (h j)
]

unequip-IsBacked :
    (slot : String) (rows : Table String SlotEntry) (s : State)
    → IsBacked rows s
    → IsBacked rows (unequip slot s)
unfolding unequip
unequip-IsBacked slot rows s h = elim (Option-cases (lookup slot s.slots)) [
  | inl p ↦ rw (unequip, p) h
  | inr (e, p) ↦ rw (unequip, p) (take_off-IsBacked slot e rows s h)
]

take_off_all-IsBacked :
    (anchor : String) (es rows : Table String SlotEntry) (acc : State × Table String Item)
    → IsBacked rows acc.0
    → IsBacked rows (take_off_all anchor es acc).0
unfolding take_off_all take_off_part
take_off_all-IsBacked anchor [] rows acc h = h
take_off_all-IsBacked anchor ((slot, e) ∷ es) rows acc h = take_off_all-IsBacked anchor es rows _ (
    if_rule (λ (a : State × Table String Item). IsBacked rows a.0) (e.anchor_slot =? anchor)
      (take_off-IsBacked slot e rows acc.0 h) h)

run_all-IsBacked :
    (os : List Op) (rows : Table String SlotEntry) (s : State)
    → IsBacked rows s
    → IsBacked rows (run_all os s)
unfolding run_all run unequip_by_anchor
run_all-IsBacked [] rows s h = h
run_all-IsBacked (Op.equips slot it anchor ∷ os) rows s h =
    run_all-IsBacked os rows (equip slot it anchor s) (equip-IsBacked slot it anchor rows s h)
run_all-IsBacked (Op.unequips slot ∷ os) rows s h =
    run_all-IsBacked os rows (unequip slot s) (unequip-IsBacked slot rows s h)
run_all-IsBacked (Op.unequips_by_anchor anchor ∷ os) rows s h = run_all-IsBacked os rows _ (
    if_rule (λ (a : State × Table String Item). IsBacked rows a.0) (anchor =? "") h
      (take_off_all-IsBacked anchor s.slots rows (s, []) h))

lookup-read_rows :
    (slot : String) (rows : Table String SlotEntry)
    → lookup slot (read_rows rows) ≡ read slot (lookup slot rows)
unfolding read_rows lookup
lookup-read_rows slot [] = refl
lookup-read_rows slot ((j, e) ∷ rows) = elim (Bool-cases (j =? slot)) [
  | inl p ↦ rw (p, eq_of_eq j slot p) refl
  | inr p ↦ rw (p) (lookup-read_rows slot rows)
]

read_rows-IsKeyed : (rows : Table String SlotEntry) → IsKeyed rows → IsKeyed (read_rows rows)
unfolding read_rows IsKeyed
read_rows-IsKeyed [] k = k
read_rows-IsKeyed ((j, e) ∷ rows) k =
    (lookup-read_rows j rows ∙ rw (k.0) refl, read_rows-IsKeyed rows k.1)

lookup-load :
    (slot : String) (rows : Table String SlotEntry)
    → IsKeyed rows
    → lookup slot (load rows).slots ≡ read slot (lookup slot rows)
unfolding load
lookup-load slot rows k =
    lookup-fill_empty (read_rows rows) slot (read_rows-IsKeyed rows k) ∙ lookup-read_rows slot rows

load-IsBacked : (rows : Table String SlotEntry) → IsKeyed rows → IsBacked rows (load rows)
unfolding IsBacked load member
load-IsBacked rows k slot = sym (lookup-load slot rows k)

lookup-flush :
    (rows : Table String SlotEntry) (s : State) (slot : String)
    → lookup slot (flush s rows).1 ≡ row_after rows s slot
unfolding flush
lookup-flush rows s slot = rw (lookup-delete_rows, lookup-write_rows) refl

flush-IsKeyed :
    (rows : Table String SlotEntry) (s : State) → IsKeyed rows → IsKeyed (flush s rows).1
unfolding flush
flush-IsKeyed rows s k =
    delete_rows-IsKeyed s.deleted _ (write_rows-IsKeyed (slot_row s) s.dirty rows k)

-- If the rows of a player have unique slots, then after loading them, any operations, a flush and
-- another load, every slot has the entry, or none, that it had before the flush.
pub load-flush-run_all_slots :
    (os : List Op) (rows : Table String SlotEntry) (slot : String)
    → IsKeyed rows
    → let s = run_all os (load rows) in
      lookup slot (load (flush s rows).1).slots ≡ lookup slot s.slots
unfolding IsBacked
load-flush-run_all_slots os rows slot k =
    let s = run_all os (load rows) in
    let rows' = (flush s rows).1 in
    lookup-load slot rows' (flush-IsKeyed rows s k)
    ∙ ap (read slot) (lookup-flush rows s slot)
    ∙ run_all-IsBacked os rows (load rows) (load-IsBacked rows k) slot
