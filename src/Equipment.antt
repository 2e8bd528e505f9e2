-- ===== src/Equipment.antt =====
-- The equipment of a player (backend/internal/equipment): the slots with their operations (state.go),
-- and the bucket that keeps the last action on each slot for the client (bucket.go). `actions` of a
-- state is the bucket that the attached recorder has for the system in the current namespace; `none`
-- stands for no recorder, no namespace or no provider.
pub mod Slots
pub mod Store
pub mod Tests
use milkyway_liluo_idle.Prelude.{
  Bool, true, false, if◌then◌else◌, Option, none, some, List, [], ◌∷◌, pos, String, Table, lookup,
  insert, delete, include, exclude, or_zero, write_rows, delete_rows, fill, ◌=?◌, string_eq,
}
use milkyway_liluo_idle.Item.{Item}

pub record SlotEntry : Type 0 where
  pub item : Item
  pub anchor_slot : String

-- `pb.EquipAction`
pub data Action : Type 0 where
  equips unequips : Action

pub record SlotAction : Type 0 where
  pub item : Item
  pub action : Action

abbrev pub Bucket : Type 0
Bucket = Table String SlotAction

pub record State : Type 0 where
  pub slots : Table String SlotEntry
  pub dirty : List String
  pub deleted : List String
  pub actions : Option Bucket

-- `addAction`
unfoldable pub add_action : String → Item → Action → Option Bucket → Option Bucket
unfolding insert
add_action slot it a none = none
add_action slot it a (some b) = some (insert slot (record { item = it; action = a }) b)

-- `MergeInPlace`
unfoldable pub merge_in_place : Bucket → Bucket → Bucket
unfolding insert
merge_in_place b [] = b
merge_in_place b ((slot, a) ∷ other) = merge_in_place (insert slot a b) other

-- An entry with no anchor is its own.
unfoldable pub with_anchor : String → SlotEntry → SlotEntry
with_anchor slot e = if e.anchor_slot =? "" then record e { anchor_slot = slot } else e

-- `Equip`
unfoldable pub equip : String → Item → String → State → State
unfolding with_anchor insert exclude include add_action
equip slot it anchor s = record {
  slots = insert slot (with_anchor slot (record { item = it; anchor_slot = anchor })) s.slots;
  dirty = include slot s.dirty;
  deleted = exclude slot s.deleted;
  actions = add_action slot it Action.equips s.actions;
}

-- The statements that take an entry off its slot, in `Unequip` and in `UnequipByAnchor`.
unfoldable pub take_off : String → SlotEntry → State → State
unfolding delete exclude include add_action
take_off slot e s = record {
  slots = delete slot s.slots;
  dirty = exclude slot s.dirty;
  deleted = include slot s.deleted;
  actions = add_action slot e.item Action.unequips s.actions;
}

-- `Unequip`
unfoldable pub unequip : String → State → State
unfolding lookup take_off
unequip slot s = elim (lookup slot s.slots) [ none ↦ s | some e ↦ take_off slot e s ]

-- The body of the loop of `UnequipByAnchor`, on the state and the map `removed`.
unfoldable pub take_off_part :
    String → String → SlotEntry → State × Table String Item → State × Table String Item
unfolding take_off insert
take_off_part anchor slot e acc =
    if e.anchor_slot =? anchor then (take_off slot e acc.0, insert slot e.item acc.1) else acc

-- The loop of `UnequipByAnchor` over the entries of the map.
unfoldable pub take_off_all :
    String → Table String SlotEntry → State × Table String Item → State × Table String Item
unfolding take_off_part
take_off_all anchor [] acc = acc
take_off_all anchor ((slot, e) ∷ es) acc = take_off_all anchor es (take_off_part anchor slot e acc)

-- `UnequipByAnchor`, with the items that it removed; no map is an empty one.
unfoldable pub unequip_by_anchor : String → State → State × Table String Item
unfolding take_off_all
unequip_by_anchor anchor s = if anchor =? "" then (s, []) else take_off_all anchor s.slots (s, [])

-- Go's zero value
abbrev pub no_entry : SlotEntry
no_entry = record { item = record { id = pos 0; state = pos 0 }; anchor_slot = "" }

-- The row that `Flush` writes for a dirty slot.
unfoldable pub slot_row : State → String → SlotEntry
unfolding lookup or_zero with_anchor
slot_row s slot = with_anchor slot (or_zero no_entry (lookup slot s.slots))

-- `Flush`, on the rows of this player in `player_equipment`.
unfoldable pub flush : State → Table String SlotEntry → State × Table String SlotEntry
unfolding write_rows delete_rows slot_row
flush s rows = (
  record s { dirty = []; deleted = [] },
  delete_rows s.deleted (write_rows (slot_row s) s.dirty rows),
)

-- The row of a slot, read by `Load`.
unfoldable pub read_rows : Table String SlotEntry → Table String SlotEntry
unfolding with_anchor
read_rows [] = []
read_rows ((slot, e) ∷ rows) = (slot, with_anchor slot e) ∷ read_rows rows

-- `Load`
unfoldable pub load : Table String SlotEntry → State
unfolding fill read_rows
load rows = record { slots = fill (read_rows rows) []; dirty = []; deleted = []; actions = none }

pub data Op : Type 0 where
  equips : String → Item → String → Op
  unequips : String → Op
  unequips_by_anchor : String → Op

unfoldable pub run : Op → State → State
unfolding equip unequip unequip_by_anchor
run (Op.equips slot it anchor) s = equip slot it anchor s
run (Op.unequips slot) s = unequip slot s
run (unequips_by_anchor anchor) s = (unequip_by_anchor anchor s).0

unfoldable pub run_all : List Op → State → State
unfolding run
run_all [] s = s
run_all (o ∷ os) s = run_all os (run o s)
