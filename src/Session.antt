-- ===== src/Session.antt =====
-- The session of a player, as far as its equipment (backend/internal/session/session.go): SetEquipment,
-- Equip and Unequip with all that they change of the attributes, the inventory, the bestiary and the
-- equipment. The item definitions and the names for the bestiary come from the configuration, and
-- are parameters; `attribute.Get()` is the registry of the attributes. The choice of slots is in
-- Session/Slots. The fuel is that of the attributes, and `none` says that it ran out.
pub mod Slots
pub mod Lifecycle
pub mod Picking
pub mod Bases
pub mod Choosing
pub mod Pieces
pub mod Requirements
pub mod Ends
pub mod Commands
pub mod Mounting
pub mod Removing
pub mod Tests
use Prim.Native.String.{◌++◌ as str_append}
use milkyway_liluo_idle.Prelude.{
  ℕ, Bool, true, false, not, ◌||◌, if◌then◌else◌, Option, none, some, List, [], ◌∷◌, map, ℤ, pos,
  String, Table, lookup, member, ◌=?◌, string_eq, int_eq,
}
use milkyway_liluo_idle.Float.{Float, one, neg}
use milkyway_liluo_idle.Item.{Item}
use milkyway_liluo_idle.Item.Definition.{ItemDef, mods, unregistered, modifiers}
use milkyway_liluo_idle.Attribute.{Instance, add_modifiers, remove_modifiers}
use milkyway_liluo_idle.Inventory
use milkyway_liluo_idle.Inventory.{has, add_equip_change}
use milkyway_liluo_idle.Equipment
use milkyway_liluo_idle.Equipment.{SlotEntry}
use milkyway_liluo_idle.Bestiary
use milkyway_liluo_idle.Bestiary.{Names, unlock_item}
use milkyway_liluo_idle.Session.Slots.{
  slot_base, resolve_slot_type, build_slot_instances, position_requirements, chosen, refused,
  choose_target_slots,
}

-- `PlayerSession`
pub record Session (F : Type 0) : Type 0 where
  pub attr : Instance F
  pub inv : Inventory.State F
  pub best : Bestiary.State
  pub eq : Equipment.State

-- The errors of `apperror`, and that of `ItemDef.Modifiers` with its attribute.
pub data Fault : Type 0 where
  not_found : String → Fault
  bad_request : String → Fault
  modifiers_failed : String → Fault

-- The error of an operation, if there is one, and the session behind it.
abbrev pub Result : Type 0 → Type 0
Result F = Option (Option Fault × Session F)

module _ {F : Type 0} where
  abbrev pub refuse : Fault → Session F → Result F
  refuse e s = some (some e, s)

  abbrev pub finish : Option (Session F) → Result F
  finish none = none
  finish (some s) = some (none, s)

  -- The requirements of `Equip`: one clicked slot, if the item names none.
  unfoldable pub requirements : ItemDef F → String → Table String ℤ
  unfolding position_requirements resolve_slot_type slot_base
  requirements d clicked = elim (position_requirements d (resolve_slot_type clicked)) [
    | [] ↦ (slot_base clicked, pos 1) ∷ []
    | r ∷ rs ↦ r ∷ rs
  ]

-- `Equip` of the equipment on each slot of a list.
unfoldable pub equip_all : List String → Item → String → Equipment.State → Equipment.State
unfolding Equipment.equip
equip_all [] it anchor e = e
equip_all (slot ∷ slots) it anchor e = equip_all slots it anchor (Equipment.equip slot it anchor e)

abbrev pub keys_of : Table String SlotEntry → List String
keys_of [] = []
keys_of ((slot, e) ∷ slots) = slot ∷ keys_of slots

abbrev pub source_of : String → String
source_of string_id = str_append "equipment:" string_id

module _ {F : Type 0} ⦃f : Float F⦄ (items : Table ℤ (ItemDef F)) (names : Names) (n : ℕ) where
  -- The modifiers of an item without a definition stay.
  unfoldable pub drop_piece : Item → Instance F → Option (Instance F)
  unfolding lookup remove_modifiers
  drop_piece it a = elim (lookup it.id items) [
    | none ↦ some a
    | some d ↦ remove_modifiers n (source_of d.string_id) a
  ]

  -- What `unequipByAnchor` does with the slots that it has emptied: it takes the item of any.
  unfoldable pub take_back : Table String Item → Session F → Option (Session F)
  unfolding drop_piece add_equip_change unlock_item
  take_back [] s = some s
  take_back ((slot, it) ∷ removed) s = elim (drop_piece it s.attr) [
    | none ↦ none
    | some a ↦ some (record s {
      attr = a;
      inv = add_equip_change it one false s.inv;
      best = unlock_item names it s.best;
    })
  ]

  -- `unequipByAnchor`
  unfoldable pub unequip_by_anchor : String → Session F → Option (Session F)
  unfolding Equipment.unequip_by_anchor take_back
  unequip_by_anchor anchor s =
      let taken = Equipment.unequip_by_anchor anchor s.eq in
      take_back taken.1 (record s { eq = taken.0 })

  -- `Unequip`
  unfoldable pub unequip : String → Session F → Result F
  unfolding lookup unequip_by_anchor
  unequip slot s = elim (lookup slot s.eq.slots) [
    | none ↦ refuse (not_found "no item equipped in slot") s
    | some e ↦ finish (unequip_by_anchor e.anchor_slot s)
  ]

  -- The end of `Equip`, once the slots are chosen.
  unfoldable pub mount_piece : ItemDef F → Item → String → List String → Session F → Result F
  unfolding add_equip_change modifiers add_modifiers equip_all
  mount_piece d it clicked targets s =
      let inv' = add_equip_change it (neg one) true s.inv in
      elim (modifiers d it s.attr.reg) [
        | unregistered k ↦ refuse (modifiers_failed k) (record s { inv = inv' })
        | mods ms ↦ elim (add_modifiers n (source_of d.string_id) ms s.attr) [
          | none ↦ none
          | some a ↦
              some (none, record s { attr = a; inv = inv'; eq = equip_all targets it clicked s.eq })
        ]
      ]

  -- The piece that is on the clicked slot comes off.
  unfoldable pub free_clicked : String → Session F → Option (Session F)
  unfolding lookup unequip_by_anchor
  free_clicked clicked s = elim (lookup clicked s.eq.slots) [
    | none ↦ some s
    | some old ↦ unequip_by_anchor old.anchor_slot s
  ]

  -- `Equip` behind the test of the clicked slot.
  unfoldable pub equip_in :
      ItemDef F → Item → String → Table String ℤ → List String → Session F → Result F
  unfolding free_clicked choose_target_slots mount_piece
  equip_in d it clicked reqs all_slots s = elim (free_clicked clicked s) [
    | none ↦ none
    | some s' ↦ elim (choose_target_slots all_slots reqs clicked (keys_of s'.eq.slots)) [
      | refused e ↦ refuse (bad_request e) s'
      | chosen targets ↦ mount_piece d it clicked targets s'
    ]
  ]

  -- `Equip` behind the tests of the item.
  unfoldable pub equip_item : ItemDef F → Item → String → Session F → Result F
  unfolding requirements lookup slot_base build_slot_instances resolve_slot_type member equip_in
  equip_item d it clicked s =
      let reqs = requirements d clicked in
      elim (lookup (slot_base clicked) reqs) [
        | none ↦ refuse (bad_request "item cannot be equipped in this slot") s
        | some _ ↦ elim (build_slot_instances n (resolve_slot_type clicked) s.attr) [
          | none ↦ none
          | some (all_slots, a) ↦
              (let s' = record s { attr = a } in
                let found = equip_in d it clicked reqs all_slots s' in
                if member clicked all_slots then found else refuse (bad_request "invalid slot") s')
        ]
      ]

  -- `Equip`
  unfoldable pub equip : Item → String → Session F → Result F
  unfolding lookup has equip_item
  equip it clicked s = elim (lookup it.id items) [
    | none ↦ refuse (not_found "item not found") s
    | some d ↦
        (let ready = equip_item d it clicked s in
          if not (d.equipment || d.tool)
          then refuse (bad_request "item is not equipment") s
          else if has it one s.inv
          then ready
          else refuse (bad_request "item not in inventory") s)
  ]

  -- The loop of `SetEquipment`, with the anchors and items that it has seen.
  unfoldable pub replay : Table String SlotEntry → List String → Instance F → Option (Instance F)
  unfolding lookup member modifiers add_modifiers
  replay [] seen a = some a
  replay ((slot, e) ∷ entries) seen a =
      let skipped = replay entries seen a in
      elim (lookup e.item.id items) [
        | none ↦ skipped
        | some d ↦
            (let key = str_append e.anchor_slot (str_append ":" d.string_id) in
              let failed = replay entries (key ∷ seen) a in
              let replayed : Option (Instance F) = elim (modifiers d e.item a.reg) [
                | unregistered k ↦ failed
                | mods ms ↦ elim (add_modifiers n (source_of d.string_id) ms a) [
                  | none ↦ none
                  | some a' ↦ replay entries (key ∷ seen) a'
                ]
              ] in
              if member key seen then skipped else replayed)
      ]

  -- `SetEquipment`
  unfoldable pub set_equipment : Equipment.State → Session F → Option (Session F)
  unfolding replay
  set_equipment e s = elim (replay e.slots [] s.attr) [
    | none ↦ none
    | some a ↦ some (record s { attr = a; eq = e })
  ]

-- The commands of a player that reach the equipment.
pub data Command : Type 0 where
  equips : Item → String → Command
  unequips : String → Command

module _ {F : Type 0} ⦃f : Float F⦄ (items : Table ℤ (ItemDef F)) (names : Names) (n : ℕ) where
  unfoldable pub run : Command → Session F → Result F
  unfolding equip unequip
  run (equips it clicked) s = equip items names n it clicked s
  run (unequips slot) s = unequip items names n slot s

  -- One command after another, with the errors of each.
  unfoldable pub run_all : List Command → Session F → Option (List (Option Fault) × Session F)
  unfolding run
  run_all [] s = some ([], s)
  run_all (c ∷ cs) s = elim (run c s) [
    | none ↦ none
    | some (e, s') ↦ elim (run_all cs s') [ none ↦ none | some (es, s'') ↦ some (e ∷ es, s'') ]
  ]
