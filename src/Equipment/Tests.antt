-- ===== src/Equipment/Tests.antt =====
-- The equipment of a concrete player: a bow over two hands, and a hat.
use milkyway_liluo_idle.Prelude.{
  ◌≡◌, refl, List, [], ◌∷◌, some, none, if◌then◌else◌, pos, Table, lookup, IsKeyed, string_eq,
  String, member,
}
use mathlib.Core.Bool.{false≢true}
use milkyway_liluo_idle.Item.{Item}
use milkyway_liluo_idle.Equipment.{
  State, SlotEntry, Op, unequips_by_anchor, unequip_by_anchor, run_all, load, flush,
}
use milkyway_liluo_idle.Equipment.Slots.{
  belongs, item_of, IsMarked, run_all-IsMarked, lookup-unequip_by_anchor,
}
use milkyway_liluo_idle.Equipment.Store.{load-flush-run_all_slots}

abbrev bow : Item
bow = record { id = pos 3; state = pos 0 }

abbrev hat : Item
hat = record { id = pos 4; state = pos 0 }

abbrev worn : Item → String → SlotEntry
worn it anchor = record { item = it; anchor_slot = anchor }

-- The first row was written before anchors were.
abbrev rows : Table String SlotEntry
rows = ("head", worn hat "") ∷ ("left", worn bow "left") ∷ ("right", worn bow "left") ∷ []

abbrev equipped : State
equipped = record { slots = rows; dirty = []; deleted = []; actions = some [] }

abbrev ops : List Op
ops = unequips_by_anchor "left" ∷ Op.equips "left" hat "" ∷ Op.unequips "head" ∷ []

rows-IsKeyed : IsKeyed rows
unfolding IsKeyed lookup
rows-IsKeyed = (refl, (refl, (refl, tt)))

equipped-IsMarked : IsMarked equipped
unfolding IsMarked member
equipped-IsMarked slot = (λ m. absurd (false≢true m), λ m. absurd (false≢true m))

run_all-IsMarked_example : IsMarked (run_all ops equipped)
run_all-IsMarked_example = run_all-IsMarked ops equipped equipped-IsMarked

load-flush-run_all_slots_example :
    let s = run_all ops (load rows) in
    lookup "left" (load (flush s rows).1).slots ≡ lookup "left" s.slots
load-flush-run_all_slots_example = load-flush-run_all_slots ops rows "left" rows-IsKeyed

lookup-unequip_by_anchor_example :
    let part = belongs "left" (lookup "right" equipped.slots) in
    let left = unequip_by_anchor "left" equipped in
    (lookup "right" left.0.slots ≡ (if part then none else lookup "right" equipped.slots))
    × (lookup "right" left.1 ≡ (if part then item_of (lookup "right" equipped.slots) else none))
lookup-unequip_by_anchor_example =
    lookup-unequip_by_anchor "left" equipped "right" rows-IsKeyed refl
