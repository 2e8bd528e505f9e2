-- ===== src/Bestiary/Tests.antt =====
-- The discoveries of a concrete player.
use milkyway_liluo_idle.Prelude.{◌≡◌, refl, true, false, [], ◌∷◌, some, pos}
use milkyway_liluo_idle.Item.{Item}
use milkyway_liluo_idle.Bestiary.{
  State, Rows, Names, new_state, load_events, load_discovered_items, unlock_item, has_event,
  has_item, flush, unlocks_event, unlocks_area, run_all,
}
use milkyway_liluo_idle.Bestiary.Store.{has_event-load_events, has_item-load_discovered_items}

abbrev names : Names
names = record { event_name = λ id. "chop"; area_name = λ id. "forest"; item_name = λ it. "axe" }

abbrev rows : Rows
rows = record { event_ids = pos 1 ∷ []; item_ids = pos 6 ∷ [] }

abbrev axe : Item
axe = record { id = pos 5; state = pos 2 }

abbrev fresh : State
fresh = record new_state { entries = some [] }

has_event-load_events_example :
    let s =
      run_all names
        (unlocks_event (pos 2) ∷ unlocks_area (pos 3) ∷ [])
        (load_events (pos 1 ∷ []) new_state) in
    has_event (pos 2) (load_events (flush s rows).1.event_ids new_state) ≡ has_event (pos 2) s
has_event-load_events_example =
    has_event-load_events names (unlocks_event (pos 2) ∷ unlocks_area (pos 3) ∷ []) rows (pos 2)

has_item-load_discovered_items_example :
    let s' = unlock_item names axe fresh in
    let again = load_discovered_items (flush s' rows).1.item_ids new_state in
    (has_item axe s' ≡ true)
    × (has_item axe again ≡ false)
    × (has_item (record { id = pos 5; state = pos 0 }) again ≡ true)
unfolding has_item
has_item-load_discovered_items_example =
    has_item-load_discovered_items names axe rows fresh refl refl
