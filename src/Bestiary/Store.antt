-- ===== src/Bestiary/Store.antt =====
-- Discoveries are made once, and those of events survive `Flush` and a reload
-- (backend/internal/bestiary/state.go).
use milkyway_liluo_idle.Prelude.{
  ◌≡◌, refl, ◌∙◌, true, false, ◌&&◌, ◌||◌, List, [], ◌∷◌, ℤ, pos, member, include, member-include,
  Eq, ◌=?◌, eq_refl, eq_sym, int_eq, arith,
}
use milkyway_liluo_idle.Item.{Item, item_eq}
use milkyway_liluo_idle.Bestiary.{
  State, Rows, Names, new_state, include_all, base_items, load_events, load_discovered_items,
  unlock_event, unlock_item, unlock_area, has_event, has_item, flush, Op, unlocks_event,
  unlocks_item, unlocks_area, run, run_all, ids_of,
}

member-include_all {ℓ} :
    {K : Type ℓ} ⦃e : Eq K⦄ (k : K) (ks s : List K)
    → member k (include_all ks s) ≡ (member k ks || member k s)
unfolding include_all member
member-include_all k [] s = refl
member-include_all k (j ∷ ks) s =
    member-include_all k ks (include j s) ∙ ground (arith, member-include j k s)

known_event :
    (names : Names) (id : ℤ) (s : State) → member id s.events ≡ true → unlock_event names id s ≡ s
unfolding unlock_event
known_event names id s h = rw (h) refl

known_item :
    (names : Names) (it : Item) (s : State) → member it s.items ≡ true → unlock_item names it s ≡ s
unfolding unlock_item
known_item names it s h = rw (h) refl

known_area :
    (names : Names) (id : ℤ) (s : State) → member id s.areas ≡ true → unlock_area names id s ≡ s
unfolding unlock_area
known_area names id s h = rw (h) refl

-- Unlocking again changes nothing: no mark, and no second entry for the client.
pub run_twice : (names : Names) (o : Op) (s : State) → run names o (run names o s) ≡ run names o s
unfolding run unlock_event unlock_item unlock_area
run_twice names (unlocks_event id) s =
    known_event names id (unlock_event names id s)
      (ground (arith, member-include id id s.events, eq_refl id))
run_twice names (unlocks_item it) s =
    known_item names it (unlock_item names it s)
      (ground (arith, member-include it it s.items, eq_refl it))
run_twice names (unlocks_area id) s =
    known_area names id (unlock_area names id s)
      (ground (arith, member-include id id s.areas, eq_refl id))

-- An event is unlocked just when it is marked or in the rows.
IsBacked : Rows → State → Type 0
unfolding member
IsBacked rows s =
    (id : ℤ) → member id s.events ≡ (member id s.dirty_events || member id rows.event_ids)

run-IsBacked :
    (names : Names) (o : Op) (rows : Rows) (s : State)
    → IsBacked rows s
    → IsBacked rows (run names o s)
unfolding run unlock_event unlock_item unlock_area IsBacked
run-IsBacked names (unlocks_event id) rows s h j =
    ground (arith, h j, member-include id j s.events, member-include id j s.dirty_events)
run-IsBacked names (unlocks_item it) rows s h j = ground (arith, h j)
run-IsBacked names (unlocks_area id) rows s h j = ground (arith, h j)

run_all-IsBacked :
    (names : Names) (os : List Op) (rows : Rows) (s : State)
    → IsBacked rows s
    → IsBacked rows (run_all names os s)
unfolding run_all
run_all-IsBacked names [] rows s h = h
run_all-IsBacked names (o ∷ os) rows s h =
    run_all-IsBacked names os rows (run names o s) (run-IsBacked names o rows s h)

load_events-IsBacked : (rows : Rows) → IsBacked rows (load_events rows.event_ids new_state)
unfolding IsBacked load_events member
load_events-IsBacked rows id = member-include_all id rows.event_ids [] ∙ ground arith

-- After loading the unlocked events of a player, any discoveries, a flush and another load, the same
-- events are unlocked.
pub has_event-load_events :
    (names : Names) (os : List Op) (rows : Rows) (id : ℤ)
    → let s = run_all names os (load_events rows.event_ids new_state) in
      has_event id (load_events (flush s rows).1.event_ids new_state) ≡ has_event id s
unfolding has_event load_events flush member IsBacked
has_event-load_events names os rows id =
    let s = run_all names os (load_events rows.event_ids new_state) in
    member-include_all id (include_all s.dirty_events rows.event_ids) []
    ∙ ground (
      arith,
      member-include_all id s.dirty_events rows.event_ids,
      run_all-IsBacked names os rows (load_events rows.event_ids new_state)
          (load_events-IsBacked rows) id,
    )

member-base_items :
    (it : Item) (ids : List ℤ)
    → member it (base_items ids) ≡ ((it.state =? pos 0) && member it.id ids)
unfolding base_items member
member-base_items it [] = ground arith
member-base_items it (id ∷ ids) = ground (arith, member-base_items it ids, eq_sym (pos 0) it.state)

member-ids_of :
    (it : Item) (its : List Item) → member it its ≡ true → member it.id (ids_of its) ≡ true
unfolding member
member-ids_of it [] h = h
member-ids_of it (j ∷ its) h = ground (arith, h, member-ids_of it its)

-- An item with a state other than 0 is discovered once it is unlocked, but after a flush and a load of
-- the discovered items it is not any more, and the item of the same id with state 0 is.
pub has_item-load_discovered_items :
    (names : Names) (it : Item) (rows : Rows) (s : State)
    → has_item it s ≡ false
    → (it.state =? pos 0) ≡ false
    → let s' = unlock_item names it s in
      let again = load_discovered_items (flush s' rows).1.item_ids new_state in
      (has_item it s' ≡ true)
      × (has_item it again ≡ false)
      × (has_item (record { id = it.id; state = pos 0 }) again ≡ true)
unfolding has_item unlock_item load_discovered_items flush member
has_item-load_discovered_items names it rows s h n =
    let dirty = include it s.dirty_items in
    let ids = include_all (ids_of dirty) rows.item_ids in
    let stored : member it.id ids ≡ true = ground (
      arith,
      member-include_all it.id (ids_of dirty) rows.item_ids,
      member-ids_of it dirty,
      member-include it it s.dirty_items,
      eq_refl it,
    ) in
    rw (h) (
      ground (arith, eq_refl it),
      member-include_all it (base_items ids) [] ∙ ground (arith, member-base_items it ids, n),
      member-include_all (record { id = it.id; state = pos 0 }) (base_items ids) []
          ∙ ground (
            arith,
            member-base_items (record { id = it.id; state = pos 0 }) ids,
            stored,
            eq_refl (pos 0),
          ),
    )
