-- ===== src/Bestiary.antt =====
-- What a player has discovered (backend/internal/bestiary): the state (state.go) and the bucket that
-- collects discoveries for the client (bucket.go). The names of events, areas and items come from the
-- generated configuration, and are parameters. `entries` of a state is the bucket that the attached
-- recorder has for the system in the current namespace; `none` stands for no recorder, no namespace
-- or no provider.
pub mod Store
pub mod Tests
use Prim.Native.String.{◌++◌}
use milkyway_liluo_idle.Prelude.{
  Bool, true, false, if◌then◌else◌, Option, none, some, List, [], ◌∷◌, ℤ, pos, String, Table,
  insert, member, include, Eq, int_eq, string_eq,
}
use milkyway_liluo_idle.Item.{Item, item_eq}

-- `unlockEntry`
pub record UnlockEntry : Type 0 where
  pub typ : String
  pub id : String

-- `gameconfig.EventID.String`, `gameconfig.MapID.String`, and the name of an item in `itemUnlock`
pub record Names : Type 0 where
  pub event_name : ℤ → String
  pub area_name : ℤ → String
  pub item_name : Item → String

pub record State : Type 0 where
  pub events : List ℤ
  pub items : List Item
  pub areas : List ℤ
  pub dirty_events : List ℤ
  pub dirty_items : List Item
  pub entries : Option (Table String UnlockEntry)

-- `New`
abbrev pub new_state : State
new_state = record {
  events = [];
  items = [];
  areas = [];
  dirty_events = [];
  dirty_items = [];
  entries = none;
}

-- `Bucket.add`
unfoldable pub bucket_add : UnlockEntry → Table String UnlockEntry → Table String UnlockEntry
unfolding insert
bucket_add e b = insert (e.typ ++ "/" ++ e.id) e b

-- `MergeInPlace`
unfoldable pub merge_in_place :
    Table String UnlockEntry → Table String UnlockEntry → Table String UnlockEntry
unfolding insert
merge_in_place b [] = b
merge_in_place b ((k, e) ∷ other) = merge_in_place (insert k e b) other

unfoldable pub record_unlock :
    UnlockEntry → Option (Table String UnlockEntry) → Option (Table String UnlockEntry)
unfolding bucket_add
record_unlock e none = none
record_unlock e (some b) = some (bucket_add e b)

-- `m[k] = true` for each of a list of keys
unfoldable pub include_all {ℓ} : {K : Type ℓ} ⦃e : Eq K⦄ → List K → List K → List K
unfolding include
include_all [] s = s
include_all (k ∷ ks) s = include_all ks (include k s)

-- `LoadEvents`
unfoldable pub load_events : List ℤ → State → State
unfolding include_all
load_events ids s = record s { events = include_all ids s.events }

-- `LoadItems`
unfoldable pub load_items : List Item → State → State
unfolding include_all
load_items its s = record s { items = include_all its s.items }

-- The items of the rows, with the state 0.
unfoldable pub base_items : List ℤ → List Item
base_items [] = []
base_items (id ∷ ids) = record { id = id; state = pos 0 } ∷ base_items ids

-- `LoadDiscoveredItems`, on the ids of the rows
unfoldable pub load_discovered_items : List ℤ → State → State
unfolding include_all base_items
load_discovered_items ids s = record s { items = include_all (base_items ids) s.items }

-- `LoadAreas`
unfoldable pub load_areas : List ℤ → State → State
unfolding include_all
load_areas ids s = record s { areas = include_all ids s.areas }

module _ (names : Names) where
  -- `UnlockEvent`
  unfoldable pub unlock_event : ℤ → State → State
  unfolding member include record_unlock
  unlock_event id s = if member id s.events then s else record s {
    events = include id s.events;
    dirty_events = include id s.dirty_events;
    entries = record_unlock (record { typ = "event"; id = names.event_name id }) s.entries;
  }

  -- `UnlockItem`
  unfoldable pub unlock_item : Item → State → State
  unfolding member include record_unlock
  unlock_item it s = if member it s.items then s else record s {
    items = include it s.items;
    dirty_items = include it s.dirty_items;
    entries = record_unlock (record { typ = "item"; id = names.item_name it }) s.entries;
  }

  -- `UnlockArea`
  unfoldable pub unlock_area : ℤ → State → State
  unfolding member include record_unlock
  unlock_area id s = if member id s.areas then s else record s {
    areas = include id s.areas;
    entries = record_unlock (record { typ = "area"; id = names.area_name id }) s.entries;
  }

-- `HasEvent`
unfoldable pub has_event : ℤ → State → Bool
unfolding member
has_event id s = member id s.events

-- `HasItem`
unfoldable pub has_item : Item → State → Bool
unfolding member
has_item it s = member it s.items

-- The rows of a player in `player_unlocked_events` and `player_discovered_items`.
pub record Rows : Type 0 where
  pub event_ids : List ℤ
  pub item_ids : List ℤ

abbrev pub ids_of : List Item → List ℤ
ids_of [] = []
ids_of (it ∷ its) = it.id ∷ ids_of its

-- `Flush`; an upsert of a row that is there does nothing.
unfoldable pub flush : State → Rows → State × Rows
unfolding include_all
flush s rows = (
  record s { dirty_events = []; dirty_items = [] },
  record {
    event_ids = include_all s.dirty_events rows.event_ids;
    item_ids = include_all (ids_of s.dirty_items) rows.item_ids;
  },
)

pub data Op : Type 0 where
  unlocks_event : ℤ → Op
  unlocks_item : Item → Op
  unlocks_area : ℤ → Op

unfoldable pub run : Names → Op → State → State
unfolding unlock_event unlock_item unlock_area
run names (unlocks_event id) s = unlock_event names id s
run names (unlocks_item it) s = unlock_item names it s
run names (unlocks_area id) s = unlock_area names id s

unfoldable pub run_all : Names → List Op → State → State
unfolding run
run_all names [] s = s
run_all names (o ∷ os) s = run_all names os (run names o s)
