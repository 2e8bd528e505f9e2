-- ===== src/Inventory.antt =====
-- The items of a player (backend/internal/inventory): the state with its operations (state.go), and
-- the bucket that collects their changes for the client (bucket.go). `changes` of a state is the
-- bucket that the attached recorder has for the system in the current namespace; `none` stands for no
-- recorder, no namespace or no provider.
pub mod Changes
pub mod Store
pub mod Tests
use milkyway_liluo_idle.Prelude.{
  ◌≡◌, Bool, true, false, if◌then◌else◌, Option, none, some, List, [], ◌∷◌, ℤ, Table, lookup,
  insert, delete, include, or_zero, write_rows, fill,
}
use milkyway_liluo_idle.Float.{Float, ◌⊕◌, ◌≤?◌, ◌<?◌, ◌==?◌, nought, neg}
use milkyway_liluo_idle.Item.{Item, item_eq}

-- `pb.InventoryChangeReason`
pub data Reason : Type 0 where
  event equip unequip : Reason

-- `changeEntry`
pub record Change (F : Type 0) : Type 0 where
  pub qty : F
  pub reason : Reason

abbrev pub Bucket : Type 0 → Type 0
Bucket F = Table Item (Change F)

pub record State (F : Type 0) : Type 0 where
  pub slots : Table Item F
  pub dirty : List Item
  pub changes : Option (Bucket F)

module _ {F : Type 0} ⦃f : Float F⦄ where
  -- `Bucket.add`, by what `changes` has for the item; the reason of the first change is kept.
  unfoldable pub add_to_entry : Item → F → Reason → Option (Change F) → Bucket F → Bucket F
  unfolding insert delete
  add_to_entry it qty reason (some e) b =
      let sum = e.qty ⊕ qty in
      if sum ==? nought then delete it b else insert it (record e { qty = sum }) b
  add_to_entry it qty reason none b = insert it (record { qty = qty; reason = reason }) b

  unfoldable pub bucket_add : Item → F → Reason → Bucket F → Bucket F
  unfolding lookup add_to_entry
  bucket_add it qty reason b = add_to_entry it qty reason (lookup it b) b

  -- `MergeInPlace`
  unfoldable pub merge_in_place : Bucket F → Bucket F → Bucket F
  unfolding bucket_add
  merge_in_place b [] = b
  merge_in_place b ((it, e) ∷ other) = merge_in_place (bucket_add it e.qty e.reason b) other

  -- `Get`
  unfoldable pub get : Item → State F → F
  get it s = or_zero nought (lookup it s.slots)

  unfoldable pub has : Item → F → State F → Bool
  has it qty s = qty ≤? get it s

  unfoldable pub record_change : Item → F → Reason → Option (Bucket F) → Option (Bucket F)
  record_change it qty reason none = none
  record_change it qty reason (some b) = some (bucket_add it qty reason b)

  -- `slots[it] += qty`, and a slot at zero is deleted.
  unfoldable pub add_slot : Item → F → Table Item F → Table Item F
  unfolding or_zero lookup insert delete
  add_slot it qty slots =
      let m = insert it (or_zero nought (lookup it slots) ⊕ qty) slots in
      if or_zero nought (lookup it m) ==? nought then delete it m else m

  -- The private method `add`.
  unfoldable pub add_change : Item → F → Reason → State F → State F
  add_change it qty reason s = record {
    slots = add_slot it qty s.slots;
    dirty = include it s.dirty;
    changes = record_change it qty reason s.changes;
  }

  unfoldable pub add : Item → F → State F → State F
  unfolding add_change
  add it qty = add_change it qty Reason.event

  unfoldable pub deduct : Item → F → State F → State F
  unfolding add_change
  deduct it qty = add_change it (neg qty) Reason.event

  unfoldable pub add_equip_change : Item → F → Bool → State F → State F
  unfolding add_change
  add_equip_change it qty equipped =
      add_change it qty (if equipped then Reason.equip else Reason.unequip)

  -- `All`
  unfoldable pub all_items : Table Item F → Table Item F
  all_items [] = []
  all_items ((it, q) ∷ slots) =
      let rest = all_items slots in if nought <? q then (it, q) ∷ rest else rest

  -- `Flush`, on the rows of this player in `player_inventory`.
  unfoldable pub flush : State F → Table Item F → State F × Table Item F
  unfolding get
  flush s rows = (record s { dirty = [] }, write_rows (λ it. get it s) s.dirty rows)

  -- `Load`
  unfoldable pub load : Table Item F → State F
  load rows = record { slots = fill rows []; dirty = []; changes = none }

-- The operations that the rest of the server calls.
pub data Op (F : Type 0) : Type 0 where
  adds : Item → F → Op F
  deducts : Item → F → Op F
  equips : Item → F → Bool → Op F

module _ {F : Type 0} ⦃f : Float F⦄ where
  unfoldable pub run : Op F → State F → State F
  unfolding add deduct add_equip_change
  run (adds it q) = add it q
  run (deducts it q) = deduct it q
  run (equips it q b) = add_equip_change it q b

  unfoldable pub run_all : List (Op F) → State F → State F
  unfolding run
  run_all [] s = s
  run_all (o ∷ os) s = run_all os (run o s)
