-- ===== src/Inventory/Tests.antt =====
-- The items on a concrete player, over thousandths.
use milkyway_liluo_idle.Prelude.{◌≡◌, refl, List, [], ◌∷◌, some, true, pos, Table, IsKeyed}
use milkyway_liluo_idle.Milli.{Milli, whole, milli_float, AnyMilli, Milli-IsExact}
use milkyway_liluo_idle.Float.{◌⊕◌}
use milkyway_liluo_idle.Item.{Item, item_eq}
use milkyway_liluo_idle.Inventory.{
  State, Bucket, Reason, Op, adds, deducts, equips, run_all, get, load, flush,
}
use milkyway_liluo_idle.Inventory.Changes.{delta, get-run_all}
use milkyway_liluo_idle.Inventory.Store.{load-flush-run_all_items}

abbrev wood : Item
wood = record { id = pos 1; state = pos 0 }

abbrev axe : Item
axe = record { id = pos 2; state = pos 1 }

abbrev rows : Table Item Milli
rows = (wood, whole 5) ∷ (axe, whole 1) ∷ []

abbrev recording : State Milli
recording = record { slots = rows; dirty = []; changes = some [] }

abbrev ops : List (Op Milli)
ops = deducts wood (whole 5) ∷ adds axe (whole 2) ∷ equips axe (whole 1) true ∷ []

rows-IsKeyed : IsKeyed rows
unfolding IsKeyed
rows-IsKeyed = (refl, (refl, tt))

any : ((it : Item) → AnyMilli (get it recording)) × ((it : Item) → AnyMilli (get it recording))
any = ((λ it. tt), (λ it. tt))

get-run_all_example :
    (b : Bucket Milli) × (((run_all ops recording).changes ≡ some b)
      × ((it : Item) → get it (run_all ops recording) ≡ get it recording ⊕ delta it b))
get-run_all_example =
    get-run_all AnyMilli Milli-IsExact ops recording (any, tt, (any, tt, (any, tt, any))) refl

abbrev gained : Bucket Milli
gained = (wood, record { qty = whole 2; reason = Reason.event }) ∷ []

gained-IsKeyed : IsKeyed gained
unfolding IsKeyed
gained-IsKeyed = (refl, tt)

load-flush-run_all_items_example :
    let s = run_all ops (load rows) in get wood (load (flush s rows).1) ≡ get wood s
load-flush-run_all_items_example = load-flush-run_all_items ops rows wood rows-IsKeyed
