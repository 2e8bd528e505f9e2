-- ===== src/Inventory/Store.antt =====
-- The stored items: `Flush` and `Load` (backend/internal/inventory/state.go) with the queries of
-- backend/internal/db/queries, which upsert and read the rows of a player by their primary key.
use milkyway_liluo_idle.Prelude.{
  ◌≡◌, refl, sym, ◌∙◌, ap, false, inl, inr, List, [], ◌∷◌, arith, Table, lookup, insert, or_zero,
  member, IsKeyed, lookup-fill_empty, lookup-write_rows, write_rows-IsKeyed, Bool-cases, ◌=?◌,
  member-include, lookup-insert, lookup-delete,
}
use milkyway_liluo_idle.Float.{Float, nought, ◌⊕◌}
use milkyway_liluo_idle.Item.{Item, item_eq}
use milkyway_liluo_idle.Inventory.{
  State, get, add_slot, add_change, add, deduct, add_equip_change, Reason, Op, adds, deducts,
  equips, run, run_all, flush, load,
}

module _ {F : Type 0} ⦃f : Float F⦄ where
  -- The rows have the quantity of every item that is not marked dirty.
  abbrev pub IsBacked : Table Item F → State F → Type 0
  IsBacked rows s =
      (it : Item) → member it s.dirty ≡ false → get it s ≡ or_zero nought (lookup it rows)

  add_slot-other :
      (it j : Item) (q : F) (slots : Table Item F)
      → (it =? j) ≡ false
      → lookup j (add_slot it q slots) ≡ lookup j slots
  unfolding add_slot
  add_slot-other it j q slots h = ground (
    arith,
    lookup-insert it j (or_zero nought (lookup it slots) ⊕ q) slots,
    lookup-delete it j (insert it (or_zero nought (lookup it slots) ⊕ q) slots),
  )

  add_change-IsBacked :
      (it : Item) (q : F) (r : Reason) (rows : Table Item F) (s : State F)
      → IsBacked rows s
      → IsBacked rows (add_change it q r s)
  unfolding add_change get
  add_change-IsBacked it q r rows s h j p =
      let apart : (it =? j) ≡ false = ground (arith, member-include it j s.dirty) in
      rw (add_slot-other it j q s.slots apart) (h j (ground (arith, member-include it j s.dirty)))

  run_all-IsBacked :
      (os : List (Op F)) (rows : Table Item F) (s : State F)
      → IsBacked rows s
      → IsBacked rows (run_all os s)
  unfolding run_all run add deduct add_equip_change
  run_all-IsBacked [] rows s h = h
  run_all-IsBacked (adds it q ∷ os) rows s h =
      run_all-IsBacked os rows _ (add_change-IsBacked it q _ rows s h)
  run_all-IsBacked (deducts it q ∷ os) rows s h =
      run_all-IsBacked os rows _ (add_change-IsBacked it _ _ rows s h)
  run_all-IsBacked (equips it q e ∷ os) rows s h =
      run_all-IsBacked os rows _ (add_change-IsBacked it q _ rows s h)

  get-load :
      (it : Item) (rows : Table Item F)
      → IsKeyed rows
      → get it (load rows) ≡ or_zero nought (lookup it rows)
  unfolding get load
  get-load it rows k = ap (or_zero nought) (lookup-fill_empty rows it k)

  get-flush :
      (it : Item) (rows : Table Item F) (s : State F)
      → IsBacked rows s
      → or_zero nought (lookup it ((flush s rows).1)) ≡ get it s
  unfolding flush or_zero
  get-flush it rows s h =
      rw (lookup-write_rows (λ j. get j s) s.dirty rows it) (elim (Bool-cases (member it s.dirty)) [
        | inl p ↦ rw (p) refl
        | inr p ↦ rw (p) (sym (h it p))
      ])

  -- If the rows of a player have unique keys, then after loading them, any operations, a flush and
  -- another load, every item has the quantity that it had before the flush.
  pub load-flush-run_all_items :
      (os : List (Op F)) (rows : Table Item F) (it : Item)
      → IsKeyed rows
      → let s = run_all os (load rows) in get it (load (flush s rows).1) ≡ get it s
  unfolding flush
  load-flush-run_all_items os rows it k =
      let s = run_all os (load rows) in
      get-load it (flush s rows).1 (write_rows-IsKeyed (λ j. get j s) s.dirty rows k)
      ∙ get-flush it rows s (run_all-IsBacked os rows (load rows) (λ j p. get-load j rows k))
