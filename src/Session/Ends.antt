-- ===== src/Session/Ends.antt =====
-- What Equip and Unequip do to the attributes (backend/internal/session/session.go): it ends, and leaves
-- them in order.
use Prim.Native.String.{◌++◌ as str_append}
use milkyway_liluo_idle.Prelude.{
  ℕ, suc, ◌<◌, ◌≤◌, ◌≡◌, refl, false, Option, some, List, [], ◌∷◌, length, ℤ, String, Table, lookup,
  Option-cases, inl, inr, pos, ◌++◌, string_eq, int_eq,
}
use milkyway_liluo_idle.Float.{Float, one}
use milkyway_liluo_idle.Item.{Item}
use milkyway_liluo_idle.Item.Definition.{ItemDef}
use milkyway_liluo_idle.Attribute.{Instance}
use milkyway_liluo_idle.Attribute.Operations.{Ends, IsReady, IsCovered-same, remove_modifiers-Ends}
use milkyway_liluo_idle.Attribute.Reference.{value_of}
use milkyway_liluo_idle.Attribute.Runs.{final-Ends}
use milkyway_liluo_idle.Inventory.{add_equip_change}
use milkyway_liluo_idle.Bestiary.{Names, unlock_item}
use milkyway_liluo_idle.Session.{Session, source_of, drop_piece, take_back}
use milkyway_liluo_idle.Session.Slots.{slots_of_base, slot_count, build_slots}

module _ {F : Type 0} ⦃f : Float F⦄ (rank : ℤ → ℕ) (levels : ℕ)
    (bounded : (id : ℤ) → rank id < levels) (us : List ℤ) (n : ℕ) (enough : suc (length us) < n)
    (deep : levels ≤ n) where
  abbrev pub Ready : Instance F → Type 0
  Ready a = IsReady rank levels us n enough a

  -- The attributes after an operation on them.
  abbrev pub Follows : Instance F → Option (Instance F) → Type 0
  Follows a o = (a' : Instance F) × (o ≡ some a') × Ready a'

  pub follow :
      (a : Instance F) (o : Option (Instance F))
      → Ready a
      → Ends rank levels us n enough a o
      → Follows a o
  follow a o ready (a', e, good, same) =
      (a', e, (IsCovered-same rank levels us n enough a a' same ready.0, good))

  slot_count-Ends :
      (base : String) (a : Instance F)
      → Ready a
      → (count : ℤ) × (a' : Instance F) × (slot_count n base a ≡ some (count, a')) × Ready a'
  unfolding slot_count
  slot_count-Ends base a ready =
      elim (Option-cases (lookup (str_append base "_slot_count") a.reg.attr_ids)) [
        | inl e ↦ (pos 1, a, rw (e, slot_count) refl, ready)
        | inr (aid, e) ↦
            (let (a', h, good, same) =
                final-Ends rank levels bounded us n enough deep aid a ready in
              (
                f.to_int (value_of levels a aid),
                a',
                rw (e, slot_count, h) refl,
                (IsCovered-same rank levels us n enough a a' same ready.0, good),
              ))
      ]

  pub build_slots-Ends :
      (bases : List String) (a : Instance F)
      → Ready a
      → (slots : List String) × (a' : Instance F) × (build_slots n bases a ≡ some (slots, a'))
        × Ready a'
  unfolding build_slots
  build_slots-Ends [] a ready = ([], a, refl, ready)
  build_slots-Ends (base ∷ bases) a ready =
      let (count, a', h, ready') = slot_count-Ends base a ready in
      let (slots, a'', h', ready'') = build_slots-Ends bases a' ready' in
      (slots_of_base base count ++ slots, a'', rw (h, build_slots, h') refl, ready'')

module _ {F : Type 0} ⦃f : Float F⦄ (items : Table ℤ (ItemDef F)) (names : Names) (rank : ℤ → ℕ)
    (levels : ℕ) (bounded : (id : ℤ) → rank id < levels) (us : List ℤ) (n : ℕ)
    (enough : suc (length us) < n) (deep : levels ≤ n) where
  pub drop_piece-Ends :
      (it : Item) (a : Instance F)
      → Ready rank levels bounded us n enough deep a
      → Follows rank levels bounded us n enough deep a (drop_piece items names n it a)
  unfolding drop_piece
  drop_piece-Ends it a ready = elim (Option-cases (lookup it.id items)) [
    | inl e ↦ (a, rw (e, drop_piece) refl, ready)
    | inr (d, e) ↦
        rw (e, drop_piece)
          (follow rank levels bounded us n enough deep a _ ready
            (remove_modifiers-Ends rank levels us n enough (source_of d.string_id) a ready))
  ]

  pub take_back-Ends :
      (removed : Table String Item) (s : Session F)
      → Ready rank levels bounded us n enough deep s.attr
      → (s' : Session F) × (take_back items names n removed s ≡ some s')
        × Ready rank levels bounded us n enough deep s'.attr
        × (s'.eq ≡ s.eq)
  unfolding take_back
  take_back-Ends [] s ready = (s, refl, ready, refl)
  take_back-Ends ((slot, it) ∷ removed) s ready =
      let (a, h, ready') = drop_piece-Ends it s.attr ready in
      (
        record s {
          attr = a;
          inv = add_equip_change it one false s.inv;
          best = unlock_item names it s.best;
        },
        rw (h, take_back) refl,
        ready',
        refl,
      )
