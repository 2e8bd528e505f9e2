-- ===== src/Session/Removing.antt =====
-- Unequip after Equip (backend/internal/session/session.go).
use milkyway_liluo_idle.Prelude.{
  ℕ, suc, ◌<◌, ◌≤◌, ◌≡◌, refl, sym, subst, ◌∙◌, ap, Bool, true, false, if◌then◌else◌, Option, none,
  some, List, [], ◌∷◌, length, ℤ, String, Table, lookup, member, IsKeyed, Bool-cases, Option-cases,
  inl, inr, ◌=?◌, string_eq, int_eq, eq_of_eq, eq_refl,
}
use milkyway_liluo_idle.Float.{Float, IsExact, one, neg, nought, ◌⊕◌}
use milkyway_liluo_idle.Item.{Item, item_eq}
use milkyway_liluo_idle.Item.Definition.{ItemDef}
use milkyway_liluo_idle.Inventory
use milkyway_liluo_idle.Inventory.{add_equip_change, add_change, get}
use milkyway_liluo_idle.Inventory.Changes.{get-add_slot}
use milkyway_liluo_idle.Equipment
use milkyway_liluo_idle.Equipment.{SlotEntry, with_anchor}
use milkyway_liluo_idle.Equipment.Slots.{belongs, item_of, lookup-unequip_by_anchor}
use milkyway_liluo_idle.Bestiary.{Names, unlock_item}
use milkyway_liluo_idle.Session.{
  Session, Fault, Result, take_back, unequip_by_anchor, unequip, equip,
}
use milkyway_liluo_idle.Session.Pieces.{IsAnchored, entry_of, lookup-equip_all}
use milkyway_liluo_idle.Session.Commands.{IsSound, equip-EndsSound}
use milkyway_liluo_idle.Session.Ends.{drop_piece-Ends}
use milkyway_liluo_idle.Session.Mounting.{IsMounted, equip-AllLeave}

module _ {F : Type 0} ⦃f : Float F⦄ (P : F → Type 0) (x : IsExact P) where
  get-add_change :
      (it j : Item) (q : F) (equipped : Bool) (s : Inventory.State F)
      → P q
      → P (get it s)
      → get j (add_equip_change it q equipped s) ≡ (if it =? j then get it s ⊕ q else get j s)
  unfolding get add_equip_change add_change
  get-add_change it j q equipped s p h = get-add_slot P x it j q s.slots p h

  -- What is taken for an item and given back.
  get_back :
      (it j : Item) (s : Inventory.State F)
      → P one
      → P (neg one)
      → P (get it s)
      → P (get it s ⊕ neg one)
      → P (get it s ⊕ neg one ⊕ one)
      → ◌≡◌ {A = F} (neg one ⊕ one) nought
      → get j (add_equip_change it one false (add_equip_change it (neg one) true s)) ≡ get j s
  get_back it j s up down old less again back =
      let left = get-add_change it it (neg one) true s down old ∙ rw (eq_refl it) refl in
      let whole : get it s ⊕ neg one ⊕ one ≡ get it s =
        x.add_assoc (get it s) (neg one) one old down up less (subst P (sym back) x.zero_in) again
        ∙ rw (back) (x.add_zero (get it s) old) in
      get-add_change it j one false (add_equip_change it (neg one) true s) up
        (subst P (sym left) less)
      ∙ elim (Bool-cases (it =? j)) [
        | inl e ↦ rw (e, left) (whole ∙ ap (λ (i : Item). get i s) (eq_of_eq it j e))
        | inr e ↦ rw (e) (get-add_change it j (neg one) true s down old ∙ rw (e) refl)
      ]

module _ {F : Type 0} ⦃f : Float F⦄ (it : Item) (clicked : String) (s s' : Session F)
    (bare : lookup clicked s.eq.slots ≡ none) (named : (clicked =? "") ≡ false)
    (anchored : IsAnchored s.eq.slots) (m : IsMounted it clicked s.eq s.inv s') where
  -- Before the new piece, nothing had the clicked slot as its anchor.
  unused : (slot : String) → belongs clicked (lookup slot s.eq.slots) ≡ false
  unfolding belongs
  unused slot = elim (Option-cases (lookup slot s.eq.slots)) [
    | inl e ↦ rw (e) refl
    | inr (entry, e) ↦ elim (Bool-cases (entry.anchor_slot =? clicked)) [
      | inr a ↦ rw (e) a
      | inl a ↦
          (let (e', at, same, item) = anchored slot entry e in
            let w = rw (eq_of_eq entry.anchor_slot clicked a, bare) at at in absurd (cc w))
    ]
  ]

  own_entry :
      (slot : String) → entry_of slot it clicked ≡ record { item = it; anchor_slot = clicked }
  unfolding with_anchor
  own_entry slot = rw (named) refl

  at_slot :
      (slot : String)
      → lookup slot s'.eq.slots ≡ (
          if member slot m.targets
          then some (record { item = it; anchor_slot = clicked })
          else lookup slot s.eq.slots)
  at_slot slot =
      subst
        (λ (e : Equipment.State). lookup slot e.slots ≡ (
          if member slot m.targets
          then some (record { item = it; anchor_slot = clicked })
          else lookup slot s.eq.slots))
        (sym m.mounted) (lookup-equip_all m.targets it clicked s.eq slot ∙ rw (own_entry slot) refl)

  -- The new piece is what has the clicked slot as its anchor.
  is_piece : (slot : String) → belongs clicked (lookup slot s'.eq.slots) ≡ member slot m.targets
  unfolding belongs
  is_piece slot = ap (belongs clicked) (at_slot slot) ∙ elim (Bool-cases (member slot m.targets)) [
    | inl t ↦ rw (t) (eq_refl clicked)
    | inr t ↦ rw (t) (unused slot)
  ]

  lookup_after :
      (slot : String)
      → IsKeyed s'.eq.slots
      → let taken = Equipment.unequip_by_anchor clicked s'.eq in
        (lookup slot taken.0.slots ≡ lookup slot s.eq.slots)
        × (lookup slot taken.1 ≡ (if member slot m.targets then some it else none))
  unfolding item_of
  lookup_after slot keyed =
      let (left, got) = lookup-unequip_by_anchor clicked s'.eq slot keyed named in
      elim (Bool-cases (member slot m.targets)) [
        | inl t ↦ (
          left ∙ rw (is_piece slot, t) (sym (m.empty slot t)),
          got ∙ rw (is_piece slot, at_slot slot, t) refl,
        )
        | inr t ↦
            (left ∙ rw (is_piece slot, at_slot slot, t) refl, got ∙ rw (is_piece slot, t) refl)
      ]

  at_clicked : lookup clicked s'.eq.slots ≡ some (record { item = it; anchor_slot = clicked })
  at_clicked = at_slot clicked ∙ rw (m.among) refl

  -- Any slot of the piece has its item.
  first_removed :
      (removed : Table String Item)
      → ((slot : String) → lookup slot removed ≡ (if member slot m.targets then some it else none))
      → (slot : String) × (rest : Table String Item) × (removed ≡ (slot, it) ∷ rest)
  unfolding lookup
  first_removed [] h = let w = rw (m.among) at (h clicked) in absurd (cc w)
  first_removed ((slot, it') ∷ rest) h =
      let mine = rw (eq_refl slot) at (h slot) in
      (
        slot,
        rest,
        elim (Bool-cases (member slot m.targets)) [
          | inr t ↦ let w = rw (t) at mine in absurd (cc w)
          | inl t ↦ let w = rw (t) at mine in cc w
        ],
      )

same_session :
    {F : Type 0} (r : Result F) (e e' : Option Fault) (s s' : Session F)
    → r ≡ some (e, s)
    → r ≡ some (e', s')
    → s ≡ s'
same_session r e e' s s' h h' = cc (h, h')

module _ {F : Type 0} ⦃f : Float F⦄ (items : Table ℤ (ItemDef F)) (names : Names) (rank : ℤ → ℕ)
    (levels : ℕ) (bounded : (id : ℤ) → rank id < levels) (us : List ℤ) (n : ℕ)
    (enough : suc (length us) < n) (deep : levels ≤ n) where
  abbrev Sound : Session F → Type 0
  Sound s = IsSound items names rank levels bounded us n enough deep s

  equip-Sound :
      (it : Item) (clicked : String) (s s' : Session F)
      → Sound s
      → equip items names n it clicked s ≡ some (none, s')
      → Sound s'
  equip-Sound it clicked s s' sound h =
      let (e, s1, h', sound') =
        equip-EndsSound items names rank levels bounded us n enough deep it clicked s sound in
      subst Sound (same_session _ e none s1 s' h' h) sound'

  -- In a session that is in order, for a set of numbers whose sums in the set are not rounded, which has
  -- 1, -1, and the quantity of the item as it is, less one, and that and one again: if nothing is on a
  -- slot and Equip of the item on it succeeds, then Unequip of the slot succeeds, and every slot has
  -- what it had before, and the inventory as many of each item.
  pub unequip-equip :
      (P : F → Type 0) (x : IsExact P) (it : Item) (clicked : String) (s s' : Session F)
      → P one
      → P (neg one)
      → P (get it s.inv)
      → P (get it s.inv ⊕ neg one)
      → P (get it s.inv ⊕ neg one ⊕ one)
      → ◌≡◌ {A = F} (neg one ⊕ one) nought
      → Sound s
      → lookup clicked s.eq.slots ≡ none
      → (clicked =? "") ≡ false
      → equip items names n it clicked s ≡ some (none, s')
      → (s'' : Session F) × (unequip items names n clicked s' ≡ some (none, s''))
        × ((slot : String) → lookup slot s''.eq.slots ≡ lookup slot s.eq.slots)
        × ((j : Item) → get j s''.inv ≡ get j s.inv)
  unfolding unequip unequip_by_anchor
  unequip-equip P x it clicked s s' up down old less again back sound bare named h =
      let m = equip-AllLeave items names n it clicked s none s' bare h in
      let sound' = equip-Sound it clicked s s' sound h in
      let after = λ (slot : String).
        lookup_after it clicked s s' bare named sound.anchored m slot sound'.keyed in
      let (slot, rest, first) =
        first_removed it clicked s s' bare named sound.anchored m _ (λ slot. (after slot).1) in
      let (a, h', ready) =
        drop_piece-Ends items names rank levels bounded us n enough deep it s'.attr sound'.ready in
      let taken = Equipment.unequip_by_anchor clicked s'.eq in
      (
        record {
          attr = a;
          inv = add_equip_change it one false s'.inv;
          best = unlock_item names it s'.best;
          eq = taken.0;
        },
        rw
            (
              at_clicked it clicked s s' bare named sound.anchored m,
              unequip,
              unequip_by_anchor,
              first,
              take_back,
              h',
            )
            refl,
        (λ slot. (after slot).0),
        (λ j.
            subst (λ (i : Inventory.State F). get j (add_equip_change it one false i) ≡ get j s.inv)
              (sym m.paid) (get_back P x it j s.inv up down old less again back)),
      )
