-- ===== src/Session/Pieces.antt =====
-- The pieces of a player's equipment: the slots with one anchor (backend/internal/equipment/state.go and
-- backend/internal/session/session.go).
use milkyway_liluo_idle.Prelude.{
  ◌≡◌, refl, sym, ◌∙◌, subst, ap, Bool, true, false, ◌⊎◌, if◌then◌else◌, Option, none, some, List,
  [], ◌∷◌, arith, String, Table, lookup, member, lookup-insert, IsKeyed, insert-IsKeyed,
  delete-IsKeyed, Bool-cases, inl, inr, ◌=?◌, string_eq, eq_of_eq, if_rule,
}
use milkyway_liluo_idle.Item.{Item}
use milkyway_liluo_idle.Equipment
use milkyway_liluo_idle.Equipment.{
  SlotEntry, State, with_anchor, take_off, take_off_part, take_off_all,
}
use milkyway_liluo_idle.Equipment.Slots.{belongs, lookup-unequip_by_anchor}
use milkyway_liluo_idle.Session.{equip_all}

-- The slot that an entry names as its anchor has an entry of the same anchor and the same item.
abbrev pub HasAnchor : Table String SlotEntry → SlotEntry → Type 0
HasAnchor slots e =
    (e' : SlotEntry) × (lookup e.anchor_slot slots ≡ some e')
    × (e'.anchor_slot ≡ e.anchor_slot)
    × (e'.item ≡ e.item)

abbrev pub IsAnchored : Table String SlotEntry → Type 0
IsAnchored slots = (slot : String) (e : SlotEntry) → lookup slot slots ≡ some e → HasAnchor slots e

kept :
    (b : Bool) (o : Option SlotEntry) (e : SlotEntry)
    → (if b then none else o) ≡ some e
    → (b ≡ false) × (o ≡ some e)
kept true o e h = absurd (cc h)
kept false o e h = (refl, h)

take_off_all-IsKeyed :
    (anchor : String) (es : Table String SlotEntry) (acc : State × Table String Item)
    → IsKeyed acc.0.slots
    → IsKeyed (take_off_all anchor es acc).0.slots
unfolding take_off_all take_off_part take_off
take_off_all-IsKeyed anchor [] acc k = k
take_off_all-IsKeyed anchor ((slot, e) ∷ es) acc k = take_off_all-IsKeyed anchor es _ (
    if_rule (λ (a : State × Table String Item). IsKeyed a.0.slots) (e.anchor_slot =? anchor)
      (delete-IsKeyed slot acc.0.slots k) k)

pub unequip_by_anchor-IsKeyed :
    (anchor : String) (s : State)
    → IsKeyed s.slots
    → IsKeyed (Equipment.unequip_by_anchor anchor s).0.slots
unfolding Equipment.unequip_by_anchor
unequip_by_anchor-IsKeyed anchor s k =
    if_rule (λ (a : State × Table String Item). IsKeyed a.0.slots) (anchor =? "") k
      (take_off_all-IsKeyed anchor s.slots (s, []) k)

unequip_no_anchor :
    (anchor : String) (s : State)
    → (anchor =? "") ≡ true
    → Equipment.unequip_by_anchor anchor s ≡ (s, [])
unfolding Equipment.unequip_by_anchor
unequip_no_anchor anchor s p = rw (p) refl

pub unequip_by_anchor-IsAnchored :
    (anchor : String) (s : State)
    → IsKeyed s.slots
    → IsAnchored s.slots
    → IsAnchored (Equipment.unequip_by_anchor anchor s).0.slots
unfolding belongs
unequip_by_anchor-IsAnchored anchor s k h slot e found = elim (Bool-cases (anchor =? "")) [
  | inl p ↦
      rw (unequip_no_anchor anchor s p)
        (h slot e (let w = rw (unequip_no_anchor anchor s p) at found in w))
  | inr p ↦
      (let left = lookup-unequip_by_anchor anchor s in
        let (apart, before) = kept _ _ e (sym (left slot k p).0 ∙ found) in
        let (e', at, same, item) = h slot e before in
        let other : (e.anchor_slot =? anchor) ≡ false = sym (ap (belongs anchor) before) ∙ apart in
        (e', (left e.anchor_slot k p).0 ∙ rw (at, same, other) refl, same, item))
]

-- The entry that `Equip` makes for a slot of a piece.
abbrev pub entry_of : String → Item → String → SlotEntry
unfolding with_anchor
entry_of slot it anchor = with_anchor slot (record { item = it; anchor_slot = anchor })

pub equip_all-IsKeyed :
    (slots : List String) (it : Item) (anchor : String) (s : State)
    → IsKeyed s.slots
    → IsKeyed (equip_all slots it anchor s).slots
unfolding equip_all Equipment.equip
equip_all-IsKeyed [] it anchor s k = k
equip_all-IsKeyed (slot ∷ slots) it anchor s k =
    equip_all-IsKeyed slots it anchor (Equipment.equip slot it anchor s)
      (insert-IsKeyed slot _ s.slots k)

pub lookup-equip_all :
    (slots : List String) (it : Item) (anchor : String) (s : State) (j : String)
    → lookup j (equip_all slots it anchor s).slots
      ≡ (if member j slots then some (entry_of j it anchor) else lookup j s.slots)
unfolding equip_all Equipment.equip member
lookup-equip_all [] it anchor s j = refl
lookup-equip_all (slot ∷ slots) it anchor s j =
    let same : (slot =? j) ≡ true → entry_of slot it anchor ≡ entry_of j it anchor =
      λ e. ap (λ x. entry_of x it anchor) (eq_of_eq slot j e) in
    lookup-equip_all slots it anchor (Equipment.equip slot it anchor s) j
    ∙ ground (arith, lookup-insert slot j (entry_of slot it anchor) s.slots, same)

new_or_old :
    (b : Bool) (e' e : SlotEntry) (o : Option SlotEntry)
    → (if b then some e' else o) ≡ some e
    → ((b ≡ true) × (e' ≡ e)) ⊎ ((b ≡ false) × (o ≡ some e))
new_or_old true e' e o h = inl (refl, cc h)
new_or_old false e' e o h = inr (refl, h)

entry_of-HasAnchor :
    (slot : String) (it : Item) (anchor : String) (t : Table String SlotEntry)
    → lookup slot t ≡ some (entry_of slot it anchor)
    → lookup anchor t ≡ some (entry_of anchor it anchor)
    → HasAnchor t (entry_of slot it anchor)
unfolding with_anchor
entry_of-HasAnchor slot it anchor t here there = elim (Bool-cases (anchor =? "")) [
  | inl p ↦
      (let own : entry_of slot it anchor ≡ record { item = it; anchor_slot = slot } = rw (p) refl in
        subst (HasAnchor t) (sym own)
          (record { item = it; anchor_slot = slot }, here ∙ ap some own, refl, refl))
  | inr p ↦
      (let named : (j : String)
            → entry_of j it anchor ≡ record { item = it; anchor_slot = anchor } =
          λ j. rw (p) refl in
        subst (HasAnchor t) (sym (named slot))
          (record { item = it; anchor_slot = anchor }, there ∙ ap some (named anchor), refl, refl))
]

-- A piece on empty slots, its anchor among them.
pub equip_all-IsAnchored :
    (slots : List String) (it : Item) (anchor : String) (s : State)
    → IsAnchored s.slots
    → member anchor slots ≡ true
    → ((j : String) → member j slots ≡ true → lookup j s.slots ≡ none)
    → IsAnchored (equip_all slots it anchor s).slots
equip_all-IsAnchored slots it anchor s h among empty slot e found =
    let at = lookup-equip_all slots it anchor s in
    let outside_of : (j : String) (e' : SlotEntry)
        → lookup j s.slots ≡ some e'
        → member j slots ≡ false =
      λ j e' there. elim (Bool-cases (member j slots)) [
        | inl m ↦ absurd (cc (sym (empty j m) ∙ there))
        | inr m ↦ m
      ] in
    elim (new_or_old (member slot slots) (entry_of slot it anchor) e (lookup slot s.slots)
      (sym (at slot) ∙ found)) [
        | inl (here, is) ↦ subst (HasAnchor _) is (
            entry_of-HasAnchor slot it anchor _ (at slot ∙ rw (here) refl)
              (at anchor ∙ rw (among) refl))
        | inr (outside, before) ↦
            (let (e', there, same, item) = h slot e before in
              let other : member e.anchor_slot slots ≡ false = outside_of e.anchor_slot e' there in
              (e', at e.anchor_slot ∙ rw (other) there, same, item))
      ]
