-- ===== src/Session/Commands.antt =====
-- Equip and Unequip in any order (backend/internal/session/session.go): they end, and keep the pieces of
-- the equipment whole.
use milkyway_liluo_idle.Prelude.{
  ℕ, suc, ◌<◌, ◌≤◌, ◌≡◌, refl, sym, subst, true, false, not, ◌||◌, Option, none, some, List, [],
  ◌∷◌, length, ℤ, String, Table, lookup, member, All, IsKeyed, Bool-cases, Option-cases, inl, inr,
  ◌=?◌, eq_of_eq, string_eq, int_eq, if_rule, if◌then◌else◌, arith, ◌⊎◌,
}
use milkyway_liluo_idle.Float.{Float, one, neg}
use milkyway_liluo_idle.Item.{Item}
use milkyway_liluo_idle.Item.Definition.{ItemDef, Modifiers, mods, unregistered, modifiers}
use milkyway_liluo_idle.Item.Modifiers.{modifiers-IsAllowed}
use milkyway_liluo_idle.Attribute.{Modifier}
use milkyway_liluo_idle.Attribute.Operations.{add_modifiers-Ends}
use milkyway_liluo_idle.Inventory.{has, add_equip_change}
use milkyway_liluo_idle.Equipment
use milkyway_liluo_idle.Equipment.{SlotEntry}
use milkyway_liluo_idle.Bestiary.{Names}
use milkyway_liluo_idle.Session.{
  Session, Fault, not_found, bad_request, modifiers_failed, Result, keys_of, requirements,
  equip_all, source_of, unequip_by_anchor, unequip, mount_piece, free_clicked, equip_in, equip_item,
  equip, Command, equips, unequips, run, run_all,
}
use milkyway_liluo_idle.Session.Ends.{Ready, follow, build_slots-Ends, take_back-Ends}
use milkyway_liluo_idle.Session.Slots.{
  tool_slot_bases, equipment_slot_bases, slot_base, resolve_slot_type, build_slot_instances,
  choose_target_slots,
}
use milkyway_liluo_idle.Session.Bases.{IsFree, Choice-cases}
use milkyway_liluo_idle.Session.Choosing.{choose_target_slots-HasGrown}
use milkyway_liluo_idle.Session.Requirements.{requirements-AtLeastOne}
use milkyway_liluo_idle.Session.Pieces.{
  IsAnchored, unequip_by_anchor-IsKeyed, unequip_by_anchor-IsAnchored, equip_all-IsKeyed,
  equip_all-IsAnchored,
}

pub member_keys :
    (slot : String) (slots : Table String SlotEntry)
    → member slot (keys_of slots) ≡ false
    → lookup slot slots ≡ none
unfolding member lookup
member_keys slot [] h = refl
member_keys slot ((j, e) ∷ slots) h = ground (arith, h, member_keys slot slots)

pub All-member :
    (P : String → Type 0) (xs : List String) (x : String) → All P xs → member x xs ≡ true → P x
unfolding member
All-member P [] x h m = absurd (cc m)
All-member P (y ∷ xs) x h m = elim (Bool-cases (y =? x)) [
  | inl e ↦ subst P (eq_of_eq y x e) h.0
  | inr e ↦ All-member P xs x h.1 (ground (arith, m, e))
]

pub Modifiers-cases :
    {F : Type 0} (o : Modifiers F)
    → ((k : String) × (o ≡ unregistered k)) ⊎ ((ms : List (Modifier F)) × (o ≡ mods ms))
Modifiers-cases (unregistered k) = inl (k, refl)
Modifiers-cases (mods ms) = inr (ms, refl)

module _ {F : Type 0} ⦃f : Float F⦄ (items : Table ℤ (ItemDef F)) (names : Names) (rank : ℤ → ℕ)
    (levels : ℕ) (bounded : (id : ℤ) → rank id < levels) (us : List ℤ) (n : ℕ)
    (enough : suc (length us) < n) (deep : levels ≤ n) where
  -- The attributes are in order, and so are the pieces of the equipment.
  pub record IsSound (s : Session F) : Type 0 where
    pub ready : Ready rank levels bounded us n enough deep s.attr
    pub keyed : IsKeyed s.eq.slots
    pub anchored : IsAnchored s.eq.slots

  unequip_by_anchor-IsSound :
      (anchor : String) (s : Session F)
      → IsSound s
      → (s' : Session F) × (unequip_by_anchor items names n anchor s ≡ some s') × IsSound s'
  unfolding unequip_by_anchor
  unequip_by_anchor-IsSound anchor s sound =
      let taken = Equipment.unequip_by_anchor anchor s.eq in
      let (s', h, ready, same) =
        take_back-Ends items names rank levels bounded us n enough deep taken.1
          (record s { eq = taken.0 }) sound.ready in
      (
        s',
        h,
        record {
          ready = ready;
          keyed =
              subst (λ e. IsKeyed e.slots) (sym same)
                (unequip_by_anchor-IsKeyed anchor s.eq sound.keyed);
          anchored =
              subst (λ e. IsAnchored e.slots) (sym same)
                (unequip_by_anchor-IsAnchored anchor s.eq sound.keyed sound.anchored);
        },
      )

  -- An operation that ends, with an error or without, in a session that is in order.
  abbrev pub EndsSound : Result F → Type 0
  EndsSound r = (e : Option Fault) × (s' : Session F) × (r ≡ some (e, s')) × IsSound s'

  unequip-EndsSound :
      (slot : String) (s : Session F) → IsSound s → EndsSound (unequip items names n slot s)
  unfolding unequip
  unequip-EndsSound slot s sound = elim (Option-cases (lookup slot s.eq.slots)) [
    | inl p ↦ (some (not_found "no item equipped in slot"), s, rw (p, unequip) refl, sound)
    | inr (e, p) ↦
        (let (s', h, sound') = unequip_by_anchor-IsSound e.anchor_slot s sound in
          (none, s', rw (p, unequip, h) refl, sound'))
  ]

  mount_piece-EndsSound :
      (d : ItemDef F) (it : Item) (clicked : String) (targets : List String) (s : Session F)
      → IsSound s
      → member clicked targets ≡ true
      → ((j : String) → member j targets ≡ true → lookup j s.eq.slots ≡ none)
      → EndsSound (mount_piece items names n d it clicked targets s)
  unfolding mount_piece
  mount_piece-EndsSound d it clicked targets s sound among empty =
      let inv' = add_equip_change it (neg one) true s.inv in
      elim (Modifiers-cases (modifiers d it s.attr.reg)) [
        | inl (k, e) ↦ (
          some (modifiers_failed k),
          record s { inv = inv' },
          rw (e, mount_piece) refl,
          record { ready = sound.ready; keyed = sound.keyed; anchored = sound.anchored },
        )
        | inr (ms, e) ↦
            (let (a, h, ready) = follow rank levels bounded us n enough deep s.attr _ sound.ready (
                add_modifiers-Ends rank levels us n enough (source_of d.string_id) ms s.attr
                  sound.ready (modifiers-IsAllowed s.attr.reg d it rank ms e)) in
              (
                none,
                record s { attr = a; inv = inv'; eq = equip_all targets it clicked s.eq },
                rw (e, mount_piece, h) refl,
                record {
                  ready = ready;
                  keyed = equip_all-IsKeyed targets it clicked s.eq sound.keyed;
                  anchored =
                      equip_all-IsAnchored targets it clicked s.eq sound.anchored among empty;
                },
              ))
      ]

  free_clicked-IsSound :
      (clicked : String) (s : Session F)
      → IsSound s
      → (s' : Session F) × (free_clicked items names n clicked s ≡ some s') × IsSound s'
  unfolding free_clicked
  free_clicked-IsSound clicked s sound = elim (Option-cases (lookup clicked s.eq.slots)) [
    | inl p ↦ (s, rw (p, free_clicked) refl, sound)
    | inr (old, p) ↦ rw (p, free_clicked) (unequip_by_anchor-IsSound old.anchor_slot s sound)
  ]

  equip_in-EndsSound :
      (d : ItemDef F) (it : Item) (clicked : String) (all_slots : List String) (s : Session F)
      → IsSound s
      → member clicked all_slots ≡ true
      → EndsSound (equip_in items names n d it clicked (requirements d clicked) all_slots s)
  unfolding equip_in
  equip_in-EndsSound d it clicked all_slots s sound is_slot =
      let (s', h, sound') = free_clicked-IsSound clicked s sound in
      let reqs = requirements d clicked in
      let occupied = keys_of s'.eq.slots in
      rw (h, equip_in)
        (elim (Choice-cases (choose_target_slots all_slots reqs clicked occupied)) [
          | inl (text, e) ↦ (some (bad_request text), s', rw (e) refl, sound')
          | inr (targets, e) ↦
              (let (least, keyed) = requirements-AtLeastOne d clicked in
                let (grown, asked) =
                  choose_target_slots-HasGrown all_slots clicked occupied is_slot reqs targets keyed
                    least e in
                rw (e) (
                  mount_piece-EndsSound d it clicked targets s' sound' (grown.clicks asked) (λ j m.
                    member_keys j s'.eq.slots
                      (All-member (IsFree all_slots occupied) targets j (grown.fits tt) m).1)))
        ])

  equip_item-EndsSound :
      (d : ItemDef F) (it : Item) (clicked : String) (s : Session F)
      → IsSound s
      → EndsSound (equip_item items names n d it clicked s)
  unfolding equip_item build_slot_instances
  equip_item-EndsSound d it clicked s sound =
      let reqs = requirements d clicked in
      let bases =
        if resolve_slot_type clicked =? "tool" then tool_slot_bases else equipment_slot_bases in
      elim (Option-cases (lookup (slot_base clicked) reqs)) [
        | inl e ↦ (
          some (bad_request "item cannot be equipped in this slot"),
          s,
          rw (e, equip_item) refl,
          sound,
        )
        | inr (need, e) ↦
            (let (all_slots, a, h, ready) =
                build_slots-Ends rank levels bounded us n enough deep bases s.attr sound.ready in
              let s' = record s { attr = a } in
              let sound' : IsSound s' = record {
                ready = ready;
                keyed = sound.keyed;
                anchored = sound.anchored;
              } in
              rw (e, equip_item, h, build_slot_instances)
                (elim (Bool-cases (member clicked all_slots)) [
                  | inl m ↦ rw (m) (equip_in-EndsSound d it clicked all_slots s' sound' m)
                  | inr m ↦ (some (bad_request "invalid slot"), s', rw (m) refl, sound')
                ]))
      ]

  pub equip-EndsSound :
      (it : Item) (clicked : String) (s : Session F)
      → IsSound s
      → EndsSound (equip items names n it clicked s)
  unfolding equip
  equip-EndsSound it clicked s sound = elim (Option-cases (lookup it.id items)) [
    | inl e ↦ (some (not_found "item not found"), s, rw (e, equip) refl, sound)
    | inr (d, e) ↦
        rw (e, equip)
          (if_rule EndsSound (not (d.equipment || d.tool))
            (some (bad_request "item is not equipment"), s, refl, sound)
            (if_rule EndsSound (has it one s.inv) (equip_item-EndsSound d it clicked s sound)
              (some (bad_request "item not in inventory"), s, refl, sound)))
  ]

  run-EndsSound : (c : Command) (s : Session F) → IsSound s → EndsSound (run items names n c s)
  unfolding run
  run-EndsSound (equips it clicked) s sound = equip-EndsSound it clicked s sound
  run-EndsSound (unequips slot) s sound = unequip-EndsSound slot s sound

  -- In a session whose attributes are in order, any Equip and Unequip end, each with its error or without,
  -- on fuel above the number of dependent attributes; and if the anchor that each slot of the equipment
  -- names is a slot with the same anchor and the same item, it is so afterwards: the slots of one piece
  -- have one item.
  pub run_all-IsSound :
      (cs : List Command) (s : Session F)
      → IsSound s
      → (es : List (Option Fault)) × (s' : Session F) × (run_all items names n cs s ≡ some (es, s'))
        × IsSound s'
  unfolding run_all
  run_all-IsSound [] s sound = ([], s, refl, sound)
  run_all-IsSound (c ∷ cs) s sound =
      let (e, s', h, sound') = run-EndsSound c s sound in
      let (es, s'', h', sound'') = run_all-IsSound cs s' sound' in
      (e ∷ es, s'', rw (h, run_all, h') refl, sound'')
