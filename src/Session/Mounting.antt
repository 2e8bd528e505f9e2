-- ===== src/Session/Mounting.antt =====
-- What Equip has done when it ends (backend/internal/session/session.go), if nothing was on the clicked slot.
use milkyway_liluo_idle.Prelude.{
  ℕ, ◌≡◌, refl, subst, true, not, ◌||◌, Option, none, some, List, ℤ, String, Table, lookup, member,
  Bool-cases, Option-cases, inl, inr, string_eq, int_eq, if_rule,
}
use milkyway_liluo_idle.Float.{Float, one, neg}
use milkyway_liluo_idle.Item.{Item}
use milkyway_liluo_idle.Item.Definition.{ItemDef, modifiers}
use milkyway_liluo_idle.Attribute.{add_modifiers}
use milkyway_liluo_idle.Inventory
use milkyway_liluo_idle.Inventory.{has, add_equip_change}
use milkyway_liluo_idle.Equipment
use milkyway_liluo_idle.Bestiary.{Names}
use milkyway_liluo_idle.Session.{
  Session, Fault, not_found, bad_request, modifiers_failed, Result, keys_of, requirements,
  equip_all, source_of, mount_piece, free_clicked, equip_in, equip_item, equip,
}
use milkyway_liluo_idle.Session.Slots.{
  slot_base, resolve_slot_type, build_slot_instances, choose_target_slots,
}
use milkyway_liluo_idle.Session.Bases.{IsFree, Choice-cases}
use milkyway_liluo_idle.Session.Choosing.{choose_target_slots-HasGrown}
use milkyway_liluo_idle.Session.Requirements.{requirements-AtLeastOne}
use milkyway_liluo_idle.Session.Commands.{member_keys, All-member, Modifiers-cases}

module _ {F : Type 0} ⦃f : Float F⦄ where
  -- The slots of the new piece, which were empty, and the inventory, from those before.
  pub record IsMounted (it : Item) (clicked : String) (eq : Equipment.State)
      (inv : Inventory.State F) (s' : Session F) : Type 0 where
    pub targets : List String
    pub among : member clicked targets ≡ true
    pub empty : (j : String) → member j targets ≡ true → lookup j eq.slots ≡ none
    pub mounted : s'.eq ≡ equip_all targets it clicked eq
    pub paid : s'.inv ≡ add_equip_change it (neg one) true inv

  -- The error of the modifiers comes when the item is already out of the inventory.
  abbrev pub FaultLeaves : Item → Session F → Fault → Session F → Type 0
  FaultLeaves it s (modifiers_failed k) s' =
      (s'.inv ≡ add_equip_change it (neg one) true s.inv) × (s'.eq ≡ s.eq) × (s'.best ≡ s.best)
  FaultLeaves it s _ s' = (s'.inv ≡ s.inv) × (s'.eq ≡ s.eq) × (s'.best ≡ s.best)

  abbrev pub Leaves : Item → String → Session F → Option Fault → Session F → Type 0
  Leaves it clicked s none s' = IsMounted it clicked s.eq s.inv s'
  Leaves it clicked s (some e) s' = FaultLeaves it s e s'

  -- Every end of an operation on a session.
  abbrev AllLeave : Item → String → Session F → Result F → Type 0
  AllLeave it clicked s r =
      (e : Option Fault) (s' : Session F) → r ≡ some (e, s') → Leaves it clicked s e s'

  leaves :
      (it : Item) (clicked : String) (s : Session F) (e : Option Fault) (s1 : Session F)
      → Leaves it clicked s e s1
      → AllLeave it clicked s (some (e, s1))
  leaves it clicked s e s1 l e' s' h =
      let same : ◌≡◌ {A = Option Fault × Session F} (e, s1) (e', s') = cc h in
      subst (λ (p : Option Fault × Session F). Leaves it clicked s p.0 p.1) same l

  leaves_none : (it : Item) (clicked : String) (s : Session F) → AllLeave it clicked s none
  leaves_none it clicked s e s' h = absurd (cc h)

  module _ (items : Table ℤ (ItemDef F)) (names : Names) (n : ℕ) where
    mount_piece-AllLeave :
        (d : ItemDef F) (it : Item) (clicked : String) (targets : List String) (s : Session F)
        → member clicked targets ≡ true
        → ((j : String) → member j targets ≡ true → lookup j s.eq.slots ≡ none)
        → AllLeave it clicked s (mount_piece items names n d it clicked targets s)
    unfolding mount_piece
    mount_piece-AllLeave d it clicked targets s among empty =
        elim (Modifiers-cases (modifiers d it s.attr.reg)) [
          | inl (k, e) ↦
              rw (e, mount_piece)
                (leaves it clicked s (some (modifiers_failed k)) _ (refl, refl, refl))
          | inr (ms, e) ↦
              rw (e, mount_piece)
                (elim (Option-cases (add_modifiers n (source_of d.string_id) ms s.attr)) [
                  | inl a ↦ rw (a) (leaves_none it clicked s)
                  | inr (attr', a) ↦ rw (a) (
                      leaves it clicked s none _ (record {
                        targets = targets;
                        among = among;
                        empty = empty;
                        mounted = refl;
                        paid = refl;
                      }))
                ])
        ]

    equip_in-AllLeave :
        (d : ItemDef F) (it : Item) (clicked : String) (all_slots : List String) (s : Session F)
        → member clicked all_slots ≡ true
        → lookup clicked s.eq.slots ≡ none
        → AllLeave it clicked s
            (equip_in items names n d it clicked (requirements d clicked) all_slots s)
    unfolding equip_in free_clicked
    equip_in-AllLeave d it clicked all_slots s is_slot bare =
        let reqs = requirements d clicked in
        let occupied = keys_of s.eq.slots in
        rw (bare, equip_in, free_clicked)
          (elim (Choice-cases (choose_target_slots all_slots reqs clicked occupied)) [
            | inl (text, e) ↦
                rw (e) (leaves it clicked s (some (bad_request text)) s (refl, refl, refl))
            | inr (targets, e) ↦
                (let (least, keyed) = requirements-AtLeastOne d clicked in
                  let (grown, asked) =
                    choose_target_slots-HasGrown all_slots clicked occupied is_slot reqs targets
                      keyed least e in
                  rw (e) (
                    mount_piece-AllLeave d it clicked targets s (grown.clicks asked) (λ j m.
                      member_keys j s.eq.slots
                        (All-member (IsFree all_slots occupied) targets j (grown.fits tt) m).1)))
          ])

    equip_item-AllLeave :
        (d : ItemDef F) (it : Item) (clicked : String) (s : Session F)
        → lookup clicked s.eq.slots ≡ none
        → AllLeave it clicked s (equip_item items names n d it clicked s)
    unfolding equip_item
    equip_item-AllLeave d it clicked s bare =
        elim (Option-cases (lookup (slot_base clicked) (requirements d clicked))) [
          | inl e ↦
              rw (e, equip_item) (leaves it clicked s (some (bad_request _)) s (refl, refl, refl))
          | inr (need, e) ↦
              rw (e, equip_item)
                (elim (Option-cases (build_slot_instances n (resolve_slot_type clicked) s.attr)) [
                  | inl b ↦ rw (b) (leaves_none it clicked s)
                  | inr ((all_slots, a), b) ↦
                      (let s' = record s { attr = a } in
                        rw (b) (elim (Bool-cases (member clicked all_slots)) [
                          | inr m ↦
                              rw (m)
                                (leaves it clicked s (some (bad_request _)) s' (refl, refl, refl))
                          | inl m ↦ rw (m) (equip_in-AllLeave d it clicked all_slots s' m bare)
                        ]))
                ])
        ]

    -- If nothing is on the clicked slot, then `Equip` that succeeds has put the item, with the clicked slot
    -- as its anchor, on slots that were empty, that one among them, and has taken one from the inventory;
    -- if it fails because the modifiers of the item do, the item is gone from the inventory, and on no
    -- slot; and after any other error the inventory, the equipment and the bestiary are as before.
    pub equip-AllLeave :
        (it : Item) (clicked : String) (s : Session F) (e : Option Fault) (s' : Session F)
        → lookup clicked s.eq.slots ≡ none
        → equip items names n it clicked s ≡ some (e, s')
        → Leaves it clicked s e s'
    unfolding equip
    equip-AllLeave it clicked s e s' bare h =
        let all : AllLeave it clicked s (equip items names n it clicked s) =
          elim (Option-cases (lookup it.id items)) [
            | inl e ↦ rw (e, equip) (leaves it clicked s (some (not_found _)) s (refl, refl, refl))
            | inr (d, e) ↦
                rw (e, equip)
                  (if_rule (AllLeave it clicked s) (not (d.equipment || d.tool))
                    (leaves it clicked s (some (bad_request _)) s (refl, refl, refl))
                    (if_rule (AllLeave it clicked s) (has it one s.inv)
                      (equip_item-AllLeave d it clicked s bare)
                      (leaves it clicked s (some (bad_request _)) s (refl, refl, refl))))
          ] in
        all e s' h
