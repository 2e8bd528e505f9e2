-- ===== src/Item.antt =====
-- Item identities (backend/internal/item/item.go).
pub mod Definition
pub mod Modifiers
pub mod Tests
use milkyway_liluo_idle.Prelude.{◌≡◌, ◌↔◌, Bool, true, ◌&&◌, arith, ℤ, Eq, int_beq}

-- `item.Item`, a Go struct that is compared field by field.
pub record Item : Type 0 where
  pub id : ℤ
  pub state : ℤ

abbrev pub item_beq : Item → Item → Bool
item_beq a b = int_beq a.id b.id && int_beq a.state b.state

pub item_beq_iff : (a b : Item) → (item_beq a b ≡ true) ↔ (a ≡ b)
item_beq_iff a b = ground arith

instance abbrev pub item_eq : Eq Item
item_eq = record { beq = item_beq; beq_iff = item_beq_iff }
