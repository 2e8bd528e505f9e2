-- ===== src/Battle.antt =====
-- The battle (backend/internal/battle): entities, skills and effects (entity.go, player_entity.go,
-- enemy_entity.go, skill.go, effect.go). A player and an enemy have the same fields and the same
-- methods in Go, and are one record here; `team` tells them apart. The attributes of an entity are
-- behind the interface `Attributes`, and the random source is a parameter.
pub mod Damage
pub mod Targeting
pub mod Effects
pub mod Times
pub mod Clock
pub mod Experience
pub mod Choice
pub mod News
pub mod Choosing
pub mod Membership
pub mod Timing
pub mod Combat
pub mod Events
pub mod Delta
pub mod Respawn
pub mod Passing
pub mod Outcomes
pub mod Tests
pub mod EventTests
use milkyway_liluo_idle.Prelude.{
  ℕ, Bool, true, false, if◌then◌else◌, Option, none, some, List, [], ◌∷◌, ℤ, String, Table,
}
use milkyway_liluo_idle.Float.{Float, ◌<?◌}

pub data Team : Type 0 where
  player enemy : Team

-- `EffectMode`
pub data EffectMode : Type 0 where
  flat percent_mult : EffectMode

-- `attribute.OpType`, as far as effects use it
pub data OpType : Type 0 where
  op_add op_multiply : OpType

pub record ActiveEffect (F : Type 0) : Type 0 where
  pub source_skill_id : ℤ
  pub attribute : ℤ
  pub mode : EffectMode
  pub value : F
  -- none: until the battle ends
  pub expires_at : Option F

pub record Modifier (F : Type 0) : Type 0 where
  pub attr_id : ℤ
  pub op : OpType
  pub value : F

pub record DamageProfile (F : Type 0) : Type 0 where
  pub kind : String
  pub flat : F
  pub multiplier : F

pub record SkillEffect (F : Type 0) : Type 0 where
  pub target : String
  pub attribute : ℤ
  pub mode : EffectMode
  pub value : F
  pub duration : F

pub record BattleSkill (F : Type 0) : Type 0 where
  pub id : ℤ
  pub damage : Option (DamageProfile F)
  pub mp_cost : F
  pub sp_cost : F
  pub cast_time : F
  pub cooldown : F
  pub effects : List (SkillEffect F)
  pub physical_style : String

-- `A` is the type of the attributes of an entity. The condition of an entry of the plan is left out:
-- the server evaluates every condition to true.
pub record Entity (A F : Type 0) : Type 0 where
  pub entity_id : ℤ
  pub team : Team
  pub alive : Bool
  pub hp : F
  pub mp : F
  pub sp : F
  pub attr : A
  pub cached_max_hp : F
  pub cached_max_mp : F
  pub cached_max_sp : F
  pub next_ready_time : F
  pub last_action_duration : F
  pub cooldowns : Table ℤ F
  pub active_effects : List (ActiveEffect F)
  pub skills : Table ℤ (BattleSkill F)
  pub skill_plan : List ℤ
  pub basic_skill_id : ℤ
  pub last_skill_id : ℤ

-- The attribute ids that attrs.go resolves.
pub record AttrIds : Type 0 where
  pub physical_power : ℤ
  pub magic_power : ℤ
  pub accuracy : ℤ
  pub attack_interval : ℤ
  pub defense : ℤ
  pub hatred_multiplier : ℤ
  pub hp_recovery : ℤ
  pub hp : ℤ
  pub mp : ℤ
  pub sp : ℤ
  pub critical : ℤ
  pub critical_rate : ℤ
  pub block : ℤ
  pub block_possibility_multiplier : ℤ
  pub block_rate : ℤ
  pub evade : ℤ
  pub evade_possibility_multiplier : ℤ
  pub accuracy_possibility_multiplier : ℤ
  pub magic_instance : ℤ
  pub final_damage_multiplier : ℤ
  pub final_damage_reduce : ℤ
  pub hatred : ℤ
  pub mp_recovery : ℤ
  pub sp_recovery : ℤ

-- `attribute.Instance`, as far as a battle uses it: the final value of an attribute, and the
-- modifiers of a source, which replace those that the source had.
pub record Attributes (A F : Type 0) : Type 0 where
  pub ids : AttrIds
  pub get_final : ℤ → A → F
  pub add_modifiers : ℤ → List (Modifier F) → A → A

-- `rand.Rand`: a number from 0 to 1, and an index below a bound.
pub record Random (R F : Type 0) : Type 0 where
  pub float64 : R → F × R
  pub intn : ℕ → R → ℕ × R

module _ {F : Type 0} ⦃f : Float F⦄ where
  -- `clamp`
  unfoldable pub clamp : F → F → F → F
  clamp v low high = if v <? low then low else if high <? v then high else v

module _ {A F : Type 0} (attrs : Attributes A F) where
  abbrev pub final : (AttrIds → ℤ) → Entity A F → F
  final id e = attrs.get_final (id attrs.ids) e.attr

  abbrev pub max_hp : Entity A F → F
  max_hp = final (λ ids. ids.hp)

  abbrev pub max_mp : Entity A F → F
  max_mp = final (λ ids. ids.mp)

  abbrev pub max_sp : Entity A F → F
  max_sp = final (λ ids. ids.sp)
