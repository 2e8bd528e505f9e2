-- ===== src/GameConfig.antt =====
-- Event definitions (backend/internal/gameconfig/models.go, parsed from the embedded actions.json).
use milkyway_liluo_idle.Prelude.{
  Bool, true, false, not, ◌&&◌, if◌then◌else◌, Option, none, some, List, ℤ, String,
}
use milkyway_liluo_idle.Float.{Float, ◌==?◌, nought}
use milkyway_liluo_idle.Item.{Item}

-- `EventType`. A string that is none of the three constants is `other`.
pub data EventType : Type 0 where
  loop instant upgrade other : EventType

-- `ReqType`; `other` is a string that is none of the four constants.
pub data ReqType : Type 0 where
  skill item fluid event other : ReqType

-- `comparison` is `ComparisonTypes`, which the server only compares with nil.
pub record Requirement (F : Type 0) : Type 0 where
  pub kind : ReqType
  pub value : Option F
  pub comparison : Option String
  pub resolved_item : Item
  pub resolved_id : ℤ

-- The `Type` of a reward: "" is an item, "experience" is experience.
pub data RewardType : Type 0 where
  item experience other : RewardType

pub record Reward (F : Type 0) : Type 0 where
  pub kind : RewardType
  pub num : F
  pub value : F
  pub resolved_item : Item
  pub resolved_skill_id : ℤ

pub record Event (F : Type 0) : Type 0 where
  pub kind : EventType
  pub loop_time : Option F
  pub production_attr_name : String
  pub requirements : List (Requirement F)
  pub rewards : List (Reward F)

abbrev is_resource : ReqType → Bool
is_resource ReqType.item = true
is_resource ReqType.fluid = true
is_resource _ = false

abbrev is_nil {ℓ} : {A : Type ℓ} → Option A → Bool
is_nil none = true
is_nil (some _) = false

module _ {F : Type 0} where
  unfoldable pub is_consumption : Requirement F → Bool
  is_consumption r = is_resource r.kind && is_nil r.comparison

  unfoldable pub item_quantity : ⦃f : Float F⦄ → Reward F → F
  item_quantity r = if not (r.num ==? nought) then r.num else r.value
