-- ===== src/Item/Definition.antt =====
-- Item definitions and the modifiers of an item (backend/internal/item/item.go).
use milkyway_liluo_idle.Prelude.{
  Bool, ◌||◌, if◌then◌else◌, none, some, List, [], ◌∷◌, ◌++◌, ℤ, pos, ◌-ℤ◌, leb_ℤ, int_beq, String,
  Table, lookup, or_zero, include, ◌=?◌, string_eq,
}
use Prim.Native.String.{◌++◌ as str_append}
use milkyway_liluo_idle.Float.{Float, ◌⊕◌, ◌⊖◌, ◌⊗◌, ◌⊘◌, ◌<?◌, nought, one, neg}
use milkyway_liluo_idle.Item.{Item}
use milkyway_liluo_idle.Attribute.{Modifier, Registry, op_add}

pub record UpgradeCurveNode (F : Type 0) : Type 0 where
  pub level : ℤ
  pub recommend_level : ℤ
  pub basic_success_rate : F
  pub ability_multiplier : F

pub record PositionReq : Type 0 where
  pub position : String
  pub value : ℤ

pub record ItemDef (F : Type 0) : Type 0 where
  pub id : ℤ
  pub string_id : String
  pub name : String
  pub tool : Bool
  pub equipment : Bool
  pub upgradable : Bool
  pub classification : String
  pub equip_basic : Table String F
  pub equip_upgrade : Table String F
  pub tool_basic : Table String F
  pub tool_upgrade : Table String F
  pub upgrade_curve : List (UpgradeCurveNode F)
  pub equip_position_reqs : List PositionReq
  pub tool_position_reqs : List PositionReq
  pub max_upgrade : ℤ

module _ {F : Type 0} ⦃f : Float F⦄ where
  -- The loop of `AbilityMultiplier` over the nodes behind the first, with the node before them.
  unfoldable pub interpolate : ℤ → UpgradeCurveNode F → List (UpgradeCurveNode F) → F
  unfolding ◌-ℤ◌
  interpolate lv left [] = left.ability_multiplier
  interpolate lv left (right ∷ nodes) =
      let rest = interpolate lv right nodes in
      let ratio = f.of_int (lv -ℤ left.level) ⊘ f.of_int (right.level -ℤ left.level) in
      if leb_ℤ lv right.level
      then if int_beq right.level left.level
        then right.ability_multiplier
        else left.ability_multiplier
          ⊕ ((right.ability_multiplier ⊖ left.ability_multiplier) ⊗ ratio)
      else rest

  -- `AbilityMultiplier`
  unfoldable pub ability_multiplier : ItemDef F → ℤ → F
  unfolding interpolate
  ability_multiplier d lv = elim d.upgrade_curve [
    | [] ↦ one
    | node ∷ nodes ↦
        if leb_ℤ lv node.level then node.ability_multiplier else interpolate lv node nodes
  ]

  -- `abs`
  abbrev pub abs : F → F
  abs v = if v <? nought then neg v else v

-- `displayHint`
unfoldable pub display_hint : String → String
display_hint id =
    if (id =? "felling_production_multiplier")
      || ((id =? "mining_production_multiplier")
          || ((id =? "crafting_production_multiplier")
              || ((id =? "exp_gain_multiplier") || (id =? "hatred_multiplier"))))
    then "PERCENT"
    else "FIXED"

-- The keys of both tables, each once.
unfoldable pub all_keys : {V : Type 0} → Table String V → List String → List String
unfolding include
all_keys [] ks = ks
all_keys ((k, v) ∷ t) ks = all_keys t (include k ks)

pub data Modifiers (F : Type 0) : Type 0 where
  mods : List (Modifier F) → Modifiers F
  -- the attribute that is not registered
  unregistered : String → Modifiers F

module _ {F : Type 0} ⦃f : Float F⦄ where
  abbrev pub item_mod : String → ℤ → F → String → Modifier F
  unfolding display_hint
  item_mod key aid value source = record {
    attr_id = aid;
    op = op_add;
    value = value;
    ref_attr = pos 0;
    display = display_hint key;
    source = source;
    priority = pos 0;
  }

  -- The loop of `collect` over the keys.
  unfoldable pub collect_keys :
      Registry F
      → F
      → Table String F
      → Table String F
      → String
      → List String
      → List (Modifier F)
      → Modifiers F
  unfolding item_mod lookup or_zero
  collect_keys reg ability basic upgrade source [] out = mods out
  collect_keys reg ability basic upgrade source (k ∷ ks) out =
      let value = or_zero nought (lookup k basic) ⊕ (or_zero nought (lookup k upgrade) ⊗ ability) in
      let skipped = collect_keys reg ability basic upgrade source ks out in
      let found : Modifiers F = elim (lookup k reg.attr_ids) [
        | none ↦ unregistered k
        | some aid ↦
            (let taken =
                collect_keys reg ability basic upgrade source ks
                  (out ++ (item_mod k aid value source ∷ [])) in
              if abs value <? f.lit 1 12 then skipped else taken)
      ] in
      found

  -- `collect`
  unfoldable pub collect :
      Registry F
      → F
      → ItemDef F
      → Table String F
      → Table String F
      → String
      → List (Modifier F)
      → Modifiers F
  unfolding collect_keys all_keys
  collect reg ability d basic upgrade base out =
      collect_keys reg ability basic upgrade (str_append base (str_append ":" d.string_id))
        (all_keys upgrade (all_keys basic [])) out

  -- `ItemDef.Modifiers`
  unfoldable pub modifiers : ItemDef F → Item → Registry F → Modifiers F
  unfolding collect ability_multiplier
  modifiers d it reg =
      let ability = ability_multiplier d it.state in
      elim (collect reg ability d d.equip_basic d.equip_upgrade "equipment" []) [
        | unregistered k ↦ unregistered k
        | mods out ↦ collect reg ability d d.tool_basic d.tool_upgrade "tool" out
      ]
