-- ===== src/Item/Tests.antt =====
-- A helmet with an attribute that is registered and one that is not, over thousandths.
use milkyway_liluo_idle.Prelude.{true, false, [], ◌∷◌, pos}
use milkyway_liluo_idle.Milli.{Milli, whole, milli_float}
use milkyway_liluo_idle.Item.Definition.{ItemDef, modifiers}
use milkyway_liluo_idle.Item.Modifiers.{Outcome, mentions, modifiers-Outcome}
use milkyway_liluo_idle.Attribute.Tests.{registry}

abbrev helmet : ItemDef Milli
helmet = record {
  id = pos 3;
  string_id = "helmet";
  name = "Helmet";
  tool = false;
  equipment = true;
  upgradable = true;
  classification = "";
  equip_basic = ("power", whole 5) ∷ ("block", whole 2) ∷ [];
  equip_upgrade = ("power", whole 1) ∷ [];
  tool_basic = ("speed", whole 1) ∷ [];
  tool_upgrade = [];
  upgrade_curve =
      record {
        level = pos 0;
        recommend_level = pos 1;
        basic_success_rate = whole 1;
        ability_multiplier = whole 1;
      }
      ∷ record {
        level = pos 4;
        recommend_level = pos 9;
        basic_success_rate = whole 1;
        ability_multiplier = whole 3;
      }
      ∷ [];
  equip_position_reqs = [];
  tool_position_reqs = [];
  max_upgrade = pos 4;
}

modifiers-Outcome_example :
    Outcome registry
      (mentions helmet)
      (mentions helmet)
      (modifiers helmet (record { id = pos 3; state = pos 2 }) registry)
modifiers-Outcome_example = modifiers-Outcome registry helmet (record { id = pos 3; state = pos 2 })
