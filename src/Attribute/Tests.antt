-- ===== src/Attribute/Tests.antt =====
-- A registry of two attributes, the second of which has the first added, over thousandths.
use milkyway_liluo_idle.Prelude.{
  ℕ, ◌≡◌, refl, true, none, some, List, [], ◌∷◌, pos, ℤ, Bool-cases, inl, inr, String, All, member,
  arith, if◌then◌else◌, ◌=?◌, int_eq, string_eq, lookup, or_zero, ◌<◌,
}
use milkyway_liluo_idle.Milli.{Milli, whole, milli_lit, milli_float}
use milkyway_liluo_idle.Attribute.{
  Modifier, AttrDef, Registry, Instance, reverse_deps, modifiers_in, modifiers_for, is_dirty,
  targeting, mark_dirty, add_modifiers, remove_modifiers,
}
use milkyway_liluo_idle.Attribute.Calculation.{get_final, cache_hit, temp_mods_for}
use milkyway_liluo_idle.Attribute.Reference.{value_of}
use milkyway_liluo_idle.Attribute.Building.{AttrsConfig, build, new_registry, ok}
use milkyway_liluo_idle.Attribute.Cycles.{Ends}
use milkyway_liluo_idle.Attribute.Recorded.{AreRecorded}
use milkyway_liluo_idle.Attribute.Registered.{
  IsDefined, new_registry-IsDefined, new_registry-ranked,
}
use milkyway_liluo_idle.Attribute.Marking.{Marking, mark_dirty-HasSpread}
use milkyway_liluo_idle.Attribute.Operations.{IsReady, unmarked-le-length}
use milkyway_liluo_idle.Attribute.Removal.{remove_modifiers-add_modifiers}
use milkyway_liluo_idle.Attribute.Preview.{new_context, add_mult, AllRanked, get_final-Previews}
use milkyway_liluo_idle.Attribute.Runs.{Call, add, final, live, get_final-live}

abbrev power : AttrDef Milli
power = record {
  id = "power";
  name = "Power";
  default_value = whole 10;
  min_value = some (whole 0);
  max_value = none;
  direction = "positive";
  group = "";
  desc = "";
}

abbrev block : AttrDef Milli
block = record {
  id = "block";
  name = "Block";
  default_value = whole 1;
  min_value = none;
  max_value = some (whole 90);
  direction = "positive";
  group = "";
  desc = "";
}

abbrev block_of_power : Modifier Milli
block_of_power = record {
  attr_id = pos 2;
  op = "ADD";
  value = whole 0;
  ref_attr = pos 1;
  display = "FIXED";
  source = "base";
  priority = pos 0;
}

abbrev pub registry : Registry Milli
registry = record {
  by_id = (pos 1, power) ∷ (pos 2, block) ∷ [];
  by_string = ("power", power) ∷ ("block", block) ∷ [];
  attr_ids = ("power", pos 1) ∷ ("block", pos 2) ∷ [];
  id_to_string = (pos 1, "power") ∷ (pos 2, "block") ∷ [];
  static_mods = block_of_power ∷ [];
  forward = (pos 2, pos 1 ∷ []) ∷ [];
  reverse = (pos 1, pos 2 ∷ []) ∷ [];
}

abbrev sword : Modifier Milli
sword = record {
  attr_id = pos 1;
  op = "ADD";
  value = whole 15;
  ref_attr = pos 0;
  display = "FIXED";
  source = "";
  priority = pos 0;
}

abbrev calls : List (Call Milli)
calls = final (pos 2) ∷ add "equipment:sword" (sword ∷ []) ∷ final (pos 1) ∷ []

abbrev pub rank : ℤ → ℕ
rank id = if pos 2 =? id then 1 else 0

pub rank_bounded : (id : ℤ) → rank id < 2
rank_bounded id = ground arith

covered : (x : ℤ) → All (λ y. member y (pos 2 ∷ []) ≡ true) (reverse_deps registry x)
unfolding member lookup or_zero
covered x = elim (Bool-cases (pos 1 =? x)) [ inl e ↦ rw (e) (refl, tt) | inr e ↦ rw (e) tt ]

get_final-live_example :
    (s s' : Instance Milli) × (live 3 registry calls ≡ some s)
    × (get_final 3 none (pos 2) [] s ≡ some (value_of 2 s (pos 2), s'))
unfolding member lookup or_zero
get_final-live_example =
    get_final-live rank 2 rank_bounded (pos 2 ∷ []) 3 (omega arith) (omega arith) registry calls
      (pos 2) covered ((λ k r. (refl, omega arith)), tt) (tt, (((λ k r. cc), tt), (tt, tt)))

abbrev config : AttrsConfig Milli
config = record {
  version = "1";
  attributes = power ∷ block ∷ [];
  modifiers =
      record {
        attr_id = "block";
        op = "ADD";
        value = whole 0;
        ref_attr = "power";
        display = "";
        priority = pos 0;
      }
      ∷ [];
}

build_config : build config registry.attr_ids ≡ ok registry
unfolding build milli_lit
build_config = refl

falls : (id : ℤ) → All (λ y. rank y < rank id) (or_zero [] (lookup id registry.forward))
unfolding lookup or_zero
falls id = elim (Bool-cases (pos 2 =? id)) [ inl e ↦ rw (e) (omega arith, tt) | inr e ↦ rw (e) tt ]

new_registry-ranked_example : new_registry 2 config registry.attr_ids ≡ some (ok registry)
new_registry-ranked_example =
    new_registry-ranked 2 config registry.attr_ids registry rank build_config falls rank_bounded

new_registry-IsDefined_example :
    All (IsDefined registry) (power ∷ block ∷ [])
    × AreRecorded registry
    × ((id : ℤ) (d : AttrDef Milli)
        → lookup id registry.by_id ≡ some d
        → Ends (λ x. or_zero [] (lookup x registry.forward)) id)
new_registry-IsDefined_example =
    new_registry-IsDefined 2 config registry.attr_ids registry
      (new_registry-ranked 2 config registry.attr_ids registry rank build_config falls rank_bounded)

abbrev pub blank : Instance Milli
blank = record {
  reg = registry;
  by_attr = [];
  by_source = [];
  cached = [];
  dirty = [];
  bucket = some [];
}

pub blank-IsReady : IsReady rank 2 (pos 2 ∷ []) 3 (omega arith) blank
unfolding modifiers_in lookup or_zero cache_hit is_dirty
blank-IsReady = (covered, record { allowed = λ id. tt; coherent = λ id v h. cc })

covered_both : (x : ℤ) → All (λ y. member y (pos 1 ∷ pos 2 ∷ []) ≡ true) (reverse_deps registry x)
unfolding member lookup or_zero
covered_both x = elim (Bool-cases (pos 1 =? x)) [ inl e ↦ rw (e) (refl, tt) | inr e ↦ rw (e) tt ]

previewed : AllRanked blank rank (add_mult (pos 1) (whole 1) new_context)
unfolding add_mult temp_mods_for modifiers_in lookup or_zero targeting
previewed id = elim (Bool-cases (pos 1 =? id)) [
  | inl e ↦ rw (e) ((λ r. cc), tt)
  | inr e ↦ rw (e) tt
]

remove_modifiers-add_modifiers_example :
    (s1 s2 : Instance Milli) × (add_modifiers 3 "equipment:sword" (sword ∷ []) blank ≡ some s1)
    × (remove_modifiers 3 "equipment:sword" s1 ≡ some s2)
    × ((x : ℤ) → modifiers_for s2 x ≡ modifiers_for blank x)
    × ((k : String) → lookup k s2.by_source ≡ lookup k blank.by_source)
unfolding modifiers_in lookup or_zero
remove_modifiers-add_modifiers_example =
    remove_modifiers-add_modifiers rank 2 (pos 2 ∷ []) 3 (omega arith) "equipment:sword"
      (sword ∷ []) blank blank-IsReady ((λ k r. cc), tt) refl (λ x. tt)

mark_dirty-HasSpread_example : Marking blank (mark_dirty 3) ([], some []) (pos 1)
unfolding member
mark_dirty-HasSpread_example =
    mark_dirty-HasSpread blank (pos 1 ∷ pos 2 ∷ []) covered_both 3 (pos 1) ([], some []) refl
      (omega (arith, unmarked-le-length (pos 1 ∷ pos 2 ∷ []) ([], some [])))

get_final-Previews_example :
    (v : Milli) × (get_final 2 (some (add_mult (pos 1) (whole 1) new_context)) (pos 1) [] blank
      ≡ some (v, blank))
get_final-Previews_example =
    get_final-Previews blank rank (add_mult (pos 1) (whole 1) new_context) 2 (pos 1) [] previewed
      (omega arith)
