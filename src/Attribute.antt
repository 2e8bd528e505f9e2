-- ===== src/Attribute.antt =====
-- The attributes of a player (backend/internal/attribute: attr.go, registry.go, instance.go,
-- context.go and bucket.go). Every calculation is in Attribute/Calculation, the construction of the
-- registry in Attribute/Building.
pub mod Calculation
pub mod Building
pub mod Cycles
pub mod Acyclic
pub mod Recorded
pub mod Registered
pub mod Reference
pub mod Final
pub mod Marking
pub mod Tracking
pub mod Batches
pub mod Operations
pub mod Runs
pub mod Preview
pub mod Removal
pub mod Tests
use milkyway_liluo_idle.Prelude.{
  ℕ, zero, suc, Bool, true, false, not, ◌&&◌, if◌then◌else◌, Option, none, some, List, [], ◌∷◌,
  ◌++◌, map, ℤ, pos, String, Table, lookup, insert, delete, or_zero, ◌=?◌, int_eq, string_eq,
  include,
}
use milkyway_liluo_idle.Float.{Float, ◌≤?◌, ◌<?◌}

-- `OpType`, a string
abbrev pub op_add : String
op_add = "ADD"

abbrev pub op_multiply : String
op_multiply = "MULTIPLY"

abbrev pub op_override : String
op_override = "OVERRIDE"

-- `Modifier`: its value counts if `ref_attr` is 0
pub record Modifier (F : Type 0) : Type 0 where
  pub attr_id : ℤ
  pub op : String
  pub value : F
  pub ref_attr : ℤ
  pub display : String
  pub source : String
  pub priority : ℤ

pub record AttrDef (F : Type 0) : Type 0 where
  pub id : String
  pub name : String
  pub default_value : F
  pub min_value : Option F
  pub max_value : Option F
  pub direction : String
  pub group : String
  pub desc : String

pub record Registry (F : Type 0) : Type 0 where
  pub by_id : Table ℤ (AttrDef F)
  pub by_string : Table String (AttrDef F)
  pub attr_ids : Table String ℤ
  pub id_to_string : Table ℤ String
  pub static_mods : List (Modifier F)
  pub forward : Table ℤ (List ℤ)
  pub reverse : Table ℤ (List ℤ)

pub record SourceInfo (F : Type 0) : Type 0 where
  pub mods : List (Modifier F)
  pub attr_ids : List ℤ

-- `Instance`; `bucket` is the bucket of the current namespace, if a recorder is attached.
pub record Instance (F : Type 0) : Type 0 where
  pub reg : Registry F
  pub by_attr : Table ℤ (List (Modifier F))
  pub by_source : Table String (SourceInfo F)
  pub cached : Table ℤ F
  pub dirty : Table ℤ Bool
  pub bucket : Option (List ℤ)

-- `Context`
pub record Context (F : Type 0) : Type 0 where
  pub temp_base : Table ℤ F
  pub temp_mods : List (Modifier F)

module _ {F : Type 0} where
  abbrev pub is_ref : Modifier F → Bool
  is_ref m = not (m.ref_attr =? pos 0)

  abbrev pub reverse_deps : Registry F → ℤ → List ℤ
  reverse_deps r id = or_zero [] (lookup id r.reverse)

  abbrev pub forward_deps : Registry F → ℤ → List ℤ
  forward_deps r id = or_zero [] (lookup id r.forward)

  -- `byAttr[id]`
  unfoldable pub modifiers_in : Table ℤ (List (Modifier F)) → ℤ → List (Modifier F)
  unfolding or_zero lookup
  modifiers_in t id = or_zero [] (lookup id t)

  -- `ModifiersFor`
  abbrev pub modifiers_for : Instance F → ℤ → List (Modifier F)
  modifiers_for s id = modifiers_in s.by_attr id

  unfoldable pub is_dirty : Instance F → ℤ → Bool
  unfolding or_zero lookup
  is_dirty s id = or_zero false (lookup id s.dirty)

  -- What `markDirty` stores for one attribute.
  unfoldable pub set_dirty : ℤ → Instance F → Instance F
  unfolding insert include
  set_dirty id s = record s {
    dirty = insert id true s.dirty;
    bucket = elim s.bucket [ none ↦ none | some b ↦ some (include id b) ];
  }

  -- The loops that mark each attribute of a list.
  unfoldable pub mark_all :
      (ℤ → Instance F → Option (Instance F)) → List ℤ → Instance F → Option (Instance F)
  mark_all mark [] s = some s
  mark_all mark (id ∷ ids) s = elim (mark id s) [ none ↦ none | some s' ↦ mark_all mark ids s' ]

  -- `markDirty`, on fuel for the depth of the recursion
  unfoldable pub mark_dirty : ℕ → ℤ → Instance F → Option (Instance F)
  unfolding is_dirty set_dirty mark_all
  mark_dirty zero id s = none
  mark_dirty (suc n) id s =
      let rest = mark_all (mark_dirty n) (reverse_deps s.reg id) (set_dirty id s) in
      if is_dirty s id then some s else rest

  -- The modifiers of a list that are for an attribute.
  unfoldable pub targeting : ℤ → List (Modifier F) → List (Modifier F)
  targeting id [] = []
  targeting id (m ∷ ms) = let rest = targeting id ms in if m.attr_id =? id then m ∷ rest else rest

  -- The modifiers that are not from a source.
  unfoldable pub drop_source : String → List (Modifier F) → List (Modifier F)
  drop_source source [] = []
  drop_source source (m ∷ ms) =
      let rest = drop_source source ms in if m.source =? source then rest else m ∷ rest

  -- The loop of `removeSourceLocked`
  unfoldable pub remove_from : ℕ → String → List ℤ → Instance F → Option (Instance F)
  unfolding mark_dirty drop_source modifiers_in insert
  remove_from n source [] s = some s
  remove_from n source (id ∷ ids) s =
      let kept = drop_source source (modifiers_in s.by_attr id) in
      elim (mark_dirty n id (record s { by_attr = insert id kept s.by_attr })) [
        | none ↦ none
        | some s' ↦ remove_from n source ids s'
      ]

  -- `removeSourceLocked`
  unfoldable pub remove_source_locked : ℕ → String → SourceInfo F → Instance F → Option (Instance F)
  unfolding remove_from delete
  remove_source_locked n source info s = elim (remove_from n source info.attr_ids s) [
    | none ↦ none
    | some s' ↦ some (record s' { by_source = delete source s'.by_source })
  ]

  -- `RemoveModifiers`
  unfoldable pub remove_modifiers : ℕ → String → Instance F → Option (Instance F)
  unfolding remove_source_locked lookup
  remove_modifiers n source s = elim (lookup source s.by_source) [
    | none ↦ some s
    | some info ↦ remove_source_locked n source info s
  ]

  abbrev pub with_source : String → Modifier F → Modifier F
  with_source source m = record m { source = source }

  -- The modifiers of a batch, each behind those of its attribute.
  unfoldable pub mount :
      List (Modifier F) → Table ℤ (List (Modifier F)) → Table ℤ (List (Modifier F))
  unfolding insert modifiers_in
  mount [] t = t
  mount (m ∷ ms) t = mount ms (insert m.attr_id (modifiers_in t m.attr_id ++ (m ∷ [])) t)

  -- `AddModifiers` behind its first test
  unfoldable pub append_modifiers :
      ℕ → String → List (Modifier F) → Instance F → Option (Instance F)
  unfolding mount insert mark_all mark_dirty
  append_modifiers n source mods s =
      let ms = map (with_source source) mods in
      let ids = map (λ m. m.attr_id) ms in
      mark_all (mark_dirty n) ids (record s {
        by_attr = mount ms s.by_attr;
        by_source = insert source (record { mods = ms; attr_ids = ids }) s.by_source;
      })

  -- `AddModifiers`
  unfoldable pub add_modifiers : ℕ → String → List (Modifier F) → Instance F → Option (Instance F)
  unfolding remove_modifiers append_modifiers
  add_modifiers n source mods s = elim (remove_modifiers n source s) [
    | none ↦ none
    | some s' ↦ append_modifiers n source mods s'
  ]

  -- `UpdateModifiers`, which removes the source and calls `AddModifiers`
  unfoldable pub update_modifiers :
      ℕ → String → List (Modifier F) → Instance F → Option (Instance F)
  unfolding remove_modifiers add_modifiers
  update_modifiers n source mods s = elim (remove_modifiers n source s) [
    | none ↦ none
    | some s' ↦ add_modifiers n source mods s'
  ]

  -- `NewInstance`
  unfoldable pub new_instance : ℕ → Registry F → Option (Instance F)
  unfolding mount mark_all mark_dirty
  new_instance n r = mark_all (mark_dirty n) (map (λ m. m.attr_id) r.static_mods) (record {
    reg = r;
    by_attr = mount r.static_mods [];
    by_source = [];
    cached = [];
    dirty = [];
    bucket = none;
  })
