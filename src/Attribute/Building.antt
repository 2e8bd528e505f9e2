-- ===== src/Attribute/Building.antt =====
-- The construction of the registry from the configuration, with the detection of cycles
-- (backend/internal/attribute/registry.go).
use milkyway_liluo_idle.Prelude.{
  ℕ, zero, suc, ◌≡◌, refl, ◌⊎◌, inl, inr, if◌then◌else◌, Option, none, some, List, [], ◌∷◌, ◌++◌, ℤ,
  pos, String, Table, lookup, insert, or_zero, ◌=?◌, int_eq, string_eq,
}
use milkyway_liluo_idle.Float.{Float, nought}
use milkyway_liluo_idle.Attribute.{Modifier, AttrDef, Registry, is_ref, forward_deps}

-- `staticModJSON`
pub record StaticMod (F : Type 0) : Type 0 where
  pub attr_id : String
  pub op : String
  pub value : F
  pub ref_attr : String
  pub display : String
  pub priority : ℤ

-- `attrsConfig`
pub record AttrsConfig (F : Type 0) : Type 0 where
  pub version : String
  pub attributes : List (AttrDef F)
  pub modifiers : List (StaticMod F)

pub data BuildError : Type 0 where
  missing_attr_id : String → BuildError
  duplicate_attr_id : ℤ → String → BuildError
  cycle : List ℤ → BuildError

pub data Result (A : Type 0) : Type 0 where
  ok : A → Result A
  err : BuildError → Result A

infixl 5 ◌>>=◌
abbrev pub ◌>>=◌ : {A B : Type 0} → Result A → (A → Result B) → Result B
ok a >>= k = k a
err e >>= k = err e

-- Either a failure, or a value.
pub Result-cases :
    {A : Type 0} (m : Result A) → ((a : A) × (m ≡ ok a)) ⊎ ((e : BuildError) × (m ≡ err e))
Result-cases (ok a) = inl (a, refl)
Result-cases (err e) = inr (e, refl)

-- The states of the depth-first search.
pub data Color : Type 0 where
  white gray black : Color

-- The reverse index of the ids.
unfoldable pub names_of : Table String ℤ → Table ℤ String → Table ℤ String
unfolding insert
names_of [] names = names
names_of ((s, id) ∷ ids) names = names_of ids (insert id s names)

unfoldable pub push : ℤ → ℤ → Table ℤ (List ℤ) → Table ℤ (List ℤ)
unfolding or_zero lookup insert
push id dep t = insert id (or_zero [] (lookup id t) ++ (dep ∷ [])) t

module _ {F : Type 0} ⦃f : Float F⦄ where
  -- A lookup of an id that must be there.
  unfoldable pub must_id : Registry F → String → Result ℤ
  unfolding lookup
  must_id r s = elim (lookup s r.attr_ids) [ none ↦ err (missing_attr_id s) | some id ↦ ok id ]

  unfoldable pub define_at : ℤ → AttrDef F → Registry F → Result (Registry F)
  unfolding lookup insert
  define_at id def r = elim (lookup id r.by_id) [
    | some old ↦ err (duplicate_attr_id id def.id)
    | none ↦
        ok (record r { by_id = insert id def r.by_id; by_string = insert def.id def r.by_string })
  ]

  unfoldable pub define : AttrDef F → Registry F → Result (Registry F)
  unfolding must_id define_at
  define def r = do id ← must_id r def.id; define_at id def r

  unfoldable pub define_all : List (AttrDef F) → Registry F → Result (Registry F)
  unfolding define
  define_all [] r = ok r
  define_all (def ∷ defs) r = define def r >>= λ r'. define_all defs r'

  -- A modifier in the registry, with its dependency both ways.
  unfoldable pub record_mod : Modifier F → Registry F → Registry F
  unfolding push
  record_mod m r =
      let r' = record r { static_mods = r.static_mods ++ (m ∷ []) } in
      if is_ref m
      then record r' {
        forward = push m.attr_id m.ref_attr r.forward;
        reverse = push m.ref_attr m.attr_id r.reverse;
      }
      else r'

  unfoldable pub ref_of : Registry F → StaticMod F → Result ℤ
  unfolding must_id
  ref_of r sm = if sm.ref_attr =? "" then ok (pos 0) else must_id r sm.ref_attr

  abbrev pub static_mod : StaticMod F → ℤ → ℤ → Modifier F
  static_mod sm target ref = record {
    attr_id = target;
    op = sm.op;
    value = if sm.ref_attr =? "" then sm.value else nought;
    ref_attr = ref;
    display = if sm.display =? "" then "FIXED" else sm.display;
    source = "base";
    priority = sm.priority;
  }

  unfoldable pub resolve : StaticMod F → Registry F → Result (Registry F)
  unfolding must_id ref_of record_mod
  resolve sm r = do
    target ← must_id r sm.attr_id
    ref ← ref_of r sm
    ok (record_mod (static_mod sm target ref) r)

  unfoldable pub resolve_all : List (StaticMod F) → Registry F → Result (Registry F)
  unfolding resolve
  resolve_all [] r = ok r
  resolve_all (sm ∷ sms) r = resolve sm r >>= λ r'. resolve_all sms r'

abbrev pub Colors : Type 0
Colors = Table ℤ Color

-- `state[id]`
unfoldable pub color_of : Colors → ℤ → Color
unfolding or_zero lookup
color_of st id = or_zero white (lookup id st)

-- The loop of `dfs` over the dependencies of an attribute. The search gives the cycle that it has
-- found, if any, and the colours after it.
unfoldable pub visit_all :
    (ℤ → Colors → Option (Option (List ℤ) × Colors))
    → ℤ
    → List ℤ
    → Colors
    → Option (Option (List ℤ) × Colors)
unfolding color_of
visit_all search id [] st = some (none, st)
visit_all search id (dep ∷ deps) st =
    let next : Option (Option (List ℤ) × Colors) = elim (search dep st) [
      | none ↦ none
      | some (some found, st') ↦ some (some (found ++ (id ∷ [])), st')
      | some (none, st') ↦ visit_all search id deps st'
    ] in
    let over = visit_all search id deps st in
    elim (color_of st dep) [ gray ↦ some (some (dep ∷ id ∷ []), st) | white ↦ next | black ↦ over ]

-- `dfs`, on fuel for the depth of the search
unfoldable pub dfs : ℕ → (ℤ → List ℤ) → ℤ → Colors → Option (Option (List ℤ) × Colors)
unfolding visit_all insert
dfs zero deps id st = none
dfs (suc n) deps id st = elim (visit_all (dfs n deps) id (deps id) (insert id gray st)) [
  | none ↦ none
  | some (some found, st') ↦ some (some found, st')
  | some (none, st') ↦ some (none, insert id black st')
]

-- The loop of `checkCycles`
unfoldable pub search_all : ℕ → (ℤ → List ℤ) → List ℤ → Colors → Option (Option (List ℤ))
unfolding dfs color_of
search_all n deps [] st = some none
search_all n deps (id ∷ ids) st =
    let next : Option (Option (List ℤ)) = elim (dfs n deps id st) [
      | none ↦ none
      | some (some found, st') ↦ some (some found)
      | some (none, st') ↦ search_all n deps ids st'
    ] in
    let over = search_all n deps ids st in
    elim (color_of st id) [ white ↦ next | gray ↦ over | black ↦ over ]

module _ {F : Type 0} ⦃f : Float F⦄ where
  abbrev pub keys : Table ℤ (AttrDef F) → List ℤ
  keys [] = []
  keys ((k, v) ∷ t) = k ∷ keys t

  -- `checkCycles`
  unfoldable pub check_cycles : ℕ → Registry F → Option (Option (List ℤ))
  unfolding search_all
  check_cycles n r = search_all n (forward_deps r) (keys r.by_id) []

  unfoldable pub empty_registry : Table String ℤ → Registry F
  unfolding names_of
  empty_registry ids = record {
    by_id = [];
    by_string = [];
    attr_ids = ids;
    id_to_string = names_of ids [];
    static_mods = [];
    forward = [];
    reverse = [];
  }

  -- The registry before the search for cycles.
  unfoldable pub build : AttrsConfig F → Table String ℤ → Result (Registry F)
  unfolding define_all resolve_all empty_registry
  build cfg ids = do r ← define_all cfg.attributes (empty_registry ids); resolve_all cfg.modifiers r

  -- `newRegistry`, on the fuel of the search
  unfoldable pub new_registry : ℕ → AttrsConfig F → Table String ℤ → Option (Result (Registry F))
  unfolding build check_cycles
  new_registry n cfg ids = elim (build cfg ids) [
    | err e ↦ some (err e)
    | ok r ↦ elim (check_cycles n r) [
      | none ↦ none
      | some (some found) ↦ some (err (cycle found))
      | some none ↦ some (ok r)
    ]
  ]
