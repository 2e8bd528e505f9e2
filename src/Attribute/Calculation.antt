-- ===== src/Attribute/Calculation.antt =====
-- The final value of an attribute (backend/internal/attribute/calculation.go).
use milkyway_liluo_idle.Prelude.{
  ℕ, zero, suc, false, not, if◌then◌else◌, Option, none, some, List, [], ◌∷◌, ◌++◌, ℤ, String,
  lookup, insert, member, ◌=?◌, int_eq, string_eq,
}
use milkyway_liluo_idle.Float.{Float, ◌⊕◌, ◌⊗◌, ◌≤?◌, ◌<?◌, nought, one}
use milkyway_liluo_idle.Attribute.{
  Modifier, Registry, Instance, Context, op_add, op_multiply, op_override, is_ref, modifiers_in,
  modifiers_for, is_dirty, targeting,
}

module _ {F : Type 0} ⦃f : Float F⦄ where
  -- `math.Max` and `math.Min`, which return a NaN that they are given
  abbrev pub math_max : F → F → F
  math_max x y = if not (x ≤? x) then x else if not (y ≤? y) then y else if x <? y then y else x

  abbrev pub math_min : F → F → F
  math_min x y = if not (x ≤? x) then x else if not (y ≤? y) then y else if y <? x then y else x

  unfoldable pub default_value : Registry F → ℤ → F
  unfolding lookup
  default_value r id = elim (lookup id r.by_id) [ none ↦ nought | some d ↦ d.default_value ]

  abbrev pub raised : Option F → F → F
  raised none v = v
  raised (some b) v = math_max v b

  abbrev pub lowered : Option F → F → F
  lowered none v = v
  lowered (some b) v = math_min v b

  unfoldable pub clamped : Registry F → ℤ → F → F
  unfolding lookup
  clamped r id v = elim (lookup id r.by_id) [
    | none ↦ v
    | some d ↦ lowered d.max_value (raised d.min_value v)
  ]

  -- What an operation does with the value so far and an operand.
  abbrev pub adding : F → F → F
  adding v x = v ⊕ x

  abbrev pub multiplying : F → F → F
  multiplying v x = v ⊗ (one ⊕ x)

  abbrev pub overriding : F → F → F
  overriding v x = x

module _ {F S : Type 0} where
  -- A value and the state after it, for what comes next.
  abbrev pub and_then : Option (F × S) → (F → S → Option (F × S)) → Option (F × S)
  and_then none k = none
  and_then (some (v, s)) k = k v s

  -- The loop over the modifiers for one operation. `read` gives the value of a referenced attribute.
  unfoldable pub phase :
      (ℤ → S → Option (F × S)) → String → (F → F → F) → List (Modifier F) → F → S → Option (F × S)
  phase read op combine [] v s = some (v, s)
  phase read op combine (m ∷ ms) v s =
      let referred : Option (F × S) = elim (read m.ref_attr s) [
        | none ↦ none
        | some (x, s') ↦ phase read op combine ms (combine v x) s'
      ] in
      let other = phase read op combine ms v s in
      let fixed = phase read op combine ms (combine v m.value) s in
      if m.op =? op then if is_ref m then referred else fixed else other

module _ {F : Type 0} where
  unfoldable pub temp_mods_for : Option (Context F) → ℤ → List (Modifier F)
  unfolding targeting
  temp_mods_for none id = []
  temp_mods_for (some ctx) id = targeting id ctx.temp_mods

module _ {F S : Type 0} ⦃f : Float F⦄ where
  -- The three phases, in their order.
  unfoldable pub phases : (ℤ → S → Option (F × S)) → List (Modifier F) → F → S → Option (F × S)
  unfolding phase
  phases read ms v s = and_then (phase read op_add adding ms v s) (λ v1 s1.
      and_then (phase read op_multiply multiplying ms v1 s1)
        (λ v2 s2. phase read op_override overriding ms v2 s2))

module _ {F : Type 0} ⦃f : Float F⦄ where
  unfoldable pub start_value : Option (Context F) → Registry F → ℤ → F
  unfolding lookup default_value
  start_value none r id = default_value r id
  start_value (some ctx) r id = elim (lookup id ctx.temp_base) [
    | none ↦ default_value r id
    | some v ↦ v
  ]

  -- The value of the cache, if there is no context and the attribute is not dirty.
  unfoldable pub cache_hit : Option (Context F) → ℤ → Instance F → Option F
  unfolding is_dirty lookup
  cache_hit none id s = if is_dirty s id then none else lookup id s.cached
  cache_hit (some ctx) id s = none

  unfoldable pub store : Option (Context F) → ℤ → F → Instance F → Instance F
  unfolding insert
  store none id v s = record s { cached = insert id v s.cached; dirty = insert id false s.dirty }
  store (some ctx) id v s = s

  -- What `getFinal` does behind its tests.
  unfoldable pub recalculate :
      (ℤ → Instance F → Option (F × Instance F))
      → Option (Context F)
      → ℤ
      → Instance F
      → Option (F × Instance F)
  unfolding phases start_value clamped store modifiers_in temp_mods_for
  recalculate read ctx id s =
      and_then
        (phases read (modifiers_for s id ++ temp_mods_for ctx id) (start_value ctx s.reg id) s)
        (λ v s'. some (clamped s'.reg id v, store ctx id (clamped s'.reg id v) s'))

  -- `getFinal`, on fuel for the depth of the recursion, and with the attributes on the path to it
  unfoldable pub get_final :
      ℕ → Option (Context F) → ℤ → List ℤ → Instance F → Option (F × Instance F)
  unfolding cache_hit recalculate member default_value
  get_final zero ctx id visited s = none
  get_final (suc n) ctx id visited s =
      let again = recalculate (λ r s'. get_final n ctx r (id ∷ visited) s') ctx id s in
      elim (cache_hit ctx id s) [
        | some v ↦ some (v, s)
        | none ↦ if member id visited then some (default_value s.reg id, s) else again
      ]
