-- ===== src/Item/Modifiers.antt =====
-- What the modifiers of an item are, and when there are none (backend/internal/item/item.go).
use mathlib.Core.Bool.{false≢true}
use milkyway_liluo_idle.Prelude.{
  ℕ, ◌≡◌, ◌≢◌, refl, sym, subst, ◌∙◌, Bool, true, false, ◌||◌, inl, inr, none, some, List, [], ◌∷◌,
  ◌++◌, arith, ℤ, pos, String, Table, lookup, member, include, member-include, All, Bool-cases,
  Option-cases, ◌=?◌, string_eq, eq_of_eq, eq_refl, if_rule,
}
use milkyway_liluo_idle.Float.{Float}
use milkyway_liluo_idle.Item.{Item}
use milkyway_liluo_idle.Item.Definition.{
  ItemDef, Modifiers, mods, unregistered, all_keys, collect_keys, collect, modifiers,
  ability_multiplier,
}
use milkyway_liluo_idle.Attribute.{Modifier, Registry, op_add}
use milkyway_liluo_idle.Attribute.Batches.{IsAllowed}

or_left : (a b : Bool) → a ≡ true → (a || b) ≡ true
or_left a b h = ground (arith, h)

or_right : (a b : Bool) → b ≡ true → (a || b) ≡ true
or_right a b h = ground (arith, h)

module _ {F : Type 0} where
  abbrev has_key : String → Table String F → Bool
  has_key k t = elim (lookup k t) [ none ↦ false | some v ↦ true ]

  -- Whether an item has an attribute in one of its four tables.
  abbrev pub mentions : ItemDef F → String → Bool
  mentions d k =
      (has_key k d.equip_basic || has_key k d.equip_upgrade)
      || (has_key k d.tool_basic || has_key k d.tool_upgrade)

  member-all_keys :
      (k : String) (t : Table String F) (ks : List String)
      → member k (all_keys t ks) ≡ (has_key k t || member k ks)
  unfolding all_keys lookup
  member-all_keys k [] ks = refl
  member-all_keys k ((j, v) ∷ t) ks =
      ground (arith, member-all_keys k t (include j ks), member-include j k ks)

  both_keys :
      (k : String) (basic upgrade : Table String F)
      → member k (all_keys upgrade (all_keys basic [])) ≡ (has_key k basic || has_key k upgrade)
  unfolding member
  both_keys k basic upgrade =
      ground (arith, member-all_keys k upgrade (all_keys basic []), member-all_keys k basic [])

  All-append :
      (P : Modifier F → Type 0) (ms : List (Modifier F)) (m : Modifier F)
      → All P ms
      → P m
      → All P (ms ++ (m ∷ []))
  All-append P [] m h p = (p, tt)
  All-append P (m' ∷ ms) m h p = (h.0, All-append P ms m h.1 p)

module _ {F : Type 0} ⦃f : Float F⦄ (reg : Registry F) where
  -- A modifier for an attribute that `named` holds of: it adds a value, and refers to no attribute.
  abbrev pub Adds : (String → Bool) → Modifier F → Type 0
  Adds named m =
      (k : String) × (named k ≡ true)
      × (lookup k reg.attr_ids ≡ some m.attr_id)
      × (m.op ≡ op_add)
      × (m.ref_attr ≡ pos 0)

  -- Either an attribute that is not registered, or the modifiers of registered ones.
  abbrev pub Outcome : (String → Bool) → (String → Bool) → Modifiers F → Type 0
  Outcome needed named (unregistered k) = (named k ≡ true) × (lookup k reg.attr_ids ≡ none)
  Outcome needed named (mods out) =
      ((k : String) → needed k ≡ true → lookup k reg.attr_ids ≢ none) × All (Adds named) out

  Outcome-weaken :
      (needed needed' named : String → Bool) (o : Modifiers F)
      → ((k : String) → needed' k ≡ true → lookup k reg.attr_ids ≡ none → needed k ≡ true)
      → Outcome needed named o
      → Outcome needed' named o
  Outcome-weaken needed needed' named (unregistered k) w h = h
  Outcome-weaken needed needed' named (mods out) w h = (λ k n e. h.0 k (w k n e) e, h.1)

  elsewhere :
      (k j : String) (ks : List String) (aid : ℤ)
      → lookup k reg.attr_ids ≡ some aid
      → lookup j reg.attr_ids ≡ none
      → member j (k ∷ ks) ≡ true
      → member j ks ≡ true
  unfolding member
  elsewhere k j ks aid e u h = elim (Bool-cases (k =? j)) [
    | inl p ↦ let w = rw (eq_of_eq k j p, u) at e in absurd (cc w)
    | inr p ↦ let w = rw (p) at h in w
  ]

  collect_keys-Outcome :
      (named : String → Bool) (ability : F) (basic upgrade : Table String F) (source : String)
      (ks : List String) (out : List (Modifier F))
      → ((k : String) → member k ks ≡ true → named k ≡ true)
      → All (Adds named) out
      → Outcome (λ k. member k ks) named (collect_keys reg ability basic upgrade source ks out)
  unfolding collect_keys member
  collect_keys-Outcome named ability basic upgrade source [] out known done =
      (λ k h. absurd (false≢true h), done)
  collect_keys-Outcome named ability basic upgrade source (k ∷ ks) out known done =
      let later : (j : String) → member j ks ≡ true → named j ≡ true =
        λ j h. known j (ground (arith, h)) in
      let here : named k ≡ true = known k (rw (eq_refl k) refl) in
      elim (Option-cases (lookup k reg.attr_ids)) [
        | inl e ↦ rw (e, collect_keys) (here, e)
        | inr (aid, e) ↦
            rw (e, collect_keys)
              (Outcome-weaken (λ j. member j ks) (λ j. member j (k ∷ ks)) named _
                (λ j h u. elsewhere k j ks aid e u h)
                (if_rule (Outcome (λ j. member j ks) named) _
                  (collect_keys-Outcome named ability basic upgrade source ks out later done)
                  (collect_keys-Outcome named ability basic upgrade source ks _ later
                    (All-append (Adds named) out _ done (k, here, e, refl, refl)))))
      ]

  collect-Outcome :
      (named : String → Bool) (ability : F) (d : ItemDef F) (basic upgrade : Table String F)
      (base : String) (out : List (Modifier F))
      → ((k : String) → (has_key k basic || has_key k upgrade) ≡ true → named k ≡ true)
      → All (Adds named) out
      → Outcome
          (λ k. has_key k basic || has_key k upgrade)
          named
          (collect reg ability d basic upgrade base out)
  unfolding collect
  collect-Outcome named ability d basic upgrade base out known done =
      let ks = all_keys upgrade (all_keys basic []) in
      let keys : (k : String) → member k ks ≡ (has_key k basic || has_key k upgrade) =
        λ k. both_keys k basic upgrade in
      Outcome-weaken (λ k. member k ks) (λ k. has_key k basic || has_key k upgrade) named _
        (λ k h u. keys k ∙ h)
        (collect_keys-Outcome named ability basic upgrade _ ks out
          (λ k h. known k (sym (keys k) ∙ h)) done)

  then_tools :
      (named : String → Bool) (ability : F) (d : ItemDef F) (o : Modifiers F)
      → ((k : String) → mentions d k ≡ true → named k ≡ true)
      → Outcome (λ k. has_key k d.equip_basic || has_key k d.equip_upgrade) named o
      → Outcome (mentions d) named (elim o [
        | unregistered k ↦ unregistered k
        | mods out ↦ collect reg ability d d.tool_basic d.tool_upgrade "tool" out
      ])
  then_tools named ability d (unregistered k) known h = h
  then_tools named ability d (mods out) known h =
      Outcome-weaken (λ k. has_key k d.tool_basic || has_key k d.tool_upgrade) (mentions d) named _
        (λ k n u. elim (Bool-cases (has_key k d.equip_basic || has_key k d.equip_upgrade)) [
          | inl p ↦ absurd (h.0 k p u)
          | inr p ↦ let w = rw (p) at n in w
        ])
        (collect-Outcome named ability d d.tool_basic d.tool_upgrade "tool" out
          (λ k t. known k (or_right (has_key k d.equip_basic || has_key k d.equip_upgrade) _ t))
          h.1)

  -- If every attribute in the tables of an item is registered, `Modifiers` returns modifiers that each
  -- add a value to one of them, and refer to no attribute; if one is not, it fails with such a one.
  pub modifiers-Outcome :
      (d : ItemDef F) (it : Item) → Outcome (mentions d) (mentions d) (modifiers d it reg)
  unfolding modifiers
  modifiers-Outcome d it =
      then_tools (mentions d) (ability_multiplier d it.state) d _ (λ k h. h)
        (collect-Outcome (mentions d) _ d d.equip_basic d.equip_upgrade "equipment" []
          (λ k h. or_left (has_key k d.equip_basic || has_key k d.equip_upgrade) _ h) tt)

  only_adding :
      (named : String → Bool) (rank : ℤ → ℕ) (out : List (Modifier F))
      → All (Adds named) out
      → IsAllowed reg rank out
  only_adding named rank [] h = tt
  only_adding named rank (m ∷ out) ((k, n, e, o, r), hs) =
      ((λ known ref. let w = rw (r) at ref in absurd (cc w)), only_adding named rank out hs)

  -- The modifiers of an item refer to no attribute, so every registry allows them.
  pub modifiers-IsAllowed :
      (d : ItemDef F) (it : Item) (rank : ℤ → ℕ) (out : List (Modifier F))
      → modifiers d it reg ≡ mods out
      → IsAllowed reg rank out
  modifiers-IsAllowed d it rank out e =
      only_adding (mentions d) rank out
        (subst (Outcome (mentions d) (mentions d)) e (modifiers-Outcome d it)).1
