-- ===== src/Attribute/Tracking.antt =====
-- What a change of modifiers does to the cache (backend/internal/attribute/instance.go): where the
-- marks have spread, what the cache still gives is still the value.
use mathlib.Core.Bool.{false≢true}
use milkyway_liluo_idle.Prelude.{
  ℕ, zero, suc, ◌<◌, ◌≡◌, refl, sym, ◌∙◌, ap, true, false, some, List, [], ◌∷◌, ℤ, String, Table,
  lookup, member, All, ◌=?◌, int_eq, eq_of_eq, subst, Bool-cases, inl, inr, arith,
}
use milkyway_liluo_idle.Float.{Float}
use milkyway_liluo_idle.Attribute.{
  Modifier, Registry, Instance, SourceInfo, is_dirty, modifiers_for, reverse_deps,
}
use milkyway_liluo_idle.Attribute.Calculation.{default_value, clamped, cache_hit}
use milkyway_liluo_idle.Attribute.Reference.{
  OnRefs, OnRefs-map, phases_value, phases_value_agree, value_at, value_of, IsRanked,
}
use milkyway_liluo_idle.Attribute.Final.{Cache, hit, HasValue, IsCoherent}
use milkyway_liluo_idle.Attribute.Marking.{Marks, dirty_in, AreDirty, HasSpread}

All-member : (P : ℤ → Type 0) (id : ℤ) (xs : List ℤ) → All P xs → member id xs ≡ true → P id
unfolding member
All-member P id [] h m = absurd (false≢true m)
All-member P id (x ∷ xs) h m = elim (Bool-cases (x =? id)) [
  | inl e ↦ subst P (eq_of_eq x id e) h.0
  | inr e ↦ All-member P id xs h.1 (rw (e) at m)
]

module _ {F : Type 0} where
  -- The registry has the dependency, and the rank falls along it.
  abbrev pub Depends : Registry F → (ℤ → ℕ) → ℤ → ℤ → Type 0
  Depends reg rank id r = (member id (reverse_deps reg r) ≡ true) × (rank r < rank id)

module _ {F : Type 0} ⦃f : Float F⦄ where
  pub Depends-IsRanked :
      (rank : ℤ → ℕ) (s : Instance F)
      → ((id : ℤ) → OnRefs (Depends s.reg rank id) (modifiers_for s id))
      → IsRanked rank s
  Depends-IsRanked rank s h id =
      OnRefs-map (Depends s.reg rank id) (λ r. rank r < rank id) (modifiers_for s id) (λ r d. d.1)
        (h id)

  abbrev pub cache_of : Instance F → Cache F
  cache_of s = (s.cached, s.dirty)

  abbrev pub marks_of : Instance F → Marks
  marks_of s = (s.dirty, s.bucket)

  -- The state that the methods of an instance keep.
  pub record IsGood (rank : ℤ → ℕ) (levels : ℕ) (s : Instance F) : Type 0 where
    pub allowed : (id : ℤ) → OnRefs (Depends s.reg rank id) (modifiers_for s id)
    pub coherent : IsCoherent s levels (cache_of s)

  abbrev pub changed :
      Instance F → Table ℤ (List (Modifier F)) → Table String (SourceInfo F) → Marks → Instance F
  changed s b o d = record s { by_attr = b; by_source = o; dirty = d.0; bucket = d.1 }

  module _ (s : Instance F) (b : Table ℤ (List (Modifier F))) (o : Table String (SourceInfo F))
      (d : Marks) where
    hit-changed :
        (id : ℤ) (v : F)
        → hit (changed s b o d) (cache_of (changed s b o d)) id ≡ some v
        → (dirty_in d id ≡ false) × (lookup id s.cached ≡ some v)
    unfolding cache_hit is_dirty dirty_in
    hit-changed id v h = ground arith

    module _ (touched : List ℤ) (rank : ℤ → ℕ) (levels : ℕ) (good : IsGood rank levels s)
        (same : (id : ℤ)
          → member id touched ≡ false
          → modifiers_for (changed s b o d) id ≡ modifiers_for s id)
        (spread : HasSpread s (marks_of s) d) (are : AreDirty s d touched) where
      abbrev s' : Instance F
      s' = changed s b o d

      -- What has no mark now had none before, and has the modifiers that it had.
      unmarked_lem :
          (id : ℤ)
          → dirty_in d id ≡ false
          → (dirty_in (marks_of s) id ≡ false) × (modifiers_for s' id ≡ modifiers_for s id)
      unmarked_lem id n = (
        elim (Bool-cases (dirty_in (marks_of s) id)) [
          | inl e ↦ absurd (false≢true (sym n ∙ spread.0 id e))
          | inr e ↦ e
        ],
        same id (elim (Bool-cases (member id touched)) [
          | inl e ↦
              absurd (false≢true (sym n ∙ All-member (λ y. dirty_in d y ≡ true) id touched are e))
          | inr e ↦ e
        ]),
      )

      old_hit : (id : ℤ) (v : F) → hit s' (cache_of s') id ≡ some v → hit s (cache_of s) id ≡ some v
      unfolding cache_hit is_dirty dirty_in
      old_hit id v h = let (n, e) = hit-changed id v h in rw ((unmarked_lem id n).0) e

      -- A reference of an attribute that has no mark has none, for the mark would have spread.
      kept_value :
          (id r : ℤ)
          → dirty_in d id ≡ false
          → member id (reverse_deps s.reg r) ≡ true
          → HasValue s (cache_of s) r
          → HasValue s' (cache_of s') r
      unfolding cache_hit is_dirty dirty_in
      kept_value id r n m (w, h) =
          let old : dirty_in (marks_of s) r ≡ false = ground arith in
          elim (Bool-cases (dirty_in d r)) [
            | inl e ↦ absurd (
                false≢true (
                  sym n
                  ∙ All-member (λ y. dirty_in d y ≡ true) id (reverse_deps s.reg r)
                      (spread.1 r old e) m))
            | inr e ↦ (w, rw (e) (rw (old) at h))
          ]

      kept_values :
          (id : ℤ) (v : F)
          → hit s' (cache_of s') id ≡ some v
          → OnRefs (HasValue s' (cache_of s')) (modifiers_for s' id)
      kept_values id v h =
          let n = (hit-changed id v h).0 in
          rw ((unmarked_lem id n).1)
            (both (modifiers_for s id) (good.allowed id) (good.coherent id v (old_hit id v h)).1)
        where
          both :
              (ms : List (Modifier F))
              → OnRefs (Depends s.reg rank id) ms
              → OnRefs (HasValue s (cache_of s)) ms
              → OnRefs (HasValue s' (cache_of s')) ms
          both [] a c = tt
          both (m ∷ ms) a c = (
            λ k r. kept_value id m.ref_attr (hit-changed id v h).0 (a.0 k r).0 (c.0 k r),
            both ms a.1 c.1,
          )

      same_value :
          (n : ℕ) (id : ℤ) (v : F)
          → hit s' (cache_of s') id ≡ some v
          → value_of n s' id ≡ value_of n s id
      unfolding value_at
      same_value zero id v h = refl
      same_value (suc n) id v h =
          let e = (unmarked_lem id (hit-changed id v h).0).1 in
          ap (clamped s.reg id) (
            phases_value_agree (value_of n s') (value_of n s) (modifiers_for s' id)
              (default_value s.reg id)
              (OnRefs-map (HasValue s' (cache_of s')) (λ r. value_of n s' r ≡ value_of n s r)
                (modifiers_for s' id) (λ r (w, k). same_value n r w k) (kept_values id v h))
            ∙ ap
                (λ (ms : List (Modifier F)).
                  phases_value (value_of n s) ms (default_value s.reg id))
                e)

      changed-IsCoherent : IsCoherent s' levels (cache_of s')
      changed-IsCoherent id v h = (
        (good.coherent id v (old_hit id v h)).0 ∙ sym (same_value levels id v h),
        kept_values id v h,
      )

      pub changed-IsGood :
          ((id : ℤ) → OnRefs (Depends s.reg rank id) (modifiers_for s' id)) → IsGood rank levels s'
      changed-IsGood allowed = record { allowed = allowed; coherent = changed-IsCoherent }
