-- ===== src/Attribute/Acyclic.antt =====
-- The search for cycles (backend/internal/attribute/registry.go, checkCycles) ends without one where
-- the dependencies have a rank.
use milkyway_liluo_idle.Prelude.{
  ℕ, zero, suc, ◌<◌, ◌≤◌, ◌≡◌, ◌≢◌, refl, sym, ◌∙◌, ap, Option, none, some, List, [], ◌∷◌, ℤ,
  insert, All, ◌=?◌, int_eq, string_eq, eq_of_eq, Bool-cases, inl, inr, arith,
}
use milkyway_liluo_idle.Attribute.Building.{
  gray, black, Colors, color_of, visit_all, dfs, search_all,
}
use milkyway_liluo_idle.Attribute.Cycles.{color_of-insert, Color-cases, black-ne-gray}

module _ (deps : ℤ → List ℤ) (rank : ℤ → ℕ)
    (ranked : (id : ℤ) → All (λ r. rank r < rank id) (deps id)) where
  -- Every attribute on the path of the search has at least the rank.
  abbrev IsAbove : ℕ → Colors → Type 0
  IsAbove k st = (x : ℤ) → color_of st x ≡ gray → k ≤ rank x

  abbrev Finds : ℕ → Colors → Option (Option (List ℤ) × Colors) → Type 0
  Finds k st o =
      (st' : Colors) × (o ≡ some (none, st'))
      × ((x : ℤ) → color_of st' x ≡ gray → color_of st x ≡ gray)

  visit_all-Finds :
      (k : ℕ) (visit : ℤ → Colors → Option (Option (List ℤ) × Colors))
      → ((id : ℤ) (st : Colors) → rank id < k → IsAbove k st → Finds k st (visit id st))
      → (id : ℤ) (ids : List ℤ) (st : Colors) → All (λ r. rank r < k) ids
      → IsAbove k st
      → Finds k st (visit_all visit id ids st)
  unfolding visit_all
  visit_all-Finds k visit finds id [] st low above = (st, refl, λ x g. g)
  visit_all-Finds k visit finds id (dep ∷ ids) st low above = elim (Color-cases (color_of st dep)) [
    | inl w ↦
        (let (t, e, old) = finds dep st low.0 above in
          let (t', e', old') =
            visit_all-Finds k visit finds id ids t low.1 (λ x g. above x (old x g)) in
          (t', rw (w, visit_all, e) e', λ x g. old x (old' x g)))
    | inr (inl g) ↦ absurd (omega (arith, above dep g, low.0))
    | inr (inr b) ↦
        (let (t', e', old') = visit_all-Finds k visit finds id ids st low.1 above in
          (t', rw (b, visit_all) e', old'))
  ]

  dfs-Finds :
      (n : ℕ) (k : ℕ) (id : ℤ) (st : Colors)
      → rank id < n
      → rank id < k
      → IsAbove k st
      → Finds k st (dfs n deps id st)
  unfolding dfs
  dfs-Finds zero k id st h l above = absurd (omega arith)
  dfs-Finds (suc n) k id st h l above =
      let st1 = insert id gray st in
      let above1 : IsAbove (rank id) st1 = λ x g. elim (Bool-cases (id =? x)) [
        | inl e ↦ omega (arith, ap rank (eq_of_eq id x e))
        | inr e ↦ omega (arith, l, above x (sym (color_of-insert id x gray st ∙ rw (e) refl) ∙ g))
      ] in
      let (t, e, old) =
        visit_all-Finds (rank id) (dfs n deps)
          (λ r u lower a. dfs-Finds n (rank id) r u (omega (arith, h)) lower a) id (deps id) st1
          (ranked id) above1 in
      (
        insert id black t,
        rw (e, dfs) refl,
        λ x g. elim (Bool-cases (id =? x)) [
          | inl e' ↦
              (let c = sym (color_of-insert id x black t ∙ rw (e') refl) ∙ g in
                absurd (black-ne-gray c))
          | inr e' ↦
              sym (color_of-insert id x gray st ∙ rw (e') refl)
              ∙ old x (sym (color_of-insert id x black t ∙ rw (e') refl) ∙ g)
        ],
      )

  pub search_all-Finds :
      (n : ℕ)
      → ((id : ℤ) → rank id < n)
      → (ids : List ℤ) (st : Colors) → ((x : ℤ) → color_of st x ≢ gray)
      → search_all n deps ids st ≡ some none
  unfolding search_all
  search_all-Finds n bounded [] st fresh = refl
  search_all-Finds n bounded (id ∷ ids) st fresh = elim (Color-cases (color_of st id)) [
    | inl w ↦
        (let (t, e, old) =
            dfs-Finds n n id st (bounded id) (bounded id) (λ x g. absurd (fresh x g)) in
          rw (w, search_all, e) (search_all-Finds n bounded ids t (λ x g. fresh x (old x g))))
    | inr (inl g) ↦ absurd (fresh id g)
    | inr (inr b) ↦ rw (b, search_all) (search_all-Finds n bounded ids st fresh)
  ]
