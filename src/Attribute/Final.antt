-- ===== src/Attribute/Final.antt =====
-- GetFinal with its cache against the value of Attribute/Reference
-- (backend/internal/attribute/calculation.go).
use mathlib.Core.Bool.{false≢true}
use mathlib.Core.List.{append-nil}
use mathlib.Core.Option.{some-injective}
use milkyway_liluo_idle.Prelude.{
  ℕ, zero, suc, ◌<◌, ◌≡◌, refl, sym, ◌∙◌, ap, Bool, true, false, if◌then◌else◌, Option, none, some,
  List, [], ◌∷◌, ℤ, String, Table, insert, member, lookup-insert, or_zero, All, ◌=?◌, string_eq,
  int_eq, eq_of_eq, eq_refl, subst, Bool-cases, Option-cases, inl, inr, arith,
}
use milkyway_liluo_idle.Float.{Float}
use milkyway_liluo_idle.Attribute.{
  Modifier, Instance, op_add, op_multiply, op_override, is_ref, is_dirty, modifiers_for,
}
use milkyway_liluo_idle.Attribute.Calculation.{
  adding, multiplying, overriding, default_value, clamped, phase, phases, start_value, cache_hit,
  store, temp_mods_for, recalculate, get_final,
}
use milkyway_liluo_idle.Attribute.Reference.{
  is_known, OnRefs, OnRefs-map, phase_value, phases_value, value_at, value_of, IsRanked,
  value_at_stable,
}

-- The cached values and the marks.
abbrev pub Cache : Type 0 → Type 0
Cache F = Table ℤ F × Table ℤ Bool

module _ {F : Type 0} ⦃f : Float F⦄ (s : Instance F) where
  abbrev pub with_cache : Cache F → Instance F
  with_cache c = record s { cached = c.0; dirty = c.1 }

  -- The value that the cache gives.
  abbrev pub hit : Cache F → ℤ → Option F
  hit c id = cache_hit none id (with_cache c)

  abbrev pub HasValue : Cache F → ℤ → Type 0
  HasValue c id = (w : F) × (hit c id ≡ some w)

  -- What the cache gives is the value, and it gives one for the attributes that went into it.
  abbrev pub IsCoherent : ℕ → Cache F → Type 0
  IsCoherent levels c =
      (id : ℤ) (v : F)
      → hit c id ≡ some v
      → (v ≡ value_of levels s id) × OnRefs (HasValue c) (modifiers_for s id)

  abbrev pub Keeps : Cache F → Cache F → Type 0
  Keeps c c' = (id : ℤ) (v : F) → hit c id ≡ some v → hit c' id ≡ some v

  Keeps-HasValue : (c c' : Cache F) → Keeps c c' → (id : ℤ) → HasValue c id → HasValue c' id
  Keeps-HasValue c c' k id (w, e) = (w, k id w e)

  -- A computation gives a value, with a cache that is coherent and keeps what was there.
  abbrev pub Gives : ℕ → Cache F → F → Option (F × Instance F) → Cache F → Type 0
  Gives levels c v o c' = (o ≡ some (v, with_cache c')) × IsCoherent levels c' × Keeps c c'

  abbrev Reads : ℕ → (ℤ → Instance F → Option (F × Instance F)) → ℤ → Type 0
  Reads levels read r =
      (c : Cache F)
      → IsCoherent levels c
      → (c' : Cache F) × Gives levels c (value_of levels s r) (read r (with_cache c)) c'
        × HasValue c' r

  module _ (levels : ℕ) (read : ℤ → Instance F → Option (F × Instance F)) where
    -- The references of one operation have values.
    abbrev AreRead : String → List (Modifier F) → Cache F → Type 0
    AreRead op ms c = All (λ m. (m.op =? op) ≡ true → is_ref m ≡ true → HasValue c m.ref_attr) ms

    AreRead-Keeps :
        (op : String) (ms : List (Modifier F)) (c c' : Cache F)
        → Keeps c c'
        → AreRead op ms c
        → AreRead op ms c'
    AreRead-Keeps op [] c c' k h = tt
    AreRead-Keeps op (m ∷ ms) c c' k h =
        (λ e r. Keeps-HasValue c c' k m.ref_attr (h.0 e r), AreRead-Keeps op ms c c' k h.1)

    phase-Gives :
        (op : String) (combine : F → F → F) (ms : List (Modifier F)) (v : F) (c : Cache F)
        → is_known op ≡ true
        → OnRefs (Reads levels read) ms
        → IsCoherent levels c
        → (c' : Cache F) × Gives levels c
            (phase_value (value_of levels s) op combine ms v)
            (phase read op combine ms v (with_cache c))
            c'
          × AreRead op ms c'
    unfolding phase phase_value
    phase-Gives op combine [] v c k reads coherent = (c, (refl, coherent, λ id w e. e), tt)
    phase-Gives op combine (m ∷ ms) v c k reads coherent = elim (Bool-cases (m.op =? op)) [
      | inr e ↦
          (let (c', gives, are) = phase-Gives op combine ms v c k reads.1 coherent in
            (c', rw (e) gives, ((λ p q. absurd (false≢true (sym e ∙ p))), are)))
      | inl e ↦ elim (Bool-cases (is_ref m)) [
        | inr r ↦
            (let (c', gives, are) =
                phase-Gives op combine ms (combine v m.value) c k reads.1 coherent in
              (c', rw (e, r) gives, ((λ p q. absurd (false≢true (sym r ∙ q))), are)))
        | inl r ↦
            (let (c1, given, has) = reads.0 (ap is_known (eq_of_eq m.op op e) ∙ k) r c coherent in
              let (c', gives, are) =
                phase-Gives op combine ms (combine v (value_of levels s m.ref_attr)) c1 k reads.1
                  given.1 in
              (
                c',
                rw (e, r, given.0) (gives.0, gives.1, λ id w h. gives.2 id w (given.2 id w h)),
                ((λ p q. Keeps-HasValue c1 c' gives.2 m.ref_attr has), are),
              ))
      ]
    ]

    join :
        (ms : List (Modifier F)) (c : Cache F)
        → AreRead op_add ms c
        → AreRead op_multiply ms c
        → AreRead op_override ms c
        → OnRefs (HasValue c) ms
    join [] c a b d = tt
    join (m ∷ ms) c a b d = (
      λ k r. elim (Bool-cases (m.op =? op_add)) [
        | inl e ↦ a.0 e r
        | inr e ↦ elim (Bool-cases (m.op =? op_multiply)) [
          | inl e' ↦ b.0 e' r
          | inr e' ↦ d.0 (rw (e, e') at k) r
        ]
      ],
      join ms c a.1 b.1 d.1,
    )

    -- The three phases read every reference.
    phases-Gives :
        (ms : List (Modifier F)) (v : F) (c : Cache F)
        → OnRefs (Reads levels read) ms
        → IsCoherent levels c
        → (c' : Cache F) × Gives levels c
            (phases_value (value_of levels s) ms v)
            (phases read ms v (with_cache c))
            c'
          × OnRefs (HasValue c') ms
    unfolding phases phases_value
    phases-Gives ms v c reads coherent =
        let val = value_of levels s in
        let (c1, g1, a1) = phase-Gives op_add adding ms v c refl reads coherent in
        let v1 = phase_value val op_add adding ms v in
        let (c2, g2, a2) = phase-Gives op_multiply multiplying ms v1 c1 refl reads g1.1 in
        let v2 = phase_value val op_multiply multiplying ms v1 in
        let (c3, g3, a3) = phase-Gives op_override overriding ms v2 c2 refl reads g2.1 in
        (
          c3,
          rw (g1.0, g2.0) (g3.0, g3.1, λ id w h. g3.2 id w (g2.2 id w (g1.2 id w h))),
          join ms c3 (AreRead-Keeps op_add ms c1 c3 (λ id w h. g3.2 id w (g2.2 id w h)) a1)
              (AreRead-Keeps op_multiply ms c2 c3 g3.2 a2) a3,
        )

  hit-store :
      (id : ℤ) (v : F) (c : Cache F) (x : ℤ)
      → hit (insert id v c.0, insert id false c.1) x ≡ (if id =? x then some v else hit c x)
  unfolding cache_hit is_dirty or_zero
  hit-store id v c x = ground (arith, lookup-insert id x v c.0, lookup-insert id x false c.1)

  store-Gives :
      (levels : ℕ) (id : ℤ) (c : Cache F)
      → IsCoherent levels c
      → OnRefs (HasValue c) (modifiers_for s id)
      → let v = value_of levels s id in
        let c' : Cache F = (insert id v c.0, insert id false c.1) in
        IsCoherent levels c' × Keeps c c' × HasValue c' id
  store-Gives levels id c coherent refs =
      let v = value_of levels s id in
      let c' : Cache F = (insert id v c.0, insert id false c.1) in
      let kept : Keeps c c' = λ x w h. elim (Bool-cases (id =? x)) [
        | inl e ↦
            hit-store id v c x
            ∙ rw (e) (ap some (ap (value_of levels s) (eq_of_eq id x e) ∙ sym (coherent x w h).0))
        | inr e ↦ hit-store id v c x ∙ rw (e) h
      ] in
      let has = λ (ms : List (Modifier F)) (h : OnRefs (HasValue c) ms).
        OnRefs-map (HasValue c) (HasValue c') ms (Keeps-HasValue c c' kept) h in
      (
        λ x w h. elim (Bool-cases (id =? x)) [
          | inl e ↦ (
            some-injective w v (sym h ∙ hit-store id v c x ∙ rw (e) refl)
                ∙ ap (value_of levels s) (eq_of_eq id x e),
            subst (λ (y : ℤ). OnRefs (HasValue c') (modifiers_for s y)) (eq_of_eq id x e)
                (has (modifiers_for s id) refs),
          )
          | inr e ↦
              (let old = coherent x w (sym (hit-store id v c x ∙ rw (e) refl) ∙ h) in
                (old.0, has (modifiers_for s x) old.1))
        ],
        kept,
        (v, hit-store id v c id ∙ rw (eq_refl id) refl),
      )

  module _ (rank : ℤ → ℕ) (levels : ℕ) (bounded : (id : ℤ) → rank id < levels)
      (ranked : IsRanked rank s) where
    -- The path to an attribute does not meet it.
    fresh_on_path :
        (id : ℤ) (visited : List ℤ)
        → All (λ x. rank id < rank x) visited
        → member id visited ≡ false
    unfolding member
    fresh_on_path id [] h = refl
    fresh_on_path id (x ∷ xs) h = elim (Bool-cases (x =? id)) [
      | inl e ↦ absurd (omega (arith, h.0, ap rank (eq_of_eq x id e)))
      | inr e ↦ rw (e) (fresh_on_path id xs h.1)
    ]

    lower_path :
        (id r : ℤ) (visited : List ℤ)
        → rank r < rank id
        → All (λ x. rank id < rank x) visited
        → All (λ x. rank r < rank x) visited
    lower_path id r [] l h = tt
    lower_path id r (x ∷ xs) l h = (omega (arith, h.0), lower_path id r xs l h.1)

    value_lem :
        (id : ℤ)
        → clamped s.reg id
            (phases_value (value_of levels s) (modifiers_for s id) (default_value s.reg id))
          ≡ value_of levels s id
    unfolding value_at
    value_lem id =
        value_at_stable rank s ranked (suc levels) levels id (omega (arith, bounded id))
          (bounded id)

    recalculate_stores :
        (read : ℤ → Instance F → Option (F × Instance F)) (id : ℤ) (c c' : Cache F)
        → phases read (modifiers_for s id) (default_value s.reg id) (with_cache c)
          ≡ some (
            phases_value (value_of levels s) (modifiers_for s id) (default_value s.reg id),
            with_cache c',
          )
        → recalculate read none id (with_cache c)
          ≡ some (
            value_of levels s id,
            with_cache (insert id (value_of levels s id) c'.0, insert id false c'.1),
          )
    unfolding recalculate store start_value temp_mods_for
    recalculate_stores read id c c' e = rw (append-nil (modifiers_for s id), e, value_lem id) refl

    pub get_final-Gives :
        (n : ℕ) (id : ℤ) (visited : List ℤ) (c : Cache F)
        → rank id < n
        → All (λ x. rank id < rank x) visited
        → IsCoherent levels c
        → (c' : Cache F) × Gives levels c
            (value_of levels s id)
            (get_final n none id visited (with_cache c))
            c'
          × HasValue c' id
    unfolding get_final
    get_final-Gives zero id visited c h path coherent = absurd (omega arith)
    get_final-Gives (suc n) id visited c h path coherent = elim (Option-cases (hit c id)) [
      | inr (v, e) ↦ (c, rw (e) (rw (sym (coherent id v e).0) (refl, coherent, λ x w k. k)), (v, e))
      | inl e ↦
          (let read = λ (r : ℤ) (s' : Instance F). get_final n none r (id ∷ visited) s' in
            let ms = modifiers_for s id in
            let reads =
              OnRefs-map (λ r. rank r < rank id) (Reads levels read) ms
                (λ r lower c0 co.
                  get_final-Gives n r (id ∷ visited) c0 (omega arith)
                    (lower, lower_path id r visited lower path) co)
                (ranked id) in
            let (c1, g, refs) =
              phases-Gives levels read ms (default_value s.reg id) c reads coherent in
            let (co, kept, has) = store-Gives levels id c1 g.1 refs in
            (
              (insert id (value_of levels s id) c1.0, insert id false c1.1),
              (
                rw (e, fresh_on_path id visited path) (recalculate_stores read id c c1 g.0),
                co,
                λ x w k. kept x w (g.2 x w k),
              ),
              has,
            ))
    ]
