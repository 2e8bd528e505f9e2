-- ===== src/Attribute/Registered.antt =====
-- The registry that newRegistry builds (backend/internal/attribute/registry.go).

use mathlib.Core.Option.{some-injective}
use milkyway_liluo_idle.Prelude.{
  ℕ, ◌<◌, ◌≡◌, ◌≢◌, refl, sym, ◌∙◌, ap, Option, none, some, List, [], ◌∷◌, ℤ, String, Table, lookup,
  insert, lookup-insert, lookup-insert_self, or_zero, All, ◌=?◌, int_eq, string_eq, eq_of_eq, subst,
  Bool-cases, Option-cases, inl, inr, arith, ◌⊎◌,
}
use milkyway_liluo_idle.Float.{Float}
use milkyway_liluo_idle.Attribute.{Modifier, AttrDef, Registry, is_ref, forward_deps}
use milkyway_liluo_idle.Attribute.Building.{
  StaticMod, AttrsConfig, ok, must_id, ref_of, Result-cases, define_at, define, define_all,
  static_mod, record_mod, resolve, resolve_all, gray, color_of, check_cycles, keys, empty_registry,
  build, new_registry,
}
use milkyway_liluo_idle.Attribute.Cycles.{Ends, search_all-nil-Ends}
use milkyway_liluo_idle.Attribute.Acyclic.{search_all-Finds}
use milkyway_liluo_idle.Attribute.Recorded.{AreRecorded, record_mod-AreRecorded}

Cycle-cases :
    (o : Option (Option (List ℤ)))
    → (o ≡ some none) ⊎ ((o ≡ none) ⊎ ((c : List ℤ) × (o ≡ some (some c))))
Cycle-cases none = inr (inl refl)
Cycle-cases (some none) = inl refl
Cycle-cases (some (some c)) = inr (inr (c, refl))

module _ {F : Type 0} ⦃f : Float F⦄ where
  -- A definition is found by the name and by the number of its attribute.
  abbrev pub IsDefined : Registry F → AttrDef F → Type 0
  IsDefined r def =
      (id : ℤ) × (lookup def.id r.attr_ids ≡ some id)
      × (lookup id r.by_id ≡ some def)
      × (lookup def.id r.by_string ≡ some def)

  record_mod-IsDefined :
      (m : Modifier F) (r : Registry F) (d : AttrDef F)
      → IsDefined r d
      → IsDefined (record_mod m r) d
  unfolding record_mod
  record_mod-IsDefined m r d h = elim (Bool-cases (is_ref m)) [
    | inl e ↦ rw (e) h
    | inr e ↦ rw (e) h
  ]

  -- What a step of the construction leaves as it is.
  abbrev Extends : Registry F → Registry F → Type 0
  Extends r r' =
      ((d : AttrDef F) → IsDefined r d → IsDefined r' d) × (AreRecorded r → AreRecorded r')

  defined :
      (def : AttrDef F) (r : Registry F) (id : ℤ)
      → lookup def.id r.attr_ids ≡ some id
      → lookup id r.by_id ≡ none
      → let r' = record r {
        by_id = insert id def r.by_id;
        by_string = insert def.id def r.by_string;
      } in
        Extends r r' × IsDefined r' def
  defined def r id e n = (
    (
      (λ d (i, a, b, c). (
        i,
        a,
        lookup-insert id i def r.by_id ∙ elim (Bool-cases (id =? i)) [
          | inl q ↦ (let w = sym n ∙ ap (λ (k : ℤ). lookup k r.by_id) (eq_of_eq id i q) ∙ b in cc)
          | inr q ↦ rw (q) b
        ],
        lookup-insert def.id d.id def r.by_string ∙ elim (Bool-cases (def.id =? d.id)) [
          | inl q ↦
              (let same =
                  sym e ∙ ap (λ (k : String). lookup k r.attr_ids) (eq_of_eq def.id d.id q) ∙ a in
                let w = sym n ∙ ap (λ (k : ℤ). lookup k r.by_id) (some-injective id i same) ∙ b in
                cc)
          | inr q ↦ rw (q) c
        ],
      )),
      (λ h. h),
    ),
    (id, e, lookup-insert_self id def r.by_id, lookup-insert_self def.id def r.by_string),
  )

  must_id_found :
      (r : Registry F) (s : String) (id : ℤ) → must_id r s ≡ ok id → lookup s r.attr_ids ≡ some id
  unfolding must_id
  must_id_found r s id h = ground arith

  define_at-Extends :
      (def : AttrDef F) (id : ℤ) (r r' : Registry F)
      → lookup def.id r.attr_ids ≡ some id
      → define_at id def r ≡ ok r'
      → Extends r r' × IsDefined r' def
  unfolding define_at
  define_at-Extends def id r r' e h = elim (Option-cases (lookup id r.by_id)) [
    | inr (d, n) ↦ (let w = rw (n, define_at) at h in cc)
    | inl n ↦
        (let w = rw (n, define_at) at h in
          let done : record r {
            by_id = insert id def r.by_id;
            by_string = insert def.id def r.by_string;
          }
              ≡ r' =
            cc in
          subst (λ (x : Registry F). Extends r x × IsDefined x def) done (defined def r id e n))
  ]

  define-Extends :
      (def : AttrDef F) (r r' : Registry F) → define def r ≡ ok r' → Extends r r' × IsDefined r' def
  unfolding define
  define-Extends def r r' h = elim (Result-cases (must_id r def.id)) [
    | inr (x, e) ↦ (let w = rw (e, define) at h in cc)
    | inl (id, e) ↦
        define_at-Extends def id r r' (must_id_found r def.id id e) (rw (e, define) at h)
  ]

  define_all-Extends :
      (defs : List (AttrDef F)) (r r' : Registry F)
      → define_all defs r ≡ ok r'
      → Extends r r' × All (IsDefined r') defs
  unfolding define_all
  define_all-Extends [] r r' h =
      let e : r ≡ r' = cc in (subst (Extends r) e ((λ d k. k), (λ k. k)), tt)
  define_all-Extends (def ∷ defs) r r' h = elim (Result-cases (define def r)) [
    | inr (x, e) ↦ (let w = rw (e, define_all) at h in cc)
    | inl (r1, e) ↦
        (let (first, is) = define-Extends def r r1 e in
          let (rest, are) = define_all-Extends defs r1 r' (rw (e, define_all) at h) in
          (((λ d k. rest.0 d (first.0 d k)), (λ k. rest.1 (first.1 k))), (rest.0 def is, are)))
  ]

  resolve_all-Extends :
      (sms : List (StaticMod F)) (r r' : Registry F) → resolve_all sms r ≡ ok r' → Extends r r'
  unfolding resolve_all resolve
  resolve_all-Extends [] r r' h = let e : r ≡ r' = cc in subst (Extends r) e ((λ d k. k), (λ k. k))
  resolve_all-Extends (sm ∷ sms) r r' h = elim (Result-cases (must_id r sm.attr_id)) [
    | inr (x, e) ↦ (let w = rw (e, resolve_all) at h in cc)
    | inl (target, e) ↦ elim (Result-cases (ref_of r sm)) [
      | inr (x, e') ↦ (let w = rw (e, e', resolve_all) at h in cc)
      | inl (ref, e') ↦
          (let m = static_mod sm target ref in
            let rest = resolve_all-Extends sms (record_mod m r) r' (rw (e, e', resolve_all) at h) in
            (
              (λ d k. rest.0 d (record_mod-IsDefined m r d k)),
              (λ k. rest.1 (record_mod-AreRecorded m r k)),
            ))
    ]
  ]

  All-IsDefined :
      (defs : List (AttrDef F)) (r r' : Registry F)
      → ((d : AttrDef F) → IsDefined r d → IsDefined r' d)
      → All (IsDefined r) defs
      → All (IsDefined r') defs
  All-IsDefined [] r r' g h = tt
  All-IsDefined (d ∷ ds) r r' g h = (g d h.0, All-IsDefined ds r r' g h.1)

  build-Extends :
      (cfg : AttrsConfig F) (ids : Table String ℤ) (r : Registry F)
      → build cfg ids ≡ ok r
      → All (IsDefined r) cfg.attributes × AreRecorded r
  unfolding build empty_registry
  build-Extends cfg ids r h = elim (Result-cases (define_all cfg.attributes (empty_registry ids))) [
    | inr (x, e) ↦ (let w = rw (e, build) at h in cc)
    | inl (r1, e) ↦
        (let (first, are) = define_all-Extends cfg.attributes (empty_registry ids) r1 e in
          let rest = resolve_all-Extends cfg.modifiers r1 r (rw (e, build) at h) in
          (All-IsDefined cfg.attributes r1 r rest.0 are, rest.1 (first.1 tt)))
  ]

  All-keys :
      (P : ℤ → Type 0) (t : Table ℤ (AttrDef F)) (id : ℤ) (d : AttrDef F)
      → All P (keys t)
      → lookup id t ≡ some d
      → P id
  unfolding lookup
  All-keys P [] id d h e = cc
  All-keys P ((k, v) ∷ t) id d h e = elim (Bool-cases (k =? id)) [
    | inl q ↦ subst P (eq_of_eq k id q) h.0
    | inr q ↦ All-keys P t id d h.1 (rw (q) at e)
  ]

  -- If newRegistry returns a registry, every attribute of the configuration is found by its name and
  -- by the number of that name, every static modifier that refers to an attribute has its dependency
  -- in both directions, and the chains of dependencies from each attribute that is defined end.
  pub new_registry-IsDefined :
      (n : ℕ) (cfg : AttrsConfig F) (ids : Table String ℤ) (r : Registry F)
      → new_registry n cfg ids ≡ some (ok r)
      → All (IsDefined r) cfg.attributes
        × AreRecorded r
        × ((id : ℤ) (d : AttrDef F) → lookup id r.by_id ≡ some d → Ends (forward_deps r) id)
  unfolding new_registry check_cycles
  new_registry-IsDefined n cfg ids r h = elim (Result-cases (build cfg ids)) [
    | inr (x, e) ↦ (let w = rw (e, new_registry) at h in cc)
    | inl (r1, e) ↦ elim (Cycle-cases (check_cycles n r1)) [
      | inr (inl c) ↦ (let w = rw (e, new_registry, c) at h in cc)
      | inr (inr (x, c)) ↦ (let w = rw (e, new_registry, c) at h in cc)
      | inl c ↦
          (let w = rw (e, new_registry, c) at h in
            let same : r1 ≡ r = cc in
            let b = build-Extends cfg ids r1 e in
            subst
              (λ (x : Registry F).
                All (IsDefined x) cfg.attributes
                × AreRecorded x
                × ((id : ℤ) (d : AttrDef F)
                    → lookup id x.by_id ≡ some d
                    → Ends (forward_deps x) id))
              same
              (
                b.0,
                b.1,
                λ id d k.
                    All-keys (Ends (forward_deps r1)) r1.by_id id d
                      (search_all-nil-Ends (forward_deps r1) n (keys r1.by_id) c) k,
              ))
    ]
  ]

  -- If the definitions and the static modifiers are in order, and a rank falls along the dependencies,
  -- then newRegistry finds no cycle, on fuel above the rank of every attribute.
  pub new_registry-ranked :
      (n : ℕ) (cfg : AttrsConfig F) (ids : Table String ℤ) (r : Registry F) (rank : ℤ → ℕ)
      → build cfg ids ≡ ok r
      → ((id : ℤ) → All (λ y. rank y < rank id) (forward_deps r id))
      → ((id : ℤ) → rank id < n)
      → new_registry n cfg ids ≡ some (ok r)
  unfolding new_registry check_cycles color_of or_zero
  new_registry-ranked n cfg ids r rank e ranked bounded =
      let fresh : (x : ℤ) → color_of [] x ≢ gray = λ x k. cc in
      let c = search_all-Finds (forward_deps r) rank ranked n bounded (keys r.by_id) [] fresh in
      rw (e, new_registry, c) refl
