-- ===== src/Record/Systems.antt =====
-- The registration of systems (backend/internal/record/registry.go) and the buckets that a recorder
-- hands out (backend/internal/record/recorder.go).
use mathlib.Core.List.{append-nil, append_assoc}
use milkyway_liluo_idle.Prelude.{
  ◌≡◌, refl, sym, ◌∙◌, ap, true, false, inl, inr, Option, none, some, List, [], ◌∷◌, ◌++◌, map,
  String, lookup, insert, string_eq, ◌=?◌, arith, Option-cases, lookup-insert, lookup-insert_self,
  All, eq_of_eq,
}
use milkyway_liluo_idle.Record.{
  SystemProvider, Registry, Recorder, Namespace, register, register_all, providers_in, bucket,
  bucket_in, make_bucket,
}

module _ {B : Type 0} where
  -- No two providers have the same name.
  abbrev pub AreDistinct : List (SystemProvider B) → Type 0
  AreDistinct [] = Unit
  AreDistinct (p ∷ ps) = All (λ q. (p.system_name =? q.system_name) ≡ false) ps × AreDistinct ps

  abbrev AreFresh : List (SystemProvider B) → Registry B → Type 0
  AreFresh ps r = All (λ p. lookup p.system_name r.providers ≡ none) ps

  -- Every name in the order has a provider.
  abbrev pub AreKnown : List String → Registry B → Type 0
  AreKnown names r = All (λ name. (p : SystemProvider B) × (lookup name r.providers ≡ some p)) names

  extended : SystemProvider B → Registry B → Registry B
  extended p r = record {
    providers = insert p.system_name p r.providers;
    order = r.order ++ p.system_name ∷ [];
  }

  lookup-extended :
      (p : SystemProvider B) (r : Registry B) (name : String)
      → lookup p.system_name r.providers ≡ none
      → (q : SystemProvider B) × (lookup name r.providers ≡ some q)
      → lookup name (extended p r).providers ≡ lookup name r.providers
  unfolding extended
  lookup-extended p r name h k =
      let taken : (p.system_name =? name) ≡ true → lookup name r.providers ≡ none =
        λ e. ap (λ (i : String). lookup i r.providers) (sym (eq_of_eq p.system_name name e)) ∙ h in
      ground (arith, lookup-insert p.system_name name p r.providers, k.1, taken)

  providers_in-extended :
      (p : SystemProvider B) (r : Registry B) (names : List String)
      → lookup p.system_name r.providers ≡ none
      → AreKnown names r
      → providers_in (names ++ p.system_name ∷ []) (extended p r)
        ≡ providers_in names r ++ some p ∷ []
  unfolding providers_in extended
  providers_in-extended p r [] h k = rw (lookup-insert_self p.system_name p r.providers) refl
  providers_in-extended p r (name ∷ names) h k =
      rw (lookup-extended p r name h k.0)
        (ap (◌∷◌ (lookup name r.providers)) (providers_in-extended p r names h k.1))

  AreKnown-extended :
      (p : SystemProvider B) (r : Registry B) (names : List String)
      → lookup p.system_name r.providers ≡ none
      → AreKnown names r
      → AreKnown (names ++ p.system_name ∷ []) (extended p r)
  unfolding extended
  AreKnown-extended p r [] h k = ((p, lookup-insert_self p.system_name p r.providers), tt)
  AreKnown-extended p r (name ∷ names) h k =
      ((k.0.0, lookup-extended p r name h k.0 ∙ k.0.1), AreKnown-extended p r names h k.1)

  AreFresh-extended :
      (p : SystemProvider B) (ps : List (SystemProvider B)) (r : Registry B)
      → All (λ q. (p.system_name =? q.system_name) ≡ false) ps
      → AreFresh ps r
      → AreFresh ps (extended p r)
  unfolding extended
  AreFresh-extended p [] r d f = tt
  AreFresh-extended p (q ∷ ps) r d f = (
    rw (lookup-insert p.system_name q.system_name p r.providers, d.0) f.0,
    AreFresh-extended p ps r d.1 f.1,
  )

  register_all_onto :
      (ps : List (SystemProvider B)) (r : Registry B)
      → AreDistinct ps
      → AreFresh ps r
      → AreKnown r.order r
      → (r' : Registry B) × ((register_all ps r ≡ some r')
          × (providers_in r'.order r' ≡ providers_in r.order r ++ map some ps))
  unfolding register_all register extended
  register_all_onto [] r d f k = (r, (refl, sym (append-nil _)))
  register_all_onto (p ∷ ps) r d f k =
      let next = extended p r in
      let rest =
        register_all_onto ps next d.1 (AreFresh-extended p ps r d.0 f.1)
          (AreKnown-extended p r r.order f.0 k) in
      (
        rest.0,
        (
          rw (register_all, register, f.0) rest.1.0,
          rest.1.1
              ∙ rw (providers_in-extended p r r.order f.0 k)
                  (append_assoc (providers_in r.order r) (some p ∷ []) (map some ps)),
        ),
      )

  abbrev pub no_systems : Registry B
  no_systems = record { providers = []; order = [] }

  unregistered : (ps : List (SystemProvider B)) → AreFresh ps no_systems
  unfolding lookup
  unregistered [] = tt
  unregistered (p ∷ ps) = (refl, unregistered ps)

  -- Providers with distinct names register without a panic, and Providers returns them in the order of
  -- registration.
  pub providers_in-register_all :
      (ps : List (SystemProvider B))
      → AreDistinct ps
      → (r : Registry B) × ((register_all ps no_systems ≡ some r)
          × (providers_in r.order r ≡ map some ps))
  unfolding providers_in
  providers_in-register_all ps d = register_all_onto ps no_systems d (unregistered ps) tt

  bucket_in_twice :
      (name : String) (reg : Option (Registry B)) (ns : Namespace B)
      (rest completed : List (Namespace B)) (b : B)
      → let found = bucket_in name (make_bucket name reg) ns rest in
        found.0 ≡ some b
        → bucket name (record { reg = reg; stack = found.1; completed = completed })
          ≡ (some b, record { reg = reg; stack = found.1; completed = completed })
  unfolding bucket bucket_in
  bucket_in_twice name reg ns rest completed b h = elim (Option-cases (lookup name ns.buckets)) [
    | inr (c, p) ↦
        (let e : (bucket_in name (make_bucket name reg) ns rest).0 ≡ some c =
            rw (bucket_in, p) refl in
          let same : some c ≡ some b = sym e ∙ h in
          rw (bucket_in, p, bucket, bucket_in, p, same) refl)
    | inl p ↦ elim (Option-cases (make_bucket name reg)) [
      | inl m ↦
          (let e : (bucket_in name (make_bucket name reg) ns rest).0 ≡ none =
              rw (bucket_in, p, m) refl in
            absurd (cc (e, h)))
      | inr (c, m) ↦
          (let e : (bucket_in name (make_bucket name reg) ns rest).0 ≡ some c =
              rw (bucket_in, p, m) refl in
            let same : some c ≡ some b = sym e ∙ h in
            rw (bucket_in, p, m, lookup-insert_self name c ns.buckets, same) refl)
    ]
  ]

  bucket_twice_on :
      (name : String) (reg : Option (Registry B)) (stack completed : List (Namespace B)) (b : B)
      → let r : Recorder B = record { reg = reg; stack = stack; completed = completed } in
        (bucket name r).0 ≡ some b → bucket name (bucket name r).1 ≡ (some b, (bucket name r).1)
  unfolding bucket
  bucket_twice_on name reg [] completed b h = absurd (cc h)
  bucket_twice_on name reg (ns ∷ rest) completed b h =
      bucket_in_twice name reg ns rest completed b h

  -- After Bucket has returned a bucket of a system, it returns the same one for that system and leaves
  -- the recorder alone.
  pub bucket_twice :
      (name : String) (r : Recorder B) (b : B)
      → (bucket name r).0 ≡ some b
      → bucket name (bucket name r).1 ≡ (some b, (bucket name r).1)
  bucket_twice name r b h = bucket_twice_on name r.reg r.stack r.completed b h
