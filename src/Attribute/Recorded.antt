-- ===== src/Attribute/Recorded.antt =====
-- The dependencies that a registry records (backend/internal/attribute/registry.go).
use mathlib.Core.Bool.{false≢true}
use milkyway_liluo_idle.Prelude.{
  member-append, ◌≡◌, refl, sym, ◌∙◌, true, if◌then◌else◌, List, [], ◌∷◌, ◌++◌, ℤ, Table, lookup,
  lookup-insert, member, or_zero, All, ◌=?◌, int_eq, string_eq, eq_of_eq, eq_refl, Bool-cases, inl,
  inr, arith,
}
use milkyway_liluo_idle.Float.{Float}
use milkyway_liluo_idle.Attribute.{Modifier, Registry, is_ref, forward_deps, reverse_deps}
use milkyway_liluo_idle.Attribute.Building.{push, record_mod}

-- The dependencies of an attribute after a push.
deps_push :
    (id dep x : ℤ) (t : Table ℤ (List ℤ))
    → or_zero [] (lookup x (push id dep t))
      ≡ (if id =? x then or_zero [] (lookup x t) ++ (dep ∷ []) else or_zero [] (lookup x t))
unfolding push or_zero
deps_push id dep x t = elim (Bool-cases (id =? x)) [
  | inl e ↦
      rw (lookup-insert id x (or_zero [] (lookup id t) ++ (dep ∷ [])) t, e, eq_of_eq id x e) refl
  | inr e ↦ rw (lookup-insert id x (or_zero [] (lookup id t) ++ (dep ∷ [])) t, e) refl
]

member-push_self :
    (id dep : ℤ) (t : Table ℤ (List ℤ)) → member dep (or_zero [] (lookup id (push id dep t))) ≡ true
unfolding member
member-push_self id dep t =
    rw
      (
        deps_push id dep id t,
        eq_refl id,
        member-append dep (or_zero [] (lookup id t)) (dep ∷ []),
        eq_refl dep,
      )
      (ground arith)

member-push :
    (id dep x y : ℤ) (t : Table ℤ (List ℤ))
    → member y (or_zero [] (lookup x t)) ≡ true
    → member y (or_zero [] (lookup x (push id dep t))) ≡ true
member-push id dep x y t h = elim (Bool-cases (id =? x)) [
  | inl e ↦
      rw (deps_push id dep x t, e, member-append y (or_zero [] (lookup x t)) (dep ∷ []), h) refl
  | inr e ↦ rw (deps_push id dep x t, e) h
]

module _ {F : Type 0} ⦃f : Float F⦄ where
  -- A reference is recorded in both directions.
  abbrev pub IsRecorded : Registry F → Modifier F → Type 0
  IsRecorded r m =
      is_ref m ≡ true
      → (member m.ref_attr (forward_deps r m.attr_id) ≡ true)
        × (member m.attr_id (reverse_deps r m.ref_attr) ≡ true)

  abbrev pub AreRecorded : Registry F → Type 0
  AreRecorded r = All (IsRecorded r) r.static_mods

  pub All-snoc :
      (P Q : Modifier F → Type 0) (ms : List (Modifier F)) (m : Modifier F)
      → ((x : Modifier F) → P x → Q x)
      → All P ms
      → Q m
      → All Q (ms ++ (m ∷ []))
  All-snoc P Q [] m g h q = (q, tt)
  All-snoc P Q (x ∷ xs) m g h q = (g x h.0, All-snoc P Q xs m g h.1 q)

  pub record_mod-AreRecorded :
      (m : Modifier F) (r : Registry F) → AreRecorded r → AreRecorded (record_mod m r)
  unfolding record_mod
  record_mod-AreRecorded m r h = elim (Bool-cases (is_ref m)) [
    | inr e ↦ rw (e) (
        All-snoc (IsRecorded r) (IsRecorded r) r.static_mods m (λ x k. k) h
          (λ k. absurd (false≢true (sym e ∙ k))))
    | inl e ↦ rw (e) (
        let r' = record r {
          static_mods = r.static_mods ++ (m ∷ []);
          forward = push m.attr_id m.ref_attr r.forward;
          reverse = push m.ref_attr m.attr_id r.reverse;
        } in
        All-snoc (IsRecorded r) (IsRecorded r') r.static_mods m
          (λ x k q. (
            member-push m.attr_id m.ref_attr x.attr_id x.ref_attr r.forward (k q).0,
            member-push m.ref_attr m.attr_id x.ref_attr x.attr_id r.reverse (k q).1,
          ))
          h
          (λ q. (
            member-push_self m.attr_id m.ref_attr r.forward,
            member-push_self m.ref_attr m.attr_id r.reverse,
          )))
  ]
