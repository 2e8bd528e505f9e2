-- ===== src/Attribute/Batches.antt =====
-- What the loops of AddModifiers and RemoveModifiers do to the modifiers of each attribute
-- (backend/internal/attribute/instance.go).
use mathlib.Core.List.{append-nil, append_assoc}
use milkyway_liluo_idle.Prelude.{
  ℕ, ◌≡◌, refl, sym, ◌∙◌, true, false, if◌then◌else◌, List, [], ◌∷◌, ◌++◌, map, ℤ, String, Table,
  insert, member, lookup-insert, or_zero, All, ◌=?◌, int_eq, string_eq, eq_of_eq, subst, Bool-cases,
  inl, inr, arith,
}
use milkyway_liluo_idle.Attribute.{
  Modifier, Registry, is_ref, modifiers_in, targeting, drop_source, with_source, mount,
}
use milkyway_liluo_idle.Attribute.Reference.{is_known, OnRefs}
use milkyway_liluo_idle.Attribute.Tracking.{Depends}

module _ {F : Type 0} where
  pub modifiers_in-insert :
      (id x : ℤ) (ms : List (Modifier F)) (t : Table ℤ (List (Modifier F)))
      → modifiers_in (insert id ms t) x ≡ (if id =? x then ms else modifiers_in t x)
  unfolding modifiers_in or_zero
  modifiers_in-insert id x ms t = ground (arith, lookup-insert id x ms t)

  pub drop_source-OnRefs :
      (P : ℤ → Type 0) (source : String) (ms : List (Modifier F))
      → OnRefs P ms
      → OnRefs P (drop_source source ms)
  unfolding drop_source
  drop_source-OnRefs P source [] h = tt
  drop_source-OnRefs P source (m ∷ ms) h = elim (Bool-cases (m.source =? source)) [
    | inl e ↦ rw (e) (drop_source-OnRefs P source ms h.1)
    | inr e ↦ rw (e) (h.0, drop_source-OnRefs P source ms h.1)
  ]

  pub append-OnRefs :
      (P : ℤ → Type 0) (ms ms' : List (Modifier F))
      → OnRefs P ms
      → OnRefs P ms'
      → OnRefs P (ms ++ ms')
  append-OnRefs P [] ms' h k = k
  append-OnRefs P (m ∷ ms) ms' h k = (h.0, append-OnRefs P ms ms' h.1 k)

  pub modifiers_in-mount :
      (ms : List (Modifier F)) (t : Table ℤ (List (Modifier F))) (x : ℤ)
      → modifiers_in (mount ms t) x ≡ modifiers_in t x ++ targeting x ms
  unfolding mount targeting
  modifiers_in-mount [] t x = sym (append-nil (modifiers_in t x))
  modifiers_in-mount (m ∷ ms) t x =
      modifiers_in-mount ms (insert m.attr_id (modifiers_in t m.attr_id ++ (m ∷ [])) t) x
      ∙ rw (modifiers_in-insert m.attr_id x (modifiers_in t m.attr_id ++ (m ∷ [])) t)
          (elim (Bool-cases (m.attr_id =? x)) [
            | inl e ↦ rw (e, eq_of_eq m.attr_id x e, append_assoc) refl
            | inr e ↦ rw (e) refl
          ])

  -- A batch that the registry knows: it has the dependency of each reference, and the rank falls.
  abbrev pub IsAllowed : Registry F → (ℤ → ℕ) → List (Modifier F) → Type 0
  IsAllowed reg rank ms =
      All (λ m. is_known m.op ≡ true → is_ref m ≡ true → Depends reg rank m.attr_id m.ref_attr) ms

  pub IsAllowed-with_source :
      (reg : Registry F) (rank : ℤ → ℕ) (source : String) (ms : List (Modifier F))
      → IsAllowed reg rank ms
      → IsAllowed reg rank (map (with_source source) ms)
  IsAllowed-with_source reg rank source [] h = tt
  IsAllowed-with_source reg rank source (m ∷ ms) h =
      (h.0, IsAllowed-with_source reg rank source ms h.1)

  pub targeting-OnRefs :
      (reg : Registry F) (rank : ℤ → ℕ) (ms : List (Modifier F)) (x : ℤ)
      → IsAllowed reg rank ms
      → OnRefs (Depends reg rank x) (targeting x ms)
  unfolding targeting
  targeting-OnRefs reg rank [] x h = tt
  targeting-OnRefs reg rank (m ∷ ms) x h = elim (Bool-cases (m.attr_id =? x)) [
    | inl e ↦ rw (e) (
      (λ k r. subst (λ (y : ℤ). Depends reg rank y m.ref_attr) (eq_of_eq m.attr_id x e) (h.0 k r)),
      targeting-OnRefs reg rank ms x h.1,
    )
    | inr e ↦ rw (e) (targeting-OnRefs reg rank ms x h.1)
  ]

  pub targeting_others :
      (ms : List (Modifier F)) (x : ℤ)
      → member x (map (λ (m : Modifier F). m.attr_id) ms) ≡ false
      → targeting x ms ≡ []
  unfolding targeting member
  targeting_others [] x h = refl
  targeting_others (m ∷ ms) x h = ground (arith, targeting_others ms x)
