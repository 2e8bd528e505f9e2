-- ===== src/Attribute/Operations.antt =====
-- The methods of an instance (backend/internal/attribute/instance.go and calculation.go) in any order:
-- they end, and GetFinal then returns the value of Attribute/Reference.

use mathlib.Core.List.{append-nil}
use milkyway_liluo_idle.Prelude.{
  ℕ, suc, ◌<◌, ◌≤◌, ◌≡◌, refl, sym, ◌∙◌, true, false, Option, some, List, [], ◌∷◌, map, length, ℤ,
  String, Table, insert, delete, lookup, member, All, ◌=?◌, int_eq, string_eq, eq_of_eq, eq_refl,
  subst, Bool-cases, Option-cases, inl, inr, arith,
}
use milkyway_liluo_idle.Float.{Float}
use milkyway_liluo_idle.Attribute.{
  Modifier, Registry, Instance, SourceInfo, is_dirty, modifiers_in, reverse_deps, mark_all,
  mark_dirty, targeting, drop_source, remove_from, remove_source_locked, remove_modifiers,
  with_source, mount, append_modifiers, add_modifiers, update_modifiers,
}
use milkyway_liluo_idle.Attribute.Calculation.{cache_hit}
use milkyway_liluo_idle.Attribute.Reference.{OnRefs}
use milkyway_liluo_idle.Attribute.Marking.{
  Marks, unmarked, IsCovered, Marking, mark_all-HasSpread, mark_dirty-HasSpread,
}
use milkyway_liluo_idle.Attribute.Batches.{
  modifiers_in-insert, drop_source-OnRefs, append-OnRefs, modifiers_in-mount, IsAllowed,
  IsAllowed-with_source, targeting-OnRefs, targeting_others,
}
use milkyway_liluo_idle.Attribute.Tracking.{Depends, IsGood, marks_of, changed, changed-IsGood}

pub unmarked-le-length : (us : List ℤ) (d : Marks) → unmarked us d ≤ length us
unmarked-le-length [] d = omega arith
unmarked-le-length (x ∷ xs) d = ground (arith, unmarked-le-length xs d)

member_head : (id : ℤ) (xs : List ℤ) → member id (id ∷ xs) ≡ true
unfolding member
member_head id xs = rw (eq_refl id) refl

member-cons :
    (us : List ℤ) (id : ℤ) (xs : List ℤ)
    → All (λ y. member y us ≡ true) xs
    → All (λ y. member y (id ∷ us) ≡ true) xs
unfolding member
member-cons us id [] h = tt
member-cons us id (x ∷ xs) h = (ground (arith, h.0), member-cons us id xs h.1)

not_head : (id x : ℤ) → member x (id ∷ []) ≡ false → (id =? x) ≡ false
unfolding member
not_head id x h = ground arith

All-units : (xs : List ℤ) → All (λ (x : ℤ). Unit {0}) xs
All-units [] = tt
All-units (x ∷ xs) = (tt, All-units xs)

module _ {F : Type 0} ⦃f : Float F⦄ (rank : ℤ → ℕ) (levels : ℕ) (us : List ℤ) (n : ℕ)
    (enough : suc (length us) < n) where
  -- Fuel above the number of attributes that depend on others is enough for every mark.
  mark_any :
      (s : Instance F) → IsCovered s us → (id : ℤ) (d : Marks) → Marking s (mark_dirty n) d id
  mark_any s covered id d =
      mark_dirty-HasSpread s (id ∷ us) (λ x. member-cons us id (reverse_deps s.reg x) (covered x)) n
        id d (member_head id us) (omega (arith, unmarked-le-length (id ∷ us) d))

  -- A method ends, in a good state with the same registry.
  abbrev pub Ends : Instance F → Option (Instance F) → Type 0
  Ends s o = (s' : Instance F) × (o ≡ some s') × IsGood rank levels s' × (s'.reg ≡ s.reg)

  set_modifiers-Ends :
      (s : Instance F) (id : ℤ) (ms : List (Modifier F))
      → IsCovered s us
      → IsGood rank levels s
      → OnRefs (Depends s.reg rank id) ms
      → Ends s (mark_dirty n id (record s { by_attr = insert id ms s.by_attr }))
  set_modifiers-Ends s id ms covered good allowed =
      let b = insert id ms s.by_attr in
      let (d, e, spread, is) =
        mark_any (changed s b s.by_source (marks_of s)) covered id (marks_of s) in
      (
        changed s b s.by_source d,
        e,
        changed-IsGood s b s.by_source d (id ∷ []) rank levels good
            (λ x other. modifiers_in-insert id x ms s.by_attr ∙ rw (not_head id x other) refl)
            spread (is, tt)
            (λ x. rw (modifiers_in-insert id x ms s.by_attr) (elim (Bool-cases (id =? x)) [
              | inl e' ↦
                  rw (e')
                    (subst (λ (y : ℤ). OnRefs (Depends s.reg rank y) ms) (eq_of_eq id x e') allowed)
              | inr e' ↦ rw (e') (good.allowed x)
            ])),
        refl,
      )

  abbrev pub IsReady : Instance F → Type 0
  IsReady s = IsCovered s us × IsGood rank levels s

  -- One method after another.
  then_Ends : (s s1 : Instance F) (o : Option (Instance F)) → s1.reg ≡ s.reg → Ends s1 o → Ends s o
  then_Ends s s1 o e (s', h, good, e') = (s', h, good, e' ∙ e)

  pub IsCovered-same : (s s' : Instance F) → s'.reg ≡ s.reg → IsCovered s us → IsCovered s' us
  IsCovered-same s s' e covered =
      subst (λ (r : Registry F). (x : ℤ) → All (λ y. member y us ≡ true) (reverse_deps r x)) (sym e)
        covered

  remove_from-Ends :
      (source : String) (ids : List ℤ) (s : Instance F)
      → IsReady s
      → Ends s (remove_from n source ids s)
  unfolding remove_from
  remove_from-Ends source [] s ready = (s, refl, ready.1, refl)
  remove_from-Ends source (id ∷ ids) s ready =
      let kept = drop_source source (modifiers_in s.by_attr id) in
      let (s1, h, good, e) = set_modifiers-Ends s id kept ready.0 ready.1 (
        drop_source-OnRefs (Depends s.reg rank id) source (modifiers_in s.by_attr id)
          (ready.1.allowed id)) in
      let rest = remove_from-Ends source ids s1 (IsCovered-same s s1 e ready.0, good) in
      rw (h, remove_from) (then_Ends s s1 (remove_from n source ids s1) e rest)

  pub remove_modifiers-Ends :
      (source : String) (s : Instance F) → IsReady s → Ends s (remove_modifiers n source s)
  unfolding remove_modifiers remove_source_locked cache_hit is_dirty
  remove_modifiers-Ends source s ready = elim (Option-cases (lookup source s.by_source)) [
    | inl e ↦ rw (e, remove_modifiers) (s, refl, ready.1, refl)
    | inr (info, e) ↦
        (let (s1, h, good, e1) = remove_from-Ends source info.attr_ids s ready in
          (
            record s1 { by_source = delete source s1.by_source },
            rw (e, remove_modifiers) (rw (h, remove_source_locked) refl),
            record { allowed = good.allowed; coherent = good.coherent },
            e1,
          ))
  ]

  -- The modifiers of a batch behind those that are there, and the marks of their attributes.
  pub mount-Ends :
      (ms : List (Modifier F)) (o : Table String (SourceInfo F)) (s : Instance F)
      → IsReady s
      → IsAllowed s.reg rank ms
      → Ends s (
          mark_all
            (mark_dirty n)
            (map (λ (m : Modifier F). m.attr_id) ms)
            (record s { by_attr = mount ms s.by_attr; by_source = o }))
  mount-Ends ms o s ready allowed =
      let ids = map (λ (m : Modifier F). m.attr_id) ms in
      let b = mount ms s.by_attr in
      let s1 = changed s b o (marks_of s) in
      let (d, h, spread, are) =
        mark_all-HasSpread s1 (λ d x. Unit {0}) (mark_dirty n) (λ id d r. mark_any s1 ready.0 id d)
          (λ d d' id more r. r) ids (marks_of s) (All-units ids) in
      (
        changed s b o d,
        h,
        changed-IsGood s b o d ids rank levels ready.1
            (λ x other.
              modifiers_in-mount ms s.by_attr x
              ∙ rw (targeting_others ms x other) (append-nil (modifiers_in s.by_attr x)))
            spread are
            (λ x. rw (modifiers_in-mount ms s.by_attr x) (
              append-OnRefs (Depends s.reg rank x) (modifiers_in s.by_attr x) (targeting x ms)
                (ready.1.allowed x) (targeting-OnRefs s.reg rank ms x allowed))),
        refl,
      )

  append_modifiers-Ends :
      (source : String) (mods : List (Modifier F)) (s : Instance F)
      → IsReady s
      → IsAllowed s.reg rank mods
      → Ends s (append_modifiers n source mods s)
  unfolding append_modifiers
  append_modifiers-Ends source mods s ready allowed =
      let ms = map (with_source source) mods in
      let ids = map (λ (m : Modifier F). m.attr_id) ms in
      mount-Ends ms (insert source (record { mods = ms; attr_ids = ids }) s.by_source) s ready
        (IsAllowed-with_source s.reg rank source mods allowed)

  pub add_modifiers-Ends :
      (source : String) (mods : List (Modifier F)) (s : Instance F)
      → IsReady s
      → IsAllowed s.reg rank mods
      → Ends s (add_modifiers n source mods s)
  unfolding add_modifiers
  add_modifiers-Ends source mods s ready allowed =
      let (s1, h, good, e) = remove_modifiers-Ends source s ready in
      rw (h, add_modifiers)
        (then_Ends s s1 (append_modifiers n source mods s1) e (
          append_modifiers-Ends source mods s1 (IsCovered-same s s1 e ready.0, good)
            (subst (λ (r : Registry F). IsAllowed r rank mods) (sym e) allowed)))

  pub update_modifiers-Ends :
      (source : String) (mods : List (Modifier F)) (s : Instance F)
      → IsReady s
      → IsAllowed s.reg rank mods
      → Ends s (update_modifiers n source mods s)
  unfolding update_modifiers
  update_modifiers-Ends source mods s ready allowed =
      let (s1, h, good, e) = remove_modifiers-Ends source s ready in
      rw (h, update_modifiers)
        (then_Ends s s1 (add_modifiers n source mods s1) e (
          add_modifiers-Ends source mods s1 (IsCovered-same s s1 e ready.0, good)
            (subst (λ (r : Registry F). IsAllowed r rank mods) (sym e) allowed)))
