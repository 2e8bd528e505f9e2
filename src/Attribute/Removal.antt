-- ===== src/Attribute/Removal.antt =====
-- RemoveModifiers of what AddModifiers has added (backend/internal/attribute/instance.go).

use mathlib.Core.List.{append-nil}
use milkyway_liluo_idle.Prelude.{
  ℕ, zero, suc, ◌<◌, ◌≡◌, refl, sym, ◌∙◌, ap, false, ◌||◌, if◌then◌else◌, Option, none, some, List,
  [], ◌∷◌, ◌++◌, map, length, ℤ, String, Table, insert, delete, lookup, lookup-insert,
  lookup-insert_self, lookup-delete, member, All, ◌=?◌, string_eq, int_eq, eq_of_eq, eq_refl,
  Bool-cases, Option-cases, inl, inr,
}
use milkyway_liluo_idle.Float.{Float}
use milkyway_liluo_idle.Attribute.{
  Modifier, Instance, SourceInfo, is_dirty, modifiers_in, modifiers_for, set_dirty, reverse_deps,
  mark_all, mark_dirty, targeting, drop_source, remove_from, remove_source_locked, remove_modifiers,
  with_source, mount, append_modifiers, add_modifiers,
}
use milkyway_liluo_idle.Attribute.Batches.{
  modifiers_in-insert, modifiers_in-mount, IsAllowed, targeting_others,
}
use milkyway_liluo_idle.Attribute.Operations.{
  IsReady, remove_modifiers-Ends, add_modifiers-Ends, IsCovered-same,
}

module _ {F : Type 0} where
  -- The modifiers and their sources are the same.
  abbrev IsFramed : Instance F → Instance F → Type 0
  IsFramed s s' = (s'.by_attr ≡ s.by_attr) × (s'.by_source ≡ s.by_source)

  mark_all-IsFramed :
      (mark : ℤ → Instance F → Option (Instance F))
      → ((id : ℤ) (s s' : Instance F) → mark id s ≡ some s' → IsFramed s s')
      → (ids : List ℤ) (s s' : Instance F) → mark_all mark ids s ≡ some s'
      → IsFramed s s'
  unfolding mark_all
  mark_all-IsFramed mark frame [] s s' h =
      let e : s ≡ s' = cc in
      (ap (λ (x : Instance F). x.by_attr) (sym e), ap (λ (x : Instance F). x.by_source) (sym e))
  mark_all-IsFramed mark frame (id ∷ ids) s s' h = elim (Option-cases (mark id s)) [
    | inl e ↦ (let w = rw (e, mark_all) at h in cc)
    | inr (s1, e) ↦
        (let a = frame id s s1 e in
          let b = mark_all-IsFramed mark frame ids s1 s' (rw (e, mark_all) at h) in
          (b.0 ∙ a.0, b.1 ∙ a.1))
  ]

  mark_dirty-IsFramed :
      (n : ℕ) (id : ℤ) (s s' : Instance F) → mark_dirty n id s ≡ some s' → IsFramed s s'
  unfolding mark_dirty set_dirty
  mark_dirty-IsFramed zero id s s' h = cc
  mark_dirty-IsFramed (suc n) id s s' h = elim (Bool-cases (is_dirty s id)) [
    | inl e ↦
        (let w = rw (e) at h in
          let q : s ≡ s' = cc in
          (
            ap (λ (x : Instance F). x.by_attr) (sym q),
            ap (λ (x : Instance F). x.by_source) (sym q),
          ))
    | inr e ↦
        mark_all-IsFramed (mark_dirty n) (mark_dirty-IsFramed n) (reverse_deps s.reg id)
          (set_dirty id s) s' (rw (e) at h)
  ]

  drop_source-append :
      (source : String) (ms ms' : List (Modifier F))
      → drop_source source (ms ++ ms') ≡ drop_source source ms ++ drop_source source ms'
  unfolding drop_source
  drop_source-append source [] ms' = refl
  drop_source-append source (m ∷ ms) ms' = elim (Bool-cases (m.source =? source)) [
    | inl e ↦ rw (e) (drop_source-append source ms ms')
    | inr e ↦ rw (e) (ap (◌∷◌ m) (drop_source-append source ms ms'))
  ]

  drop_source_twice :
      (source : String) (ms : List (Modifier F))
      → drop_source source (drop_source source ms) ≡ drop_source source ms
  unfolding drop_source
  drop_source_twice source [] = refl
  drop_source_twice source (m ∷ ms) = elim (Bool-cases (m.source =? source)) [
    | inl e ↦ rw (e) (drop_source_twice source ms)
    | inr e ↦ rw (e, e) (ap (◌∷◌ m) (drop_source_twice source ms))
  ]

  drop_source_none :
      (source : String) (ms : List (Modifier F))
      → All (λ m. (m.source =? source) ≡ false) ms
      → drop_source source ms ≡ ms
  unfolding drop_source
  drop_source_none source [] h = refl
  drop_source_none source (m ∷ ms) h = rw (h.0) (ap (◌∷◌ m) (drop_source_none source ms h.1))

  drop_source_all :
      (source : String) (x : ℤ) (ms : List (Modifier F))
      → drop_source source (targeting x (map (with_source source) ms)) ≡ []
  unfolding drop_source targeting
  drop_source_all source x [] = refl
  drop_source_all source x (m ∷ ms) = elim (Bool-cases (m.attr_id =? x)) [
    | inl e ↦ rw (e, eq_refl source) (drop_source_all source x ms)
    | inr e ↦ rw (e) (drop_source_all source x ms)
  ]

  -- An attribute that occurs twice in the list is the same after its second turn.
  dropped_once :
      (source : String) (id x : ℤ) (ids : List ℤ) (t : Table ℤ (List (Modifier F)))
      → let kept = drop_source source (modifiers_in t id) in
        let first = if id =? x then kept else modifiers_in t x in
        (if member x ids then drop_source source first else first) ≡ (
          if (id =? x) || member x ids
          then drop_source source (modifiers_in t x)
          else modifiers_in t x)
  dropped_once source id x ids t = elim (Bool-cases (id =? x)) [
    | inr q ↦ rw (q) refl
    | inl q ↦ elim (Bool-cases (member x ids)) [
      | inl m ↦ rw (q, m, eq_of_eq id x q) (drop_source_twice source (modifiers_in t x))
      | inr m ↦ rw (q, m, eq_of_eq id x q) refl
    ]
  ]

  remove_from_lem :
      (n : ℕ) (source : String) (ids : List ℤ) (s s' : Instance F) (x : ℤ)
      → remove_from n source ids s ≡ some s'
      → (modifiers_for s' x
          ≡ (if member x ids then drop_source source (modifiers_for s x) else modifiers_for s x))
        × (s'.by_source ≡ s.by_source)
  unfolding remove_from member
  remove_from_lem n source [] s s' x h =
      let e : s ≡ s' = cc in
      (
        ap (λ (y : Instance F). modifiers_for y x) (sym e),
        ap (λ (y : Instance F). y.by_source) (sym e),
      )
  remove_from_lem n source (id ∷ ids) s s' x h =
      let kept = drop_source source (modifiers_in s.by_attr id) in
      let s0 = record s { by_attr = insert id kept s.by_attr } in
      elim (Option-cases (mark_dirty n id s0)) [
        | inl e ↦ (let w = rw (e, remove_from) at h in cc)
        | inr (s1, e) ↦
            (let frame = mark_dirty-IsFramed n id s0 s1 e in
              let (rest, same) = remove_from_lem n source ids s1 s' x (rw (e, remove_from) at h) in
              let first =
                ap (λ (t : Table ℤ (List (Modifier F))). modifiers_in t x) frame.0
                ∙ modifiers_in-insert id x kept s.by_attr in
              (rest ∙ rw (first) (dropped_once source id x ids s.by_attr), same ∙ frame.1))
      ]

  remove_modifiers_lem :
      (n : ℕ) (source : String) (info : SourceInfo F) (s s' : Instance F) (x : ℤ)
      → lookup source s.by_source ≡ some info
      → remove_modifiers n source s ≡ some s'
      → (modifiers_for s' x ≡ (
          if member x info.attr_ids
          then drop_source source (modifiers_for s x)
          else modifiers_for s x))
        × (s'.by_source ≡ delete source s.by_source)
  unfolding remove_modifiers remove_source_locked
  remove_modifiers_lem n source info s s' x found h =
      elim (Option-cases (remove_from n source info.attr_ids s)) [
        | inl e ↦
            (let k = rw (found, remove_modifiers) at h in
              let w = rw (e, remove_source_locked) at k in cc)
        | inr (s1, e) ↦
            (let k = rw (found, remove_modifiers) at h in
              let w = rw (e, remove_source_locked) at k in
              let same : record s1 { by_source = delete source s1.by_source } ≡ s' = cc in
              let (mods, sources) = remove_from_lem n source info.attr_ids s s1 x e in
              (
                ap (λ (y : Instance F). modifiers_for y x) (sym same) ∙ mods,
                ap (λ (y : Instance F). y.by_source) (sym same) ∙ ap (delete source) sources,
              ))
      ]

  add_modifiers_lem :
      (n : ℕ) (source : String) (mods : List (Modifier F)) (s s' : Instance F)
      → lookup source s.by_source ≡ none
      → add_modifiers n source mods s ≡ some s'
      → let ms = map (with_source source) mods in
        ((x : ℤ) → modifiers_for s' x ≡ modifiers_for s x ++ targeting x ms)
        × (s'.by_source
            ≡ insert source
                (record { mods = ms; attr_ids = map (λ (m : Modifier F). m.attr_id) ms })
                s.by_source)
  unfolding add_modifiers append_modifiers remove_modifiers
  add_modifiers_lem n source mods s s' fresh h =
      let ms = map (with_source source) mods in
      let ids = map (λ (m : Modifier F). m.attr_id) ms in
      let s1 = record s {
        by_attr = mount ms s.by_attr;
        by_source = insert source (record { mods = ms; attr_ids = ids }) s.by_source;
      } in
      let none_there : remove_modifiers n source s ≡ some s = rw (fresh, remove_modifiers) refl in
      let frame =
        mark_all-IsFramed (mark_dirty n) (mark_dirty-IsFramed n) ids s1 s'
          (rw (none_there, add_modifiers) at h) in
      (
        (λ x.
            ap (λ (t : Table ℤ (List (Modifier F))). modifiers_in t x) frame.0
            ∙ modifiers_in-mount ms s.by_attr x),
        frame.1,
      )

  delete_inserted :
      (source k : String) (info : SourceInfo F) (t : Table String (SourceInfo F))
      → lookup source t ≡ none
      → lookup k (delete source (insert source info t)) ≡ lookup k t
  delete_inserted source k info t fresh =
      lookup-delete source k (insert source info t) ∙ elim (Bool-cases (source =? k)) [
        | inl e ↦ rw (e) (sym fresh ∙ ap (λ (j : String). lookup j t) (eq_of_eq source k e))
        | inr e ↦ rw (e, lookup-insert source k info t, e) refl
      ]

  taken_back :
      (source : String) (mods ms : List (Modifier F)) (x : ℤ)
      → All (λ m. (m.source =? source) ≡ false) ms
      → let new = targeting x (map (with_source source) mods) in
        (if member x (map (λ (m : Modifier F). m.attr_id) (map (with_source source) mods))
          then drop_source source (ms ++ new)
          else (ms ++ new))
        ≡ ms
  taken_back source mods ms x h =
      elim (Bool-cases
        (member x (map (λ (m : Modifier F). m.attr_id) (map (with_source source) mods)))) [
          | inl e ↦
              rw
                (
                  e,
                  drop_source-append source ms (targeting x (map (with_source source) mods)),
                  drop_source_none source ms h,
                  drop_source_all source x mods,
                )
                (append-nil ms)
          | inr e ↦ rw (e, targeting_others (map (with_source source) mods) x e) (append-nil ms)
        ]

module _ {F : Type 0} ⦃f : Float F⦄ (rank : ℤ → ℕ) (levels : ℕ) (us : List ℤ) (n : ℕ)
    (enough : suc (length us) < n) where
  -- In a good state, for a source that is not there and of which no modifier is there, and a batch in
  -- which every reference to an attribute is a dependency that the registry records and along which the
  -- rank falls, AddModifiers and RemoveModifiers of the source end, on fuel above the number of
  -- dependent attributes, and every attribute has the modifiers that it had, in their order, and the
  -- sources are what they were.
  pub remove_modifiers-add_modifiers :
      (source : String) (mods : List (Modifier F)) (s : Instance F)
      → IsReady rank levels us n enough s
      → IsAllowed s.reg rank mods
      → lookup source s.by_source ≡ none
      → ((x : ℤ) → All (λ m. (m.source =? source) ≡ false) (modifiers_for s x))
      → (s1 s2 : Instance F) × (add_modifiers n source mods s ≡ some s1)
        × (remove_modifiers n source s1 ≡ some s2)
        × ((x : ℤ) → modifiers_for s2 x ≡ modifiers_for s x)
        × ((k : String) → lookup k s2.by_source ≡ lookup k s.by_source)
  remove_modifiers-add_modifiers source mods s ready allowed fresh none_of =
      let ms = map (with_source source) mods in
      let ids = map (λ (m : Modifier F). m.attr_id) ms in
      let info : SourceInfo F = record { mods = ms; attr_ids = ids } in
      let (s1, added, good, e) =
        add_modifiers-Ends rank levels us n enough source mods s ready allowed in
      let (s2, removed, good', e') =
        remove_modifiers-Ends rank levels us n enough source s1
          (IsCovered-same rank levels us n enough s s1 e ready.0, good) in
      let (mods1, sources1) = add_modifiers_lem n source mods s s1 fresh added in
      let found = ap (lookup source) sources1 ∙ lookup-insert_self source info s.by_source in
      (
        s1,
        s2,
        added,
        removed,
        (λ x.
            (remove_modifiers_lem n source info s1 s2 x found removed).0
            ∙ rw (mods1 x) (taken_back source mods (modifiers_for s x) x (none_of x))),
        (λ k.
            ap (lookup k) (
              (remove_modifiers_lem n source info s1 s2 (ℤ.pos 0) found removed).1
              ∙ ap (delete source) sources1)
            ∙ delete_inserted source k info s.by_source fresh),
      )
