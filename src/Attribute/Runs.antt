-- ===== src/Attribute/Runs.antt =====
-- The life of an instance: NewInstance and any methods after it
-- (backend/internal/attribute/instance.go and calculation.go).
use milkyway_liluo_idle.Prelude.{
  ℕ, suc, ◌<◌, ◌≤◌, ◌≡◌, refl, ◌∙◌, true, Option, none, some, List, [], ◌∷◌, length, ℤ, int_eq,
  String, member, lookup, or_zero, All, subst, sym, arith,
}
use milkyway_liluo_idle.Float.{Float}
use milkyway_liluo_idle.Attribute.{
  Modifier, Registry, Instance, is_dirty, modifiers_in, reverse_deps, remove_modifiers,
  add_modifiers, update_modifiers, new_instance,
}
use milkyway_liluo_idle.Attribute.Calculation.{cache_hit, get_final}
use milkyway_liluo_idle.Attribute.Reference.{value_of}
use milkyway_liluo_idle.Attribute.Final.{with_cache, get_final-Gives}
use milkyway_liluo_idle.Attribute.Batches.{IsAllowed}
use milkyway_liluo_idle.Attribute.Tracking.{IsGood, cache_of, Depends-IsRanked}
use milkyway_liluo_idle.Attribute.Operations.{
  Ends, IsReady, mount-Ends, remove_modifiers-Ends, add_modifiers-Ends, update_modifiers-Ends,
  IsCovered-same,
}

pub data Call (F : Type 0) : Type 0 where
  add update : String → List (Modifier F) → Call F
  remove : String → Call F
  final : ℤ → Call F

module _ {F : Type 0} ⦃f : Float F⦄ where
  -- The state after a result that is not used.
  abbrev state_of : Option (F × Instance F) → Option (Instance F)
  state_of none = none
  state_of (some (v, s)) = some s

  unfoldable pub run : ℕ → Call F → Instance F → Option (Instance F)
  unfolding add_modifiers update_modifiers remove_modifiers get_final
  run n (add source mods) s = add_modifiers n source mods s
  run n (update source mods) s = update_modifiers n source mods s
  run n (remove source) s = remove_modifiers n source s
  run n (final id) s = state_of (get_final n none id [] s)

  unfoldable pub run_all : ℕ → List (Call F) → Instance F → Option (Instance F)
  unfolding run
  run_all n [] s = some s
  run_all n (c ∷ cs) s = elim (run n c s) [ none ↦ none | some s' ↦ run_all n cs s' ]

  -- The life of an instance.
  unfoldable pub live : ℕ → Registry F → List (Call F) → Option (Instance F)
  unfolding new_instance run_all
  live n reg cs = elim (new_instance n reg) [ none ↦ none | some s ↦ run_all n cs s ]

  abbrev pub CallIsAllowed : Registry F → (ℤ → ℕ) → Call F → Type 0
  CallIsAllowed reg rank (add source mods) = IsAllowed reg rank mods
  CallIsAllowed reg rank (update source mods) = IsAllowed reg rank mods
  CallIsAllowed reg rank _ = Unit

  module _ (rank : ℤ → ℕ) (levels : ℕ) (bounded : (id : ℤ) → rank id < levels) (us : List ℤ) (n : ℕ)
      (enough : suc (length us) < n) (deep : levels ≤ n) where
    pub final-Ends :
        (id : ℤ) (s : Instance F)
        → IsReady rank levels us n enough s
        → (s' : Instance F) × (get_final n none id [] s ≡ some (value_of levels s id, s'))
          × IsGood rank levels s'
          × (s'.reg ≡ s.reg)
    unfolding cache_hit is_dirty
    final-Ends id s ready =
        let ranked = Depends-IsRanked rank s ready.1.allowed in
        let (c, gives, has) =
          get_final-Gives s rank levels bounded ranked n id [] (cache_of s)
            (omega (arith, bounded id)) tt ready.1.coherent in
        (with_cache s c, gives.0, record { allowed = ready.1.allowed; coherent = gives.1 }, refl)

    run-Ends :
        (c : Call F) (s : Instance F)
        → IsReady rank levels us n enough s
        → CallIsAllowed s.reg rank c
        → Ends rank levels us n enough s (run n c s)
    unfolding run
    run-Ends (add source mods) s ready allowed =
        add_modifiers-Ends rank levels us n enough source mods s ready allowed
    run-Ends (update source mods) s ready allowed =
        update_modifiers-Ends rank levels us n enough source mods s ready allowed
    run-Ends (remove source) s ready allowed =
        remove_modifiers-Ends rank levels us n enough source s ready
    run-Ends (final id) s ready allowed =
        let (s', h, good, e) = final-Ends id s ready in (s', rw (h) refl, good, e)

    run_all-Ends :
        (cs : List (Call F)) (s : Instance F)
        → IsReady rank levels us n enough s
        → All (CallIsAllowed s.reg rank) cs
        → Ends rank levels us n enough s (run_all n cs s)
    unfolding run_all
    run_all-Ends [] s ready allowed = (s, refl, ready.1, refl)
    run_all-Ends (c ∷ cs) s ready allowed =
        let (s1, h, good, e) = run-Ends c s ready allowed.0 in
        let covered = IsCovered-same rank levels us n enough s s1 e ready.0 in
        let (s', h', good', e') =
          run_all-Ends cs s1 (covered, good)
            (subst (λ (r : Registry F). All (CallIsAllowed r rank) cs) (sym e) allowed.1) in
        (s', rw (h, run_all) h', good', e' ∙ e)

    new_instance-Ends :
        (reg : Registry F)
        → ((x : ℤ) → All (λ y. member y us ≡ true) (reverse_deps reg x))
        → IsAllowed reg rank reg.static_mods
        → (s : Instance F) × (new_instance n reg ≡ some s) × IsGood rank levels s × (s.reg ≡ reg)
    unfolding new_instance cache_hit is_dirty modifiers_in lookup or_zero
    new_instance-Ends reg covered allowed =
        let blank : Instance F = record {
          reg = reg;
          by_attr = [];
          by_source = [];
          cached = [];
          dirty = [];
          bucket = none;
        } in
        let good : IsGood rank levels blank = record {
          allowed = λ id. tt;
          coherent = λ id v h. cc;
        } in
        mount-Ends rank levels us n enough reg.static_mods [] blank (covered, good) allowed

    -- If the registry has the dependency of every reference in its static modifiers and in the batches
    -- that are added, and a rank of the attributes falls along them, then after NewInstance and any
    -- calls of AddModifiers, UpdateModifiers, RemoveModifiers and GetFinal, all of which end on fuel
    -- above the number of dependent attributes, GetFinal returns the value that a calculation from
    -- the modifiers without a cache gives.
    pub get_final-live :
        (reg : Registry F) (cs : List (Call F)) (id : ℤ)
        → ((x : ℤ) → All (λ y. member y us ≡ true) (reverse_deps reg x))
        → IsAllowed reg rank reg.static_mods
        → All (CallIsAllowed reg rank) cs
        → (s s' : Instance F) × (live n reg cs ≡ some s)
          × (get_final n none id [] s ≡ some (value_of levels s id, s'))
    unfolding live
    get_final-live reg cs id covered static allowed =
        let (s0, h, good, e) = new_instance-Ends reg covered static in
        let covers =
          λ (r : Registry F). (x : ℤ) → All (λ y. member y us ≡ true) (reverse_deps r x) in
        let (s, h', good', e') =
          run_all-Ends cs s0 (subst covers (sym e) covered, good)
            (subst (λ (r : Registry F). All (CallIsAllowed r rank) cs) (sym e) allowed) in
        let (s', h'', good'', e'') = final-Ends id s (subst covers (sym (e' ∙ e)) covered, good') in
        (s, s', rw (h, live) h', h'')
