-- ===== src/Attribute/Preview.antt =====
-- GetFinalWithContext (backend/internal/attribute/calculation.go and context.go) leaves no trace.
use milkyway_liluo_idle.Prelude.{
  ℕ, zero, suc, ◌<◌, ◌≡◌, refl, true, Option, some, List, [], ◌∷◌, ◌++◌, ℤ, pos, String, insert,
  member, All, ◌=?◌, string_eq, int_eq, Bool-cases, inl, inr, arith,
}
use milkyway_liluo_idle.Float.{Float}
use milkyway_liluo_idle.Attribute.{
  Modifier, Instance, Context, op_add, op_multiply, op_override, is_ref, modifiers_for,
}
use milkyway_liluo_idle.Attribute.Calculation.{
  adding, multiplying, overriding, default_value, clamped, phase, phases, start_value, cache_hit,
  store, temp_mods_for, recalculate, get_final,
}

module _ {F : Type 0} ⦃f : Float F⦄ where
  -- `NewContext`, `SetBase`, `AddMod` and `AddMult`
  abbrev pub new_context : Context F
  new_context = record { temp_base = []; temp_mods = [] }

  unfoldable pub set_base : ℤ → F → Context F → Context F
  unfolding insert
  set_base id v ctx = record ctx { temp_base = insert id v ctx.temp_base }

  abbrev temp_mod : ℤ → String → F → String → Modifier F
  temp_mod id op v display = record {
    attr_id = id;
    op = op;
    value = v;
    ref_attr = pos 0;
    display = display;
    source = "temp";
    priority = pos 0;
  }

  unfoldable pub add_mod : ℤ → F → Context F → Context F
  add_mod id v ctx = record ctx { temp_mods = ctx.temp_mods ++ (temp_mod id op_add v "FIXED" ∷ []) }

  unfoldable pub add_mult : ℤ → F → Context F → Context F
  add_mult id v ctx = record ctx {
    temp_mods = ctx.temp_mods ++ (temp_mod id op_multiply v "PERCENT" ∷ []);
  }

  -- A computation gives a value and the state that it was given.
  abbrev Previews : Instance F → Option (F × Instance F) → Type 0
  Previews s o = (v : F) × (o ≡ some (v, s))

  module _ (s : Instance F) where
    phase-Previews :
        (read : ℤ → Instance F → Option (F × Instance F)) (op : String) (combine : F → F → F)
        (ms : List (Modifier F)) (v : F)
        → All (λ m. is_ref m ≡ true → Previews s (read m.ref_attr s)) ms
        → Previews s (phase read op combine ms v s)
    unfolding phase
    phase-Previews read op combine [] v h = (v, refl)
    phase-Previews read op combine (m ∷ ms) v h = elim (Bool-cases (m.op =? op)) [
      | inr e ↦ rw (e) (phase-Previews read op combine ms v h.1)
      | inl e ↦ elim (Bool-cases (is_ref m)) [
        | inr r ↦ rw (e, r) (phase-Previews read op combine ms (combine v m.value) h.1)
        | inl r ↦
            (let (x, given) = h.0 r in
              rw (e, r, given) (phase-Previews read op combine ms (combine v x) h.1))
      ]
    ]

    phases-Previews :
        (read : ℤ → Instance F → Option (F × Instance F)) (ms : List (Modifier F)) (v : F)
        → All (λ m. is_ref m ≡ true → Previews s (read m.ref_attr s)) ms
        → Previews s (phases read ms v s)
    unfolding phases
    phases-Previews read ms v h =
        let (v1, e1) = phase-Previews read op_add adding ms v h in
        let (v2, e2) = phase-Previews read op_multiply multiplying ms v1 h in
        rw (e1, e2) (phase-Previews read op_override overriding ms v2 h)

    -- A reference of the modifiers of an attribute, those of the context included, has a lower rank.
    abbrev pub AllRanked : (ℤ → ℕ) → Context F → Type 0
    AllRanked rank ctx =
        (id : ℤ)
        → All (λ m. is_ref m ≡ true → rank m.ref_attr < rank id)
            (modifiers_for s id ++ temp_mods_for (some ctx) id)

    reads :
        (P : ℤ → Type 0) (rank : ℤ → ℕ) (k : ℕ) (ms : List (Modifier F))
        → ((r : ℤ) → rank r < k → P r)
        → All (λ m. is_ref m ≡ true → rank m.ref_attr < k) ms
        → All (λ m. is_ref m ≡ true → P m.ref_attr) ms
    reads P rank k [] g h = tt
    reads P rank k (m ∷ ms) g h = ((λ r. g m.ref_attr (h.0 r)), reads P rank k ms g h.1)

    -- If a rank of the attributes falls along the references, those of the context included, then
    -- GetFinalWithContext ends, on fuel above the rank of the attribute, and leaves the instance as it
    -- was: the cache, the dirty marks and the recorder's bucket too.
    pub get_final-Previews :
        (rank : ℤ → ℕ) (ctx : Context F) (n : ℕ) (id : ℤ) (visited : List ℤ)
        → AllRanked rank ctx
        → rank id < n
        → (v : F) × (get_final n (some ctx) id visited s ≡ some (v, s))
    unfolding get_final cache_hit recalculate store
    get_final-Previews rank ctx zero id visited ranked h = absurd (omega arith)
    get_final-Previews rank ctx (suc n) id visited ranked h =
        elim (Bool-cases (member id visited)) [
          | inl e ↦ (default_value s.reg id, rw (e) refl)
          | inr e ↦
              (let ms = modifiers_for s id ++ temp_mods_for (some ctx) id in
                let read =
                  λ (r : ℤ) (s' : Instance F). get_final n (some ctx) r (id ∷ visited) s' in
                let (v, k) = phases-Previews read ms (start_value (some ctx) s.reg id) (
                  reads (λ r. Previews s (read r s)) rank (rank id) ms
                    (λ r low.
                      get_final-Previews rank ctx n r (id ∷ visited) ranked (omega (arith, h)))
                    (ranked id)) in
                (clamped s.reg id v, rw (e, k) refl))
        ]
