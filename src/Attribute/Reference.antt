-- ===== src/Attribute/Reference.antt =====
-- The value that an attribute should have: the three phases over its modifiers, in which a reference
-- is the value of the other attribute. It is defined with no cache and no marks, by recursion on a
-- number of levels; a rank of the attributes, which falls along references, says how many are enough.
use milkyway_liluo_idle.Prelude.{
  ℕ, zero, suc, ◌<◌, ◌≡◌, refl, ◌∙◌, ap, Bool, true, ◌||◌, if◌then◌else◌, List, [], ◌∷◌, ℤ, String,
  Table, All, ◌=?◌, string_eq, eq_of_eq, Bool-cases, inl, inr, arith,
}
use milkyway_liluo_idle.Float.{Float}
use milkyway_liluo_idle.Attribute.{
  Modifier, Registry, Instance, op_add, op_multiply, op_override, is_ref, modifiers_in,
  modifiers_for,
}
use milkyway_liluo_idle.Attribute.Calculation.{
  adding, multiplying, overriding, default_value, clamped,
}

abbrev pub is_known : String → Bool
is_known op = (op =? op_add) || (op =? op_multiply) || (op =? op_override)

module _ {F : Type 0} where
  -- The predicate holds of the attributes that the modifiers refer to.
  abbrev pub OnRefs : (ℤ → Type 0) → List (Modifier F) → Type 0
  OnRefs P ms = All (λ m. is_known m.op ≡ true → is_ref m ≡ true → P m.ref_attr) ms

  pub OnRefs-map :
      (P Q : ℤ → Type 0) (ms : List (Modifier F))
      → ((r : ℤ) → P r → Q r)
      → OnRefs P ms
      → OnRefs Q ms
  OnRefs-map P Q [] g h = tt
  OnRefs-map P Q (m ∷ ms) g h = (λ k r. g m.ref_attr (h.0 k r), OnRefs-map P Q ms g h.1)

  -- One phase, where `val` gives the values of other attributes.
  unfoldable pub phase_value : (ℤ → F) → String → (F → F → F) → List (Modifier F) → F → F
  phase_value val op combine [] v = v
  phase_value val op combine (m ∷ ms) v =
      phase_value val op combine ms
        (if m.op =? op then combine v (if is_ref m then val m.ref_attr else m.value) else v)

  pub phase_value_agree :
      (val val' : ℤ → F) (op : String) (combine : F → F → F) (ms : List (Modifier F)) (v : F)
      → is_known op ≡ true
      → OnRefs (λ r. val r ≡ val' r) ms
      → phase_value val op combine ms v ≡ phase_value val' op combine ms v
  unfolding phase_value
  phase_value_agree val val' op combine [] v k h = refl
  phase_value_agree val val' op combine (m ∷ ms) v k h =
      let rest = λ (w : F). phase_value_agree val val' op combine ms w k h.1 in
      elim (Bool-cases (m.op =? op)) [
        | inr e ↦ rw (e) (rest v)
        | inl e ↦ elim (Bool-cases (is_ref m)) [
          | inr c ↦ rw (e, c) (rest (combine v m.value))
          | inl c ↦
              rw (e, c)
                (ap (λ (x : F). phase_value val op combine ms (combine v x))
                    (h.0 (ap is_known (eq_of_eq m.op op e) ∙ k) c)
                  ∙ rest (combine v (val' m.ref_attr)))
        ]
      ]

module _ {F : Type 0} ⦃f : Float F⦄ where
  unfoldable pub phases_value : (ℤ → F) → List (Modifier F) → F → F
  unfolding phase_value
  phases_value val ms v =
      phase_value val op_override overriding ms
        (phase_value val op_multiply multiplying ms (phase_value val op_add adding ms v))

  pub phases_value_agree :
      (val val' : ℤ → F) (ms : List (Modifier F)) (v : F)
      → OnRefs (λ r. val r ≡ val' r) ms
      → phases_value val ms v ≡ phases_value val' ms v
  unfolding phases_value
  phases_value_agree val val' ms v h = rw (phase_value_agree val val' op_add adding ms v refl h) (
      rw
        (phase_value_agree val val' op_multiply multiplying ms (phase_value val' op_add adding ms v)
          refl h)
        (phase_value_agree val val' op_override overriding ms
          (phase_value val' op_multiply multiplying ms (phase_value val' op_add adding ms v)) refl
          h))

  -- The value of an attribute, with a number of levels of references.
  unfoldable pub value_at : ℕ → Registry F → Table ℤ (List (Modifier F)) → ℤ → F
  unfolding clamped phases_value default_value modifiers_in
  value_at zero reg t id = default_value reg id
  value_at (suc n) reg t id =
      clamped reg id (phases_value (value_at n reg t) (modifiers_in t id) (default_value reg id))

  abbrev pub value_of : ℕ → Instance F → ℤ → F
  value_of n s id = value_at n s.reg s.by_attr id

  -- The rank falls along the references of the modifiers.
  abbrev pub IsRanked : (ℤ → ℕ) → Instance F → Type 0
  IsRanked rank s = (id : ℤ) → OnRefs (λ r. rank r < rank id) (modifiers_for s id)

  -- More levels than the rank make no difference.
  pub value_at_stable :
      (rank : ℤ → ℕ) (s : Instance F)
      → IsRanked rank s
      → (n m : ℕ) (id : ℤ) → rank id < n
      → rank id < m
      → value_of n s id ≡ value_of m s id
  unfolding value_at
  value_at_stable rank s ranked zero m id h k = absurd (omega arith)
  value_at_stable rank s ranked (suc n) zero id h k = absurd (omega arith)
  value_at_stable rank s ranked (suc n) (suc m) id h k = ap (clamped s.reg id) (
      phases_value_agree (value_of n s) (value_of m s) (modifiers_for s id) (default_value s.reg id)
        (OnRefs-map (λ r. rank r < rank id) (λ r. value_of n s r ≡ value_of m s r)
          (modifiers_for s id)
          (λ r lower. value_at_stable rank s ranked n m r (omega arith) (omega arith)) (ranked id)))
