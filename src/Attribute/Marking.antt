-- ===== src/Attribute/Marking.antt =====
-- The spread of the dirty marks along the reverse dependencies
-- (backend/internal/attribute/calculation.go, markDirty).
use mathlib.Core.Bool.{false≢true}
use mathlib.Core.Option.{some-injective}
use milkyway_liluo_idle.Prelude.{
  ℕ, zero, suc, ◌<◌, ◌≤◌, ◌≡◌, refl, sym, ◌∙◌, Bool, true, false, not, ◌&&◌, ◌||◌, if◌then◌else◌,
  Option, none, some, List, [], ◌∷◌, ℤ, Table, insert, lookup, member, include, lookup-insert,
  member-include, or_zero, All, ◌=?◌, int_eq, eq_of_eq, eq_refl, subst, Bool-cases, inl, inr, arith,
}
use milkyway_liluo_idle.Attribute.{
  Instance, is_dirty, reverse_deps, set_dirty, mark_all, mark_dirty,
}

-- The marks, and the bucket that records new ones.
abbrev pub Marks : Type 0
Marks = Table ℤ Bool × Option (List ℤ)

unfoldable pub dirty_in : Marks → ℤ → Bool
unfolding or_zero lookup
dirty_in d x = or_zero false (lookup x d.0)

abbrev marked : ℤ → Marks → Marks
unfolding insert include
marked id d = (insert id true d.0, elim d.1 [ none ↦ none | some b ↦ some (include id b) ])

dirty_in-marked : (id x : ℤ) (d : Marks) → dirty_in (marked id d) x ≡ ((id =? x) || dirty_in d x)
unfolding dirty_in marked or_zero
dirty_in-marked id x d = ground (arith, lookup-insert id x true d.0)

-- How many attributes of a list have no mark.
abbrev pub unmarked : List ℤ → Marks → ℕ
unmarked [] d = 0
unmarked (x ∷ xs) d = let rest = unmarked xs d in if dirty_in d x then rest else suc rest

abbrev pub IsMore : Marks → Marks → Type 0
IsMore d d' = (x : ℤ) → dirty_in d x ≡ true → dirty_in d' x ≡ true

unmarked-IsMore : (d d' : Marks) → IsMore d d' → (xs : List ℤ) → unmarked xs d' ≤ unmarked xs d
unfolding dirty_in
unmarked-IsMore d d' more [] = omega arith
unmarked-IsMore d d' more (x ∷ xs) = ground (arith, unmarked-IsMore d d' more xs, more x)

marked-IsMore : (id : ℤ) (d : Marks) → IsMore d (marked id d)
marked-IsMore id d x h = dirty_in-marked id x d ∙ ground arith

unmarked-marked :
    (id : ℤ) (d : Marks) (xs : List ℤ)
    → member id xs ≡ true
    → dirty_in d id ≡ false
    → unmarked xs (marked id d) < unmarked xs d
unfolding member dirty_in
unmarked-marked id d [] m h = absurd (false≢true m)
unmarked-marked id d (x ∷ xs) m h =
    let less = unmarked-IsMore d (marked id d) (marked-IsMore id d) xs in
    elim (Bool-cases (x =? id)) [
      | inl e ↦ ground (arith, less, dirty_in-marked id x d, eq_of_eq x id e, eq_refl id)
      | inr e ↦
          (let rest = unmarked-marked id d xs (rw (e) at m) h in
            ground (arith, rest, dirty_in-marked id x d))
    ]

-- The bucket, if there is one, gains just the attributes that have gained a mark.
abbrev pub IsRecorded : Marks → Marks → Type 0
IsRecorded d d' =
    (b : List ℤ)
    → d.1 ≡ some b
    → (b' : List ℤ) × (d'.1 ≡ some b')
      × ((x : ℤ) → member x b' ≡ (member x b || (not (dirty_in d x) && dirty_in d' x)))

IsRecorded-refl : (d : Marks) → IsRecorded d d
IsRecorded-refl d b e = (b, e, λ x. ground arith)

IsRecorded-trans :
    (d d' d'' : Marks)
    → IsMore d d'
    → IsMore d' d''
    → IsRecorded d d'
    → IsRecorded d' d''
    → IsRecorded d d''
IsRecorded-trans d d' d'' more more' r r' b e =
    let (b', e', h) = r b e in
    let (b'', e'', h') = r' b' e' in (b'', e'', λ x. ground (arith, h x, h' x, more x, more' x))

IsRecorded-marked : (id : ℤ) (d : Marks) → dirty_in d id ≡ false → IsRecorded d (marked id d)
unfolding marked
IsRecorded-marked id (t, none) n b e = cc
IsRecorded-marked id (t, some b0) n b e = (
  include id b0,
  refl,
  λ x.
      member-include id x b0
      ∙ ground (arith, some-injective b0 b e, dirty_in-marked id x (t, some b0), eq_of_eq id x),
)

module _ {F : Type 0} (s : Instance F) where
  abbrev pub with_marks : Marks → Instance F
  with_marks d = record s { dirty = d.0; bucket = d.1 }

  abbrev pub AreDirty : Marks → List ℤ → Type 0
  AreDirty d xs = All (λ y. dirty_in d y ≡ true) xs

  pub AreDirty-IsMore : (d d' : Marks) (xs : List ℤ) → IsMore d d' → AreDirty d xs → AreDirty d' xs
  AreDirty-IsMore d d' [] more h = tt
  AreDirty-IsMore d d' (x ∷ xs) more h = (more x h.0, AreDirty-IsMore d d' xs more h.1)

  -- What has gained a mark has passed it on.
  abbrev pub IsSpread : Marks → Marks → Type 0
  IsSpread d d' =
      (x : ℤ) → dirty_in d x ≡ false → dirty_in d' x ≡ true → AreDirty d' (reverse_deps s.reg x)

  abbrev pub HasSpread : Marks → Marks → Type 0
  HasSpread d d' = IsMore d d' × IsSpread d d' × IsRecorded d d'

  HasSpread-refl : (d : Marks) → HasSpread d d
  HasSpread-refl d = ((λ x h. h), (λ x n h. absurd (false≢true (sym n ∙ h))), IsRecorded-refl d)

  HasSpread-trans : (d d' d'' : Marks) → HasSpread d d' → HasSpread d' d'' → HasSpread d d''
  HasSpread-trans d d' d'' a b = (
    (λ x h. b.0 x (a.0 x h)),
    (λ x n h. elim (Bool-cases (dirty_in d' x)) [
      | inl e ↦ AreDirty-IsMore d' d'' (reverse_deps s.reg x) b.0 (a.1 x n e)
      | inr e ↦ b.1 x e h
    ]),
    IsRecorded-trans d d' d'' a.0 b.0 a.2 b.2,
  )

  -- All attributes that a mark can reach are in the list.
  abbrev pub IsCovered : List ℤ → Type 0
  IsCovered us = (x : ℤ) → All (λ y. member y us ≡ true) (reverse_deps s.reg x)

  -- A call marks an attribute, and spreads the mark.
  abbrev pub Marking : (ℤ → Instance F → Option (Instance F)) → Marks → ℤ → Type 0
  Marking mark d id =
      (d' : Marks) × (mark id (with_marks d) ≡ some (with_marks d'))
      × HasSpread d d'
      × (dirty_in d' id ≡ true)

  All-Ready :
      (Ready : Marks → ℤ → Type 0) (d d' : Marks)
      → ((id : ℤ) → Ready d id → Ready d' id)
      → (ids : List ℤ) → All (Ready d) ids
      → All (Ready d') ids
  All-Ready Ready d d' g [] h = tt
  All-Ready Ready d d' g (id ∷ ids) h = (g id h.0, All-Ready Ready d d' g ids h.1)

  -- `Ready` says when a call is made, and more marks do not harm it.
  pub mark_all-HasSpread :
      (Ready : Marks → ℤ → Type 0) (mark : ℤ → Instance F → Option (Instance F))
      → ((id : ℤ) (d : Marks) → Ready d id → Marking mark d id)
      → ((d d' : Marks) (id : ℤ) → IsMore d d' → Ready d id → Ready d' id)
      → (ids : List ℤ) (d : Marks) → All (Ready d) ids
      → (d' : Marks) × (mark_all mark ids (with_marks d) ≡ some (with_marks d'))
        × HasSpread d d'
        × AreDirty d' ids
  unfolding mark_all
  mark_all-HasSpread Ready mark marking more [] d c = (d, refl, HasSpread-refl d, tt)
  mark_all-HasSpread Ready mark marking more (id ∷ ids) d c =
      let (d1, e, spread, is) = marking id d c.0 in
      let ready = All-Ready Ready d d1 (λ x. more d d1 x spread.0) ids c.1 in
      let (d2, e', spread', are) = mark_all-HasSpread Ready mark marking more ids d1 ready in
      (d2, rw (e, mark_all) e', HasSpread-trans d d1 d2 spread spread', (spread'.0 id is, are))

  -- The mark itself, and what it spreads.
  from_marked :
      (id : ℤ) (d d' : Marks)
      → dirty_in d id ≡ false
      → HasSpread (marked id d) d'
      → AreDirty d' (reverse_deps s.reg id)
      → HasSpread d d'
  from_marked id d d' n spread are = (
    (λ x h. spread.0 x (marked-IsMore id d x h)),
    (λ x fresh is. elim (Bool-cases (id =? x)) [
      | inl e ↦ subst (λ (y : ℤ). AreDirty d' (reverse_deps s.reg y)) (eq_of_eq id x e) are
      | inr e ↦ spread.1 x (dirty_in-marked id x d ∙ rw (e) fresh) is
    ]),
    IsRecorded-trans d (marked id d) d' (marked-IsMore id d) spread.0 (IsRecorded-marked id d n)
        spread.2,
  )

  -- A call that is made on an attribute of the list, with the fuel for it.
  abbrev IsReady : List ℤ → ℕ → Marks → ℤ → Type 0
  IsReady us n d id = (member id us ≡ true) × (unmarked us d < n)

  All-IsReady :
      (us : List ℤ) (n : ℕ) (d : Marks) (ids : List ℤ)
      → unmarked us d < n
      → All (λ y. member y us ≡ true) ids
      → All (IsReady us n d) ids
  All-IsReady us n d [] h c = tt
  All-IsReady us n d (id ∷ ids) h c = ((c.0, h), All-IsReady us n d ids h c.1)

  pub mark_dirty-HasSpread :
      (us : List ℤ)
      → IsCovered us
      → (n : ℕ) (id : ℤ) (d : Marks) → member id us ≡ true
      → unmarked us d < n
      → Marking (mark_dirty n) d id
  unfolding mark_dirty set_dirty is_dirty dirty_in
  mark_dirty-HasSpread us covered zero id d m h = absurd (omega arith)
  mark_dirty-HasSpread us covered (suc n) id d m h = elim (Bool-cases (dirty_in d id)) [
    | inl e ↦ (d, rw (e) refl, HasSpread-refl d, e)
    | inr e ↦
        (let (d', e', spread, are) =
            mark_all-HasSpread (IsReady us n) (mark_dirty n)
              (λ y d1 r. mark_dirty-HasSpread us covered n y d1 r.0 r.1)
              (λ d1 d2 y more r. (r.0, omega (arith, unmarked-IsMore d1 d2 more us, r.1)))
              (reverse_deps s.reg id) (marked id d)
              (All-IsReady us n (marked id d) (reverse_deps s.reg id)
                (omega (arith, unmarked-marked id d us m e)) (covered id)) in
          (
            d',
            rw (e) e',
            from_marked id d d' e spread are,
            spread.0 id (dirty_in-marked id id d ∙ rw (eq_refl id) refl),
          ))
  ]
