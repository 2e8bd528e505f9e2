-- ===== src/Skill/Levels.antt =====
-- The level curve: the walk of `nextLevel` against the search of `Level`, and `XPForLevel` against
-- `Level` (backend/internal/skill/state.go).
use mathlib.Core.Bool.{false≢true}
use milkyway_liluo_idle.Prelude.{
  ◌≡◌, refl, sym, ◌∙◌, ℕ, zero, suc, ◌≤◌, ◌<◌, Bool, true, false, ltb, ltb→lt, if◌then◌else◌, arith,
  Bool-cases, inl, inr, some, List, [], ◌∷◌, length, get_elem?, drop, All, All-get_elem?, drop-cons,
  drop-nil, lt→ltb, split_at, get_elem?-some, subst, pos,
}
use milkyway_liluo_idle.Float.{Float, ◌≤?◌, ◌<?◌, IsOrdered, IsCounting, nought}
use milkyway_liluo_idle.Float.Order.{lt_of_lt_le, lt_of_le_lt}
use milkyway_liluo_idle.Skill.{
  exceeds, level_index, level, walk, next_index, next_level, xp_at, xp_for_level,
}
use milkyway_liluo_idle.Skill.Search.{IsFirst, IsUpward, search-IsFirst, IsFirst-unique}

module _ {F : Type 0} ⦃f : Float F⦄ where
  -- A later level needs at least the experience of an earlier one.
  abbrev pub IsRising : List F → Type 0
  IsRising [] = Unit
  IsRising (x ∷ c) = All (λ y. (x ≤? y) ≡ true) c × IsRising c

  exceeds_at : (c : List F) (xp x : F) (m : ℕ) → get_elem? c m ≡ some x → exceeds c xp m ≡ (xp <? x)
  unfolding exceeds
  exceeds_at c xp x m e = rw (exceeds, e) refl

  exceeds-IsUpward :
      (o : IsOrdered F) (c : List F) (xp : F) → IsRising c → IsUpward (length c) (exceeds c xp)
  unfolding exceeds
  exceeds-IsUpward o [] xp r l m h k t = absurd (omega (arith, k))
  exceeds-IsUpward o (x ∷ c) xp r zero zero h k t = t
  exceeds-IsUpward o (x ∷ c) xp r (suc l) zero h k t = absurd (omega (arith, h))
  exceeds-IsUpward o (x ∷ c) xp r (suc l) (suc m) h k t =
      exceeds-IsUpward o c xp r.1 l m (omega (arith, h)) (omega (arith, k)) t
  exceeds-IsUpward o (x ∷ c) xp r zero (suc m) h k t =
      let at = All-get_elem? (λ y. (x ≤? y) ≡ true) c m (omega (arith, k)) r.0 in
      exceeds_at c xp at.0 m at.1.0 ∙ lt_of_lt_le o xp x at.0 t at.1.1

  -- `Level` is the first index of the curve that exceeds the experience.
  pub level_index-IsFirst :
      (o : IsOrdered F) (c : List F) (xp : F)
      → IsRising c
      → IsFirst (length c) (exceeds c xp) (level_index c xp)
  unfolding level_index
  level_index-IsFirst o [] xp r = (
    omega arith,
    omega arith,
    λ m l. absurd (omega (arith, l)),
    λ m k l. absurd (omega (arith, l)),
  )
  level_index-IsFirst o (x ∷ c) xp r =
      let u = exceeds-IsUpward o (x ∷ c) xp r in
      elim (Bool-cases (xp <? x)) [
        | inl p ↦ rw (p) (
          omega arith,
          omega arith,
          λ m l. absurd (omega (arith, l)),
          λ m k l. u 0 m (omega arith) l (exceeds_at (x ∷ c) xp x 0 refl ∙ p),
        )
        | inr p ↦ rw (p) (search-IsFirst (length (x ∷ c)) (exceeds (x ∷ c) xp) u)
      ]

  -- The value of the curve at an index, with what `exceeds` says of it.
  at_index :
      (c : List F) (xp : F) (l : ℕ)
      → l < length c
      → (y : F) × ((get_elem? c l ≡ some y) × (exceeds c xp l ≡ (xp <? y)))
  at_index c xp l h = let at = split_at l c h in (at.0, (at.1, exceeds_at c xp at.0 l at.1))

  -- More experience is not a lower level.
  pub level_index_mono :
      (o : IsOrdered F) (c : List F) (x y : F)
      → IsRising c
      → (x ≤? y) ≡ true
      → level_index c x ≤ level_index c y
  level_index_mono o c x y r h =
      let first = level_index-IsFirst o c x r in
      let second = level_index-IsFirst o c y r in
      elim (Bool-cases (ltb (level_index c y) (level_index c x))) [
        | inr p ↦ ground (arith, p)
        | inl p ↦
            (let l = ltb→lt (level_index c y) (level_index c x) p in
              let inside : level_index c y < length c = omega (arith, l, first.1) in
              let at = at_index c y (level_index c y) inside in
              let above = sym at.1.1 ∙ second.3 (level_index c y) (omega arith) inside in
              absurd (
                false≢true (
                  sym (first.2 (level_index c y) l)
                  ∙ exceeds_at c x at.0 (level_index c y) at.1.0
                  ∙ lt_of_le_lt o x y at.0 h above)))
      ]

  before :
      (c : List F) (xp : F) (l : ℕ) (x : F)
      → get_elem? c l ≡ some x
      → (xp <? x) ≡ false
      → ((m : ℕ) → m < l → exceeds c xp m ≡ false)
      → (m : ℕ) → m < suc l
      → exceeds c xp m ≡ false
  before c xp l x e p b m h = elim (Bool-cases (ltb m l)) [
    | inl q ↦ b m (ltb→lt m l q)
    | inr q ↦
        (let same : l ≡ m = ground (arith, h, q) in
          subst (λ (i : ℕ). exceeds c xp i ≡ false) same (exceeds_at c xp x l e ∙ p))
  ]

  walk-IsFirst :
      (o : IsOrdered F) (c : List F) (xp : F) (l : ℕ) (rest : List F)
      → IsRising c
      → l ≤ length c
      → drop l c ≡ rest
      → ((m : ℕ) → m < l → exceeds c xp m ≡ false)
      → IsFirst (length c) (exceeds c xp) (walk xp l rest)
  unfolding walk
  walk-IsFirst o c xp l [] r h d b =
      (omega arith, h, b, λ m j k. absurd (omega (arith, j, k, drop-nil l c d)))
  walk-IsFirst o c xp l (x ∷ rest) r h d b =
      let at = drop-cons l x c rest d in
      elim (Bool-cases (xp <? x)) [
        | inl p ↦ rw (p) (
          omega arith,
          h,
          b,
          λ m j k. exceeds-IsUpward o c xp r l m j k (exceeds_at c xp x l at.0 ∙ p),
        )
        | inr p ↦ rw (p) (
            walk-IsFirst o c xp (suc l) rest r (get_elem?-some c l x at.0) at.1
              (before c xp l x at.0 p b))
      ]

  walk-stop :
      (l : ℕ) (c rest : List F) (xp : F)
      → drop l c ≡ rest
      → exceeds c xp l ≡ true
      → walk xp l rest ≡ l
  unfolding walk
  walk-stop l c [] xp d e = refl
  walk-stop l c (x ∷ rest) xp d e =
      let at = drop-cons l x c rest d in rw (sym (exceeds_at c xp x l at.0) ∙ e) refl

  next_index_max :
      (o : IsOrdered F) (c : List F) (old : ℕ) (xp : F)
      → IsRising c
      → old ≤ length c
      → next_index c old xp ≡ (if ltb old (level_index c xp) then level_index c xp else old)
  unfolding next_index
  next_index_max o c old xp r h =
      let first = level_index-IsFirst o c xp r in
      elim (Bool-cases (ltb old (length c))) [
        | inr p ↦ rw (p) (ground (arith, p, h, first.1))
        | inl p ↦ rw (p) (elim (Bool-cases (ltb old (level_index c xp))) [
          | inl q ↦ rw (q) (
              IsFirst-unique (length c) (exceeds c xp) _ _
                (walk-IsFirst o c xp old (drop old c) r h refl
                  (λ m j. first.2 m (omega (arith, j, ltb→lt old (level_index c xp) q))))
                first)
          | inr q ↦ rw (q) (
              walk-stop old c (drop old c) xp refl
                (first.3 old (ground (arith, q)) (ltb→lt old (length c) p)))
        ])
      ]

  -- On a rising curve, `nextLevel` from a level of the curve is the larger one of that level and
  -- `Level` of the experience.
  pub next_level_max :
      (o : IsOrdered F) (n : IsCounting F) (c : List F) (old : ℕ) (xp : F)
      → IsRising c
      → old ≤ length c
      → next_level c (f.of_int (pos old)) xp
        ≡ some (if ltb old (level_index c xp) then level c xp else f.of_int (pos old))
  unfolding next_level level
  next_level_max o n c old xp r h =
      rw (next_level, n.to_int-of_int old)
        (rw (next_index_max o c old xp r h) (push (ltb old (level_index c xp))))
    where
      push :
          (b : Bool)
          → some (f.of_int (pos (if b then level_index c xp else old)))
            ≡ some (if b then f.of_int (pos (level_index c xp)) else f.of_int (pos old))
      push true = refl
      push false = refl

  xp_for_level-suc :
      (o : IsOrdered F) (n : IsCounting F) (c : List F) (l : ℕ)
      → l < length c
      → xp_for_level c (f.of_int (pos (suc l))) ≡ get_elem? c l
  unfolding xp_for_level xp_at
  xp_for_level-suc o n c l h =
      let above : (f.of_int (pos (suc l)) ≤? nought) ≡ false =
        o.lt-eq-not-le nought (f.of_int (pos (suc l)))
          (rw (sym n.zero_int) (n.lt-of_int 0 (suc l) ∙ lt→ltb 0 (suc l) (omega arith))) in
      rw (above, n.to_int-of_int (suc l)) (ground (arith, h))

  -- On a rising curve, `XPForLevel` of a reached level above 0 is not above the experience, and that of
  -- the next level, if there is one, is.
  pub xp_for_level_bracket :
      (o : IsOrdered F) (n : IsCounting F) (c : List F) (xp : F)
      → IsRising c
      → (0 < level_index c xp
          → (y : F) × ((xp_for_level c (level c xp) ≡ some y) × ((xp <? y) ≡ false)))
        × (level_index c xp < length c
            → (y : F) × ((xp_for_level c (f.of_int (pos (suc (level_index c xp)))) ≡ some y)
                × ((xp <? y) ≡ true)))
  unfolding level
  xp_for_level_bracket o n c xp r =
      let first = level_index-IsFirst o c xp r in
      (
        λ h. below (level_index c xp) refl h first,
        λ h.
            (let at = at_index c xp (level_index c xp) h in
              (
                at.0,
                (
                  xp_for_level-suc o n c (level_index c xp) h ∙ at.1.0,
                  sym at.1.1 ∙ first.3 (level_index c xp) (omega arith) h,
                ),
              )),
      )
    where
      below :
          (k : ℕ)
          → level_index c xp ≡ k
          → 0 < k
          → IsFirst (length c) (exceeds c xp) k
          → (y : F) × ((xp_for_level c (f.of_int (pos k)) ≡ some y) × ((xp <? y) ≡ false))
      below zero e h first = absurd (omega (arith, h))
      below (suc k) e h first =
          let at = at_index c xp k first.1 in
          (at.0, (xp_for_level-suc o n c k first.1 ∙ at.1.0, sym at.1.1 ∙ first.2 k (omega arith)))
