-- ===== src/Battle/Times.antt =====
-- The earliest of several times (the loop of NextEventTime, backend/internal/battle/session.go).
use mathlib.Core.Bool.{false≢true}
use milkyway_liluo_idle.Prelude.{
  zero, suc, subst, ◌≡◌, refl, sym, ◌∙◌, true, false, if◌then◌else◌, Option, none, some, List, [],
  ◌∷◌, All, Bool-cases, inl, inr,
}
use milkyway_liluo_idle.Float.{Float, IsOrdered, ◌<?◌, ◌≤?◌}
use milkyway_liluo_idle.Float.Order.{lt_of_lt_le, lt_of_le_lt, lt_irrefl}
use milkyway_liluo_idle.Battle.Targeting.{IsIn}

module _ {F : Type 0} ⦃f : Float F⦄ where
  -- The loop over the candidates behind the first.
  unfoldable pub min_time : F → List F → F
  min_time m [] = m
  min_time m (t ∷ ts) = min_time (if t <? m then t else m) ts

  unfoldable pub first_time : List F → Option F
  unfolding min_time
  first_time [] = none
  first_time (t ∷ ts) = some (min_time t ts)

  -- Not a NaN
  abbrev pub AreNumbers : List F → Type 0
  AreNumbers ts = All (λ t. (t ≤? t) ≡ true) ts

  -- No candidate is before the time.
  abbrev pub IsEarliest : F → List F → Type 0
  IsEarliest t ts = All (λ u. (u <? t) ≡ false) ts

  not_lt_trans :
      (o : IsOrdered F) (t m r : F)
      → (m ≤? m) ≡ true
      → (t <? m) ≡ false
      → (m <? r) ≡ false
      → (t <? r) ≡ false
  not_lt_trans o t m r n p q = elim (Bool-cases (t <? r)) [
    | inr l ↦ l
    | inl l ↦
        (let below = o.le_of_not_lt m r n (o.number_right t r (o.le_of_lt t r l)) q in
          absurd (false≢true (sym p ∙ lt_of_lt_le o t r m l below)))
  ]

  after_smaller :
      (o : IsOrdered F) (t m r : F) → (t <? m) ≡ true → (t <? r) ≡ false → (m <? r) ≡ false
  after_smaller o t m r p q = elim (Bool-cases (m <? r)) [
    | inr l ↦ l
    | inl l ↦ absurd (false≢true (sym q ∙ lt_of_le_lt o t m r (o.le_of_lt t m p) l))
  ]

  min_time-IsEarliest :
      (o : IsOrdered F) (m : F) (ts : List F)
      → AreNumbers (m ∷ ts)
      → IsEarliest (min_time m ts) (m ∷ ts)
  unfolding min_time
  min_time-IsEarliest o m [] n = (lt_irrefl o m, tt)
  min_time-IsEarliest o m (t ∷ ts) n = elim (Bool-cases (t <? m)) [
    | inl p ↦
        (let rest = min_time-IsEarliest o t ts n.1 in
          let e : min_time m (t ∷ ts) ≡ min_time t ts = rw (p) refl in
          subst (λ (r : F). IsEarliest r (m ∷ t ∷ ts)) (sym e)
            (after_smaller o t m (min_time t ts) p rest.0, rest))
    | inr p ↦
        (let rest = min_time-IsEarliest o m ts (n.0, n.1.1) in
          let e : min_time m (t ∷ ts) ≡ min_time m ts = rw (p) refl in
          subst (λ (r : F). IsEarliest r (m ∷ t ∷ ts)) (sym e)
            (rest.0, (not_lt_trans o t m (min_time m ts) n.0 p rest.0, rest.1)))
  ]

  min_time-IsIn : (m : F) (ts : List F) → IsIn (min_time m ts) (m ∷ ts)
  unfolding min_time
  min_time-IsIn m [] = (0, refl)
  min_time-IsIn m (t ∷ ts) = elim (Bool-cases (t <? m)) [
    | inl p ↦ (let rest = min_time-IsIn t ts in rw (p) (suc rest.0, rest.1))
    | inr p ↦ rw (p) (skip (min_time-IsIn m ts))
  ]
    where
      skip : IsIn (min_time m ts) (m ∷ ts) → IsIn (min_time m ts) (m ∷ t ∷ ts)
      skip (zero, e) = (0, e)
      skip (suc i, e) = (suc (suc i), e)

  pub first_time-IsEarliest :
      (o : IsOrdered F) (ts : List F) (t : F)
      → AreNumbers ts
      → first_time ts ≡ some t
      → IsIn t ts × IsEarliest t ts
  unfolding first_time
  first_time-IsEarliest o [] t n h = absurd (cc h)
  first_time-IsEarliest o (m ∷ ts) t n h =
      let e : min_time m ts ≡ t = cc h in
      subst (λ (x : F). IsIn x (m ∷ ts) × IsEarliest x (m ∷ ts)) e
        (min_time-IsIn m ts, min_time-IsEarliest o m ts n)
