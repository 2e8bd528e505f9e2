-- ===== src/Float/Order.antt =====
-- Consequences of the order of IEEE 754.
use mathlib.Core.Bool.{false≢true}
use milkyway_liluo_idle.Prelude.{◌≡◌, sym, ◌∙◌, false, true, Bool-cases, if◌then◌else◌, inl, inr}
use milkyway_liluo_idle.Float.{Float, IsOrdered, ◌<?◌, ◌≤?◌, nought, fmax}

module _ {F : Type 0} ⦃f : Float F⦄ where
  pub lt_irrefl : (o : IsOrdered F) (x : F) → (x <? x) ≡ false
  lt_irrefl o x = elim (Bool-cases (x <? x)) [
    | inr q ↦ q
    | inl q ↦ absurd (false≢true (sym (o.lt-eq-not-le x x q) ∙ o.le_of_lt x x q))
  ]

  pub lt_asymm : (o : IsOrdered F) (x y : F) → (x <? y) ≡ true → (y <? x) ≡ false
  lt_asymm o x y p = elim (Bool-cases (y <? x)) [
    | inr q ↦ q
    | inl q ↦ absurd (false≢true (sym (o.lt-eq-not-le x y p) ∙ o.le_of_lt y x q))
  ]

  pub not_negative : (o : IsOrdered F) (x : F) → (fmax nought x <? nought) ≡ false
  not_negative o x = elim (Bool-cases (x <? nought)) [
    | inr p ↦ rw (p) p
    | inl p ↦ rw (p) (lt_irrefl o nought)
  ]

  -- A value that is cut off below 0 and above a bound is between the two.
  pub clamped :
      (o : IsOrdered F) (v top : F)
      → (top <? nought) ≡ false
      → let x = (if v <? nought then nought else if top <? v then top else v) in
        ((x <? nought) ≡ false) × ((top <? x) ≡ false)
  clamped o v top h = elim (Bool-cases (v <? nought)) [
    | inl p ↦ rw (p) (lt_irrefl o nought, h)
    | inr p ↦ elim (Bool-cases (top <? v)) [
      | inl q ↦ rw (p, q) (h, lt_irrefl o top)
      | inr q ↦ rw (p, q) (p, q)
    ]
  ]

  pub lt_of_lt_le :
      (o : IsOrdered F) (x y z : F) → (x <? y) ≡ true → (y ≤? z) ≡ true → (x <? z) ≡ true
  lt_of_lt_le o x y z p q = elim (Bool-cases (x <? z)) [
    | inl l ↦ l
    | inr l ↦ absurd (
        false≢true (
          sym (o.lt-eq-not-le x y p)
          ∙ o.le_trans y z x q
              (o.le_of_not_lt x z (o.number_left x y (o.le_of_lt x y p)) (o.number_right y z q) l)))
  ]

  pub lt_of_le_lt :
      (o : IsOrdered F) (x y z : F) → (x ≤? y) ≡ true → (y <? z) ≡ true → (x <? z) ≡ true
  lt_of_le_lt o x y z p q = elim (Bool-cases (x <? z)) [
    | inl l ↦ l
    | inr l ↦ absurd (
        false≢true (
          sym (o.lt-eq-not-le y z q)
          ∙ o.le_trans z x y
              (o.le_of_not_lt x z (o.number_left x y p) (o.number_right y z (o.le_of_lt y z q)) l)
              p))
  ]
