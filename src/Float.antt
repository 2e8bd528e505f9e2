-- ===== src/Float.antt =====
-- What the server does with Go's `float64`: the arithmetic, the comparisons, the conversions to and
-- from `int` and the decimal constants. The type is a parameter. `IsOrdered` states the part of
-- IEEE 754 that the proofs rely on; `Float.Milli` meets it by whole thousandths.

pub mod Order
use milkyway_liluo_idle.Prelude.{ℕ, ◌≡◌, Bool, true, false, if◌then◌else◌, ltb, ℤ}

pub record Float (F : Type 0) : Type 0 where
  -- the decimal constant m * 10 ^ -n
  pub lit : ℕ → ℕ → F
  pub add : F → F → F
  pub sub : F → F → F
  pub mul : F → F → F
  pub div : F → F → F
  pub lt : F → F → Bool
  pub le : F → F → Bool
  -- `==`
  pub same : F → F → Bool
  -- `float64(n)`
  pub of_int : ℤ → F
  -- `int(x)`, which drops the fraction
  pub to_int : F → ℤ

module _ {F : Type 0} ⦃f : Float F⦄ where
  infixl 65 ◌⊕◌ ◌⊖◌
  infixl 70 ◌⊗◌ ◌⊘◌
  infix 50 ◌<?◌ ◌≤?◌ ◌==?◌
  abbrev pub ◌⊕◌ : F → F → F
  x ⊕ y = f.add x y

  abbrev pub ◌⊖◌ : F → F → F
  x ⊖ y = f.sub x y

  abbrev pub ◌⊗◌ : F → F → F
  x ⊗ y = f.mul x y

  abbrev pub ◌⊘◌ : F → F → F
  x ⊘ y = f.div x y

  abbrev pub ◌<?◌ : F → F → Bool
  x <? y = f.lt x y

  abbrev pub ◌≤?◌ : F → F → Bool
  x ≤? y = f.le x y

  abbrev pub ◌==?◌ : F → F → Bool
  x ==? y = f.same x y

  abbrev pub nought : F
  nought = f.lit 0 0

  abbrev pub one : F
  one = f.lit 1 0

  -- `-x`, on which Go negates the sign; no comparison here tells 0 - x from it.
  abbrev pub neg : F → F
  neg x = nought ⊖ x

  -- The builtin `max`. On a NaN it returns NaN, as this does when the first argument is a number.
  abbrev pub fmax : F → F → F
  fmax x y = if y <? x then x else y

-- The order of IEEE 754: `<=` is reflexive on numbers only, and total between numbers.
pub record IsOrdered (F : Type 0) ⦃f : Float F⦄ : Type 0 where
  pub lit_number : (m n : ℕ) → f.le (f.lit m n) (f.lit m n) ≡ true
  pub number_left : (x y : F) → f.le x y ≡ true → f.le x x ≡ true
  pub number_right : (x y : F) → f.le x y ≡ true → f.le y y ≡ true
  pub le_trans : (x y z : F) → f.le x y ≡ true → f.le y z ≡ true → f.le x z ≡ true
  pub le_of_lt : (x y : F) → f.lt x y ≡ true → f.le x y ≡ true
  pub lt-eq-not-le : (x y : F) → f.lt x y ≡ true → f.le y x ≡ false
  pub le_of_not_lt :
      (x y : F) → f.le x x ≡ true → f.le y y ≡ true → f.lt x y ≡ false → f.le y x ≡ true

-- Facts of IEEE 754 and of Go's conversion that the clock of settlement relies on: a sum does not
-- depend on the order, a quotient of a smaller by a larger number has no whole part, and nothing is
-- left of a number that is taken from itself.
pub record IsClock (F : Type 0) ⦃f : Float F⦄ : Type 0 where
  pub add_comm : (x y : F) → f.add x y ≡ f.add y x
  pub small_quotient :
      (x y : F) → f.le (f.lit 0 0) x ≡ true → f.lt x y ≡ true → f.to_int (f.div x y) ≡ ℤ.pos 0
  pub nothing_left : (x : F) → f.lt (f.lit 0 0) (f.sub x x) ≡ false

-- Numbers among which a sum that is one of them has no rounding. In float64, for k from 0 to 1000, the multiples of
-- 2^-k with a magnitude below 2^(53-k), the negative zero apart, are such: the whole numbers below 2^53,
-- and fractions like 0.25. The set need not be closed under addition.
pub record IsExact {F : Type 0} ⦃f : Float F⦄ (P : F → Type 0) : Type 0 where
  pub zero_in : P (f.lit 0 0)
  pub add_zero : (x : F) → P x → f.add x (f.lit 0 0) ≡ x
  pub zero_add : (x : F) → P x → f.add (f.lit 0 0) x ≡ x
  pub add_assoc :
      (x y z : F)
      → P x
      → P y
      → P z
      → P (f.add x y)
      → P (f.add y z)
      → P (f.add (f.add x y) z)
      → f.add (f.add x y) z ≡ f.add x (f.add y z)
  -- A sum that equals 0 is the positive zero.
  pub same_zero :
      (x y : F) → P x → P y → f.same (f.add x y) (f.lit 0 0) ≡ true → f.add x y ≡ f.lit 0 0

-- Whole numbers below 2^53 convert without loss, and keep their order.
pub record IsCounting (F : Type 0) ⦃f : Float F⦄ : Type 0 where
  pub to_int-of_int : (n : ℕ) → f.to_int (f.of_int (ℤ.pos n)) ≡ ℤ.pos n
  pub lt-of_int : (m n : ℕ) → f.lt (f.of_int (ℤ.pos m)) (f.of_int (ℤ.pos n)) ≡ ltb m n
  pub zero_int : f.of_int (ℤ.pos 0) ≡ f.lit 0 0
  pub one_int : f.of_int (ℤ.pos 1) ≡ f.lit 1 0
