-- ===== src/Prelude/Keys.antt =====
-- Go's `==` on the types that serve as map keys.
use Prim.Native.Nat.{ℕ}
use Prim.Native.String.{String}
use mathlib.Core.Path.{◌≡◌, refl, sym, ◌∙◌}
use mathlib.Core.Bool.{Bool, true, false, false≢true}
use mathlib.Core.Logic.{◌↔◌, inl, inr}
use native.Mathlib.Omega.{arith}
use text.Mathlib.Text.{◌==◌ as str_eq}
use text.Mathlib.TextEquality.{eq_iff}
use milkyway_liluo_idle.Prelude.Tests.{◌==◌ as nat_beq, ==_iff, Bool-cases}
use milkyway_liluo_idle.Prelude.Int.{ℤ, pos, negsuc}

pub record Eq {ℓ} (A : Type ℓ) : Type ℓ where
  pub beq : A → A → Bool
  pub beq_iff : (a b : A) → (beq a b ≡ true) ↔ (a ≡ b)

infix 50 ◌=?◌
abbrev pub ◌=?◌ {ℓ} : {A : Type ℓ} ⦃e : Eq A⦄ → A → A → Bool
◌=?◌ ⦃e⦄ = e.beq

instance abbrev pub nat_eq : Eq ℕ
nat_eq = record { beq = nat_beq; beq_iff = ==_iff }

instance abbrev pub string_eq : Eq String
string_eq = record { beq = str_eq; beq_iff = eq_iff }

abbrev pub int_beq : ℤ → ℤ → Bool
int_beq (pos a) (pos b) = nat_beq a b
int_beq (negsuc a) (negsuc b) = nat_beq a b
int_beq (pos a) (negsuc b) = false
int_beq (negsuc a) (pos b) = false

pub int_beq_iff : (a b : ℤ) → (int_beq a b ≡ true) ↔ (a ≡ b)
int_beq_iff a b = ground arith

instance abbrev pub int_eq : Eq ℤ
int_eq = record { beq = int_beq; beq_iff = int_beq_iff }

module _ {ℓ} {A : Type ℓ} ⦃e : Eq A⦄ where
  pub eq_refl : (a : A) → (a =? a) ≡ true
  eq_refl a = (e.beq_iff a a).1 refl

  pub eq_of_eq : (a b : A) → (a =? b) ≡ true → a ≡ b
  eq_of_eq a b = (e.beq_iff a b).0

  -- Equality is symmetric, and equal keys are equal to the same keys.
  pub eq_sym : (a b : A) → (a =? b) ≡ (b =? a)
  eq_sym a b = elim (Bool-cases (a =? b)) [
    | inl p ↦ rw (eq_of_eq a b p)
    | inr p ↦ elim (Bool-cases (b =? a)) [
      | inl q ↦ absurd (false≢true (sym p ∙ (rw (eq_of_eq b a q) (eq_refl a))))
      | inr q ↦ p ∙ sym q
    ]
  ]

  pub eq_left : (a b c : A) → (a =? b) ≡ true → (a =? c) ≡ (b =? c)
  eq_left a b c p = rw (eq_of_eq a b p)

  pub eq_right : (a b c : A) → (a =? b) ≡ true → (c =? a) ≡ (c =? b)
  eq_right a b c p = rw (eq_of_eq a b p)
