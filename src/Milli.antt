-- ===== src/Milli.antt =====
-- Fixed-point numbers of three decimals, on which the models run and which meet the laws of
-- `Float.IsOrdered`. Products and quotients drop what is below a thousandth.
use milkyway_liluo_idle.Prelude.{
  ℕ, ◌*◌, ◌/◌, ◌^◌, ◌<◌, ◌≡◌, true, false, ap, arith, ℤ, pos, negsuc, int_laws, -ℤ_parts, ◌+ℤ◌,
  ◌-ℤ◌, ltb, ◌*ℤ◌, quot_ℤ, ltb_ℤ, leb_ℤ, int_beq, int_beq_iff, ◌∙◌,
}
use milkyway_liluo_idle.Float.{Float, IsOrdered, IsClock, IsExact, IsCounting}

-- The number of thousandths.
pub record Milli : Type 0 where
  pub thousandths : ℤ

abbrev pub milli : ℤ → Milli
milli n = record { thousandths = n }

abbrev pub whole : ℕ → Milli
whole n = milli (pos (n * 1000))

-- The arithmetic, under one name for tests to unfold.
unfoldable pub milli_lit : ℕ → ℕ → Milli
milli_lit m n = milli (pos (m * 1000 / 10 ^ n))

unfoldable pub milli_add : Milli → Milli → Milli
unfolding ◌+ℤ◌
milli_add x y = milli (x.thousandths +ℤ y.thousandths)

unfoldable pub milli_sub : Milli → Milli → Milli
unfolding ◌-ℤ◌
milli_sub x y = milli (x.thousandths -ℤ y.thousandths)

unfoldable pub milli_mul : Milli → Milli → Milli
unfolding ◌*ℤ◌ quot_ℤ
milli_mul x y = milli (quot_ℤ (x.thousandths *ℤ y.thousandths) (pos 1000))

unfoldable pub milli_div : Milli → Milli → Milli
unfolding ◌*ℤ◌ quot_ℤ
milli_div x y = milli (quot_ℤ (x.thousandths *ℤ pos 1000) y.thousandths)

unfoldable pub milli_of_int : ℤ → Milli
unfolding ◌*ℤ◌
milli_of_int n = milli (n *ℤ pos 1000)

unfoldable pub milli_to_int : Milli → ℤ
unfolding quot_ℤ
milli_to_int x = quot_ℤ x.thousandths (pos 1000)

instance abbrev pub milli_float : Float Milli
milli_float = record {
  lit = milli_lit;
  add = milli_add;
  sub = milli_sub;
  mul = milli_mul;
  div = milli_div;
  lt = λ x y. ltb_ℤ x.thousandths y.thousandths;
  le = λ x y. leb_ℤ x.thousandths y.thousandths;
  same = λ x y. int_beq x.thousandths y.thousandths;
  of_int = milli_of_int;
  to_int = milli_to_int;
}

pub Milli-IsOrdered : IsOrdered Milli
Milli-IsOrdered = ground arith

small_division : (a b : ℕ) → a < b → a * 1000 / b / 1000 ≡ 0
small_division a b h = grind arith

pos_times : (a : ℕ) → pos a *ℤ pos 1000 ≡ pos (a * 1000)
unfolding ◌*ℤ◌
pos_times a = ground arith

small_quotient_ℤ :
    (a b : ℤ)
    → leb_ℤ (pos 0) a ≡ true
    → ltb_ℤ a b ≡ true
    → quot_ℤ (quot_ℤ (a *ℤ pos 1000) b) (pos 1000) ≡ pos 0
unfolding quot_ℤ ◌*ℤ◌
small_quotient_ℤ (pos a) (pos b) h l = rw (pos_times a) (ap pos (small_division a b (ground arith)))
small_quotient_ℤ (pos a) (negsuc b) h l = ground arith
small_quotient_ℤ (negsuc a) b h l = ground arith

milli_small_quotient :
    (x y : Milli)
    → leb_ℤ (milli_lit 0 0).thousandths x.thousandths ≡ true
    → ltb_ℤ x.thousandths y.thousandths ≡ true
    → milli_to_int (milli_div x y) ≡ pos 0
unfolding milli_lit milli_to_int milli_div
milli_small_quotient x y h l = small_quotient_ℤ x.thousandths y.thousandths h l

milli_add_comm : (x y : Milli) → milli_add x y ≡ milli_add y x
unfolding milli_add
milli_add_comm x y = ap milli (omega int_laws)

milli_nothing_left :
    (x : Milli) → ltb_ℤ (milli_lit 0 0).thousandths (milli_sub x x).thousandths ≡ false
unfolding milli_lit milli_sub
milli_nothing_left x = ground (arith, -ℤ_parts x.thousandths x.thousandths)

pub Milli-IsClock : IsClock Milli
Milli-IsClock = record {
  add_comm = milli_add_comm;
  small_quotient = milli_small_quotient;
  nothing_left = milli_nothing_left;
}

milli_add_zero : (x : Milli) → milli_add x (milli_lit 0 0) ≡ x
unfolding milli_add milli_lit
milli_add_zero x = ap milli (omega int_laws)

milli_add_assoc : (x y z : Milli) → milli_add (milli_add x y) z ≡ milli_add x (milli_add y z)
unfolding milli_add
milli_add_assoc x y z = ap milli (omega int_laws)

milli_same_zero :
    (x : Milli) → int_beq x.thousandths (milli_lit 0 0).thousandths ≡ true → x ≡ milli_lit 0 0
unfolding milli_lit
milli_same_zero x h = ap milli ((int_beq_iff x.thousandths (pos 0)).0 h)

-- No sum of thousandths is rounded.
abbrev pub AnyMilli : Milli → Type 0
AnyMilli x = Unit

pub Milli-IsExact : IsExact AnyMilli
Milli-IsExact = record {
  zero_in = tt;
  add_zero = λ x p. milli_add_zero x;
  zero_add = λ x p. milli_add_comm (milli_lit 0 0) x ∙ milli_add_zero x;
  add_assoc = λ x y z p q r s t u. milli_add_assoc x y z;
  same_zero = λ x y p q h. milli_same_zero (milli_add x y) h;
}

milli_to_int-of_int : (n : ℕ) → milli_to_int (milli_of_int (pos n)) ≡ pos n
unfolding milli_to_int milli_of_int quot_ℤ
milli_to_int-of_int n = rw (pos_times n) (ap pos (grind arith))

milli_lt-of_int :
    (m n : ℕ)
    → ltb_ℤ (milli_of_int (pos m)).thousandths (milli_of_int (pos n)).thousandths ≡ ltb m n
unfolding milli_of_int
milli_lt-of_int m n = rw (pos_times m, pos_times n) (ground arith)

milli_zero_int : milli_of_int (pos 0) ≡ milli_lit 0 0
unfolding milli_of_int milli_lit ◌*ℤ◌
milli_zero_int = ground arith

milli_one_int : milli_of_int (pos 1) ≡ milli_lit 1 0
unfolding milli_of_int milli_lit ◌*ℤ◌
milli_one_int = ground arith

pub Milli-IsCounting : IsCounting Milli
Milli-IsCounting = record {
  to_int-of_int = milli_to_int-of_int;
  lt-of_int = milli_lt-of_int;
  zero_int = milli_zero_int;
  one_int = milli_one_int;
}
