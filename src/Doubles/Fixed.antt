-- ===== src/Doubles/Fixed.antt =====
-- A concrete instance of the double interface, for evaluation: numbers with three decimals. It has no
-- NaN and does not overflow.
use quantforge_engine.Prelude.{ℕ, suc, ◌+◌, ◌*◌, ◌/◌, ◌^◌, arith}
use quantforge_engine.Prelude.Int.{
  ℤ, pos, negsuc, ◌+ℤ◌, ◌-ℤ◌, ◌*ℤ◌, neg_ℤ, abs_ℤ, ltb_ℤ, leb_ℤ, pos_part, neg_part, sub_ℕ,
}
use quantforge_engine.Doubles.{Double, IsOrdered}

abbrev pub Fixed : Type 0
Fixed = ℤ

abbrev pub thousandfold : ℤ → Fixed
thousandfold (pos n) = pos (n * 1000)
thousandfold (negsuc n) = negsuc (n * 1000 + 999)

-- The quotient, rounded to zero.
abbrev pub quotient : ℤ → ℕ → ℤ
quotient a k = sub_ℕ (pos_part a / k) (neg_part a / k)

abbrev pub divide : Fixed → Fixed → Fixed
divide a (pos k) = quotient (a *ℤ pos 1000) k
divide a (negsuc k) = neg_ℤ (quotient (a *ℤ pos 1000) (suc k))

instance unfoldable pub fixed_double : Double Fixed
unfolding ◌+ℤ◌ ◌-ℤ◌ ◌*ℤ◌ neg_ℤ abs_ℤ
fixed_double = record {
  of_int = thousandfold;
  decimal = λ m k. pos (m * 1000 / 10 ^ k);
  truncate = λ a. quotient a 1000;
  add = ◌+ℤ◌;
  sub = ◌-ℤ◌;
  mul = λ a b. quotient (a *ℤ b) 1000;
  div = divide;
  neg = neg_ℤ;
  abs = abs_ℤ;
  lt = ltb_ℤ;
  le = leb_ℤ;
}

pub Fixed-IsOrdered : IsOrdered Fixed
unfolding fixed_double ◌+ℤ◌ ◌-ℤ◌ ◌*ℤ◌ neg_ℤ abs_ℤ
Fixed-IsOrdered = record {
  refl_of_le = λ x y h. ground arith;
  le_trans = λ x y z h k. ground arith;
  le_total = λ x y h k. ground arith;
  lt-eq-not-le = λ x y h k. ground arith;
  le_of_lt = λ x y h. ground arith;
}
