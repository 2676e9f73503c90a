-- ===== src/Common/Float/Fixed.antt =====
-- Fixed-point numbers in ten-thousandths: exact sums, products rounded down. They satisfy the laws.
use Prim.Native.Nat.{ℕ, ◌+◌, ◌*◌, ◌/◌, ◌^◌}
use mathlib.Core.Path.{◌≡◌, refl, ap}
use mathlib.Core.Bool.{true, ◌&&◌}
use mathlib.Core.List.{foldl}
use native.Mathlib.Omega.{arith}
use native.Mathlib.Nat.{mul-div_right}
use crypto_research_agent.Common.Int.{
  ℤ, pos, negsuc, pos_part, neg_part, sub_ℕ, ◌+ℤ◌, ◌-ℤ◌, leb_ℤ, ltb_ℤ,
}
use crypto_research_agent.Common.Float.{Float, IsOrdered, IsRounding}

abbrev quotient : ℤ → ℕ → ℤ
quotient (pos m) n = pos (m / n)
quotient (negsuc m) n = sub_ℕ 0 ((m + 1) / n)

abbrev negate : ℤ → ℤ
negate a = sub_ℕ (neg_part a) (pos_part a)

divide : ℤ → ℤ → ℤ
divide a (pos n) = quotient (sub_ℕ (pos_part a * 10000) (neg_part a * 10000)) n
divide a (negsuc n) = negate (quotient (sub_ℕ (pos_part a * 10000) (neg_part a * 10000)) (n + 1))

-- a product of signed numbers, rounded towards zero
times : ℤ → ℤ → ℤ
times (pos a) (pos b) = pos (a * b / 10000)
times (pos a) (negsuc b) = sub_ℕ 0 (a * (b + 1) / 10000)
times (negsuc a) (pos b) = sub_ℕ 0 ((a + 1) * b / 10000)
times (negsuc a) (negsuc b) = pos ((a + 1) * (b + 1) / 10000)

instance unfoldable pub fixed_float : Float ℤ
unfolding divide times ◌+ℤ◌ ◌-ℤ◌
fixed_float = record {
  nought = pos 0;
  decimal = λ m k. pos (m * 10000 / 10 ^ k);
  is_finite = λ x. true;
  le = leb_ℤ;
  lt = ltb_ℤ;
  same = λ x y. leb_ℤ x y && leb_ℤ y x;
  add = ◌+ℤ◌;
  sub = ◌-ℤ◌;
  mul = times;
  div = divide;
  neg = negate;
  abs = λ x. pos (pos_part x + neg_part x);
  ratio = λ a b. pos (a * 10000 / b);
  total = foldl ◌+ℤ◌ (pos 0);
  round_int = λ x. quotient x 10000;
  round_to = λ x n. x;
}

pub fixed-IsOrdered : IsOrdered ℤ
unfolding fixed_float
fixed-IsOrdered = record {
  nought_finite = refl;
  neg_finite = λ x h. refl;
  abs_finite = λ x h. refl;
  decimal_finite = λ m k _ _. refl;
  le_trans = λ x y z p q. ground arith;
  le_of_finite = λ x p. ground arith;
  le_total_number = λ x y p q. ground arith;
  lt_number = λ x y p q. ground arith;
  abs_number = λ x h. ground arith;
  same_number = λ x y p q. refl;
}

times-nonneg :
    (x y : ℤ) → leb_ℤ (pos 0) x ≡ true → leb_ℤ (pos 0) y ≡ true → leb_ℤ (pos 0) (times x y) ≡ true
unfolding times
times-nonneg (pos a) (pos b) p q = ground arith
times-nonneg (pos a) (negsuc b) p q = ground arith
times-nonneg (negsuc a) (pos b) p q = ground arith
times-nonneg (negsuc a) (negsuc b) p q = ground arith

pub fixed-IsRounding : IsRounding ℤ
unfolding fixed_float
fixed-IsRounding = record {
  sub_nonneg = λ x y p q h. ground arith;
  sub_pos = λ x y p q h. ground arith;
  add_nonneg = λ x y p q. ground arith;
  add_pos = λ x y p q. ground arith;
  mul_nonneg = λ x y p q. times-nonneg x y;
  sub_le = λ x y p h. ground arith;
  sub_finite = λ x y p h k. refl;
  ratio_self = λ n h. ap pos (mul-div_right 10000 h);
}
