-- ===== src/Risk/Fixed.antt =====
-- Fixed-point numbers of two decimals, for runs of the engine.
use atf.Common.{ℕ, zero, suc, ◌+◌, ◌*◌, ◌/◌, ◌≤◌, Option, none, min, ltb, leb, arith}
use atf.Risk.Types.{RiskDimension}
use atf.Risk.Doubles.{Doubles}

abbrev power : ℕ → ℕ → ℕ
power x zero = 100
power x (suc n) = x * power x n / 100

abbrev pub fixed : Doubles
fixed = record {
  Num = ℕ;
  of_ℕ = λ n. 100 * n;
  hundredths = λ n. n;
  add = λ x y. x + y;
  mul = λ x y. x * y / 100;
  div = λ x y. x * 100 / y;
  pow = power;
  minimum = λ x y. min x y;
  gtb = λ x y. ltb y x;
  geb = λ x y. leb y x;
  round = λ x. (x + 50) / 100;
  le = λ x y. x ≤ y;
  le_trans = λ x y z h k. omega arith;
  of_ℕ-mono = λ a b h. omega arith;
  hundredths_nonneg = λ n. omega arith;
  add_nonneg = λ x y h k. omega arith;
  le-add = λ x y h k. omega arith;
  mul_nonneg = λ x y h k. omega arith;
  pow_nonneg = λ x n h. omega arith;
  div_nonneg = λ x y h k. omega arith;
  minimum-le_left = λ x y h k. omega arith;
  le-minimum = λ x y z h k. omega arith;
  round-mono = λ x y h. omega arith;
  round-of_ℕ = λ n. omega arith;
}

abbrev pub defaults : RiskDimension → Option ℕ
defaults d = none
