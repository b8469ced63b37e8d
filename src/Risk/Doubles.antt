-- ===== src/Risk/Doubles.antt =====
-- JavaScript's numbers where they are fractions: a parameter, with the facts of IEEE 754 arithmetic
-- that the score relies on. The order `le` holds of no NaN.
use atf.Common.{ℕ, ◌≤◌, ◌≡◌, Bool, true}

pub record Doubles : Type 1 where
  pub Num : Type 0
  pub of_ℕ : ℕ → Num
  -- The literal `n / 100`, as 0.55 or 0.4.
  pub hundredths : ℕ → Num
  pub add : Num → Num → Num
  pub mul : Num → Num → Num
  pub div : Num → Num → Num
  -- `Math.pow` at a whole exponent.
  pub pow : Num → ℕ → Num
  -- `Math.min`
  pub minimum : Num → Num → Num
  -- `a > b`, `a >= b`
  pub gtb : Num → Num → Bool
  pub geb : Num → Num → Bool
  -- `Math.max(0, Math.round(x))`
  pub round : Num → ℕ
  pub le : Num → Num → Type 0
  pub le_trans : (x y z : Num) → le x y → le y z → le x z
  pub of_ℕ-mono : (a b : ℕ) → a ≤ b → le (of_ℕ a) (of_ℕ b)
  pub hundredths_nonneg : (n : ℕ) → le (of_ℕ 0) (hundredths n)
  pub add_nonneg : (x y : Num) → le (of_ℕ 0) x → le (of_ℕ 0) y → le (of_ℕ 0) (add x y)
  pub le-add : (x y : Num) → le (of_ℕ 0) x → le (of_ℕ 0) y → le x (add x y)
  pub mul_nonneg : (x y : Num) → le (of_ℕ 0) x → le (of_ℕ 0) y → le (of_ℕ 0) (mul x y)
  pub pow_nonneg : (x : Num) (n : ℕ) → le (of_ℕ 0) x → le (of_ℕ 0) (pow x n)
  pub div_nonneg : (x y : Num) → le (of_ℕ 0) x → gtb y (of_ℕ 0) ≡ true → le (of_ℕ 0) (div x y)
  pub minimum-le_left : (x y : Num) → le (of_ℕ 0) x → le (of_ℕ 0) y → le (minimum x y) x
  pub le-minimum : (x y z : Num) → le z x → le z y → le z (minimum x y)
  pub round-mono : (x y : Num) → le x y → round x ≤ round y
  pub round-of_ℕ : (n : ℕ) → round (of_ℕ n) ≡ n
