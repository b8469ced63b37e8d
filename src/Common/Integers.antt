-- ===== src/Common/Integers.antt =====
-- Integers over the native numbers, for JavaScript's bigint.
use Prim.Native.Nat.{ℕ, suc, ◌+◌, ◌-◌}
use mathlib.Core.Bool.{Bool, true, false}
use Prim.Native.Nat.{◌≤◌}
use mathlib.Core.Path.{◌≡◌, refl}
use native.Mathlib.Omega.{arith}
use atf.Common.Tests.{ltb, leb, if◌then◌else◌}

-- `negsuc n` is -(n + 1).
pub data ℤ : Type 0 where
  pos negsuc : ℕ → ℤ

abbrev sub : ℕ → ℕ → ℤ
sub a b = if leb b a then ℤ.pos (a - b) else ℤ.negsuc (b - suc a)

infixl 60 ◌+ℤ◌
abbrev pub ◌+ℤ◌ : ℤ → ℤ → ℤ
ℤ.pos a +ℤ ℤ.pos b = ℤ.pos (a + b)
ℤ.pos a +ℤ ℤ.negsuc b = sub a (suc b)
ℤ.negsuc a +ℤ ℤ.pos b = sub b (suc a)
ℤ.negsuc a +ℤ ℤ.negsuc b = ℤ.negsuc (suc (a + b))

-- `a > b`
abbrev pub gt : ℤ → ℤ → Bool
gt (ℤ.pos a) (ℤ.pos b) = ltb b a
gt (ℤ.pos a) (ℤ.negsuc b) = true
gt (ℤ.negsuc a) (ℤ.pos b) = false
gt (ℤ.negsuc a) (ℤ.negsuc b) = ltb a b

pub pos-add : (a b : ℕ) → ℤ.pos a +ℤ ℤ.pos b ≡ ℤ.pos (a + b)
pos-add a b = refl

pub gt-le : (a b : ℕ) → gt (ℤ.pos a) (ℤ.pos b) ≡ false → a ≤ b
gt-le a b h = ground arith
