-- ===== src/Common/Strokes.antt =====
-- Integers written in strokes after their sign, for runs of code that reads and writes numbers.
use Prim.Native.Nat.{ℕ, zero, suc}
use Prim.Native.Char.{code}
use Prim.Native.String.{String}
use mathlib.Core.Path.{◌≡◌, refl, ap}
use mathlib.Core.Option.{Option, none, some}
use atf.Common.Tests.{◌==◌, if◌then◌else◌}
use atf.Common.Integers.{ℤ}

abbrev strokes : ℕ → String
strokes zero = String.[]
strokes (suc n) = String.◌∷◌ "1" (strokes n)

abbrev stroke_count : String → ℕ
stroke_count String.[] = 0
stroke_count (String.◌∷◌ c s) = suc (stroke_count s)

stroke_count-strokes : (n : ℕ) → stroke_count (strokes n) ≡ n
stroke_count-strokes zero = refl
stroke_count-strokes (suc n) = ap suc (stroke_count-strokes n)

abbrev pub read_strokes : String → Option ℤ
read_strokes String.[] = none
read_strokes (String.◌∷◌ c s) =
    some (if code c == b'-' then ℤ.negsuc (stroke_count s) else ℤ.pos (stroke_count s))

abbrev pub write_strokes : ℤ → String
write_strokes (ℤ.pos n) = String.◌∷◌ "+" (strokes n)
write_strokes (ℤ.negsuc n) = String.◌∷◌ "-" (strokes n)

pub read_strokes-write_strokes : (z : ℤ) → read_strokes (write_strokes z) ≡ some z
read_strokes-write_strokes (ℤ.pos n) = ap (λ x. some (ℤ.pos x)) (stroke_count-strokes n)
read_strokes-write_strokes (ℤ.negsuc n) = ap (λ x. some (ℤ.negsuc x)) (stroke_count-strokes n)
