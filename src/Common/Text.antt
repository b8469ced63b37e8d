-- ===== src/Common/Text.antt =====
-- Texts: equality, and the search that a case-insensitive regular expression of plain words makes.
use Prim.Native.Nat.{ℕ, ◌+◌}
use Prim.Native.Char.{code}
use Prim.Native.String.{String}
use mathlib.Core.Bool.{Bool, true, false, ◌&&◌, ◌||◌}
use mathlib.Core.List.{List, [], ◌∷◌}
pub use text.Mathlib.Text.{◌==◌ as str_eq}
pub use text.Mathlib.TextEquality.{eq_iff as str_eq_iff}
use mathlib.Core.Path.{◌≡◌, sym, ◌∙◌}
use mathlib.Core.Logic.{inl, inr}
use atf.Common.Tests.{leb, ◌==◌, if◌then◌else◌, Bool-cases}

-- `a || b`
abbrev pub text_or : String → String → String
text_or a b = if str_eq a "" then b else a

-- `includes` on an array of strings.
abbrev pub includes : String → List String → Bool
includes s [] = false
includes s (t ∷ ts) = str_eq t s || includes s ts

abbrev pub codes : String → List ℕ
codes String.[] = []
codes (String.◌∷◌ c s) = code c ∷ codes s

-- `toLowerCase` on the letters of ASCII
abbrev pub lower : ℕ → ℕ
lower c = if leb b'A' c && leb c b'Z' then c + 32 else c

-- `===` on texts, by their characters
abbrev pub same_codes : List ℕ → List ℕ → Bool
same_codes [] [] = true
same_codes [] (d ∷ ds) = false
same_codes (c ∷ cs) [] = false
same_codes (c ∷ cs) (d ∷ ds) = (c == d) && same_codes cs ds

starts_with : List ℕ → List ℕ → Bool
starts_with [] text = true
starts_with (w ∷ ws) [] = false
starts_with (w ∷ ws) (c ∷ cs) = (w == lower c) && starts_with ws cs

occurs : List ℕ → List ℕ → Bool
unfolding starts_with
occurs word [] = starts_with word []
occurs word (c ∷ cs) = starts_with word (c ∷ cs) || occurs word cs

-- `/word/i.test(text)` for a lower-case word.
unfoldable pub mentions : String → String → Bool
unfolding occurs
mentions word text = occurs (codes word) (codes text)

pub str_eq_comm : (a b : String) → str_eq a b ≡ str_eq b a
str_eq_comm a b = elim (Bool-cases (str_eq a b)) [
  | inl same ↦ same ∙ sym ((str_eq_iff b a).1 (sym ((str_eq_iff a b).0 same)))
  | inr other ↦ elim (Bool-cases (str_eq b a)) [
    | inl same ↦ (str_eq_iff a b).1 (sym ((str_eq_iff b a).0 same)) ∙ sym same
    | inr other' ↦ other ∙ sym other'
  ]
]
