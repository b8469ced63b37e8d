-- ===== src/Merkle/Collision.antt =====
-- A pairing of natural numbers with no collisions, to stand for Poseidon in the tests.
use native.Mathlib.Nat.{mul-le-mul}
use atf.Common.{ℕ, ◌+◌, ◌*◌, ◌≤◌, ◌<◌, ◌≡◌, refl, arith, inl, inr, eq_or_ne}

abbrev pub pair : ℕ → ℕ → ℕ
pair a b = (a + b) * (a + b) + a

square_suc : (s : ℕ) → (s + 1) * (s + 1) ≡ s * s + 2 * s + 1
square_suc s = grind arith

square_gap : (s t a c : ℕ) → a ≤ s → s < t → s * s + a < t * t + c
square_gap s t a c small lt =
    let le : s + 1 ≤ t = omega arith in
    let grown : (s + 1) * (s + 1) ≤ t * t = mul-le-mul le le in omega (arith, square_suc s, grown)

pub pair_injective : (a b c d : ℕ) → pair a b ≡ pair c d → (a ≡ c) × (b ≡ d)
pair_injective a b c d e =
    let up = square_gap (a + b) (c + d) a c (omega arith) in
    let down = square_gap (c + d) (a + b) c a (omega arith) in
    elim (eq_or_ne (a + b) (c + d)) [
      | inl same ↦
          let same' : (a + b) * (a + b) ≡ (c + d) * (c + d) = rw same refl in
          (omega (arith, same'), omega (arith, same'))
      | inr ne ↦ absurd (ground (arith, up, down))
    ]
