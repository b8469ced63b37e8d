-- ===== src/Risk/Verdict/Bounds.antt =====
-- What the score of a dimension and the blend of the dimensions are at least and at most.
use atf.Common.{
  ℕ, ◌+◌, ◌≤◌, ◌≡◌, refl, Option, none, some, List, [], ◌∷◌, arith, max, min, or_else, Bool-cases,
  inl, inr,
}
use atf.Risk.Types.{RiskDimension, RiskSignal, risk_dimensions, default_weight}
use atf.Risk.Doubles.{Doubles}
use atf.Risk.Scoring.{insert_by_score, sort_by_score}
use atf.Risk.Verdict.{
  bonus_from, raw_score, combine_sorted, combine_signals, weight_of, weighted_sum, weight_total,
  weighted_mean, max_dimension, blend,
}

-- The highest score among the signals.
abbrev pub top_score : List RiskSignal → ℕ
top_score [] = 0
top_score (s ∷ ss) = max s.score (top_score ss)

abbrev first_score : List RiskSignal → ℕ
first_score [] = 0
first_score (s ∷ ss) = s.score

first_score-insert :
    (s : RiskSignal) (ss : List RiskSignal)
    → first_score (insert_by_score s ss) ≡ max s.score (first_score ss)
unfolding insert_by_score
first_score-insert s [] = omega arith
first_score-insert s (x ∷ ss) = ground arith

first_score-sort : (ss : List RiskSignal) → first_score (sort_by_score ss) ≡ top_score ss
unfolding sort_by_score
first_score-sort [] = refl
first_score-sort (s ∷ ss) =
    omega (arith, first_score-insert s (sort_by_score ss), first_score-sort ss)

module _ (dbl : Doubles) where
  open dbl use {
    Num, of_ℕ, hundredths, add, mul, div, pow, minimum, gtb, round, le, le_trans, of_ℕ-mono,
    hundredths_nonneg, add_nonneg, le-add, mul_nonneg, pow_nonneg, div_nonneg, minimum-le_left,
    le-minimum, round-mono, round-of_ℕ,
  }

  abbrev pub IsNonneg : Num → Type 0
  IsNonneg x = le (of_ℕ 0) x

  of_ℕ-IsNonneg : (n : ℕ) → IsNonneg (of_ℕ n)
  of_ℕ-IsNonneg n = of_ℕ-mono 0 n (omega arith)

  bonus_from-IsNonneg :
      (i : ℕ) (bonus : Num) (ss : List RiskSignal)
      → IsNonneg bonus
      → IsNonneg (bonus_from dbl i bonus ss)
  unfolding bonus_from
  bonus_from-IsNonneg i bonus [] h = h
  bonus_from-IsNonneg i bonus (s ∷ ss) h = bonus_from-IsNonneg (i + 1) _ ss (
      add_nonneg bonus _ h
        (mul_nonneg _ _ (of_ℕ-IsNonneg s.score) (pow_nonneg _ i (hundredths_nonneg 40))))

  raw_score_bounds :
      (top : RiskSignal) (others : List RiskSignal)
      → le (of_ℕ top.score) (raw_score dbl top others) × IsNonneg (raw_score dbl top others)
  unfolding raw_score
  raw_score_bounds top others =
      let bonus = bonus_from-IsNonneg 1 (of_ℕ 0) others (of_ℕ-IsNonneg 0) in
      (le-add _ _ (of_ℕ-IsNonneg top.score) bonus, add_nonneg _ _ (of_ℕ-IsNonneg top.score) bonus)

  combine_sorted_bounds :
      (ss : List RiskSignal) (cap : ℕ)
      → ((combine_sorted dbl ss cap).0 ≤ cap)
        × (min (first_score ss) cap ≤ (combine_sorted dbl ss cap).0)
  unfolding combine_sorted
  combine_sorted_bounds [] cap = (omega arith, omega arith)
  combine_sorted_bounds (top ∷ others) cap =
      let raw = raw_score dbl top others in
      let (above, nonneg) = raw_score_bounds top others in
      (
        rw round-of_ℕ at
            (round-mono _ _ (minimum-le_left (of_ℕ cap) raw (of_ℕ-IsNonneg cap) nonneg)),
        rw round-of_ℕ at (
            round-mono _ _ (
              le-minimum (of_ℕ cap) raw _ (of_ℕ-mono (min top.score cap) cap (omega arith))
                (le_trans _ _ _ (of_ℕ-mono (min top.score cap) top.score (omega arith)) above))),
      )

  -- The score of a dimension is at most its cap, and at least the score of each of its signals or
  -- the cap.
  pub combine_signals_bounds :
      (ss : List RiskSignal) (cap : ℕ)
      → ((combine_signals dbl ss cap).0 ≤ cap)
        × (min (top_score ss) cap ≤ (combine_signals dbl ss cap).0)
  unfolding combine_signals
  combine_signals_bounds ss cap =
      rw (first_score-sort ss) at (combine_sorted_bounds (sort_by_score ss) cap)

  weighted_sum-IsNonneg :
      (weights : RiskDimension → Num) (ss : List RiskSignal) (dims : List RiskDimension) (sum : Num)
      → ((d : RiskDimension) → IsNonneg (weights d))
      → IsNonneg sum
      → IsNonneg (weighted_sum dbl weights ss dims sum)
  unfolding weighted_sum
  weighted_sum-IsNonneg weights ss [] sum w h = h
  weighted_sum-IsNonneg weights ss (d ∷ dims) sum w h =
      weighted_sum-IsNonneg weights ss dims _ w
        (add_nonneg sum _ h (mul_nonneg _ _ (of_ℕ-IsNonneg _) (w d)))

  module _ (overrides : RiskDimension → Option Num) (ss : List RiskSignal) where
    -- No override is negative or NaN.
    abbrev pub AreSound : Type 0
    AreSound = (d : RiskDimension) (w : Num) → overrides d ≡ some w → IsNonneg w

    weight_of-IsNonneg : AreSound → (d : RiskDimension) → IsNonneg (weight_of dbl overrides d)
    unfolding weight_of
    weight_of-IsNonneg sound d = go (overrides d) refl
      where
        go :
            (o : Option Num)
            → overrides d ≡ o
            → IsNonneg (or_else o (hundredths (default_weight d)))
        go none e = hundredths_nonneg (default_weight d)
        go (some w) e = sound d w e

    weighted_mean-IsNonneg : AreSound → IsNonneg (weighted_mean dbl overrides ss)
    unfolding weighted_mean
    weighted_mean-IsNonneg sound = elim (Bool-cases (gtb total (of_ℕ 0))) [
      | inl positive ↦ rw positive (
          div_nonneg _ _
            (weighted_sum-IsNonneg _ ss risk_dimensions _ (weight_of-IsNonneg sound)
              (of_ℕ-IsNonneg 0))
            positive)
      | inr zero ↦ rw zero (of_ℕ-IsNonneg 0)
    ]
      where
        total : Num
        total = weight_total dbl (weight_of dbl overrides) risk_dimensions (of_ℕ 0)

    -- Whatever the weights, the worst dimension alone brings 55 hundredths of its score into the
    -- aggregate, if no weight is negative.
    pub dominance-le-blend :
        AreSound
        → round (mul (hundredths 55) (of_ℕ (max_dimension dbl ss risk_dimensions)))
          ≤ blend dbl overrides ss
    unfolding blend
    dominance-le-blend sound = round-mono _ _ (
        le-add _ _ (mul_nonneg _ _ (hundredths_nonneg 55) (of_ℕ-IsNonneg _))
          (mul_nonneg _ _ (hundredths_nonneg 45) (weighted_mean-IsNonneg sound)))
