-- ===== src/Risk/Engine/Floors.antt =====
-- Token movements and approvals are never scored as no value: the value dimension of the whole run
-- has a floor, whatever the other signals and the plugins' are.
use atf.Common.{ℕ, ◌≤◌, ◌≡◌, refl, true, false, some, List, [], ◌∷◌, ◌++◌, arith}
use atf.Risk.Types.{RiskDimension, RiskSignal}
use atf.Risk.Doubles.{Doubles}
use atf.Risk.Input.{RiskInput, TokenView}
use atf.Risk.Scoring.{signals_of}
use atf.Risk.Verdict.{dimension_score}
use atf.Risk.Verdict.Bounds.{top_score, combine_signals_bounds}
use atf.Risk.Signals.Value.{assess_value, assess_economic, movement_signal, approval_signal}
use atf.Risk.Engine.{run_assessors, assessors}

-- A list begins with a signal of the value dimension that scores at least `n`.
abbrev Leads : ℕ → List RiskSignal → Type 0
Leads n [] = ⊥
Leads n (s ∷ ss) = (s.dimension ≡ RiskDimension.value) × (n ≤ s.score)

Leads-append : (n : ℕ) (xs ys : List RiskSignal) → Leads n xs → Leads n (xs ++ ys)
Leads-append n (x ∷ xs) ys h = h
Leads-append n [] ys h = elim h [ ]

top_score-signals_of :
    (n : ℕ) (ss : List RiskSignal) → Leads n ss → n ≤ top_score (signals_of RiskDimension.value ss)
unfolding signals_of
top_score-signals_of n [] h = elim h [ ]
top_score-signals_of n (s ∷ ss) (dim, le) = rw dim (omega (arith, le))

module _ (dbl : Doubles) where
  movement_floor :
      (token : TokenView dbl)
      → ((movement_signal dbl token).dimension ≡ RiskDimension.value)
        × (12 ≤ (movement_signal dbl token).score)
  unfolding movement_signal
  movement_floor token = ground arith

  approval_floor :
      (token : TokenView dbl)
      → token.is_unlimited_approval ≡ true
      → ((approval_signal dbl token).dimension ≡ RiskDimension.value)
        × (82 ≤ (approval_signal dbl token).score)
  unfolding approval_signal
  approval_floor token h = rw h (refl, omega arith)

  dimension_floor :
      (n : ℕ) (ss : List RiskSignal)
      → n ≤ 100
      → Leads n ss
      → n ≤ dimension_score dbl ss RiskDimension.value
  unfolding dimension_score
  dimension_floor n ss cap h = omega (
    arith,
    top_score-signals_of n ss h,
    (combine_signals_bounds dbl (signals_of RiskDimension.value ss) 100).1,
  )

  module _ (input : RiskInput dbl) (plugins : List RiskSignal) where
    run_floor :
        (n : ℕ)
        → n ≤ 100
        → Leads n (assess_value dbl input)
        → n
          ≤ dimension_score dbl
              (run_assessors dbl (assessors dbl) input ++ plugins)
              RiskDimension.value
    unfolding run_assessors
    run_floor n cap h =
        dimension_floor n _ cap
          (Leads-append n _ plugins (Leads-append n (assess_value dbl input) _ h))

    -- A token call that is not an approval scores 12 or more in the value dimension of the whole
    -- run, however little native value the intent carries.
    pub movement-value_floor :
        (token : TokenView dbl)
        → input.economic.token ≡ some token
        → token.is_approval ≡ false
        → 12
          ≤ dimension_score dbl
              (run_assessors dbl (assessors dbl) input ++ plugins)
              RiskDimension.value
    unfolding assess_value assess_economic
    movement-value_floor token ht ha =
        run_floor 12 (omega arith)
          (rw (ht, assess_economic) (rw (ha, assess_economic) (movement_floor token)))

    -- An unlimited approval scores 82 or more in the value dimension of the whole run.
    unlimited_approval-value_floor :
        (token : TokenView dbl)
        → input.economic.token ≡ some token
        → token.is_approval ≡ true
        → token.is_unlimited_approval ≡ true
        → 82
          ≤ dimension_score dbl
              (run_assessors dbl (assessors dbl) input ++ plugins)
              RiskDimension.value
    unfolding assess_value assess_economic
    unlimited_approval-value_floor token ht ha hu =
        run_floor 82 (omega arith)
          (rw (ht, assess_economic) (rw (ha, assess_economic) (approval_floor token hu)))
