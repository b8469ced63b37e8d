-- ===== src/Risk/Verdict.antt =====
-- packages/compiler/risk/scoring.ts: the score of a dimension, the aggregate, the decision, and what
-- goes with it. Suggestions and controls are their codes.
pub mod Overrides
pub mod Bounds
use atf.Common.{
  ℕ, zero, suc, ◌+◌, Bool, true, false, ◌&&◌, ◌||◌, Option, none, some, String, List, [], ◌∷◌, ◌++◌,
  map, min, max, leb, ltb, if◌then◌else◌, or_else, take, keep, any, str_eq, is_some,
}
use atf.Risk.Types.{
  RiskCategory, RiskDecision, RiskDimension, RiskSeverity, RiskSignal, RiskWarning, risk_dimensions,
  default_weight, dimension_cap,
}
use atf.Risk.Doubles.{Doubles}
use atf.Risk.Scoring.{
  sort_by_score, signals_of, has_code, legacy_name, categorize, band_decision, most_severe,
  build_warnings,
}

unfoldable pub is_critical : RiskSeverity → Bool
is_critical RiskSeverity.critical = true
is_critical _ = false

abbrev when {ℓ} : {A : Type ℓ} → Bool → A → List A
when b a = if b then a ∷ [] else []

abbrev holds_back : RiskDecision → Bool
holds_back RiskDecision.review = true
holds_back RiskDecision.challenge = true
holds_back RiskDecision.deny = true
holds_back _ = false

unfoldable pub build_suggestions : List RiskSignal → RiskDecision → List String
unfolding has_code
build_suggestions signals decision =
    let has = λ (c : String). has_code c signals in
    when (holds_back decision) "REQUIRE_APPROVAL"
    ++ (when (has "VALUE_NOTIONAL" || has "VALUE_ETH") "REDUCE_VALUE"
        ++ (when (has "CP_UNKNOWN" || has "CP_KNOWN" || has "BEHAV_NEW_COUNTERPARTY")
              "VERIFY_COUNTERPARTY"
            ++ (when (has "TEMP_STALE" || has "TEMP_AGING") "REFRESH_INTENT"
                ++ (when (has "SIM_REVERT") "FIX_REVERT"
                    ++ when (has "CAP_MISSING") "GRANT_CAPABILITY"))))

abbrev is_challenge : RiskDecision → Bool
is_challenge RiskDecision.challenge = true
is_challenge _ = false

abbrev is_controlled : RiskDecision → Bool
is_controlled RiskDecision.allow_with_controls = true
is_controlled _ = false

unfoldable pub build_controls : List RiskSignal → RiskDecision → List String
unfolding has_code is_critical
build_controls signals decision =
    let has = λ (c : String). has_code c signals in
    when (is_challenge decision) "STEP_UP"
    ++ (when
          (has "AUTH_ACTION"
            && any (λ s. str_eq s.code "AUTH_ACTION" && is_critical s.severity) signals)
          "TIMELOCK"
        ++ (when (has "CP_FANOUT" || has "BEHAV_VELOCITY") "RATE_LIMIT"
            ++ (when ((has "VALUE_NOTIONAL" || has "VALUE_ETH") && is_controlled decision)
                  "VALUE_CAP"
                ++ when (has "CP_UNKNOWN" || has "CP_KNOWN") "MONITOR")))

-- The aggregate after the hard overrides, with the decision that they force.
unfoldable pub forced : List RiskSignal → ℕ → ℕ × Option RiskDecision
unfolding has_code
forced signals blended =
    let blocked = has_code "COMP_BLOCKED" signals in
    let reverted = has_code "SIM_REVERT" signals in
    let breached =
      has_code "POLICY_VALUE_BREACH" signals || has_code "POLICY_TARGET_OFFLIST" signals in
    let a₁ = if blocked then 100 else blended in
    let f₁ = if blocked then some RiskDecision.deny else none in
    let a₂ = if reverted then max a₁ 90 else a₁ in
    let f₂ = if reverted then some (or_else f₁ RiskDecision.deny) else f₁ in
    let a₃ = if breached then max a₂ 78 else a₂ in
    let f₃ = if breached then some (or_else f₂ RiskDecision.review) else f₂ in (min 100 a₃, f₃)

unfoldable pub decide : ℕ → Option RiskDecision → RiskDecision
unfolding most_severe band_decision
decide aggregate none = band_decision aggregate
decide aggregate (some f) = most_severe f (band_decision aggregate)

module _ (dbl : Doubles) where
  open dbl use {Num, of_ℕ, hundredths, add, mul, div, pow, minimum, gtb, round}

  bonus_from : ℕ → Num → List RiskSignal → Num
  bonus_from i bonus [] = bonus
  bonus_from i bonus (s ∷ ss) =
      bonus_from (i + 1) (add bonus (mul (of_ℕ s.score) (pow (hundredths 40) i))) ss

  -- `raw` of `combineSignals`, for the sorted signals `top ∷ others`.
  unfoldable pub raw_score : RiskSignal → List RiskSignal → Num
  unfolding bonus_from
  raw_score top others = add (of_ℕ top.score) (bonus_from 1 (of_ℕ 0) others)

  combine_sorted : List RiskSignal → ℕ → ℕ × Bool
  unfolding raw_score
  combine_sorted [] cap = (0, false)
  combine_sorted (top ∷ others) cap =
      let raw = raw_score top others in (round (minimum (of_ℕ cap) raw), gtb raw (of_ℕ cap))

  -- The score of a dimension, and whether it was capped.
  unfoldable pub combine_signals : List RiskSignal → ℕ → ℕ × Bool
  unfolding combine_sorted sort_by_score
  combine_signals signals cap = combine_sorted (sort_by_score signals) cap

  pub record RiskFactor : Type 0 where
    pub name : String
    pub dimension : RiskDimension
    pub weight : dbl.Num
    pub score : ℕ
    pub signals : List RiskSignal
    pub capped : Bool

  -- `weights[dim]`, an override before the default.
  weight_of : (RiskDimension → Option Num) → RiskDimension → Num
  weight_of overrides dim = or_else (overrides dim) (hundredths (default_weight dim))

  unfoldable pub dimension_score : List RiskSignal → RiskDimension → ℕ
  unfolding combine_signals signals_of
  dimension_score signals dim = (combine_signals (signals_of dim signals) (dimension_cap dim)).0

  factor_of : (RiskDimension → Option Num) → List RiskSignal → RiskDimension → RiskFactor
  unfolding weight_of combine_signals signals_of legacy_name
  factor_of overrides signals dim =
      let dim_signals = signals_of dim signals in
      let (dim_score, capped) = combine_signals dim_signals (dimension_cap dim) in
      record {
        name = legacy_name dim;
        dimension = dim;
        weight = weight_of overrides dim;
        score = dim_score;
        signals = dim_signals;
        capped = capped;
      }

  weighted_sum : (RiskDimension → Num) → List RiskSignal → List RiskDimension → Num → Num
  unfolding dimension_score
  weighted_sum weights signals [] sum = sum
  weighted_sum weights signals (dim ∷ dims) sum =
      weighted_sum weights signals dims
        (add sum (mul (of_ℕ (dimension_score signals dim)) (weights dim)))

  weight_total : (RiskDimension → Num) → List RiskDimension → Num → Num
  weight_total weights [] sum = sum
  weight_total weights (dim ∷ dims) sum = weight_total weights dims (add sum (weights dim))

  unfoldable pub max_dimension : List RiskSignal → List RiskDimension → ℕ
  unfolding dimension_score
  max_dimension signals [] = 0
  max_dimension signals (dim ∷ dims) =
      max (dimension_score signals dim) (max_dimension signals dims)

  weighted_mean : (RiskDimension → Option Num) → List RiskSignal → Num
  unfolding weight_of weighted_sum weight_total
  weighted_mean overrides signals =
      let total = weight_total (weight_of overrides) risk_dimensions (of_ℕ 0) in
      if gtb total (of_ℕ 0)
      then div (weighted_sum (weight_of overrides) signals risk_dimensions (of_ℕ 0)) total
      else of_ℕ 0

  -- `Math.round(0.55 * maxDim + 0.45 * weightedMean)`
  unfoldable pub blend : (RiskDimension → Option Num) → List RiskSignal → ℕ
  unfolding weighted_mean max_dimension
  blend overrides signals = round (
      add (mul (hundredths 55) (of_ℕ (max_dimension signals risk_dimensions)))
        (mul (hundredths 45) (weighted_mean overrides signals)))

  pub record ScoreResult : Type 0 where
    pub score : ℕ
    pub category : RiskCategory
    pub decision : RiskDecision
    pub factors : List RiskFactor
    pub signals : List RiskSignal
    pub warnings : List RiskWarning
    pub suggestions : List String
    pub controls : List String
    pub top_drivers : List RiskSignal

  -- The thresholds that the source passes are read nowhere in it.
  unfoldable pub score : List RiskSignal → (RiskDimension → Option Num) → ScoreResult
  unfolding blend forced decide categorize sort_by_score factor_of build_warnings build_suggestions
      build_controls
  score signals overrides =
      let (aggregate, forced_decision) = forced signals (blend overrides signals) in
      let category = categorize aggregate in
      let decision = decide aggregate forced_decision in
      let sorted = sort_by_score signals in
      record {
        score = aggregate;
        category = category;
        decision = decision;
        factors = map (factor_of overrides signals) risk_dimensions;
        signals = sorted;
        warnings = build_warnings sorted category decision;
        suggestions = build_suggestions sorted decision;
        controls = build_controls sorted decision;
        top_drivers = take 4 (keep (λ s. leb 30 s.score) sorted);
      }
