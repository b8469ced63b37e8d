-- ===== src/Risk/Verdict/Overrides.antt =====
-- The hard overrides of the score: what one code among the signals forces.
use atf.Common.{ℕ, ◌≤◌, ◌≡◌, refl, ap, ◌∙◌, true, Option, none, some, List, arith, ◌||◌}
use atf.Risk.Types.{RiskCategory, RiskDecision, RiskDimension, RiskSignal, severity_of}
use atf.Risk.Doubles.{Doubles}
use atf.Risk.Scoring.{has_code, categorize, band_decision, most_severe}
use atf.Risk.Verdict.{forced, decide, blend, score}

-- The decision is never milder than the band of the score.
module _ (signals : List RiskSignal) (blended : ℕ) where
  forced_blocked :
      has_code "COMP_BLOCKED" signals ≡ true
      → forced signals blended ≡ (100, some RiskDecision.deny)
  unfolding forced
  forced_blocked h = rw h (ground arith)

  forced_reverted :
      has_code "SIM_REVERT" signals ≡ true
      → (90 ≤ (forced signals blended).0) × ((forced signals blended).1 ≡ some RiskDecision.deny)
  unfolding forced
  forced_reverted h = rw h (ground arith)

  forced_breached :
      (has_code "POLICY_VALUE_BREACH" signals || has_code "POLICY_TARGET_OFFLIST" signals) ≡ true
      → 78 ≤ (forced signals blended).0
  unfolding forced
  forced_breached h = rw h (ground arith)

  forced_bounded : (forced signals blended).0 ≤ 100
  unfolding forced
  forced_bounded = omega arith

decide_deny : (aggregate : ℕ) → decide aggregate (some RiskDecision.deny) ≡ RiskDecision.deny
unfolding decide most_severe
decide_deny aggregate = ground arith

-- Above 75 the band is CHALLENGE at least.
decide_above :
    (aggregate : ℕ) (f : Option RiskDecision)
    → 76 ≤ aggregate
    → 3 ≤ severity_of (decide aggregate f)
unfolding decide most_severe band_decision
decide_above aggregate none h = ground arith
decide_above aggregate (some f) h = ground arith

-- The decision is never milder than the band of the score.
band-le-decide :
    (aggregate : ℕ) (f : Option RiskDecision)
    → severity_of (band_decision aggregate) ≤ severity_of (decide aggregate f)
unfolding decide most_severe
band-le-decide aggregate none = omega arith
band-le-decide aggregate (some f) = ground arith

module _ (dbl : Doubles) (signals : List RiskSignal)
    (overrides : RiskDimension → Option dbl.Num) where
  -- The score is at most 100, its category is the category of the score, and the decision is no
  -- milder than the band of the score.
  pub score_consistent :
      let r = score dbl signals overrides in
      (r.score ≤ 100)
      × (r.category ≡ categorize r.score)
      × (severity_of (band_decision r.score) ≤ severity_of r.decision)
  unfolding score
  score_consistent =
      let (aggregate, f) = forced signals (blend dbl overrides signals) in
      (forced_bounded signals _, refl, band-le-decide aggregate f)

  -- A blocked counterparty denies the plan with the full score.
  pub score_blocked :
      has_code "COMP_BLOCKED" signals ≡ true
      → let r = score dbl signals overrides in
        (r.score ≡ 100) × (r.category ≡ RiskCategory.authority) × (r.decision ≡ RiskDecision.deny)
  unfolding score
  score_blocked h =
      let e = forced_blocked signals (blend dbl overrides signals) h in
      (ap (λ p. p.0) e, ap (λ p. categorize p.0) e, ap (λ p. decide p.0 p.1) e ∙ decide_deny 100)

  -- A simulated revert denies the plan, with a score of 90 or more.
  pub score_reverted :
      has_code "SIM_REVERT" signals ≡ true
      → let r = score dbl signals overrides in (90 ≤ r.score) × (r.decision ≡ RiskDecision.deny)
  unfolding score
  score_reverted h =
      let (high, f) = forced_reverted signals (blend dbl overrides signals) h in
      let aggregate = (forced signals (blend dbl overrides signals)).0 in
      (high, ap (decide aggregate) f ∙ decide_deny aggregate)

  -- A breach of the policy's value or targets scores 78 or more, so that the decision is to
  -- challenge or to deny.
  pub score_breached :
      (has_code "POLICY_VALUE_BREACH" signals || has_code "POLICY_TARGET_OFFLIST" signals) ≡ true
      → let r = score dbl signals overrides in (78 ≤ r.score) × (3 ≤ severity_of r.decision)
  unfolding score
  score_breached h =
      let high = forced_breached signals (blend dbl overrides signals) h in
      let (aggregate, f) = forced signals (blend dbl overrides signals) in
      (high, decide_above aggregate f (omega (arith, high)))
