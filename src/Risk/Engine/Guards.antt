-- ===== src/Risk/Engine/Guards.antt =====
-- Facts of an intent that force the verdict of the whole engine, whatever the other signals, the
-- weights and the plugins are.
use atf.Common.{
  ℕ, ◌≤◌, ◌<◌, ◌≡◌, refl, zero, suc, get_elem?, ap, ◌∙◌, Bool, true, Option, some, String, List, [],
  ◌∷◌, ◌++◌, any, any-append, arith, lt→ltb,
}
use mathlib.Core.Option.{some-injective}
use atf.Risk.Types.{RiskDecision, RiskDimension, RiskSignal, severity_of}
use atf.Risk.Doubles.{Doubles}
use atf.Risk.Input.{RiskInput, Limits, Policy, Simulation}
use atf.Risk.Scoring.{has_code}
use atf.Risk.Verdict.Overrides.{score_blocked, score_reverted, score_breached}
use atf.Risk.Signals.Parties.{is_blocked, assess_compliance}
use atf.Risk.Signals.Conduct.{or_default}
use atf.Risk.Signals.Checks.{
  value_limit, has_any, assess_limits, assess_run, assess_policy, assess_simulation,
}
use atf.Risk.Engine.{needs_approval, assessors, run_assessors, assess}

module _ (c : String) (xs ys : List RiskSignal) where
  has_code_left : has_code c xs ≡ true → has_code c (xs ++ ys) ≡ true
  unfolding has_code
  has_code_left h = any-append _ xs ys ∙ ground (arith, h)

  has_code_right : has_code c ys ≡ true → has_code c (xs ++ ys) ≡ true
  unfolding has_code
  has_code_right h = any-append _ xs ys ∙ ground (arith, h)

approval_of_severity : (d : RiskDecision) → 3 ≤ severity_of d → needs_approval d ≡ true
approval_of_severity RiskDecision.challenge h = refl
approval_of_severity RiskDecision.deny h = refl
approval_of_severity _ h = absurd (omega arith)

value_limit_breached :
    (v top : ℕ)
    → 0 < top
    → top < v
    → has_code "POLICY_VALUE_BREACH" (value_limit v (some top)) ≡ true
unfolding value_limit has_code
value_limit_breached v top pos lt =
    rw (lt→ltb 0 top pos, lt→ltb 0 v (omega arith), lt→ltb top v lt) refl

has_code-or_default :
    (c : String) (s : RiskSignal) (xs : List RiskSignal)
    → has_code c xs ≡ true
    → has_code c (or_default s xs) ≡ true
unfolding has_code
has_code-or_default c s [] h = cc
has_code-or_default c s (x ∷ xs) h = h

-- A step that reverted leaves the list of steps not empty.
has_any-of_any :
    (steps : List Bool) → any (λ reverted. reverted) steps ≡ true → has_any steps ≡ true
unfolding has_any
has_any-of_any [] h = cc
has_any-of_any (s ∷ steps) h = refl

reverted_run :
    (sim : Simulation)
    → any (λ reverted. reverted) sim.steps ≡ true
    → has_code "SIM_REVERT" (assess_run sim) ≡ true
unfolding assess_run has_code
reverted_run sim h = ground (arith, has_any-of_any sim.steps h, h)

-- What one assessor reports is reported by the run.
module _ (dbl : Doubles) (input : RiskInput dbl) (c : String) where
  has_code-run :
      (fs : List (RiskInput dbl → List RiskSignal)) (n : ℕ) (f : RiskInput dbl → List RiskSignal)
      → get_elem? fs n ≡ some f
      → has_code c (f input) ≡ true
      → has_code c (run_assessors dbl fs input) ≡ true
  unfolding run_assessors
  has_code-run [] n f at h = cc
  has_code-run (g ∷ fs) zero f at h =
      has_code_left c (g input) _ (ap (λ a. has_code c (a input)) (some-injective g f at) ∙ h)
  has_code-run (g ∷ fs) (suc n) f at h = has_code_right c _ _ (has_code-run fs n f at h)

  has_code-run_assessors :
      (plugins : List RiskSignal) (n : ℕ) (f : RiskInput dbl → List RiskSignal)
      → get_elem? (assessors dbl) n ≡ some f
      → has_code c (f input) ≡ true
      → has_code c (run_assessors dbl (assessors dbl) input ++ plugins) ≡ true
  has_code-run_assessors plugins n f at h =
      has_code_left c _ plugins (has_code-run (assessors dbl) n f at h)

module _ (dbl : Doubles) (input : RiskInput dbl) where
  compliance_blocked :
      any (is_blocked input.reputation) input.targets ≡ true
      → has_code "COMP_BLOCKED" (assess_compliance dbl input) ≡ true
  unfolding assess_compliance has_code
  compliance_blocked h = rw h refl

  limits_breached :
      (l : Limits) (top : ℕ)
      → l.max_value ≡ some top
      → 0 < top
      → top < input.economic.value_wei
      → (conflicts : ℕ)
      → has_code "POLICY_VALUE_BREACH" (assess_limits dbl input.economic input.targets conflicts l)
        ≡ true
  unfolding assess_limits
  limits_breached l top hm pos lt conflicts = has_code-or_default "POLICY_VALUE_BREACH" _ _ (
      has_code_left "POLICY_VALUE_BREACH" (value_limit input.economic.value_wei l.max_value) _
        (rw hm (value_limit_breached input.economic.value_wei top pos lt)))

  policy_breached :
      (p : Policy) (l : Limits) (top : ℕ)
      → input.policy ≡ some p
      → p.limits ≡ some l
      → l.max_value ≡ some top
      → 0 < top
      → top < input.economic.value_wei
      → has_code "POLICY_VALUE_BREACH" (assess_policy dbl input) ≡ true
  unfolding assess_policy assess_limits
  policy_breached p l top hp hl hm pos lt =
      rw (hp, assess_policy) (rw (hl, assess_policy) (limits_breached l top hm pos lt p.conflicts))

  simulation_reverted :
      (sim : Simulation)
      → input.simulation ≡ some sim
      → any (λ reverted. reverted) sim.steps ≡ true
      → has_code "SIM_REVERT" (assess_simulation dbl input) ≡ true
  unfolding assess_simulation
  simulation_reverted sim hs h = rw (hs, assess_simulation) (reverted_run sim h)

  module _ (threshold : ℕ) (weights : RiskDimension → Option dbl.Num)
      (plugins : List RiskSignal) where
    -- If any counterparty is on the blocklist, the engine denies with score 100 and asks for
    -- approval.
    pub assess_blocked :
        any (is_blocked input.reputation) input.targets ≡ true
        → let r = assess dbl threshold weights plugins input in
          (r.decision ≡ RiskDecision.deny) × (r.score ≡ 100) × (r.requires_approval ≡ true)
    unfolding assess
    assess_blocked h =
        let found : has_code "COMP_BLOCKED" (run_assessors dbl (assessors dbl) input ++ plugins)
            ≡ true =
          has_code-run_assessors dbl input _ plugins 8 (assess_compliance dbl) refl
            (compliance_blocked h) in
        let (full, _, denied) =
          score_blocked dbl (run_assessors dbl (assessors dbl) input ++ plugins) weights found in
        (denied, full, rw denied refl)

    -- If a step of the dry run reverted, the engine denies and asks for approval.
    assess_reverted :
        (sim : Simulation)
        → input.simulation ≡ some sim
        → any (λ reverted. reverted) sim.steps ≡ true
        → let r = assess dbl threshold weights plugins input in
          (r.decision ≡ RiskDecision.deny) × (90 ≤ r.score) × (r.requires_approval ≡ true)
    unfolding assess
    assess_reverted sim hs h =
        let found : has_code "SIM_REVERT" (run_assessors dbl (assessors dbl) input ++ plugins)
            ≡ true =
          has_code-run_assessors dbl input _ plugins 5 (assess_simulation dbl) refl
            (simulation_reverted sim hs h) in
        let (high, denied) =
          score_reverted dbl (run_assessors dbl (assessors dbl) input ++ plugins) weights found in
        (denied, high, rw denied refl)

    -- If the native value exceeds the positive limit of the effective policy, the engine challenges
    -- or denies, and asks for approval.
    assess_over_limit :
        (p : Policy) (l : Limits) (top : ℕ)
        → input.policy ≡ some p
        → p.limits ≡ some l
        → l.max_value ≡ some top
        → 0 < top
        → top < input.economic.value_wei
        → let r = assess dbl threshold weights plugins input in
          (3 ≤ severity_of r.decision) × (78 ≤ r.score) × (r.requires_approval ≡ true)
    unfolding assess
    assess_over_limit p l top hp hl hm pos lt =
        let found : has_code "POLICY_VALUE_BREACH"
              (run_assessors dbl (assessors dbl) input ++ plugins)
            ≡ true =
          has_code-run_assessors dbl input _ plugins 4 (assess_policy dbl) refl
            (policy_breached p l top hp hl hm pos lt) in
        let (high, severe) =
          score_breached dbl (run_assessors dbl (assessors dbl) input ++ plugins) weights
            (rw found refl) in
        (severe, high, rw (approval_of_severity _ severe) refl)
