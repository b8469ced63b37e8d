-- ===== src/Risk/Signals/Checks.antt =====
-- The assessors of what the earlier stages found: policy, simulation, capabilities.
use atf.Common.{
  ℕ, ◌*◌, ◌/◌, Bool, true, false, not, ◌&&◌, ◌||◌, Option, none, some, String, List, [], ◌∷◌, ◌++◌,
  leb, ltb, ◌==◌, if◌then◌else◌, any, mentions,
}
use atf.Risk.Types.{RiskDimension, RiskSeverity, RiskSignal}
use atf.Risk.Doubles.{Doubles}
use atf.Risk.Input.{Limits, Simulation, RiskInput, EconomicView, sig}
use atf.Risk.Signals.Conduct.{or_default}

-- The value against `maxValue`; a limit that does not parse leaves the block by its catch.
unfoldable pub value_limit : ℕ → Option ℕ → List RiskSignal
value_limit v none = []
value_limit v (some top) =
    if ltb 0 top && ltb 0 v
    then (if ltb top v
        then sig "POLICY_VALUE_BREACH" RiskDimension.policy RiskSeverity.critical 95 ∷ []
        else if leb 90 (v * 100 / top)
        then sig "POLICY_VALUE_NEAR" RiskDimension.policy RiskSeverity.medium 45 ∷ []
        else [])
    else []

unfoldable pub on_list : List ℕ → ℕ → Bool
on_list allowed t = any (λ a. a == t) allowed

unfoldable pub target_limit : List ℕ → List ℕ → List RiskSignal
unfolding on_list
target_limit [] targets = []
target_limit (a ∷ allowed) targets =
    if any (λ t. not (on_list (a ∷ allowed) t)) targets
    then sig "POLICY_TARGET_OFFLIST" RiskDimension.policy RiskSeverity.high 80 ∷ []
    else []

unfoldable pub has_any {ℓ} : {A : Type ℓ} → List A → Bool
has_any [] = false
has_any (x ∷ xs) = true

-- `/skipped|disabled|no provider/i.test(w)`
unfoldable pub says_skipped : String → Bool
says_skipped w = (mentions "skipped" w || mentions "disabled" w) || mentions "no provider" w

unfoldable pub gas_signals : Option ℕ → List RiskSignal
gas_signals none = []
gas_signals (some limit) =
    if ltb 2_000_000 limit
    then sig "SIM_GAS_HIGH" RiskDimension.simulation RiskSeverity.medium 35 ∷ []
    else []

unfoldable pub assess_run : Simulation → List RiskSignal
unfolding says_skipped gas_signals has_any
assess_run sim =
    if any says_skipped sim.warnings && not (has_any sim.steps)
    then sig "SIM_SKIPPED" RiskDimension.simulation RiskSeverity.low 18 ∷ []
    else if any (λ reverted. reverted) sim.steps
    then sig "SIM_REVERT" RiskDimension.simulation RiskSeverity.critical 100 ∷ []
    else or_default (sig "SIM_OK" RiskDimension.simulation RiskSeverity.info 5) (
        (if not sim.success && has_any sim.errors
          then sig "SIM_ERROR" RiskDimension.simulation RiskSeverity.high 60 ∷ []
          else [])
        ++ gas_signals sim.gas_limit)

module _ (dbl : Doubles) where
  unfoldable pub assess_limits : EconomicView dbl → List ℕ → ℕ → Limits → List RiskSignal
  unfolding value_limit target_limit
  assess_limits e targets conflicts limits =
      or_default (sig "POLICY_WITHIN" RiskDimension.policy RiskSeverity.info 8) (
        value_limit e.value_wei limits.max_value
        ++ (target_limit limits.allowed_targets targets
            ++ ((if (e.is_batch && ltb 0 limits.max_batch_size)
                    && ltb limits.max_batch_size e.batch_size
                  then sig "POLICY_BATCH_BREACH" RiskDimension.policy RiskSeverity.high 70 ∷ []
                  else [])
                ++ (if ltb 0 conflicts
                    then sig "POLICY_CONFLICT" RiskDimension.policy RiskSeverity.medium 40 ∷ []
                    else []))))

  unfoldable pub no_limits : List RiskSignal
  no_limits = sig "POLICY_NONE" RiskDimension.policy RiskSeverity.low 20 ∷ []

  unfoldable pub assess_policy : RiskInput dbl → List RiskSignal
  unfolding assess_limits no_limits
  assess_policy input = elim input.policy [
    | none ↦ no_limits
    | some policy ↦ elim policy.limits [
      | none ↦ no_limits
      | some limits ↦ assess_limits input.economic input.targets policy.conflicts limits
    ]
  ]

  unfoldable pub assess_simulation : RiskInput dbl → List RiskSignal
  unfolding assess_run
  assess_simulation input = elim input.simulation [
    | none ↦ sig "SIM_ABSENT" RiskDimension.simulation RiskSeverity.low 20 ∷ []
    | some sim ↦ assess_run sim
  ]

  unfoldable pub assess_capability : RiskInput dbl → List RiskSignal
  unfolding has_any
  assess_capability input =
      let caps = input.capabilities in
      if caps.can_execute && not (has_any caps.missing_explicit)
      then sig "CAP_OK" RiskDimension.capability RiskSeverity.info 6 ∷ []
      else or_default (sig "CAP_PARTIAL" RiskDimension.capability RiskSeverity.medium 35) (
          (if has_any caps.missing_explicit
            then sig "CAP_MISSING" RiskDimension.capability RiskSeverity.high 70 ∷ []
            else [])
          ++ (if has_any caps.must_delegate
              then sig "CAP_MUST_DELEGATE" RiskDimension.capability RiskSeverity.medium 40 ∷ []
              else []))
