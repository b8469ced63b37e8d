-- ===== src/Risk/Engine.antt =====
-- packages/compiler/risk/engine.ts: the run of the assessors, the plugins' signals, the score, and
-- whether a plan needs approval.
pub mod Guards
pub mod Floors
use atf.Common.{ℕ, Bool, ◌||◌, Option, List, [], ◌∷◌, ◌++◌, true, false, leb, String}
use atf.Risk.Types.{RiskCategory, RiskDecision, RiskDimension, RiskSignal}
use atf.Risk.Doubles.{Doubles}
use atf.Risk.Input.{RiskInput}
use atf.Risk.Verdict.{ScoreResult, score}
use atf.Risk.Signals.Value.{assess_value}
use atf.Risk.Signals.Parties.{assess_counterparty, assess_compliance}
use atf.Risk.Signals.Conduct.{assess_authority, assess_behavioral, assess_temporal}
use atf.Risk.Signals.Checks.{assess_policy, assess_simulation, assess_capability}

abbrev needs_approval : RiskDecision → Bool
needs_approval RiskDecision.review = true
needs_approval RiskDecision.challenge = true
needs_approval RiskDecision.deny = true
needs_approval _ = false

-- `RiskAssessment`, as far as a caller acts on it.
pub record Assessment : Type 0 where
  pub score : ℕ
  pub category : RiskCategory
  pub decision : RiskDecision
  pub requires_approval : Bool
  pub signals : List RiskSignal
  pub controls : List String

module _ (dbl : Doubles) where
  -- `ASSESSORS`, in dimension order.
  abbrev pub assessors : List (RiskInput dbl → List RiskSignal)
  assessors =
      assess_value dbl
      ∷ assess_counterparty dbl
      ∷ assess_authority dbl
      ∷ assess_behavioral dbl
      ∷ assess_policy dbl
      ∷ assess_simulation dbl
      ∷ assess_temporal dbl
      ∷ assess_capability dbl
      ∷ assess_compliance dbl
      ∷ []

  -- The loop over the assessors. None of the model's throws.
  unfoldable pub run_assessors :
      List (RiskInput dbl → List RiskSignal) → RiskInput dbl → List RiskSignal
  run_assessors [] input = []
  run_assessors (assessor ∷ others) input = assessor input ++ run_assessors others input

  -- From the assembled input on. `plugin_signals` are those of `runPlugins`.
  unfoldable pub assess :
      ℕ → (RiskDimension → Option dbl.Num) → List RiskSignal → RiskInput dbl → Assessment
  unfolding run_assessors
  assess approval_threshold weights plugin_signals input =
      let result = score dbl (run_assessors assessors input ++ plugin_signals) weights in
      record {
        score = result.score;
        category = result.category;
        decision = result.decision;
        requires_approval = needs_approval result.decision || leb approval_threshold result.score;
        signals = result.signals;
        controls = result.controls;
      }
