-- ===== src/Risk/Types.antt =====
-- packages/compiler/types/risk.ts. Texts for people (reasons, messages, evidence) are left out: no
-- test of the engine reads them.
use atf.Common.{ℕ, String, List, [], ◌∷◌}

pub data RiskCategory : Type 0 where
  low medium high authority : RiskCategory

pub data RiskDecision : Type 0 where
  allow allow_with_controls review challenge deny : RiskDecision

pub data RiskDimension : Type 0 where
  value counterparty authority behavioral policy simulation temporal capability compliance :
      RiskDimension

pub data RiskSeverity : Type 0 where
  info low medium high critical : RiskSeverity

pub record RiskSignal : Type 0 where
  pub code : String
  pub dimension : RiskDimension
  pub severity : RiskSeverity
  pub score : ℕ

pub data WarningSeverity : Type 0 where
  warning critical : WarningSeverity

pub record RiskWarning : Type 0 where
  pub code : String
  pub severity : WarningSeverity

abbrev pub low_max : ℕ
low_max = 25

abbrev pub medium_max : ℕ
medium_max = 50

abbrev pub high_max : ℕ
high_max = 75

abbrev pub risk_dimensions : List RiskDimension
risk_dimensions =
    RiskDimension.value ∷ RiskDimension.counterparty ∷ RiskDimension.authority
    ∷ RiskDimension.behavioral ∷ RiskDimension.policy ∷ RiskDimension.simulation
    ∷ RiskDimension.temporal ∷ RiskDimension.capability ∷ RiskDimension.compliance ∷ []

-- `DECISION_BANDS`
abbrev pub decision_bands : List (ℕ × RiskDecision)
decision_bands =
    (25, RiskDecision.allow)
    ∷ (50, RiskDecision.allow_with_controls)
    ∷ (75, RiskDecision.review)
    ∷ (90, RiskDecision.challenge)
    ∷ (100, RiskDecision.deny)
    ∷ []

-- `DEFAULT_DIMENSION_WEIGHTS`, in hundredths.
abbrev pub default_weight : RiskDimension → ℕ
default_weight RiskDimension.value = 20
default_weight RiskDimension.counterparty = 16
default_weight RiskDimension.authority = 16
default_weight RiskDimension.behavioral = 12
default_weight RiskDimension.policy = 14
default_weight RiskDimension.simulation = 10
default_weight RiskDimension.temporal = 4
default_weight RiskDimension.capability = 5
default_weight RiskDimension.compliance = 3

-- `DIMENSION_CAPS`
abbrev pub dimension_cap : RiskDimension → ℕ
dimension_cap RiskDimension.behavioral = 90
dimension_cap RiskDimension.temporal = 60
dimension_cap _ = 100

abbrev pub severity_of : RiskDecision → ℕ
severity_of RiskDecision.allow = 0
severity_of RiskDecision.allow_with_controls = 1
severity_of RiskDecision.review = 2
severity_of RiskDecision.challenge = 3
severity_of RiskDecision.deny = 4

-- Which dimension: `===` on the names.
abbrev pub dimension_index : RiskDimension → ℕ
dimension_index RiskDimension.value = 0
dimension_index RiskDimension.counterparty = 1
dimension_index RiskDimension.authority = 2
dimension_index RiskDimension.behavioral = 3
dimension_index RiskDimension.policy = 4
dimension_index RiskDimension.simulation = 5
dimension_index RiskDimension.temporal = 6
dimension_index RiskDimension.capability = 7
dimension_index RiskDimension.compliance = 8
