-- ===== src/Risk/Scoring.antt =====
-- packages/compiler/risk/scoring.ts.
use atf.Common.{
  ℕ, Bool, String, List, [], ◌∷◌, ◌++◌, leb, ◌==◌, if◌then◌else◌, keep, any, str_eq, includes,
}
use atf.Risk.Types.{
  RiskCategory, RiskDecision, RiskDimension, RiskSeverity, RiskSignal, RiskWarning, WarningSeverity,
  low_max, medium_max, high_max, decision_bands, severity_of, dimension_index,
}

-- `sort((a, b) => b.score - a.score)`, which is stable.
unfoldable pub insert_by_score : RiskSignal → List RiskSignal → List RiskSignal
insert_by_score s [] = s ∷ []
insert_by_score s (x ∷ xs) = if leb x.score s.score then s ∷ x ∷ xs else x ∷ insert_by_score s xs

unfoldable pub sort_by_score : List RiskSignal → List RiskSignal
unfolding insert_by_score
sort_by_score [] = []
sort_by_score (s ∷ ss) = insert_by_score s (sort_by_score ss)

-- `groupByDimension(signals).get(dim) || []`
unfoldable pub signals_of : RiskDimension → List RiskSignal → List RiskSignal
signals_of dim signals = keep (λ s. dimension_index s.dimension == dimension_index dim) signals

unfoldable pub has_code : String → List RiskSignal → Bool
has_code code signals = any (λ s. str_eq s.code code) signals

unfoldable pub legacy_name : RiskDimension → String
legacy_name RiskDimension.value = "value_transfer"
legacy_name RiskDimension.counterparty = "target_trust"
legacy_name RiskDimension.authority = "action_sensitivity"
legacy_name RiskDimension.capability = "capability_coverage"
legacy_name RiskDimension.temporal = "intent_age"
legacy_name RiskDimension.behavioral = "behavioral"
legacy_name RiskDimension.policy = "policy"
legacy_name RiskDimension.simulation = "simulation"
legacy_name RiskDimension.compliance = "compliance"

unfoldable pub categorize : ℕ → RiskCategory
categorize s =
    if leb s low_max
    then RiskCategory.low
    else if leb s medium_max
    then RiskCategory.medium
    else if leb s high_max
    then RiskCategory.high
    else RiskCategory.authority

first_band : ℕ → List (ℕ × RiskDecision) → RiskDecision
first_band s [] = RiskDecision.deny
first_band s ((top, decision) ∷ bands) = if leb s top then decision else first_band s bands

unfoldable pub band_decision : ℕ → RiskDecision
unfolding first_band
band_decision s = first_band s decision_bands

unfoldable pub most_severe : RiskDecision → RiskDecision → RiskDecision
most_severe a b = if leb (severity_of b) (severity_of a) then a else b

-- `buildWarnings` before duplicates go.
signal_warnings : List RiskSignal → List RiskWarning
signal_warnings [] = []
signal_warnings (s ∷ ss) = elim s.severity [
  | RiskSeverity.critical ↦
      record { code = s.code; severity = WarningSeverity.critical } ∷ signal_warnings ss
  | RiskSeverity.high ↦
      record { code = s.code; severity = WarningSeverity.warning } ∷ signal_warnings ss
  | _ ↦ signal_warnings ss
]

verdict_warning : RiskCategory → RiskDecision → List RiskWarning
verdict_warning category RiskDecision.deny =
    record { code = "DENY"; severity = WarningSeverity.critical } ∷ []
verdict_warning RiskCategory.high decision =
    record { code = "HIGH_RISK_ACTION"; severity = WarningSeverity.critical } ∷ []
verdict_warning RiskCategory.authority decision =
    record { code = "HIGH_RISK_ACTION"; severity = WarningSeverity.critical } ∷ []
verdict_warning category decision = []

-- The filter of `dedupeWarnings`, over the codes seen so far.
unfoldable pub dedupe_from : List String → List RiskWarning → List RiskWarning
dedupe_from seen [] = []
dedupe_from seen (w ∷ ws) =
    if includes w.code seen then dedupe_from seen ws else w ∷ dedupe_from (w.code ∷ seen) ws

unfoldable pub dedupe_warnings : List RiskWarning → List RiskWarning
unfolding dedupe_from
dedupe_warnings ws = dedupe_from [] ws

unfoldable pub build_warnings : List RiskSignal → RiskCategory → RiskDecision → List RiskWarning
unfolding dedupe_warnings verdict_warning signal_warnings
build_warnings signals category decision =
    dedupe_warnings (verdict_warning category decision ++ signal_warnings signals)
