-- ===== src/Risk/Signals/Parties.antt =====
-- The assessors of the counterparties: trust and compliance.
use atf.Common.{
  ℕ, ◌+◌, ◌*◌, Bool, true, false, ◌&&◌, ◌||◌, none, some, String, List, [], ◌∷◌, ◌++◌, min, leb,
  ◌==◌, if◌then◌else◌, lookup, Dict, length, keep, any,
}
use atf.Risk.Types.{RiskDimension, RiskSeverity, RiskSignal}
use atf.Risk.Doubles.{Doubles}
use atf.Risk.Input.{Tier, AddressReputation, RiskInput, sig}

-- `CP_${rep.tier.toUpperCase()}`
tier_code : Tier → String
tier_code Tier.system = "CP_SYSTEM"
tier_code Tier.trusted = "CP_TRUSTED"
tier_code Tier.known = "CP_KNOWN"
tier_code Tier.seen = "CP_SEEN"
tier_code Tier.unknown = "CP_UNKNOWN"
tier_code Tier.flagged = "CP_FLAGGED"
tier_code Tier.blocked = "CP_BLOCKED"

reputation_severity : ℕ → RiskSeverity
reputation_severity score =
    if leb 90 score
    then RiskSeverity.critical
    else if leb 60 score
    then RiskSeverity.high
    else if leb 40 score
    then RiskSeverity.medium
    else if leb 20 score
    then RiskSeverity.low
    else RiskSeverity.info

-- The loop over the targets; one without a reputation is passed over.
reputation_signals : Dict AddressReputation → List ℕ → List RiskSignal
unfolding tier_code reputation_severity
reputation_signals reputation [] = []
reputation_signals reputation (t ∷ targets) = elim (lookup t reputation) [
  | none ↦ reputation_signals reputation targets
  | some rep ↦
      sig (tier_code rep.tier) RiskDimension.counterparty (reputation_severity rep.score) rep.score
      ∷ reputation_signals reputation targets
]

is_fresh : Dict AddressReputation → ℕ → Bool
is_fresh reputation t = elim (lookup t reputation) [
  | none ↦ false
  | some rep ↦ elim rep.tier [ Tier.unknown ↦ true | Tier.known ↦ true | _ ↦ false ]
]

unfoldable pub is_blocked : Dict AddressReputation → ℕ → Bool
is_blocked reputation t = elim (lookup t reputation) [
  | none ↦ false
  | some rep ↦ elim rep.tier [ Tier.blocked ↦ true | _ ↦ false ]
]

module _ (dbl : Doubles) where
  open dbl use {Num, of_ℕ, gtb, geb}

  unfoldable pub assess_counterparty : RiskInput dbl → List RiskSignal
  unfolding reputation_signals is_fresh
  assess_counterparty input =
      let fresh = length (keep (is_fresh input.reputation) input.targets) in
      if length input.targets == 0
      then sig "CP_NONE" RiskDimension.counterparty RiskSeverity.info 8 ∷ []
      else reputation_signals input.reputation input.targets
        ++ (if leb 3 fresh
            then sig "CP_FANOUT" RiskDimension.counterparty RiskSeverity.high
                (60 + min 30 (fresh * 5))
              ∷ []
            else [])

  -- `usd >= limit * 0.9 && usd < limit`, where `floor` is the product.
  near_under : Num → ℕ → ℕ → Bool
  near_under usd floor limit = geb usd (of_ℕ floor) && gtb (of_ℕ limit) usd

  structuring : RiskInput dbl → Bool
  unfolding near_under
  structuring input =
      let usd = input.economic.notional_usd in
      (gtb usd (of_ℕ 0) && input.behavior.has_history)
      && ((near_under usd 9_000 10_000 || near_under usd 900 1_000)
          && leb 3 input.behavior.action_count_24h)

  unfoldable pub assess_compliance : RiskInput dbl → List RiskSignal
  unfolding is_blocked structuring
  assess_compliance input =
      let blocked = any (is_blocked input.reputation) input.targets in
      let found = structuring input in
      (if blocked
        then sig "COMP_BLOCKED" RiskDimension.compliance RiskSeverity.critical 100 ∷ []
        else [])
      ++ ((if found
            then sig "COMP_STRUCTURING" RiskDimension.compliance RiskSeverity.medium 45 ∷ []
            else [])
          ++ (if blocked || found
              then []
              else sig "COMP_CLEAR" RiskDimension.compliance RiskSeverity.info 3 ∷ []))
