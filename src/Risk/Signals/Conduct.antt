-- ===== src/Risk/Signals/Conduct.antt =====
-- The assessors of what the agent does and when: authority, behaviour, freshness.
use atf.Common.{
  ℕ, ◌+◌, ◌*◌, ◌-◌, Bool, not, ◌&&◌, Option, none, some, String, List, [], ◌∷◌, ◌++◌, min, leb, ltb,
  ◌==◌, if◌then◌else◌, str_eq, any,
}
use atf.Risk.Types.{RiskDimension, RiskSeverity, RiskSignal}
use atf.Risk.Doubles.{Doubles}
use atf.Risk.Input.{BehavioralProfile, RiskInput, sig}

-- `AUTHORITY_ACTIONS`
abbrev authority_actions : List (String × ℕ)
authority_actions =
    ("wallet_transfer_ownership", 100)
    ∷ ("organization_deactivate", 92)
    ∷ ("credential_revoke", 78)
    ∷ ("capability_revoke_grant", 70)
    ∷ ("delegation_revoke", 62)
    ∷ ("wallet_execute_batch", 68)
    ∷ ("wallet_execute", 55)
    ∷ ("capability_register", 58)
    ∷ ("credential_issue", 50)
    ∷ ("delegation_create", 48)
    ∷ ("organization_register", 45)
    ∷ ("wallet_withdraw", 44)
    ∷ ("session_create", 30)
    ∷ ("session_create_lightweight", 24)
    ∷ []

unfoldable pub authority_score : String → List (String × ℕ) → Option ℕ
authority_score action [] = none
authority_score action ((name, score) ∷ entries) =
    if str_eq action name then some score else authority_score action entries

authority_severity : ℕ → RiskSeverity
authority_severity score =
    if leb 90 score
    then RiskSeverity.critical
    else if leb 60 score
    then RiskSeverity.high
    else if leb 40 score
    then RiskSeverity.medium
    else RiskSeverity.low

-- The anomaly block; a value that does not parse leaves it by its catch.
value_anomaly : ℕ → Option ℕ → Option ℕ → List RiskSignal
value_anomaly v (some top) (some mean) =
    if (ltb 0 v && ltb 0 top) && ltb (top * 3) v
    then sig "BEHAV_VALUE_ANOMALY" RiskDimension.behavioral RiskSeverity.high 75 ∷ []
    else if (ltb 0 v && ltb 0 mean) && ltb (mean * 5) v
    then sig "BEHAV_VALUE_ELEVATED" RiskDimension.behavioral RiskSeverity.medium 48 ∷ []
    else []
value_anomaly v _ _ = []

-- `count24h > (count7d / 7) * 3`, multiplied out by 7.
velocity : BehavioralProfile → List RiskSignal
velocity b =
    if ((ltb 0 b.action_count_24h && ltb 0 b.action_count_7d)
        && ltb (b.action_count_7d * 3) (b.action_count_24h * 7))
      && leb 5 b.action_count_24h
    then sig "BEHAV_VELOCITY" RiskDimension.behavioral RiskSeverity.medium
        (min 70 (30 + b.action_count_24h * 2))
      ∷ []
    else []

seen : List ℕ → ℕ → Bool
seen seen_targets t = any (λ s. s == t) seen_targets

-- The last resort of an assessor that has found nothing.
abbrev pub or_default : RiskSignal → List RiskSignal → List RiskSignal
or_default s [] = s ∷ []
or_default s (x ∷ xs) = x ∷ xs

module _ (dbl : Doubles) where
  unfoldable pub assess_authority : RiskInput dbl → List RiskSignal
  unfolding authority_score authority_severity
  assess_authority input =
      let action = input.intent.normalized_action in
      elim (authority_score action authority_actions) [
        | some score ↦
            sig "AUTH_ACTION" RiskDimension.authority (authority_severity score) score ∷ []
        | none ↦ sig "AUTH_BENIGN" RiskDimension.authority RiskSeverity.info 8 ∷ []
      ]
      ++ (if (str_eq action "wallet_transfer_ownership" && input.behavior.has_history)
            && not input.behavior.ever_changed_owner
          then sig "AUTH_FIRST_OWNER_CHANGE" RiskDimension.authority RiskSeverity.critical 40 ∷ []
          else [])

  unfoldable pub assess_behavioral : RiskInput dbl → List RiskSignal
  unfolding velocity value_anomaly seen
  assess_behavioral input =
      let b = input.behavior in
      let v = input.economic.value_wei in
      if not b.has_history
      then sig "BEHAV_NO_HISTORY" RiskDimension.behavioral RiskSeverity.low 22 ∷ []
      else or_default (sig "BEHAV_NORMAL" RiskDimension.behavioral RiskSeverity.info 6) (
          velocity b
          ++ (value_anomaly v b.value_max_7d b.value_mean_7d
              ++ ((if ltb 0 v && any (λ t. not (seen b.seen_targets t)) input.targets
                    then sig "BEHAV_NEW_COUNTERPARTY" RiskDimension.behavioral RiskSeverity.medium
                        40
                      ∷ []
                    else [])
                  ++ (if leb 3 b.failed_count_24h
                      then sig "BEHAV_FAILURE_CLUSTER" RiskDimension.behavioral RiskSeverity.medium
                          (min 60 (20 + b.failed_count_24h * 8))
                        ∷ []
                      else []))))

  -- `input.nowUnix - input.intent.requestedAt` is compared with positive bounds only.
  unfoldable pub assess_temporal : RiskInput dbl → List RiskSignal
  assess_temporal input =
      let age = input.now_unix - input.intent.requested_at in
      (if ltb 900 age
        then sig "TEMP_STALE" RiskDimension.temporal RiskSeverity.medium 55
        else if ltb 300 age
        then sig "TEMP_AGING" RiskDimension.temporal RiskSeverity.low 30
        else sig "TEMP_FRESH" RiskDimension.temporal RiskSeverity.info 4)
      ∷ elim input.intent.expiry [
        | none ↦ []
        | some expiry ↦
            if ltb 0 expiry && leb expiry input.now_unix
            then sig "TEMP_EXPIRED" RiskDimension.temporal RiskSeverity.high 60 ∷ []
            else []
      ]
