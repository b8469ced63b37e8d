-- ===== src/Risk/Signals/Value.antt =====
-- The value assessor: native value, token movements and approvals.
use atf.Common.{
  ℕ, ◌*◌, ◌/◌, ◌^◌, Bool, ◌&&◌, Option, none, some, List, [], ◌∷◌, min, leb, ltb, ◌==◌,
  if◌then◌else◌,
}
use atf.Risk.Types.{RiskDimension, RiskSeverity, RiskSignal}
use atf.Risk.Doubles.{Doubles}
use atf.Risk.Input.{TokenView, EconomicView, RiskInput, sig}

abbrev pub one_eth : ℕ
one_eth = 10 ^ 18

batch_signals : Bool → ℕ → List RiskSignal
batch_signals is_batch batch_size =
    if is_batch && ltb 1 batch_size
    then sig "VALUE_BATCH" RiskDimension.value
        (if leb 5 batch_size then RiskSeverity.medium else RiskSeverity.low)
        (min 40 (8 * batch_size))
      ∷ []
    else []

-- The tiers of a native value in wei.
eth_tier : ℕ → RiskSeverity × ℕ
eth_tier wei =
    if ltb (one_eth * 100) wei
    then (RiskSeverity.critical, 100)
    else if ltb (one_eth * 10) wei
    then (RiskSeverity.high, 78)
    else if ltb one_eth wei
    then (RiskSeverity.medium, 52)
    else if ltb (one_eth / 10) wei
    then (RiskSeverity.low, 30)
    else (RiskSeverity.low, 15)

module _ (dbl : Doubles) where
  open dbl use {Num, of_ℕ, gtb, geb}

  -- The tiers of a notional in USD.
  usd_tier : Num → RiskSeverity × ℕ
  usd_tier usd =
      if geb usd (of_ℕ 100_000)
      then (RiskSeverity.critical, 100)
      else if geb usd (of_ℕ 25_000)
      then (RiskSeverity.high, 85)
      else if geb usd (of_ℕ 5_000)
      then (RiskSeverity.high, 65)
      else if geb usd (of_ℕ 1_000)
      then (RiskSeverity.medium, 45)
      else if geb usd (of_ℕ 100)
      then (RiskSeverity.low, 25)
      else (RiskSeverity.low, 12)

  unfoldable pub movement_signal : TokenView dbl → RiskSignal
  unfolding usd_tier
  movement_signal token =
      if gtb token.notional_usd (of_ℕ 0)
      then (let (sev, score) = usd_tier token.notional_usd in
          sig "VALUE_TOKEN" RiskDimension.value sev score)
      else sig "VALUE_TOKEN_UNPRICED" RiskDimension.value RiskSeverity.medium 40

  unfoldable pub approval_signal : TokenView dbl → RiskSignal
  approval_signal token =
      if token.is_unlimited_approval
      then sig "VALUE_APPROVE_UNLIMITED" RiskDimension.value RiskSeverity.high 82
      else if geb token.notional_usd (of_ℕ 5_000)
      then sig "VALUE_APPROVE_LARGE" RiskDimension.value RiskSeverity.high 68
      else sig "VALUE_APPROVE" RiskDimension.value RiskSeverity.medium 38

  -- The part that scores native value, once the token part is done.
  native_signals : EconomicView dbl → List RiskSignal
  unfolding usd_tier eth_tier batch_signals
  native_signals e =
      let (usd_sev, usd_score) = usd_tier e.notional_usd in
      let (eth_sev, eth_score) = eth_tier e.value_wei in
      (if gtb e.notional_usd (of_ℕ 0)
        then sig "VALUE_NOTIONAL" RiskDimension.value usd_sev usd_score
        else sig "VALUE_ETH" RiskDimension.value eth_sev eth_score)
      ∷ batch_signals e.is_batch e.batch_size

  unfoldable pub assess_economic : Option (TokenView dbl) → EconomicView dbl → List RiskSignal
  unfolding movement_signal approval_signal native_signals batch_signals
  assess_economic none e =
      if e.value_wei == 0
      then sig "VALUE_NONE" RiskDimension.value RiskSeverity.info 0 ∷ []
      else native_signals e
  assess_economic (some token) e =
      if token.is_approval
      then approval_signal token ∷ (if e.value_wei == 0 then [] else native_signals e)
      else movement_signal token
        ∷ (if e.value_wei == 0 then batch_signals e.is_batch e.batch_size else native_signals e)

  unfoldable pub assess_value : RiskInput dbl → List RiskSignal
  unfolding assess_economic
  assess_value input = assess_economic input.economic.token input.economic
