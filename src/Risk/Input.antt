-- ===== src/Risk/Input.antt =====
-- packages/compiler/risk/context.ts: the normalized facts that the assessors read. An address is the
-- number that its hexadecimal text stands for, so that case makes no difference. Wei are natural
-- numbers: every test of an assessor treats a negative amount as it treats 0. A text that the source
-- reads with BigInt inside a try is `none` where it does not parse.
use atf.Common.{ℕ, Bool, Option, String, List, Dict, min}
use atf.Risk.Types.{RiskDimension, RiskSeverity, RiskSignal}
use atf.Risk.Doubles.{Doubles}

pub data Tier : Type 0 where
  system trusted known seen unknown flagged blocked : Tier

pub record AddressReputation : Type 0 where
  pub tier : Tier
  pub score : ℕ

pub record BehavioralProfile : Type 0 where
  pub has_history : Bool
  pub action_count_24h : ℕ
  pub action_count_7d : ℕ
  pub failed_count_24h : ℕ
  pub value_mean_7d : Option ℕ
  pub value_max_7d : Option ℕ
  pub seen_targets : List ℕ
  pub ever_changed_owner : Bool

-- `effectiveLimits`; no allowed target and no batch limit (0) mean no limit.
pub record Limits : Type 0 where
  pub max_value : Option ℕ
  pub allowed_targets : List ℕ
  pub max_batch_size : ℕ

pub record Policy : Type 0 where
  pub limits : Option Limits
  pub conflicts : ℕ

pub record Simulation : Type 0 where
  pub success : Bool
  -- Whether each step reverted.
  pub steps : List Bool
  pub warnings : List String
  pub errors : List String
  -- The gas limit of `totalGasEstimate`.
  pub gas_limit : Option ℕ

pub record Capabilities : Type 0 where
  pub can_execute : Bool
  pub missing_explicit : List String
  pub must_delegate : List String

pub record Intent : Type 0 where
  pub normalized_action : String
  pub requested_at : ℕ
  pub expiry : Option ℕ

module _ (dbl : Doubles) where
  pub record TokenView : Type 0 where
    pub is_approval : Bool
    pub is_unlimited_approval : Bool
    pub notional_usd : dbl.Num

  pub record EconomicView : Type 0 where
    pub value_wei : ℕ
    pub notional_usd : dbl.Num
    pub is_batch : Bool
    pub batch_size : ℕ
    pub token : Option TokenView

  pub record RiskInput : Type 0 where
    pub intent : Intent
    pub capabilities : Capabilities
    pub policy : Option Policy
    pub simulation : Option Simulation
    pub targets : List ℕ
    pub economic : EconomicView
    pub behavior : BehavioralProfile
    pub reputation : Dict AddressReputation
    pub now_unix : ℕ

-- `sig`
abbrev pub sig : String → RiskDimension → RiskSeverity → ℕ → RiskSignal
sig code dimension severity score = record {
  code = code;
  dimension = dimension;
  severity = severity;
  score = min 100 score;
}
