-- ===== src/Risk/Tests.antt =====
-- Runs of the risk engine on whole inputs, over fixed-point numbers of two decimals.
use atf.Common.{ℤ, ℕ, ◌≤◌, ◌≡◌, refl, true, false, none, some, List, [], ◌∷◌}
use atf.Risk.Reputation.{AddressLists, OnChain, reputation_of, assess_blocklisted}
use atf.Risk.History.{ActionRow, build_behavioral_profile}
use atf.Risk.History.Bounds.{IsBounded, build_behavioral_profile-IsBounded}
use atf.Risk.Types.{RiskDecision, RiskDimension, RiskSeverity, RiskSignal, severity_of}
use atf.Risk.Fixed.{fixed, defaults}
use atf.Risk.Input.{Tier, Limits, Policy, Simulation, TokenView, EconomicView, RiskInput, sig}
use atf.Risk.Scoring.{has_code, categorize, band_decision}
use atf.Risk.Verdict.{score}
use atf.Risk.Verdict.Overrides.{score_consistent}
use atf.Risk.Engine.{assess}

abbrev blocked_signals : List RiskSignal
blocked_signals =
    sig "COMP_BLOCKED" RiskDimension.compliance RiskSeverity.critical 100
    ∷ sig "VALUE_NONE" RiskDimension.value RiskSeverity.info 0
    ∷ []

abbrev reverted_signals : List RiskSignal
reverted_signals = sig "SIM_REVERT" RiskDimension.simulation RiskSeverity.critical 100 ∷ []

abbrev breach_signals : List RiskSignal
breach_signals =
    sig "POLICY_TARGET_OFFLIST" RiskDimension.policy RiskSeverity.high 80
    ∷ sig "VALUE_ETH" RiskDimension.value RiskSeverity.low 15
    ∷ []

score_consistent_example :
    ((score fixed breach_signals defaults).score ≤ 100)
    × ((score fixed breach_signals defaults).category
        ≡ categorize (score fixed breach_signals defaults).score)
    × (severity_of (band_decision (score fixed breach_signals defaults).score)
        ≤ severity_of (score fixed breach_signals defaults).decision)
score_consistent_example = score_consistent fixed breach_signals defaults

has_blocked : has_code "COMP_BLOCKED" blocked_signals ≡ true
unfolding has_code
has_blocked = refl

has_reverted : has_code "SIM_REVERT" reverted_signals ≡ true
unfolding has_code
has_reverted = refl

-- A swap of a token for nothing on a blocked target, with a limit of 5 wei.
abbrev limited : Limits
limited = record { max_value = some 5; allowed_targets = []; max_batch_size = 0 }

abbrev strict : Policy
strict = record { limits = some limited; conflicts = 0 }

abbrev failed_run : Simulation
failed_run = record {
  success = false;
  steps = false ∷ true ∷ [];
  warnings = [];
  errors = "execution reverted" ∷ [];
  gas_limit = none;
}

abbrev transfer : TokenView fixed
transfer = record { is_approval = false; is_unlimited_approval = false; notional_usd = 0 }

abbrev allowance : TokenView fixed
allowance = record { is_approval = true; is_unlimited_approval = true; notional_usd = 0 }

abbrev economy_of : ℕ → TokenView fixed → EconomicView fixed
economy_of wei token = record {
  value_wei = wei;
  notional_usd = 0;
  is_batch = false;
  batch_size = 1;
  token = some token;
}

abbrev input_of : ℕ → TokenView fixed → RiskInput fixed
input_of wei token = record {
  intent = record { normalized_action = "wallet_execute"; requested_at = 1_000; expiry = none };
  capabilities = record { can_execute = true; missing_explicit = []; must_delegate = [] };
  policy = some strict;
  simulation = some failed_run;
  targets = 7 ∷ 8 ∷ [];
  economic = economy_of wei token;
  behavior = record {
    has_history = false;
    action_count_24h = 0;
    action_count_7d = 0;
    failed_count_24h = 0;
    value_mean_7d = some 0;
    value_max_7d = some 0;
    seen_targets = [];
    ever_changed_owner = false;
  };
  reputation =
      (7, record { tier = Tier.trusted; score = 5 })
      ∷ (8, record { tier = Tier.blocked; score = 100 })
      ∷ [];
  now_unix = 1_010;
}

abbrev lists : AddressLists
lists = record { system = []; trusted = 7 ∷ []; blocked = 8 ∷ [] }

assembled :
    (input_of 9 transfer).reputation
    ≡ reputation_of lists (λ address. OnChain.contract) [] (7 ∷ 8 ∷ []) (7 ∷ [])
unfolding reputation_of
assembled = refl

assess_blocklisted_example :
    ((assess fixed 75 defaults [] (input_of 9 transfer)).decision ≡ RiskDecision.deny)
    × ((assess fixed 75 defaults [] (input_of 9 transfer)).score ≡ 100)
    × ((assess fixed 75 defaults [] (input_of 9 transfer)).requires_approval ≡ true)
assess_blocklisted_example =
    assess_blocklisted fixed 75 defaults [] (input_of 9 transfer) lists
      (λ address. OnChain.contract) (7 ∷ []) 8 assembled refl refl

abbrev payment_row : ActionRow
payment_row = record {
  wallet_address = "0xa";
  tool = "wallet_execute";
  success = true;
  timestamp = 999_000;
  metadata = some (record {
    value = some (ℤ.pos 7);
    target = "0x1111111111111111111111111111111111111111";
    recipient = "";
    delegatee = "";
  });
  intent = none;
}

abbrev failed_row : ActionRow
failed_row = record payment_row { success = false; metadata = none }

build_behavioral_profile-IsBounded_example :
    IsBounded
      (build_behavioral_profile (λ text. text) "0xa" 1_000_000 (payment_row ∷ failed_row ∷ []))
build_behavioral_profile-IsBounded_example =
    build_behavioral_profile-IsBounded (λ text. text) "0xa" 1_000_000
      (payment_row ∷ failed_row ∷ [])
