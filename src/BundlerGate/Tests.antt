-- ===== src/BundlerGate/Tests.antt =====
-- Runs of the gate: a transfer of tokens to an address, with amounts in strokes.
use atf.Common.{
  ℕ, ◌+◌, ◌*◌, ◌/◌, ◌≡◌, ◌≢◌, ◌↔◌, ◌⊎◌, ap, refl, true, false, none, some, String, List, [], ◌∷◌,
  take, drop, foldl, ℤ, ◌+ℤ◌, gt, read_strokes, write_strokes, read_strokes-write_strokes,
}
use atf.Risk.Fixed.{fixed}
use atf.Risk.Addresses.{digit_value}
use atf.Risk.Calldata.{lower_codes, DecodedTokenOp, TokenOpKind}
use atf.Risk.Reputation.{OnChain}
use atf.Risk.Engine.{Assessment}
use atf.OwnerPolicy.{OwnerPolicy, PolicyCheck, get_owner_policy, total_used, today_start}
use atf.BundlerGate.{
  UserOp, SessionRow, StepUp, GateHost, GateWorld, GateDecision, Reason, value_wei, policy_check,
  risk_of, assess_bundler_op,
}
use atf.BundlerGate.Sessions.{IsServing}
use atf.BundlerGate.Attestation.{IsAttested}
use atf.BundlerGate.Soundness.{IsMild, IsReviewable, assess_bundler_op-allowed}
use atf.BundlerGate.Refusal.{assess_bundler_op_within_limits}

abbrev hex_value : List ℕ → ℕ
hex_value digits = foldl (λ n c. n * 16 + digit_value c) 0 digits

abbrev host : GateHost
host = record {
  policy = record {
    to_lower_case = λ text. text;
    big_int = read_strokes;
    read_sum = some;
    show = λ n. "";
    verify_message = λ message signature. none;
  };
  abi = record {
    decode_pair = λ digits. some (hex_value (take 40 (drop 24 digits)), hex_value (drop 64 digits));
    decode_triple = λ digits. none;
  };
  show_int = write_strokes;
  verify_bytes = λ hash attestation. some attestation;
}

abbrev policy : OwnerPolicy
policy = record {
  id = "p";
  wallet_address = "0xa";
  daily_limit = "+111";
  per_tx_limit = "+11";
  allowed_targets = [];
  allowed_actions = [];
  forbidden_actions = [];
  session_expiry = 0;
  auto_create_sessions = true;
  signed_by = "0xowner";
  signature = "";
  created_at = 0;
  expires_at = 0;
}

abbrev world_with : List String → GateWorld fixed
world_with blocked = record {
  sessions = record { session_id = "s"; revoked = false; expiry = 500 } ∷ [];
  wallets = record { wallet_address = "0xa"; owner_address = "0xowner" } ∷ [];
  policies = policy ∷ [];
  actions = [];
  policy_answers = true;
  engine_answers = true;
  risk_lists = some ([], blocked);
  system = [];
  eth_price_usd = 0;
  profile = none;
  on_chain = λ address. OnChain.active;
  ended = [];
  now_ms = 400_000;
}

-- A transfer of 5 units of a token to the address 0x22…22.
abbrev payment : UserOp
payment = record {
  sender = "0xa";
  target = "0x1111111111111111111111111111111111111111";
  value = some "+1";
  calldata =
      "0xa9059cbb00000000000000000000000022222222222222222222222222222222222222220000000000000000000000000000000000000000000000000000000000000005";
  session_id = "s";
}

abbrev signed : StepUp
signed = record { attestation = "0xowner"; user_op_hash = "0xhash" }

abbrev payee : String
payee = "0x2222222222222222222222222222222222222222"

abbrev payee_address : ℕ
payee_address = hex_value (drop 2 (lower_codes payee))

abbrev payee_blocked : GateWorld fixed
payee_blocked = world_with (payee ∷ [])

abbrev call_made : DecodedTokenOp
call_made = record {
  kind = TokenOpKind.transfer;
  token = lower_codes "0x1111111111111111111111111111111111111111";
  counterparty = payee_address;
  source = none;
  amount = 5;
  is_unlimited_approval = false;
  is_approval = false;
}

abbrev open_world : GateWorld fixed
open_world = world_with []

is_relayed : (assess_bundler_op fixed host open_world payment signed).allowed ≡ true
unfolding assess_bundler_op atf.Risk.Verdict.score atf.Risk.Signals.Value.assess_value
    atf.Risk.Signals.Parties.assess_counterparty atf.BundlerGate.load_risk_config
    atf.Risk.Signals.Conduct.assess_authority atf.Risk.Signals.Conduct.assess_behavioral
    atf.Risk.Signals.Checks.assess_policy atf.Risk.Signals.Checks.assess_simulation
    atf.Risk.Signals.Conduct.assess_temporal atf.Risk.Signals.Checks.assess_capability
    atf.Risk.Signals.Parties.assess_compliance
is_relayed = refl

assess_bundler_op-allowed_example :
    ((assess_bundler_op fixed host open_world payment signed).allowed ≡ true) ↔ (
      IsServing 400_000 "s" open_world.sessions
      × ((policy_check fixed host open_world payment ≡ none)
          ⊎ ((c : PolicyCheck) × (policy_check fixed host open_world payment ≡ some c)
              × (c.allowed ≡ true)))
      × ((a : Assessment) × (risk_of fixed host open_world payment ≡ some a)
          × (IsMild a.decision
              ⊎ (IsReviewable a.decision × IsAttested host "0xa" signed open_world.wallets))))
assess_bundler_op-allowed_example = assess_bundler_op-allowed fixed host open_world payment signed

written : (v : ℤ) → write_strokes v ≢ ""
written (ℤ.pos n) p = let wrong : some _ ≡ none = ap read_strokes p in cc
written (ℤ.negsuc n) p = let wrong : some _ ≡ none = ap read_strokes p in cc

assess_bundler_op_within_limits_example :
    (found : OwnerPolicy) × (limit : ℤ) × (used : ℤ) × (daily : ℤ) × (get_owner_policy "0xa"
        (policy ∷ [])
      ≡ some found)
    × (read_strokes found.per_tx_limit ≡ some limit)
    × (gt (value_wei fixed host open_world payment) limit ≡ false)
    × (some (total_used "0xa" (today_start (400_000 / 1_000)) []) ≡ some used)
    × (read_strokes found.daily_limit ≡ some daily)
    × (gt (used +ℤ value_wei fixed host open_world payment) daily ≡ false)
assess_bundler_op_within_limits_example =
    assess_bundler_op_within_limits fixed host open_world payment signed read_strokes-write_strokes
      written refl is_relayed
