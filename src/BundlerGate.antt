-- ===== src/BundlerGate.antt =====
-- agentix/src/runtime/bundler-risk-gate.ts: what stands between a signed operation and its relay, from
-- the session over the owner's policy and the risk engine to the owner's attestation.
pub mod Sessions
pub mod Attestation
pub mod Soundness
pub mod Refusal
mod Tests
use atf.Common.{
  ℕ, ◌*◌, ◌/◌, ◌^◌, Bool, true, false, not, ◌&&◌, ◌||◌, Option, none, some, String, List, [], ◌∷◌,
  ltb, ◌==◌, if◌then◌else◌, str_eq, ℤ, or_else, text_or,
}
use atf.Risk.Types.{RiskDecision, RiskCategory, RiskDimension}
use atf.Risk.Doubles.{Doubles}
use atf.Risk.Input.{BehavioralProfile, Capabilities, Intent}
use atf.Risk.Addresses.{address_of_codes, AddressParams}
use atf.Risk.Calldata.{AbiCoder, lower_codes}
use atf.Risk.Reputation.{AddressLists, OnChain}
use atf.Risk.Engine.{Assessment}
use atf.Risk.Assembly.{
  Readers, IntentParams, ParsedIntent, EngineFacts, EngineConfig, assess_intent,
}
use atf.OwnerPolicy.{
  OwnerPolicy, PolicyCheck, AgentAction, Wallet, ActionParams, PolicyHost, check_policy,
}

-- The operation that is to be relayed; "" for a text that is absent.
pub record UserOp : Type 0 where
  pub sender : String
  pub target : String
  pub value : Option String
  pub calldata : String
  pub session_id : String

-- A row of `sessions`, as far as it is read here.
pub record SessionRow : Type 0 where
  pub session_id : String
  pub revoked : Bool
  pub expiry : ℕ

pub data Reason : Type 0 where
  unknown_session revoked_session expired_session policy_blocked engine_error : Reason
  assessed upgraded approval_required : Reason

pub record GateDecision : Type 0 where
  pub allowed : Bool
  pub decision : RiskDecision
  pub score : ℕ
  pub reason : Reason
  pub category : Option RiskCategory

-- The owner's attestation and the hash that it signs, both as the caller gives them: the gate does not
-- compare the hash with the operation. "" where absent.
pub record StepUp : Type 0 where
  pub attestation : String
  pub user_op_hash : String

-- `verify_bytes` is `ethers.verifyMessage(ethers.getBytes(hash), attestation)`, `none` where it throws.
pub record GateHost : Type 0 where
  pub policy : PolicyHost
  pub abi : AbiCoder
  pub show_int : ℤ → String
  pub verify_bytes : String → String → Option String

-- The tables, the clock in milliseconds, and what else the gate asks for. `risk_lists` are the texts of
-- the configuration, trusted and blocked, `none` where it cannot be loaded. Where `policy_answers` or
-- `engine_answers` is false, the check of the policy or the engine throws.
pub record GateWorld (dbl : Doubles) : Type 0 where
  pub sessions : List SessionRow
  pub wallets : List Wallet
  pub policies : List OwnerPolicy
  pub actions : List AgentAction
  pub policy_answers : Bool
  pub engine_answers : Bool
  pub risk_lists : Option (List String × List String)
  pub system : List ℕ
  pub eth_price_usd : dbl.Num
  pub profile : Option BehavioralProfile
  pub on_chain : ℕ → OnChain
  pub ended : List ℕ
  pub now_ms : ℕ

unfoldable pub session_with : String → List SessionRow → Option SessionRow
session_with id [] = none
session_with id (s ∷ sessions) = if str_eq s.session_id id then some s else session_with id sessions

-- `session.expiry && session.expiry * 1000 < Date.now() && session.expiry < 1e12`
abbrev pub has_expired : ℕ → ℕ → Bool
has_expired expiry now_ms =
    (not (expiry == 0) && ltb (expiry * 1_000) now_ms) && ltb expiry (10 ^ 12)

unfoldable pub refuse_session : ℕ → Option SessionRow → Option Reason
refuse_session now_ms none = some Reason.unknown_session
refuse_session now_ms (some s) =
    if s.revoked
    then some Reason.revoked_session
    else if has_expired s.expiry now_ms
    then some Reason.expired_session
    else none

-- Why the session does not serve, if it does not. No session is asked of an operation that names none.
unfoldable pub session_refusal : ℕ → String → List SessionRow → Option Reason
unfolding session_with refuse_session
session_refusal now_ms id sessions =
    if str_eq id "" then none else refuse_session now_ms (session_with id sessions)

abbrev add_address : Option ℕ → List ℕ → List ℕ
add_address none set = set
add_address (some a) set = a ∷ set

unfoldable pub addresses_in : List String → List ℕ
unfolding address_of_codes
addresses_in [] = []
addresses_in (text ∷ texts) = add_address (address_of_codes (lower_codes text)) (addresses_in texts)

-- `loadRiskConfig`, with the system addresses of the resolver
unfoldable pub load_risk_config : List ℕ → Option (List String × List String) → AddressLists
unfolding addresses_in
load_risk_config system none = record { system = system; trusted = []; blocked = [] }
load_risk_config system (some (trusted, blocked)) = record {
  system = system;
  trusted = addresses_in trusted;
  blocked = addresses_in blocked;
}

unfoldable pub owner_of : String → List Wallet → Option String
owner_of wallet [] = none
owner_of wallet (w ∷ wallets) =
    if str_eq w.wallet_address wallet then some w.owner_address else owner_of wallet wallets

unfoldable pub same_signer : PolicyHost → String → Option String → Bool
same_signer host owner none = false
same_signer host owner (some recovered) =
    str_eq (host.to_lower_case recovered) (host.to_lower_case owner)

unfoldable pub attested_by : GateHost → StepUp → Option String → Bool
unfolding same_signer
attested_by host step_up none = false
attested_by host step_up (some owner) =
    not (str_eq owner "")
    && same_signer host.policy owner (host.verify_bytes step_up.user_op_hash step_up.attestation)

unfoldable pub verify_owner_attestation : GateHost → String → StepUp → List Wallet → Bool
unfolding owner_of attested_by
verify_owner_attestation host wallet step_up wallets =
    attested_by host step_up (owner_of wallet wallets)

abbrev denied : ℕ → Reason → GateDecision
denied score reason = record {
  allowed = false;
  decision = RiskDecision.deny;
  score = score;
  reason = reason;
  category = none;
}

abbrev ruled : Bool → Reason → Assessment → GateDecision
ruled allowed reason a = record {
  allowed = allowed;
  decision = a.decision;
  score = a.score;
  reason = reason;
  category = some a.category;
}

-- Step 4. `stepped_up` is whether the owner has attested to the operation.
unfoldable pub rule_on : Bool → RiskDecision → Assessment → GateDecision
rule_on stepped_up RiskDecision.allow a = ruled true Reason.assessed a
rule_on stepped_up RiskDecision.allow_with_controls a = ruled true Reason.assessed a
rule_on stepped_up RiskDecision.deny a = ruled false Reason.assessed a
rule_on stepped_up RiskDecision.review a =
    if stepped_up then ruled true Reason.upgraded a else ruled false Reason.approval_required a
rule_on stepped_up RiskDecision.challenge a =
    if stepped_up then ruled true Reason.upgraded a else ruled false Reason.approval_required a

unfoldable pub rule_on_risk : Bool → Option Assessment → GateDecision
unfolding rule_on
rule_on_risk stepped_up none = denied 100 Reason.engine_error
rule_on_risk stepped_up (some a) = rule_on stepped_up a.decision a

-- Step 2, and then `rest`. A check that throws refuses nothing.
unfoldable pub rule_on_policy : Option PolicyCheck → GateDecision → GateDecision
rule_on_policy none rest = rest
rule_on_policy (some check) rest = if check.allowed then rest else denied 95 Reason.policy_blocked

unfoldable pub rule_on_session : Option Reason → GateDecision → GateDecision
rule_on_session none rest = rest
rule_on_session (some reason) rest = denied 100 reason

module _ (dbl : Doubles) (host : GateHost) (world : GateWorld dbl) where
  -- `decodeExecute`: what BigInt cannot read counts as 0.
  abbrev pub value_wei : UserOp → ℤ
  value_wei op = or_else (host.policy.big_int (or_else op.value "0")) (ℤ.pos 0)

  abbrev pub policy_params : UserOp → ActionParams
  policy_params op = record {
    target = op.target;
    recipient = "";
    delegatee = "";
    value = host.show_int (value_wei op);
  }

  unfoldable pub policy_check : UserOp → Option PolicyCheck
  unfolding check_policy
  policy_check op =
      if world.policy_answers
      then some (
          check_policy host.policy op.sender "wallet_execute" (policy_params op) world.policies
            world.actions (world.now_ms / 1_000))
      else none

  abbrev pub relay_intent : UserOp → ParsedIntent
  relay_intent op =
      let inner = text_or op.calldata "0x" in
      record {
        facts = record {
          normalized_action = "wallet_execute";
          requested_at = world.now_ms / 1_000;
          expiry = none;
        };
        params = record {
          addresses = record {
            intent_targets = [];
            target = op.target;
            recipient = "";
            delegatee = "";
            delegator = "";
            owner_address = "";
            wallet_address = op.sender;
            session_key = "";
            targets = [];
          };
          value = some (host.show_int (value_wei op));
          values = none;
          token = "";
          payload = inner;
          calldata = inner;
        };
      }

  abbrev pub readers : Readers
  readers = record { big_int = host.policy.big_int; abi = host.abi }

  abbrev pub engine_config : EngineConfig dbl
  engine_config = record {
    approval_threshold = 75;
    weights = λ (d : RiskDimension). none;
    behavioral_enabled = true;
    notional_enabled = true;
    lists = load_risk_config world.system world.risk_lists;
  }

  abbrev pub engine_facts : EngineFacts dbl
  engine_facts = record {
    eth_price_usd = world.eth_price_usd;
    profile = world.profile;
    on_chain = world.on_chain;
    ended = world.ended;
    now = world.now_ms / 1_000;
  }

  -- Step 3, with the capabilities that the gate gives.
  unfoldable pub risk_of : UserOp → Option Assessment
  unfolding assess_intent
  risk_of op =
      if world.engine_answers
      then some (
          assess_intent dbl readers engine_config engine_facts [] (relay_intent op)
            (record { can_execute = true; missing_explicit = []; must_delegate = [] }) none none)
      else none

  unfoldable pub stepped_up : UserOp → StepUp → Bool
  unfolding verify_owner_attestation
  stepped_up op step_up =
      (not (str_eq step_up.attestation "") && not (str_eq step_up.user_op_hash ""))
      && verify_owner_attestation host op.sender step_up world.wallets

  unfoldable pub assess_bundler_op : UserOp → StepUp → GateDecision
  unfolding session_refusal rule_on_session policy_check rule_on_policy risk_of rule_on_risk
      stepped_up
  assess_bundler_op op step_up =
      rule_on_session (session_refusal world.now_ms op.session_id world.sessions)
        (rule_on_policy (policy_check op) (rule_on_risk (stepped_up op step_up) (risk_of op)))
