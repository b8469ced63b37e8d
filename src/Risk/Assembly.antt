-- ===== src/Risk/Assembly.antt =====
-- agentix/packages/compiler/risk: the input of the assessors, assembled from an intent (engine.ts,
-- and `computeValue` of context.ts), and the assessment as a caller asks for it.
use atf.Common.{
  ℕ, ◌/◌, ◌%◌, ◌^◌, Bool, true, false, not, ◌&&◌, Option, none, some, String, List, [], ◌∷◌, length,
  includes, ℤ, ◌+ℤ◌, if◌then◌else◌, str_eq, or_else, text_or, ◌≡◌, refl,
}
use atf.Risk.Types.{RiskDecision, RiskDimension, RiskSignal}
use atf.Risk.Doubles.{Doubles}
use atf.Risk.Input.{
  BehavioralProfile, Policy, Simulation, Capabilities, Intent, EconomicView, RiskInput,
}
use atf.Risk.Addresses.{
  AddressParams, address_of, address_texts, add_target, extract_targets, extract_targets-has,
  add_target-has, add_target-keeps,
}
use atf.Risk.Calldata.{AbiCoder, DecodedTokenOp, decode_token_call, token_notional_usd}
use atf.Risk.Reputation.{AddressLists, OnChain, has, reputation_of, assess_blocklisted}
use atf.Risk.Engine.{Assessment, assess}

-- BigInt of a text, `none` where it throws, and the decoder of ethers.
pub record Readers : Type 0 where
  pub big_int : String → Option ℤ
  pub abi : AbiCoder

-- The fields of `params` besides the addresses; "" for a text that is absent.
pub record IntentParams : Type 0 where
  pub addresses : AddressParams
  pub value : Option String
  pub values : Option (List String)
  pub token : String
  pub payload : String
  pub calldata : String

pub record ParsedIntent : Type 0 where
  pub facts : Intent
  pub params : IntentParams

pub record ValueView : Type 0 where
  pub total : ℤ
  pub is_batch : Bool
  pub batch_size : ℕ

abbrev pub empty_profile : BehavioralProfile
empty_profile = record {
  has_history = false;
  action_count_24h = 0;
  action_count_7d = 0;
  failed_count_24h = 0;
  value_mean_7d = some 0;
  value_max_7d = some 0;
  seen_targets = [];
  ever_changed_owner = false;
}

-- A negative amount counts as none.
abbrev pub at_least_0 : ℤ → ℕ
at_least_0 (ℤ.pos n) = n
at_least_0 (ℤ.negsuc n) = 0

module _ (readers : Readers) where
  abbrev pub to_wei : String → ℤ
  to_wei text = or_else (readers.big_int text) (ℤ.pos 0)

  unfoldable pub sum_wei : List String → ℤ
  sum_wei [] = ℤ.pos 0
  sum_wei (v ∷ values) = to_wei v +ℤ sum_wei values

  abbrev single_value : Option String → ℤ
  single_value none = ℤ.pos 0
  single_value (some v) = to_wei v

  unfoldable pub value_view : Option String → Option (List String) → ValueView
  unfolding sum_wei
  value_view value none = record { total = single_value value; is_batch = false; batch_size = 1 }
  value_view value (some values) = record {
    total = sum_wei values;
    is_batch = true;
    batch_size = length values;
  }

  unfoldable pub compute_value : IntentParams → ValueView
  unfolding value_view
  compute_value p = value_view p.value p.values

  -- The token call of the intent, as `decodeTokenView` reads it.
  unfoldable pub token_call : IntentParams → Option DecodedTokenOp
  unfolding decode_token_call
  token_call p =
      let target = text_or p.addresses.target p.token in
      let inner = text_or p.payload p.calldata in
      if str_eq target ""
      then none
      else if str_eq inner ""
      then none
      else decode_token_call readers.abi target inner

-- `if (tokenParty && !targets.includes(tokenParty)) targets.push(tokenParty)`
unfoldable pub with_party : Option DecodedTokenOp → List ℕ → List ℕ
with_party none targets = targets
with_party (some op) targets = add_target op.counterparty targets

-- What the engine asks of others: the price of ether (0 where there is none), the profile (`none` where
-- it throws), the code of an address, the enrichments that end in time, and the clock.
pub record EngineFacts (dbl : Doubles) : Type 0 where
  pub eth_price_usd : dbl.Num
  pub profile : Option BehavioralProfile
  pub on_chain : ℕ → OnChain
  pub ended : List ℕ
  pub now : ℕ

module _ (dbl : Doubles) where
  open dbl use {Num, of_ℕ, add, mul, div, gtb}

  pub record EngineConfig : Type 0 where
    pub approval_threshold : ℕ
    pub weights : RiskDimension → Option Num
    pub behavioral_enabled : Bool
    pub notional_enabled : Bool
    pub lists : AddressLists

  unfoldable pub wei_to_eth : ℕ → Num
  wei_to_eth wei = add (of_ℕ (wei / 10 ^ 18)) (div (of_ℕ (wei % 10 ^ 18)) (of_ℕ (10 ^ 18)))

  unfoldable pub native_view : Num → ValueView → EconomicView dbl
  unfolding wei_to_eth
  native_view price v =
      let wei = at_least_0 v.total in
      record {
        value_wei = wei;
        notional_usd = if gtb price (of_ℕ 0) then mul (wei_to_eth wei) price else of_ℕ 0;
        is_batch = v.is_batch;
        batch_size = v.batch_size;
        token = none;
      }

  -- `decodeTokenView`
  unfoldable pub with_token : Option DecodedTokenOp → EconomicView dbl → EconomicView dbl
  unfolding token_notional_usd
  with_token none economic = economic
  with_token (some op) economic =
      let usd = token_notional_usd dbl op.token op.amount in
      record economic {
        token = some (record {
          is_approval = op.is_approval;
          is_unlimited_approval = op.is_unlimited_approval;
          notional_usd = usd;
        });
        notional_usd =
            if (gtb usd (of_ℕ 0) && not op.is_approval) && gtb usd economic.notional_usd
            then usd
            else economic.notional_usd;
      }

  module _ (readers : Readers) (config : EngineConfig) (world : EngineFacts dbl) where
    abbrev pub profile_used : BehavioralProfile
    profile_used =
        if config.behavioral_enabled then or_else world.profile empty_profile else empty_profile

    abbrev pub price_used : Num
    price_used = if config.notional_enabled then world.eth_price_usd else of_ℕ 0

    unfoldable pub counterparties_of : IntentParams → List ℕ
    unfolding extract_targets with_party token_call
    counterparties_of p = with_party (token_call readers p) (extract_targets p.addresses)

    -- Steps 1 to 3 of `assess`.
    unfoldable pub assemble :
        ParsedIntent → Capabilities → Option Policy → Option Simulation → RiskInput dbl
    unfolding counterparties_of reputation_of token_call compute_value native_view with_token
    assemble intent capabilities policy simulation =
        let targets = counterparties_of intent.params in
        record {
          intent = intent.facts;
          capabilities = capabilities;
          policy = policy;
          simulation = simulation;
          targets = targets;
          economic =
              with_token (token_call readers intent.params)
                (native_view price_used (compute_value readers intent.params));
          behavior = profile_used;
          reputation =
              reputation_of config.lists world.on_chain profile_used.seen_targets targets
                world.ended;
          now_unix = world.now;
        }

    -- `RiskEngineCore.assess`
    unfoldable pub assess_intent :
        List RiskSignal
        → ParsedIntent
        → Capabilities
        → Option Policy
        → Option Simulation
        → Assessment
    unfolding assemble assess
    assess_intent plugin_signals intent capabilities policy simulation =
        assess dbl config.approval_threshold config.weights plugin_signals
          (assemble intent capabilities policy simulation)

with_party-keeps :
    (op : Option DecodedTokenOp) (targets : List ℕ) (t : ℕ)
    → has targets t ≡ true
    → has (with_party op targets) t ≡ true
unfolding with_party
with_party-keeps none targets t there = there
with_party-keeps (some op) targets t there = add_target-keeps op.counterparty t targets there

-- The party that a token call pays or empowers is among the targets, and so is each address among the
-- texts of the intent.
module _ (dbl : Doubles) (readers : Readers) (config : EngineConfig dbl) (world : EngineFacts dbl)
    (p : IntentParams) where
  pub counterparties_of-party :
      (op : DecodedTokenOp)
      → token_call readers p ≡ some op
      → has (counterparties_of dbl readers config world p) op.counterparty ≡ true
  unfolding counterparties_of with_party
  counterparties_of-party op called =
      rw (called, with_party) (add_target-has op.counterparty (extract_targets p.addresses))

  pub counterparties_of-named :
      (text : String) (t : ℕ)
      → address_of text ≡ some t
      → includes text (address_texts p.addresses) ≡ true
      → has (counterparties_of dbl readers config world p) t ≡ true
  unfolding counterparties_of
  counterparties_of-named text t is among =
      with_party-keeps (token_call readers p) (extract_targets p.addresses) t
        (extract_targets-has p.addresses text t is among)

  -- A blocked address among the targets.
  pub assess_intent-blocked :
      (plugins : List RiskSignal) (facts : Intent) (capabilities : Capabilities)
      (policy : Option Policy) (simulation : Option Simulation) (t : ℕ)
      → has config.lists.blocked t ≡ true
      → has (counterparties_of dbl readers config world p) t ≡ true
      → (assess_intent dbl readers config world plugins
          (record { facts = facts; params = p })
          capabilities
          policy
          simulation).decision
        ≡ RiskDecision.deny
  unfolding assess_intent assemble
  assess_intent-blocked plugins facts capabilities policy simulation t listed among =
      (assess_blocklisted dbl config.approval_threshold config.weights plugins
        (assemble dbl readers config world (record { facts = facts; params = p }) capabilities
          policy simulation)
        config.lists world.on_chain world.ended t refl listed among).0
