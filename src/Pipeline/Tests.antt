-- ===== src/Pipeline/Tests.antt =====
-- A run of the validator on an intent that names a session and a target.
use atf.Common.{Bool, true, false, none, some, String, [], ◌∷◌, refl, ◌≡◌}
use atf.Pipeline.{CompilerContext, IntentIr}
use atf.Pipeline.Validation.{GivenTexts, Registry, validate_intent}
use atf.Pipeline.Validated.{IsValidated, validate_intent-IsValidated}

abbrev shop : String
shop = "0x1111111111111111111111111111111111111111"

abbrev intent : IntentIr Bool
intent = record {
  action = "send";
  normalized_action = "wallet_execute";
  params = record {
    wallet_address = "";
    agent_identity = 7;
    agent_wallet = "";
    organization_id = "org";
    session_id = "s";
    target = shop;
    recipient = "";
    delegatee = "";
    value = "5";
    expiry = 900;
    rest = true;
  };
}

abbrev texts : Bool → GivenTexts
texts rest = record {
  target = some shop;
  targets = [];
  recipient = none;
  delegatee = none;
  owner_address = none;
  wallet_address = none;
}

abbrev registry : Registry
registry = record {
  identities = record { identity_id = 7; active = true } ∷ [];
  organizations = record { id = "org"; active = true } ∷ [];
  sessions = record { session_id = "s"; revoked = false; expiry = 500 } ∷ [];
}

abbrev context : CompilerContext
context = record { wallet_address = ""; session_id = ""; organization_id = "" }

no_errors : validate_intent Bool (λ action params. true) texts registry 400 intent context ≡ []
unfolding validate_intent atf.Risk.Addresses.address_of
no_errors = refl

validate_intent-IsValidated_example :
    IsValidated Bool (λ action params. true) texts registry 400 intent context
validate_intent-IsValidated_example =
    validate_intent-IsValidated Bool (λ action params. true) texts registry 400 intent context
      no_errors
