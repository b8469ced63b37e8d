-- ===== src/Gateway/Tests.antt =====
-- Runs of the gateway: a payment of one stroke, an alias, and the same intent twice.
use atf.Common.{
  ℕ, ◌+◌, ◌≡◌, ◌⊎◌, refl, true, false, Bool, none, some, String, [], ◌∷◌, ℤ, or_else, read_strokes,
  arith,
}
use atf.OwnerPolicy.{OwnerPolicy, PolicyHost}
use atf.Plans.{PlanStatus}
use atf.Plans.Lifecycle.{status_of}
use atf.Pipeline.{CallParams, CompilerContext, Plan, Stages, CompilerState, Compilation, compile}
use atf.Pipeline.Caching.{compile-again}
use atf.Gateway.{Delivery, GatewayHost, GatewayState, GatewayResult, execute_intent, policy_refusal}
use atf.Gateway.Sending.{IsCleared, execute_intent-sends}
use atf.Gateway.Again.{IsOpen, execute_intent-again}

abbrev policy_host : PolicyHost
policy_host = record {
  to_lower_case = λ text. text;
  big_int = read_strokes;
  read_sum = some;
  show = λ n. "";
  verify_message = λ message signature. none;
}

abbrev policy : OwnerPolicy
policy = record {
  id = "p";
  wallet_address = "0xa";
  daily_limit = "+111";
  per_tx_limit = "+11";
  allowed_targets = [];
  allowed_actions = [];
  forbidden_actions = [];
  session_expiry = 0;
  auto_create_sessions = true;
  signed_by = "0xowner";
  signature = "";
  created_at = 0;
  expires_at = 0;
}

abbrev payment : CallParams Bool
payment = record {
  wallet_address = "0xa";
  agent_identity = 0;
  agent_wallet = "";
  organization_id = "";
  session_id = "";
  target = "0xshop";
  recipient = "";
  delegatee = "";
  value = "+1";
  expiry = 0;
  rest = true;
}

abbrev nowhere : CompilerContext
nowhere = record { wallet_address = ""; session_id = ""; organization_id = "" }

-- The plan that the intent gives rise to.
abbrev plan_at : ℕ → Plan Bool Bool
plan_at now = record {
  plan_id = "plan_1";
  content_hash = "hash";
  body = record {
    intent = record {
      action = "wallet_execute";
      normalized_action = "wallet_execute";
      params = payment;
    };
    result = true;
    requires_approval = false;
  };
  required_signatures = [];
  status = PlanStatus.approved;
  created_at = now;
  expires_at = now + 3_600;
  executed_at = none;
  completed_at = none;
  tx_hash = none;
  rejection_reason = none;
}

abbrev stages : Stages Bool Bool
stages = record {
  lower_trim = λ text. text;
  content_hash = λ intent context. intent.normalized_action;
  validate = λ intent context. [];
  resolve = λ intent. [];
  assess = λ intent. some (true, (false, 0));
  to_json = λ plan. plan.plan_id;
  of_json = λ text. some (plan_at 1_000);
  cache_ttl = 60;
}

abbrev host : GatewayHost Bool Bool String
host = record {
  stages = stages;
  policy = policy_host;
  cast_value = λ text. or_else (read_strokes text) (ℤ.pos 0);
  encode = λ action params. some action;
  deliver = λ sent tx. Delivery.mined "0xmined";
}

abbrev start : GatewayState Bool Bool String
start = record {
  compiler = record { plans = []; cache = [] };
  policies = policy ∷ [];
  log = [];
  sent = [];
}

abbrev called : String → GatewayResult Bool Bool String × GatewayState Bool Bool String
called action =
    execute_intent Bool Bool String host "plan_1" "hash" (some action) (some payment) nowhere 1_000
      start

execute_intent-sends_example :
    ((called "wallet_execute").1.sent ≡ [])
    ⊎ ((a : String) × (p : CallParams Bool) × (tx : String) × (some "wallet_execute" ≡ some a)
        × (some payment ≡ some p)
        × IsCleared Bool Bool String host "plan_1" "hash" a p nowhere 1_000 start tx
        × ((called "wallet_execute").1.sent ≡ tx ∷ []))
execute_intent-sends_example =
    execute_intent-sends Bool Bool String host "plan_1" "hash" (some "wallet_execute")
      (some payment) nowhere 1_000 start

-- The owner alone may create a wallet, and the gateway does it for another spelling.
alias_is_sent : (called "new_wallet").1.sent ≡ "wallet_create" ∷ []
unfolding execute_intent
alias_is_sent = refl

name_is_kept : (called "wallet_create").0 ≡ GatewayResult.owner_only
unfolding execute_intent
name_is_kept = refl

-- What the compiler makes of the payment at the start.
abbrev made : Compilation Bool Bool × CompilerState Bool Bool
made =
    compile Bool Bool stages "plan_1" "hash" 1_000
      (record { action = "wallet_execute"; params = payment }) nowhere start.compiler

is_made : made.0 ≡ Compilation.compiled (plan_at 1_000) false
unfolding compile
is_made = refl

compile-again_example :
    compile Bool Bool stages "plan_2" "other" 1_050
      (record { action = "wallet_execute"; params = payment })
      nowhere
      made.1
    ≡ (Compilation.compiled (plan_at 1_000) true, made.1)
compile-again_example =
    compile-again Bool Bool stages "plan_1" "hash" "plan_2" "other" 1_000 1_050
      (record { action = "wallet_execute"; params = payment }) nowhere start.compiler made.1
      (plan_at 1_000) is_made refl (omega arith) refl

is_made_whole : made ≡ (Compilation.compiled (plan_at 1_000) false, made.1)
unfolding compile
is_made_whole = refl

is_open : IsOpen Bool Bool String host "wallet_execute" payment nowhere 1_000 start
unfolding policy_refusal
is_open = (refl, refl, refl, refl)

is_open_later :
    policy_refusal Bool Bool String host "wallet_execute" payment nowhere 1_050
      (called "wallet_execute").1
    ≡ none
unfolding execute_intent
is_open_later = refl

execute_intent-again_example :
    ((called "wallet_execute").0 ≡ GatewayResult.executed "0xmined")
    × (status_of "plan_1" (called "wallet_execute").1.compiler.plans ≡ some PlanStatus.completed)
    × ((execute_intent Bool Bool String host "plan_2" "other"
          (some "wallet_execute")
          (some payment)
          nowhere
          1_050
          (called "wallet_execute").1).0
        ≡ GatewayResult.executed "0xmined")
    × ((execute_intent Bool Bool String host "plan_2" "other"
          (some "wallet_execute")
          (some payment)
          nowhere
          1_050
          (called "wallet_execute").1).1.sent
        ≡ "wallet_execute" ∷ "wallet_execute" ∷ [])
    × (status_of "plan_1"
          (execute_intent Bool Bool String host "plan_2" "other"
            (some "wallet_execute")
            (some payment)
            nowhere
            1_050
            (called "wallet_execute").1).1.compiler.plans
        ≡ some PlanStatus.completed)
execute_intent-again_example =
    execute_intent-again Bool Bool String host "plan_1" "hash" "plan_2" "other" "wallet_execute"
      payment nowhere 1_000 1_050 start (plan_at 1_000) made.1 "wallet_execute" "0xmined" "0xmined"
      is_open is_made_whole refl refl refl refl refl (omega arith) is_open_later

abbrev agent_wallet_in : Compilation Bool Bool → String
agent_wallet_in (Compilation.compiled plan hit) = plan.body.intent.params.agent_wallet
agent_wallet_in Compilation.threw = ""
agent_wallet_in (Compilation.rejected errors) = ""
