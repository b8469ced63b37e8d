-- ===== src/Gateway.antt =====
-- agentix/src/compiler-gateway.ts: what happens to an intent between its caller and the chain.
pub mod Sending
pub mod Again
pub mod Budget
pub mod Day
mod Tests
use atf.Common.{
  ℕ, Bool, true, false, not, Option, none, some, String, List, [], ◌∷◌, map, includes,
  if◌then◌else◌, str_eq, text_or, ℤ,
}
use atf.OwnerPolicy.{OwnerPolicy, PolicyCheck, AgentAction, ActionParams, PolicyHost, check_policy}
use atf.Plans.{ExecutionPlan, approve, execute, complete, fail}
use atf.Pipeline.{
  CallParams, CompilerContext, StructuredIntent, CompilerError, PlanBody, Plan, Stages,
  CompilerState, Compilation, compile,
}

abbrev pub agent_free_actions : List String
agent_free_actions =
    "wallet_info" ∷ "wallet_list" ∷ "wallet_balance" ∷ "session_validate" ∷ "session_list"
    ∷ "session_get" ∷ "session_status" ∷ "credential_get" ∷ "credential_list" ∷ "credential_verify"
    ∷ "organization_get" ∷ "organization_list" ∷ "capability_list" ∷ "delegation_list"
    ∷ "tree_status" ∷ "proof_list" ∷ "proof_verify" ∷ "identity_lookup" ∷ "identity_get" ∷ []

abbrev pub owner_only_actions : List String
owner_only_actions =
    "wallet_create" ∷ "wallet_transfer_ownership" ∷ "organization_register"
    ∷ "organization_deactivate" ∷ "capability_register" ∷ []

-- A row of `agent_actions`: who, when, how it ended, and the value and transaction of its metadata.
pub record LogRow : Type 0 where
  pub wallet_address : String
  pub session_id : String
  pub tool : String
  pub plan_id : String
  pub value : String
  pub target : String
  pub tx_hash : Option String
  pub success : Bool
  pub timestamp : ℕ

-- What becomes of a transaction: the signer refuses it, it is sent and the wait for it throws, or it
-- is mined under a hash.
pub data Delivery : Type 0 where
  unsent : Delivery
  unconfirmed : Delivery
  mined : String → Delivery

module _ (Rest Result Tx : Type 0) where
  -- `encode` is `encodeAndValidate` behind `isEncodableAction`, `none` where the action has no encoder
  -- or the encoder throws. `cast_value` is what SQL's cast makes of a value's text.
  pub record GatewayHost : Type 0 where
    pub stages : Stages Rest Result
    pub policy : PolicyHost
    pub cast_value : String → ℤ
    pub encode : String → CallParams Rest → Option Tx
    -- What becomes of a transaction after those sent before it.
    pub deliver : List Tx → Tx → Delivery

  pub record GatewayState : Type 0 where
    pub compiler : CompilerState Rest Result
    pub policies : List OwnerPolicy
    pub log : List LogRow
    -- The transactions that the signer has sent, the newest first.
    pub sent : List Tx

  pub data GatewayResult : Type 0 where
    invalid_action invalid_params free owner_only threw : GatewayResult
    policy_blocked : PolicyCheck → GatewayResult
    not_compiled : List CompilerError → GatewayResult
    awaits_approval : Plan Rest Result → GatewayResult
    executed : String → GatewayResult
    failed : GatewayResult

  module _ (host : GatewayHost) where
    abbrev pub spent_row : LogRow → AgentAction
    spent_row r = record {
      wallet_address = r.wallet_address;
      timestamp = r.timestamp;
      success = r.success;
      value = host.cast_value r.value;
    }

    abbrev pub policy_view : CallParams Rest → ActionParams
    policy_view params = record {
      target = params.target;
      recipient = params.recipient;
      delegatee = params.delegatee;
      value = params.value;
    }

    -- `_logAction`
    abbrev pub log_row :
        String → CallParams Rest → Plan Rest Result → Bool → Option String → ℕ → LogRow
    log_row action params plan success tx_hash now = record {
      wallet_address = text_or plan.body.intent.params.agent_wallet params.wallet_address;
      session_id = plan.body.intent.params.session_id;
      tool = action;
      plan_id = plan.plan_id;
      value = text_or params.value "0";
      target = text_or params.target (text_or params.recipient params.delegatee);
      tx_hash = tx_hash;
      success = success;
      timestamp = now;
    }

    abbrev delivered : Tx → Delivery → List Tx → Option String × List Tx
    delivered tx Delivery.unsent sent = (none, sent)
    delivered tx Delivery.unconfirmed sent = (none, tx ∷ sent)
    delivered tx (Delivery.mined hash) sent = (some hash, tx ∷ sent)

    -- The hash of the transaction where it is mined, and what has been sent.
    unfoldable pub send : Option Tx → List Tx → Option String × List Tx
    send none sent = (none, sent)
    send (some tx) sent = delivered tx (host.deliver sent tx) sent

    -- `_executePlanOnChain`
    unfoldable pub execute_plan_on_chain : Plan Rest Result → List Tx → Option String × List Tx
    unfolding send
    execute_plan_on_chain plan sent =
        let intent = plan.body.intent in
        send (host.encode (text_or intent.normalized_action intent.action) intent.params) sent

    -- Step 10: the plan and the log after the transaction.
    unfoldable pub settle_plan :
        String
        → CallParams Rest
        → Plan Rest Result
        → ℕ
        → Option String × List Tx
        → GatewayState
        → GatewayResult × GatewayState
    unfolding complete fail
    settle_plan action params plan now (some hash, sent) s = (
      executed hash,
      record s {
        compiler = record s.compiler {
          plans = (complete plan.plan_id hash now s.compiler.plans).1;
        };
        log = log_row action params plan true (some hash) now ∷ s.log;
        sent = sent;
      },
    )
    settle_plan action params plan now (none, sent) s = (
      failed,
      record s {
        compiler = record s.compiler {
          plans = (fail plan.plan_id "Execution failed" s.compiler.plans).1;
        };
        log = log_row action params plan false none now ∷ s.log;
        sent = sent;
      },
    )

    -- Step 8: what the two calls return is not looked at.
    unfoldable pub start_plan : Plan Rest Result → ℕ → GatewayState → GatewayState
    unfolding approve execute
    start_plan plan now s =
        let approved = (approve plan.plan_id s.compiler.plans).1 in
        record s { compiler = record s.compiler { plans = (execute plan.plan_id now approved).1 } }

    -- Steps 6 to 10.
    unfoldable pub run_plan :
        String
        → CallParams Rest
        → Plan Rest Result
        → ℕ
        → GatewayState
        → GatewayResult × GatewayState
    unfolding start_plan execute_plan_on_chain settle_plan
    run_plan action params plan now s =
        let logged = record s { log = log_row action params plan false none now ∷ s.log } in
        if plan.body.requires_approval
        then (awaits_approval plan, logged)
        else (let started = start_plan plan now logged in
            settle_plan action params plan now (execute_plan_on_chain plan started.sent) started)

    unfoldable pub after_compile :
        String
        → CallParams Rest
        → ℕ
        → GatewayState
        → Compilation Rest Result × CompilerState Rest Result
        → GatewayResult × GatewayState
    unfolding run_plan
    after_compile action params now s (Compilation.threw, c) = (threw, record s { compiler = c })
    after_compile action params now s (Compilation.rejected errors, c) =
        (not_compiled errors, record s { compiler = c })
    after_compile action params now s (Compilation.compiled plan hit, c) =
        run_plan action params plan now (record s { compiler = c })

    -- Step 3: the policy, where there is a wallet to ask it of.
    unfoldable pub policy_refusal :
        String → CallParams Rest → CompilerContext → ℕ → GatewayState → Option PolicyCheck
    unfolding check_policy
    policy_refusal action params context now s =
        let wallet = text_or params.wallet_address context.wallet_address in
        let check =
          check_policy host.policy wallet action (policy_view params) s.policies
            (map spent_row s.log) now in
        if str_eq wallet "" then none else if check.allowed then none else some check

    abbrev unless_refused :
        Option PolicyCheck
        → GatewayState
        → GatewayResult × GatewayState
        → GatewayResult × GatewayState
    unless_refused (some check) s rest = (policy_blocked check, s)
    unless_refused none s rest = rest

    -- Steps 1 to 5, of an action that is a text and of parameters that are an object. `id` and `hash`
    -- are those of a plan that is generated.
    unfoldable pub execute_action :
        String
        → String
        → String
        → CallParams Rest
        → CompilerContext
        → ℕ
        → GatewayState
        → GatewayResult × GatewayState
    unfolding policy_refusal compile after_compile
    execute_action id hash action params context now s =
        if includes action agent_free_actions
        then (free, s)
        else if includes action owner_only_actions
        then (owner_only, s)
        else unless_refused (policy_refusal action params context now s) s (
            after_compile action params now s (
              compile Rest Result host.stages id hash now
                (record { action = action; params = params }) context s.compiler))

    -- `executeIntent`; `none` for an action that is no text or parameters that are no object.
    unfoldable pub execute_intent :
        String
        → String
        → Option String
        → Option (CallParams Rest)
        → CompilerContext
        → ℕ
        → GatewayState
        → GatewayResult × GatewayState
    unfolding execute_action
    execute_intent id hash none params context now s = (invalid_action, s)
    execute_intent id hash (some action) none context now s =
        if str_eq action "" then (invalid_action, s) else (invalid_params, s)
    execute_intent id hash (some action) (some params) context now s =
        if str_eq action ""
        then (invalid_action, s)
        else execute_action id hash action params context now s
