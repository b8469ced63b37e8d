-- ===== src/Gateway/Day.antt =====
-- Intents that follow each other within a day.
use atf.Common.{ℕ, Bool, some, String, text_or, ℤ, ◌≡◌}
use atf.OwnerPolicy.{OwnerPolicy, get_owner_policy, today_start}
use atf.Pipeline.{CallParams, CompilerContext, Plan, Compilation, compile}
use atf.Gateway.{GatewayHost, GatewayState, execute_intent}
use atf.Gateway.Budget.{IsWithinBudget}

module _ (Rest Result Tx : Type 0) (host : GatewayHost Rest Result Tx) where
  -- The call is of the day, its value is a number that BigInt and the cast of SQL read alike, and its
  -- row is written under the wallet that the policy is asked about.
  pub record IsFair (day : ℕ) (id hash action : String) (params : CallParams Rest)
      (context : CompilerContext) (now : ℕ) (s : GatewayState Rest Result Tx) : Type 0 where
    pub today : today_start now ≡ day
    pub amount : ℕ
    pub read : host.policy.big_int (text_or params.value "0") ≡ some (ℤ.pos amount)
    pub cast : host.cast_value (text_or params.value "0") ≡ ℤ.pos amount
    pub payer :
        (plan : Plan Rest Result) (hit : Bool)
        → (compile Rest Result host.stages id hash now
            (record { action = action; params = params })
            context
            s.compiler).0
          ≡ Compilation.compiled plan hit
        → text_or plan.body.intent.params.agent_wallet params.wallet_address
          ≡ text_or params.wallet_address context.wallet_address

  -- Fair calls with parameters, one after the other.
  pub data Runs (day : ℕ) : GatewayState Rest Result Tx → GatewayState Rest Result Tx → Type 0 where
    done : (s : GatewayState Rest Result Tx) → Runs day s s
    next :
        (s later : GatewayState Rest Result Tx) (id hash action : String) (params : CallParams Rest)
        (context : CompilerContext) (now : ℕ)
        → IsFair day id hash action params context now s
        → Runs day
            (execute_intent Rest Result Tx host id hash (some action) (some params) context now s).1
            later
        → Runs day s later

  module _ (wallet : String) (day : ℕ) (policy : OwnerPolicy) (limit : ℕ) where
    -- The wallet has the policy, and its day is within the limit.
    abbrev IsKept : GatewayState Rest Result Tx → Type 0
    IsKept s =
        (get_owner_policy wallet s.policies ≡ some policy)
        × IsWithinBudget Rest Result Tx host wallet day limit s
