-- ===== src/Gateway/Budget.antt =====
-- What a day of intents spends of a wallet's daily limit.
use atf.Common.{
  ℕ, ◌+◌, ◌≤◌, Bool, true, false, Option, none, some, String, List, ◌∷◌, map, str_eq, text_or, ℤ,
  ◌⊎◌, inl, inr, ◌≡◌, refl, sym, ◌∙◌, arith, Bool-cases,
}
use atf.OwnerPolicy.{AgentAction, total_used, today_start}
use atf.OwnerPolicy.Spending.{IsSpent, IsSpent-uncounted, IsSpent-counted}
use atf.Pipeline.{CallParams, Plan, CompilerState, Compilation}
use atf.Gateway.{
  GatewayHost, GatewayState, spent_row, log_row, execute_plan_on_chain, settle_plan, start_plan,
  run_plan, after_compile,
}

total_used-failed :
    (wallet : String) (day : ℕ) (r : AgentAction) (actions : List AgentAction)
    → r.success ≡ false
    → total_used wallet day (r ∷ actions) ≡ total_used wallet day actions
unfolding total_used
total_used-failed wallet day r actions failed = ground (arith, failed)

module _ (Rest Result Tx : Type 0) (host : GatewayHost Rest Result Tx) (wallet : String)
    (day limit : ℕ) where
  abbrev pub IsWithinBudget : GatewayState Rest Result Tx → Type 0
  IsWithinBudget s = IsSpent wallet day (map (spent_row Rest Result Tx host) s.log) limit

  -- The row of the action counts for another wallet, or its value fits into what is left.
  abbrev pub Fits : String → ℕ → GatewayState Rest Result Tx → Type 0
  Fits payer value s =
      (str_eq payer wallet ≡ false)
      ⊎ ((used : ℕ)
          → total_used wallet day (map (spent_row Rest Result Tx host) s.log) ≡ ℤ.pos used
          → used ≤ limit
          → used + value ≤ limit)

  settle_plan-IsWithinBudget :
      (action : String) (params : CallParams Rest) (plan : Plan Rest Result) (now value : ℕ)
      (outcome : Option String) (sent : List Tx) (s : GatewayState Rest Result Tx)
      → host.cast_value (text_or params.value "0") ≡ ℤ.pos value
      → today_start now ≡ day
      → Fits (text_or plan.body.intent.params.agent_wallet params.wallet_address) value s
      → IsWithinBudget s
      → IsWithinBudget (settle_plan Rest Result Tx host action params plan now (outcome, sent) s).1
  unfolding settle_plan
  settle_plan-IsWithinBudget action params plan now value none sent s cast today fits h =
      IsSpent-uncounted wallet day limit _ _ (inl refl) h
  settle_plan-IsWithinBudget action params plan now value (some hash) sent s cast today (inl other)
        h =
      IsSpent-uncounted wallet day limit _ _ (inr other) h
  settle_plan-IsWithinBudget action params plan now value (some hash) sent s cast today (inr room)
        (used, total, low, all) =
      IsSpent-counted wallet day limit
        (spent_row Rest Result Tx host
          (log_row Rest Result Tx host action params plan true (some hash) now))
        (map (spent_row Rest Result Tx host) s.log) value used cast today total
        (room used total low) all

  run_plan-IsWithinBudget :
      (action : String) (params : CallParams Rest) (plan : Plan Rest Result) (now value : ℕ)
      (s : GatewayState Rest Result Tx)
      → host.cast_value (text_or params.value "0") ≡ ℤ.pos value
      → today_start now ≡ day
      → Fits (text_or plan.body.intent.params.agent_wallet params.wallet_address) value s
      → IsWithinBudget s
      → IsWithinBudget (run_plan Rest Result Tx host action params plan now s).1
  unfolding run_plan start_plan
  run_plan-IsWithinBudget action params plan now value s cast today fits h =
      let row = log_row Rest Result Tx host action params plan false none now in
      let logged : GatewayState Rest Result Tx = record s { log = row ∷ s.log } in
      let same : total_used wallet day (map (spent_row Rest Result Tx host) logged.log)
          ≡ total_used wallet day (map (spent_row Rest Result Tx host) s.log) =
        total_used-failed wallet day (spent_row Rest Result Tx host row)
          (map (spent_row Rest Result Tx host) s.log) refl in
      let h' : IsWithinBudget logged = IsSpent-uncounted wallet day limit _ _ (inl refl) h in
      let started = start_plan Rest Result Tx host plan now logged in
      elim (Bool-cases plan.body.requires_approval) [
        | inl waits ↦ rw waits h'
        | inr free ↦ rw free (
            settle_plan-IsWithinBudget action params plan now value
              (execute_plan_on_chain Rest Result Tx host plan started.sent).0
              (execute_plan_on_chain Rest Result Tx host plan started.sent).1 started cast today
              (elim fits [
                | inl other ↦ inl other
                | inr room ↦ inr (λ used total low. room used (sym same ∙ total) low)
              ])
              h')
      ]

  pub after_compile-IsWithinBudget :
      (action : String) (params : CallParams Rest) (now value : ℕ) (s : GatewayState Rest Result Tx)
      (c : Compilation Rest Result) (compiler : CompilerState Rest Result)
      → host.cast_value (text_or params.value "0") ≡ ℤ.pos value
      → today_start now ≡ day
      → ((plan : Plan Rest Result) (hit : Bool)
          → c ≡ Compilation.compiled plan hit
          → Fits (text_or plan.body.intent.params.agent_wallet params.wallet_address) value s)
      → IsWithinBudget s
      → IsWithinBudget (after_compile Rest Result Tx host action params now s (c, compiler)).1
  unfolding after_compile
  after_compile-IsWithinBudget action params now value s Compilation.threw compiler cast today fits
        h =
      h
  after_compile-IsWithinBudget action params now value s (Compilation.rejected e) compiler cast
        today fits h =
      h
  after_compile-IsWithinBudget action params now value s (Compilation.compiled plan hit) compiler
        cast today fits h =
      run_plan-IsWithinBudget action params plan now value (record s { compiler = compiler }) cast
        today (fits plan hit refl) h
