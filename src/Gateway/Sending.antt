-- ===== src/Gateway/Sending.antt =====
-- Which transactions the gateway sends.
use atf.Common.{
  ℕ, Bool, true, false, Option, none, some, String, List, ◌∷◌, map, includes, str_eq, str_eq_iff,
  text_or, ◌⊎◌, inl, inr, ◌≡◌, refl, ap, Bool-cases, Option-cases,
}
use atf.OwnerPolicy.{check_policy}
use atf.Pipeline.{CallParams, CompilerContext, Plan, CompilerState, Compilation, compile}
use atf.Gateway.{
  agent_free_actions, owner_only_actions, Delivery, GatewayHost, GatewayState, spent_row,
  policy_view, log_row, delivered, send, execute_plan_on_chain, settle_plan, start_plan, run_plan,
  after_compile, policy_refusal, unless_refused, execute_action, execute_intent,
}

module _ (Rest Result Tx : Type 0) (host : GatewayHost Rest Result Tx) where
  -- Nothing is sent, or the one transaction.
  abbrev pub SendsOnly : Option Tx → List Tx → List Tx → Type 0
  SendsOnly encoded before after =
      (after ≡ before) ⊎ ((tx : Tx) × (after ≡ tx ∷ before) × (encoded ≡ some tx))

  delivered-SendsOnly :
      (tx : Tx) (d : Delivery) (sent : List Tx)
      → SendsOnly (some tx) sent (delivered Rest Result Tx host tx d sent).1
  delivered-SendsOnly tx Delivery.unsent sent = inl refl
  delivered-SendsOnly tx Delivery.unconfirmed sent = inr (tx, refl, refl)
  delivered-SendsOnly tx (Delivery.mined hash) sent = inr (tx, refl, refl)

  send-SendsOnly :
      (encoded : Option Tx) (sent : List Tx)
      → SendsOnly encoded sent (send Rest Result Tx host encoded sent).1
  unfolding send
  send-SendsOnly none sent = inl refl
  send-SendsOnly (some tx) sent = delivered-SendsOnly tx (host.deliver sent tx) sent

  settle_plan-sent :
      (action : String) (params : CallParams Rest) (plan : Plan Rest Result) (now : ℕ)
      (outcome : Option String) (sent : List Tx) (s : GatewayState Rest Result Tx)
      → (settle_plan Rest Result Tx host action params plan now (outcome, sent) s).1.sent ≡ sent
  unfolding settle_plan
  settle_plan-sent action params plan now none sent s = refl
  settle_plan-sent action params plan now (some hash) sent s = refl

  -- What the encoder makes of a plan.
  abbrev pub encoded_plan : Plan Rest Result → Option Tx
  encoded_plan plan =
      host.encode (text_or plan.body.intent.normalized_action plan.body.intent.action)
        plan.body.intent.params

  run_plan-SendsOnly :
      (action : String) (params : CallParams Rest) (plan : Plan Rest Result) (now : ℕ)
      (s : GatewayState Rest Result Tx)
      → ((run_plan Rest Result Tx host action params plan now s).1.sent ≡ s.sent)
        ⊎ ((plan.body.requires_approval ≡ false)
            × SendsOnly
                (encoded_plan plan)
                s.sent
                (run_plan Rest Result Tx host action params plan now s).1.sent)
  unfolding run_plan start_plan execute_plan_on_chain
  run_plan-SendsOnly action params plan now s = elim (Bool-cases plan.body.requires_approval) [
    | inl waits ↦ inl (rw waits refl)
    | inr free ↦ inr (
      free,
      rw free (
          rw
            (settle_plan-sent action params plan now
              (send Rest Result Tx host (encoded_plan plan) s.sent).0
              (send Rest Result Tx host (encoded_plan plan) s.sent).1
              (start_plan Rest Result Tx host plan now (record s {
                log = log_row Rest Result Tx host action params plan false none now ∷ s.log;
              })))
            (send-SendsOnly (encoded_plan plan) s.sent)),
    )
  ]

  -- What the gateway has found before it sends a transaction.
  pub record IsCleared (id hash action : String) (params : CallParams Rest)
      (context : CompilerContext) (now : ℕ) (s : GatewayState Rest Result Tx) (tx : Tx)
      : Type 0 where
    pub plan : Plan Rest Result
    pub hit : Bool
    pub compiler : CompilerState Rest Result
    pub not_free : includes action agent_free_actions ≡ false
    pub not_owner_only : includes action owner_only_actions ≡ false
    pub permitted :
        (text_or params.wallet_address context.wallet_address ≡ "")
        ⊎ ((check_policy host.policy
              (text_or params.wallet_address context.wallet_address)
              action
              (policy_view Rest Result Tx host params)
              s.policies
              (map (spent_row Rest Result Tx host) s.log)
              now).allowed
            ≡ true)
    pub compiled :
        compile Rest Result host.stages id hash now
          (record { action = action; params = params })
          context
          s.compiler
        ≡ (Compilation.compiled plan hit, compiler)
    pub no_approval : plan.body.requires_approval ≡ false
    pub encoded : encoded_plan plan ≡ some tx

  pub policy_refusal-none :
      (action : String) (params : CallParams Rest) (context : CompilerContext) (now : ℕ)
      (s : GatewayState Rest Result Tx)
      → policy_refusal Rest Result Tx host action params context now s ≡ none
      → (text_or params.wallet_address context.wallet_address ≡ "")
        ⊎ ((check_policy host.policy
              (text_or params.wallet_address context.wallet_address)
              action
              (policy_view Rest Result Tx host params)
              s.policies
              (map (spent_row Rest Result Tx host) s.log)
              now).allowed
            ≡ true)
  unfolding policy_refusal
  policy_refusal-none action params context now s h =
      let wallet = text_or params.wallet_address context.wallet_address in
      let check =
        check_policy host.policy wallet action (policy_view Rest Result Tx host params) s.policies
          (map (spent_row Rest Result Tx host) s.log) now in
      elim (Bool-cases (str_eq wallet "")) [
        | inl absent ↦ inl ((str_eq_iff wallet "").0 absent)
        | inr named ↦ elim (Bool-cases check.allowed) [
          | inl allowed ↦ inr allowed
          | inr refused ↦ let wrong : some check ≡ none = rw (named, refused) at h in cc
        ]
      ]

  after_compile-sends :
      (action : String) (params : CallParams Rest) (now : ℕ) (s : GatewayState Rest Result Tx)
      (c : Compilation Rest Result) (compiler : CompilerState Rest Result)
      → ((after_compile Rest Result Tx host action params now s (c, compiler)).1.sent ≡ s.sent)
        ⊎ ((plan : Plan Rest Result) × (hit : Bool) × (tx : Tx) × (c
              ≡ Compilation.compiled plan hit)
            × (plan.body.requires_approval ≡ false)
            × (encoded_plan plan ≡ some tx)
            × ((after_compile Rest Result Tx host action params now s (c, compiler)).1.sent
                ≡ tx ∷ s.sent))
  unfolding after_compile
  after_compile-sends action params now s Compilation.threw compiler = inl refl
  after_compile-sends action params now s (Compilation.rejected errors) compiler = inl refl
  after_compile-sends action params now s (Compilation.compiled plan hit) compiler =
      elim (run_plan-SendsOnly action params plan now (record s { compiler = compiler })) [
        | inl nothing ↦ inl nothing
        | inr (free, inl nothing) ↦ inl nothing
        | inr (free, inr (tx, sent, is)) ↦ inr (plan, hit, tx, refl, free, is, sent)
      ]

  execute_action-sends :
      (id hash action : String) (params : CallParams Rest) (context : CompilerContext) (now : ℕ)
      (s : GatewayState Rest Result Tx)
      → ((execute_action Rest Result Tx host id hash action params context now s).1.sent ≡ s.sent)
        ⊎ ((tx : Tx) × IsCleared id hash action params context now s tx
            × ((execute_action Rest Result Tx host id hash action params context now s).1.sent
                ≡ tx ∷ s.sent))
  unfolding execute_action
  execute_action-sends id hash action params context now s =
      let made =
        compile Rest Result host.stages id hash now (record { action = action; params = params })
          context s.compiler in
      elim (Bool-cases (includes action agent_free_actions)) [
        | inl free ↦ inl (rw free refl)
        | inr not_free ↦ elim (Bool-cases (includes action owner_only_actions)) [
          | inl owner_only ↦ inl (rw (not_free, owner_only) refl)
          | inr not_owner_only ↦
              elim (Option-cases (policy_refusal Rest Result Tx host action params context now s)) [
                | inr (check, refused) ↦
                    inl (rw (not_free, not_owner_only) (rw (refused, unless_refused) refl))
                | inl fine ↦ elim (after_compile-sends action params now s made.0 made.1) [
                  | inl nothing ↦
                      inl (rw (not_free, not_owner_only) (rw (fine, unless_refused) nothing))
                  | inr (plan, hit, tx, is, no_approval, encoded, sent) ↦ inr (
                    tx,
                    record {
                      plan = plan;
                      hit = hit;
                      compiler = made.1;
                      not_free = not_free;
                      not_owner_only = not_owner_only;
                      permitted = policy_refusal-none action params context now s fine;
                      compiled = ap (λ c. (c, made.1)) is;
                      no_approval = no_approval;
                      encoded = encoded;
                    },
                    rw (not_free, not_owner_only) (rw (fine, unless_refused) sent),
                  )
                ]
              ]
        ]
      ]

  -- A call of the gateway sends one transaction at most. It sends one only for an action that is a text
  -- and neither free nor for the owner alone, with parameters that are an object, if the policy of the
  -- wallet that they or the context name allows it or no wallet is named, the compiler gives a plan
  -- without errors whose risk requires no approval, and the transaction is what the encoder makes of it.
  pub execute_intent-sends :
      (id hash : String) (action : Option String) (params : Option (CallParams Rest))
      (context : CompilerContext) (now : ℕ) (s : GatewayState Rest Result Tx)
      → ((execute_intent Rest Result Tx host id hash action params context now s).1.sent ≡ s.sent)
        ⊎ ((a : String) × (p : CallParams Rest) × (tx : Tx) × (action ≡ some a)
            × (params ≡ some p)
            × IsCleared id hash a p context now s tx
            × ((execute_intent Rest Result Tx host id hash action params context now s).1.sent
                ≡ tx ∷ s.sent))
  unfolding execute_intent
  execute_intent-sends id hash none params context now s = inl refl
  execute_intent-sends id hash (some action) none context now s =
      elim (Bool-cases (str_eq action "")) [
        | inl empty ↦ inl (rw empty refl)
        | inr given ↦ inl (rw given refl)
      ]
  execute_intent-sends id hash (some action) (some params) context now s =
      elim (Bool-cases (str_eq action "")) [
        | inl empty ↦ inl (rw empty refl)
        | inr given ↦ elim (execute_action-sends id hash action params context now s) [
          | inl nothing ↦ inl (rw given nothing)
          | inr (tx, cleared, sent) ↦ inr (action, params, tx, refl, refl, cleared, rw given sent)
        ]
      ]
