-- ===== src/Gateway/Again.antt =====
-- An intent that is executed, and executed again.
use atf.Common.{
  ℕ, ◌+◌, ◌≤◌, Bool, true, false, none, some, String, List, ◌∷◌, includes, str_eq, if◌then◌else◌,
  ◌≡◌, refl, sym, ◌∙◌, ap,
}
use atf.Plans.{PlanStatus, can_transition, approve, execute, complete}
use atf.Plans.Lifecycle.{status_of, status_of-move}
use atf.Pipeline.{
  CallParams, CompilerContext, Plan, CompilerState, Compilation, StructuredIntent, compile,
}
use atf.Pipeline.Caching.{first_status, compile-again, compile-stored}
use atf.Gateway.{
  agent_free_actions, owner_only_actions, Delivery, GatewayHost, GatewayState, GatewayResult,
  log_row, send, delivered, execute_plan_on_chain, settle_plan, start_plan, run_plan, after_compile,
  policy_refusal, unless_refused, execute_action, execute_intent,
}
use atf.Gateway.Sending.{encoded_plan}

-- The status aimed at, where it may come next.
abbrev pub advance : PlanStatus → PlanStatus → PlanStatus
advance to s = if can_transition s to then to else s

abbrev pub after_start : PlanStatus → PlanStatus
after_start s = advance PlanStatus.executing (advance PlanStatus.approved s)

module _ (Rest Result Tx : Type 0) (host : GatewayHost Rest Result Tx) where
  some_if :
      (may : Bool) (a b : PlanStatus)
      → (if may then some a else some b) ≡ some (if may then a else b)
  some_if true a b = refl
  some_if false a b = refl

  unfolded_send :
      (tx : Tx) (sent : List Tx)
      → send Rest Result Tx host (some tx) sent
        ≡ delivered Rest Result Tx host tx (host.deliver sent tx) sent
  unfolding send
  unfolded_send tx sent = refl

  start_plan-status :
      (plan : Plan Rest Result) (now : ℕ) (s : GatewayState Rest Result Tx) (st : PlanStatus)
      → status_of plan.plan_id s.compiler.plans ≡ some st
      → status_of plan.plan_id (start_plan Rest Result Tx host plan now s).compiler.plans
        ≡ some (after_start st)
  unfolding start_plan approve execute
  start_plan-status plan now s st at =
      let approved =
        status_of-move PlanStatus.approved none none (λ p. p) plan.plan_id s.compiler.plans st at
        ∙ some_if _ PlanStatus.approved st in
      status_of-move PlanStatus.executing none none (λ p. record p { executed_at = some now })
        plan.plan_id _ (advance PlanStatus.approved st) approved
      ∙ some_if _ PlanStatus.executing (advance PlanStatus.approved st)

  settle_plan-status :
      (action : String) (params : CallParams Rest) (plan : Plan Rest Result) (now : ℕ)
      (hash : String) (sent : List Tx) (s : GatewayState Rest Result Tx) (st : PlanStatus)
      → status_of plan.plan_id s.compiler.plans ≡ some st
      → status_of plan.plan_id
          (settle_plan Rest Result Tx host action params plan now
            (some hash, sent)
            s).1.compiler.plans
        ≡ some (advance PlanStatus.completed st)
  unfolding settle_plan complete
  settle_plan-status action params plan now hash sent s st at =
      status_of-move PlanStatus.completed (some hash) none
        (λ p. record p { completed_at = some now; tx_hash = some hash }) plan.plan_id
        s.compiler.plans st at
      ∙ some_if _ PlanStatus.completed st

  -- The run of a plan whose transaction is mined.
  run_plan_mined :
      (action : String) (params : CallParams Rest) (plan : Plan Rest Result) (now : ℕ)
      (s : GatewayState Rest Result Tx) (tx : Tx) (hash : String) (st : PlanStatus)
      → plan.body.requires_approval ≡ false
      → encoded_plan Rest Result Tx host plan ≡ some tx
      → host.deliver s.sent tx ≡ Delivery.mined hash
      → status_of plan.plan_id s.compiler.plans ≡ some st
      → ((run_plan Rest Result Tx host action params plan now s).0 ≡ GatewayResult.executed hash)
        × ((run_plan Rest Result Tx host action params plan now s).1.sent ≡ tx ∷ s.sent)
        × (status_of plan.plan_id
              (run_plan Rest Result Tx host action params plan now s).1.compiler.plans
            ≡ some (advance PlanStatus.completed (after_start st)))
        × ((run_plan Rest Result Tx host action params plan now s).1.compiler.cache
            ≡ s.compiler.cache)
  unfolding run_plan start_plan execute_plan_on_chain settle_plan
  run_plan_mined action params plan now s tx hash st free encoded mined at =
      let logged : GatewayState Rest Result Tx = record s {
        log = log_row Rest Result Tx host action params plan false none now ∷ s.log;
      } in
      let started = start_plan-status plan now logged st at in
      let sending : send Rest Result Tx host (encoded_plan Rest Result Tx host plan) s.sent
          ≡ (some hash, tx ∷ s.sent) =
        ap (λ e. send Rest Result Tx host e s.sent) encoded
        ∙ unfolded_send tx s.sent
        ∙ ap (λ d. delivered Rest Result Tx host tx d s.sent) mined in
      rw (free, sending)
        (
          refl,
          refl,
          settle_plan-status action params plan now hash (tx ∷ s.sent)
              (start_plan Rest Result Tx host plan now logged) (after_start st) started,
          refl,
        )

  -- What the gateway does with an action that it lets through.
  execute_intent-runs :
      (id hash action : String) (params : CallParams Rest) (context : CompilerContext) (now : ℕ)
      (s : GatewayState Rest Result Tx) (plan : Plan Rest Result) (hit : Bool)
      (c : CompilerState Rest Result)
      → str_eq action "" ≡ false
      → includes action agent_free_actions ≡ false
      → includes action owner_only_actions ≡ false
      → policy_refusal Rest Result Tx host action params context now s ≡ none
      → compile Rest Result host.stages id hash now
          (record { action = action; params = params })
          context
          s.compiler
        ≡ (Compilation.compiled plan hit, c)
      → execute_intent Rest Result Tx host id hash (some action) (some params) context now s
        ≡ run_plan Rest Result Tx host action params plan now (record s { compiler = c })
  unfolding execute_intent execute_action after_compile
  execute_intent-runs id hash action params context now s plan hit c given paid not_owner fine
        made =
      rw (given, paid, not_owner) (rw (fine, unless_refused) (rw (made, after_compile) refl))

  -- The gateway has nothing against the action before it is compiled.
  abbrev pub IsOpen :
      String → CallParams Rest → CompilerContext → ℕ → GatewayState Rest Result Tx → Type 0
  IsOpen action params context now s =
      (str_eq action "" ≡ false)
      × (includes action agent_free_actions ≡ false)
      × (includes action owner_only_actions ≡ false)
      × (policy_refusal Rest Result Tx host action params context now s ≡ none)

  -- An intent that compiles to a new plan without approval, and whose transaction is mined, is executed,
  -- and its plan is completed. If the same intent comes again while the cache lasts, the policy allows it
  -- and JSON reads back the plan, the same transaction is sent a second time, though the plan was and
  -- stays completed.
  pub execute_intent-again :
      (id hash id' hash' action : String) (params : CallParams Rest) (context : CompilerContext)
      (now later : ℕ) (s : GatewayState Rest Result Tx) (plan : Plan Rest Result)
      (c : CompilerState Rest Result) (tx : Tx) (first second : String)
      → IsOpen action params context now s
      → compile Rest Result host.stages id hash now
          (record { action = action; params = params })
          context
          s.compiler
        ≡ (Compilation.compiled plan false, c)
      → plan.body.requires_approval ≡ false
      → encoded_plan Rest Result Tx host plan ≡ some tx
      → host.deliver s.sent tx ≡ Delivery.mined first
      → host.deliver (tx ∷ s.sent) tx ≡ Delivery.mined second
      → host.stages.of_json (host.stages.to_json plan) ≡ some plan
      → later ≤ now + host.stages.cache_ttl
      → policy_refusal Rest Result Tx host action params context later
          (execute_intent Rest Result Tx host id hash (some action) (some params) context now s).1
        ≡ none
      → let s' =
          (execute_intent Rest Result Tx host id hash
            (some action)
            (some params)
            context
            now
            s).1 in
        let again =
          execute_intent Rest Result Tx host id' hash'
            (some action)
            (some params)
            context
            later
            s' in
        ((execute_intent Rest Result Tx host id hash (some action) (some params) context now s).0
          ≡ GatewayResult.executed first)
        × (status_of plan.plan_id s'.compiler.plans ≡ some PlanStatus.completed)
        × (again.0 ≡ GatewayResult.executed second)
        × (again.1.sent ≡ tx ∷ tx ∷ s.sent)
        × (status_of plan.plan_id again.1.compiler.plans ≡ some PlanStatus.completed)
  execute_intent-again id hash id' hash' action params context now later s plan c tx first second
        (given, paid, not_owner, fine) made free encoded mined mined' reads soon fine' =
      let input : StructuredIntent Rest = record { action = action; params = params } in
      let ran =
        execute_intent-runs id hash action params context now s plan false c given paid not_owner
          fine made in
      let s' =
        (execute_intent Rest Result Tx host id hash (some action) (some params) context now s).1 in
      let made_new = ap (λ m. m.0) made in
      let stored : status_of plan.plan_id c.plans ≡ some PlanStatus.approved =
        ap (λ m. status_of plan.plan_id m.1.plans) (sym made)
        ∙ compile-stored Rest Result host.stages id hash now input context s.compiler plan made_new
        ∙ ap (λ b. some (first_status b)) free in
      let (executed, sent, status, cache) =
        run_plan_mined action params plan now (record s { compiler = c }) tx first
          PlanStatus.approved free encoded mined stored in
      let sent' : s'.sent ≡ tx ∷ s.sent = ap (λ r. r.1.sent) ran ∙ sent in
      let status' : status_of plan.plan_id s'.compiler.plans ≡ some PlanStatus.completed =
        ap (λ r. status_of plan.plan_id r.1.compiler.plans) ran ∙ status in
      let hit =
        compile-again Rest Result host.stages id hash id' hash' now later input context s.compiler
          s'.compiler plan made_new
          (ap (λ r. r.1.compiler.cache) ran ∙ cache ∙ ap (λ m. m.1.cache) (sym made)) soon reads in
      let ran' =
        execute_intent-runs id' hash' action params context later s' plan true s'.compiler given
          paid not_owner fine' hit in
      let (executed', sent'', status'', cache') =
        run_plan_mined action params plan later s' tx second PlanStatus.completed free encoded
          (ap (λ l. host.deliver l tx) sent' ∙ mined') status' in
      (
        ap (λ r. r.0) ran ∙ executed,
        status',
        ap (λ r. r.0) ran' ∙ executed',
        ap (λ r. r.1.sent) ran' ∙ sent'' ∙ ap (λ l. tx ∷ l) sent',
        ap (λ r. status_of plan.plan_id r.1.compiler.plans) ran' ∙ status'',
      )
