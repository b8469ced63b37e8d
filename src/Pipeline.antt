-- ===== src/Pipeline.antt =====
-- agentix/packages/compiler/pipeline: the order of the compiler's stages (index.ts), the parser of
-- structured intents (stage-1-intent-parser.ts), and the cache of its results
-- (storage/compilation-cache.ts). What the later stages make of an intent besides its plan's risk is
-- the parameter `Result`, and the parameters that only they read are `Rest`.
pub mod Validation
pub mod Validated
pub mod Caching
mod Tests
use atf.Common.{
  ℕ, ◌+◌, Bool, true, false, not, ◌&&◌, Option, none, some, String, List, [], ◌∷◌, ◌++◌, keep, ltb,
  if◌then◌else◌, str_eq, text_or,
}
use atf.Plans.{ExecutionPlan, PlanFacts, generate}

-- The fields of `params`; "" or 0 where one is absent. `agent_identity` and `agent_wallet` are those of
-- `params.agent`.
pub record CallParams (Rest : Type 0) : Type 0 where
  pub wallet_address : String
  pub agent_identity : ℕ
  pub agent_wallet : String
  pub organization_id : String
  pub session_id : String
  pub target : String
  pub recipient : String
  pub delegatee : String
  pub value : String
  pub expiry : ℕ
  pub rest : Rest

pub record CompilerContext : Type 0 where
  pub wallet_address : String
  pub session_id : String
  pub organization_id : String

pub record StructuredIntent (Rest : Type 0) : Type 0 where
  pub action : String
  pub params : CallParams Rest

pub record IntentIr (Rest : Type 0) : Type 0 where
  pub action : String
  pub normalized_action : String
  pub params : CallParams Rest

pub data CompilerError : Type 0 where
  bad_schema inactive_identity bad_agent_wallet unknown_organization : CompilerError
  inactive_organization bad_session bad_target past_expiry : CompilerError
  no_mapping no_address : CompilerError

-- `aliasMap`
abbrev pub alias_map : List (String × String)
alias_map =
    ("send", "wallet_execute")
    ∷ ("transfer", "wallet_execute")
    ∷ ("deploy_wallet", "wallet_create")
    ∷ ("new_wallet", "wallet_create")
    ∷ ("make_wallet", "wallet_create")
    ∷ ("new_session", "session_create_lightweight")
    ∷ ("start_session", "session_create_lightweight")
    ∷ ("kill_session", "session_revoke")
    ∷ ("end_session", "session_revoke")
    ∷ ("new_credential", "credential_issue")
    ∷ ("give_credential", "credential_issue")
    ∷ ("remove_credential", "credential_revoke")
    ∷ ("new_org", "organization_register")
    ∷ ("register_org", "organization_register")
    ∷ ("new_capability", "capability_register")
    ∷ ("new_delegation", "delegation_create")
    ∷ []

abbrev pub look_up : String → List (String × String) → String
look_up key [] = key
look_up key ((k, v) ∷ entries) = if str_eq k key then v else look_up key entries

-- `lower_trim` is `action.toLowerCase().trim()`.
unfoldable pub normalize_action : (String → String) → String → String
normalize_action lower_trim action = look_up (lower_trim action) alias_map

unfoldable pub parse : {Rest : Type 0} → (String → String) → StructuredIntent Rest → IntentIr Rest
unfolding normalize_action
parse lower_trim intent = record {
  action = intent.action;
  normalized_action = normalize_action lower_trim intent.action;
  params = intent.params;
}

-- A row of `compilation_cache`.
pub record CacheRow : Type 0 where
  pub content_hash : String
  pub plan_json : String
  pub created_at : ℕ
  pub ttl : ℕ

unfoldable pub invalidate : String → List CacheRow → List CacheRow
invalidate hash cache = keep (λ r. not (str_eq r.content_hash hash)) cache

unfoldable pub cached_row : String → List CacheRow → Option CacheRow
cached_row hash [] = none
cached_row hash (r ∷ cache) = if str_eq r.content_hash hash then some r else cached_row hash cache

unfoldable pub drop_stale : ℕ → List CacheRow → Option CacheRow → Option CacheRow × List CacheRow
unfolding invalidate
drop_stale now cache none = (none, cache)
drop_stale now cache (some r) =
    if ltb (r.created_at + r.ttl) now
    then (none, invalidate r.content_hash cache)
    else (some r, cache)

-- `CompilationCacheStore.get`: an entry that has outlived its time is deleted.
unfoldable pub get_cached : String → ℕ → List CacheRow → Option CacheRow × List CacheRow
unfolding cached_row drop_stale
get_cached hash now cache = drop_stale now cache (cached_row hash cache)

-- `INSERT OR REPLACE`
unfoldable pub set_cached : String → String → ℕ → ℕ → List CacheRow → List CacheRow
set_cached hash plan_json ttl now cache =
    keep (λ r. not (str_eq r.content_hash hash)) cache
    ++ record { content_hash = hash; plan_json = plan_json; created_at = now; ttl = ttl } ∷ []

unfoldable pub prune : ℕ → List CacheRow → List CacheRow
prune now cache = keep (λ r. not (ltb (r.created_at + r.ttl) now)) cache

-- What a plan carries of its intent and of the stages.
pub record PlanBody (Rest Result : Type 0) : Type 0 where
  pub intent : IntentIr Rest
  pub result : Result
  pub requires_approval : Bool

module _ (Rest Result : Type 0) where
  abbrev pub Plan : Type 0
  Plan = ExecutionPlan (PlanBody Rest Result)

  -- The stages and what they stand on: the text of an action, the checksum of a request, the errors of
  -- the validator and of the contract resolver, the stages from the capabilities to the explanation
  -- (`none` where one throws) with whether the risk requires approval and the expiry that the policy
  -- sets, and JSON.
  pub record Stages : Type 0 where
    pub lower_trim : String → String
    pub content_hash : IntentIr Rest → CompilerContext → String
    pub validate : IntentIr Rest → CompilerContext → List CompilerError
    pub resolve : IntentIr Rest → List CompilerError
    pub assess : IntentIr Rest → Option (Result × (Bool × ℕ))
    pub to_json : Plan → String
    pub of_json : String → Option Plan
    pub cache_ttl : ℕ

  pub record CompilerState : Type 0 where
    pub plans : List Plan
    pub cache : List CacheRow

  -- `rejected` is a result with errors, whose empty plan nobody reads; `threw` a rejected promise.
  pub data Compilation : Type 0 where
    threw : Compilation
    rejected : List CompilerError → Compilation
    compiled : Plan → Bool → Compilation

  module _ (stages : Stages) (id hash : String) (now : ℕ) where
    -- Stage 10 and the write of the cache. `id` and `hash` are those of the new plan.
    unfoldable pub finish :
        IntentIr Rest
        → CompilerContext
        → Option (Result × (Bool × ℕ))
        → CompilerState
        → Compilation × CompilerState
    unfolding generate set_cached
    finish intent context none s = (threw, s)
    finish intent context (some (result, (requires_approval, expiry))) s =
        let (plan, plans) =
          generate id hash
            (record { intent = intent; result = result; requires_approval = requires_approval })
            (record {
              requires_approval = requires_approval;
              wallet_address = intent.params.agent_wallet;
              has_session = not (str_eq intent.params.session_id "");
              expiry = expiry;
            })
            now s.plans in
        (
          compiled plan false,
          record {
            plans = plans;
            cache =
                set_cached (stages.content_hash intent context) (stages.to_json plan)
                  stages.cache_ttl now s.cache;
          },
        )

    abbrev unless_errors :
        List CompilerError
        → CompilerState
        → Compilation × CompilerState
        → Compilation × CompilerState
    unless_errors [] s rest = rest
    unless_errors (e ∷ errors) s rest = (rejected (e ∷ errors), s)

    -- Stages 2 to 10. A missing capability is a warning only.
    unfoldable pub run_stages :
        IntentIr Rest → CompilerContext → CompilerState → Compilation × CompilerState
    unfolding finish
    run_stages intent context s =
        unless_errors (stages.validate intent context) s
          (unless_errors (stages.resolve intent) s (finish intent context (stages.assess intent) s))

    -- The stored plan, if its text can be read.
    unfoldable pub use_cached :
        IntentIr Rest → CompilerContext → Option Plan → CompilerState → Compilation × CompilerState
    unfolding run_stages invalidate
    use_cached intent context (some plan) s = (compiled plan true, s)
    use_cached intent context none s =
        run_stages intent context
          (record s { cache = invalidate (stages.content_hash intent context) s.cache })

    unfoldable pub after_lookup :
        IntentIr Rest
        → CompilerContext
        → CompilerState
        → Option CacheRow × List CacheRow
        → Compilation × CompilerState
    unfolding use_cached
    after_lookup intent context s (none, cache) =
        run_stages intent context (record s { cache = cache })
    after_lookup intent context s (some r, cache) =
        use_cached intent context (stages.of_json r.plan_json) (record s { cache = cache })

    -- `compile` of a structured intent
    unfoldable pub compile :
        StructuredIntent Rest → CompilerContext → CompilerState → Compilation × CompilerState
    unfolding parse get_cached after_lookup
    compile input context s =
        let intent = parse stages.lower_trim input in
        after_lookup intent context s (get_cached (stages.content_hash intent context) now s.cache)
