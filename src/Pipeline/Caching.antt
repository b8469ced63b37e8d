-- ===== src/Pipeline/Caching.antt =====
-- What the cache of compilations gives back.
use atf.Common.{
  ℕ, ◌+◌, ◌≤◌, Bool, true, false, not, Option, none, some, String, List, [], ◌∷◌, ltb, str_eq,
  str_eq_iff, if◌then◌else◌, ◌≡◌, refl, sym, ◌∙◌, ap, arith, Bool-cases, inl, inr,
}
use mathlib.Core.Option.{map as map_option, some-injective}
use mathlib.Core.Path.{subst}
use atf.Plans.{PlanStatus, ExecutionPlan, find_plan, save, generate}
use atf.Plans.Lifecycle.{status_of}
use atf.Pipeline.{
  IntentIr, CompilerContext, StructuredIntent, CompilerError, CacheRow, Plan, Stages, CompilerState,
  Compilation, parse, invalidate, cached_row, drop_stale, get_cached, set_cached, unless_errors,
  finish, run_stages, use_cached, after_lookup, compile,
}

cached_row-set_cached :
    (hash plan_json : String) (ttl now : ℕ) (cache : List CacheRow)
    → cached_row hash (set_cached hash plan_json ttl now cache)
      ≡ some (record { content_hash = hash; plan_json = plan_json; created_at = now; ttl = ttl })
unfolding cached_row set_cached
cached_row-set_cached hash plan_json ttl now [] =
    let own : str_eq hash hash ≡ true = (str_eq_iff hash hash).1 refl in rw own refl
cached_row-set_cached hash plan_json ttl now (r ∷ cache) =
    let later = cached_row-set_cached hash plan_json ttl now cache in
    elim (Bool-cases (str_eq r.content_hash hash)) [
      | inl same ↦ rw same later
      | inr other ↦ rw (other, other) later
    ]

-- Until the time is over the cache gives back what was set.
get_cached-set_cached :
    (hash plan_json : String) (ttl now later : ℕ) (cache : List CacheRow)
    → later ≤ now + ttl
    → get_cached hash later (set_cached hash plan_json ttl now cache) ≡ (
      some (record { content_hash = hash; plan_json = plan_json; created_at = now; ttl = ttl }),
      set_cached hash plan_json ttl now cache,
    )
unfolding get_cached drop_stale
get_cached-set_cached hash plan_json ttl now later cache soon =
    let fresh : ltb (now + ttl) later ≡ false = ground (arith, soon) in
    rw (cached_row-set_cached hash plan_json ttl now cache, drop_stale) (rw fresh refl)

find_plan-save :
    {Body : Type 0} (p : ExecutionPlan Body) (plans : List (ExecutionPlan Body))
    → find_plan p.plan_id (save p plans) ≡ some p
unfolding find_plan save
find_plan-save p [] =
    let own : str_eq p.plan_id p.plan_id ≡ true = (str_eq_iff _ _).1 refl in rw own refl
find_plan-save p (q ∷ plans) =
    let later = find_plan-save p plans in
    elim (Bool-cases (str_eq q.plan_id p.plan_id)) [
      | inl same ↦ rw same later
      | inr other ↦ rw (other, other) later
    ]

status_of-save :
    {Body : Type 0} (p : ExecutionPlan Body) (plans : List (ExecutionPlan Body))
    → status_of p.plan_id (save p plans) ≡ some p.status
status_of-save p plans = ap (map_option (λ q. q.status)) (find_plan-save p plans)

-- The status with which a plan is generated.
abbrev pub first_status : Bool → PlanStatus
first_status requires_approval =
    if requires_approval then PlanStatus.approval_required else PlanStatus.approved

module _ (Rest Result : Type 0) (stages : Stages Rest Result) where
  -- The row that a new plan leaves in the cache.
  abbrev pub Leaves : String → ℕ → Plan Rest Result → List CacheRow → Type 0
  Leaves content_hash now plan cache =
      (before : List CacheRow) × (cache
        ≡ set_cached content_hash (stages.to_json plan) stages.cache_ttl now before)

  -- The plan, where it is a new one.
  abbrev new_plan : Compilation Rest Result → Option (Plan Rest Result)
  new_plan Compilation.threw = none
  new_plan (Compilation.rejected errors) = none
  new_plan (Compilation.compiled plan true) = none
  new_plan (Compilation.compiled plan false) = some plan

  module _ (id hash : String) (now : ℕ) (intent : IntentIr Rest) (context : CompilerContext)
      (plan : Plan Rest Result) where
    LeavesPlan : Compilation Rest Result × CompilerState Rest Result → Type 0
    LeavesPlan made =
        new_plan made.0 ≡ some plan
        → Leaves (stages.content_hash intent context) now plan made.1.cache
          × (status_of plan.plan_id made.1.plans ≡ some (first_status plan.body.requires_approval))

    generated :
        Result → Bool → ℕ → CompilerState Rest Result → Plan Rest Result × List (Plan Rest Result)
    generated result approval expiry s =
        generate id hash (record { intent = intent; result = result; requires_approval = approval })
          (record {
            requires_approval = approval;
            wallet_address = intent.params.agent_wallet;
            has_session = not (str_eq intent.params.session_id "");
            expiry = expiry;
          })
          now s.plans

    finish-leaves :
        (found : Option (Result × (Bool × ℕ))) (s : CompilerState Rest Result)
        → LeavesPlan (finish Rest Result stages id hash now intent context found s)
    unfolding finish LeavesPlan generated generate
    finish-leaves none s h = let wrong : none ≡ some plan = h in cc
    finish-leaves (some (result, (approval, expiry))) s h = (
      (
        s.cache,
        ap
            (λ p.
              set_cached (stages.content_hash intent context) (stages.to_json p) stages.cache_ttl
                now s.cache)
            (some-injective _ plan h),
      ),
      subst
          (λ p.
            status_of p.plan_id (generated result approval expiry s).1
            ≡ some (first_status p.body.requires_approval))
          (some-injective (generated result approval expiry s).0 plan h)
          (status_of-save (generated result approval expiry s).0 s.plans),
    )

    unless_errors-leaves :
        (errors : List CompilerError) (s : CompilerState Rest Result)
        (rest : Compilation Rest Result × CompilerState Rest Result)
        → LeavesPlan rest
        → LeavesPlan (unless_errors Rest Result stages id hash now errors s rest)
    unfolding LeavesPlan
    unless_errors-leaves [] s rest leaves h = leaves h
    unless_errors-leaves (e ∷ errors) s rest leaves h = let wrong : none ≡ some plan = h in cc

    run_stages-leaves :
        (s : CompilerState Rest Result)
        → LeavesPlan (run_stages Rest Result stages id hash now intent context s)
    unfolding run_stages
    run_stages-leaves s =
        unless_errors-leaves (stages.validate intent context) s _ (
          unless_errors-leaves (stages.resolve intent) s _ (finish-leaves (stages.assess intent) s))

    use_cached-leaves :
        (stored : Option (Plan Rest Result)) (s : CompilerState Rest Result)
        → LeavesPlan (use_cached Rest Result stages id hash now intent context stored s)
    unfolding use_cached LeavesPlan
    use_cached-leaves none s h =
        run_stages-leaves
          (record s { cache = invalidate (stages.content_hash intent context) s.cache }) h
    use_cached-leaves (some p) s h = let wrong : none ≡ some plan = h in cc

    after_lookup-leaves :
        (found : Option CacheRow) (cache : List CacheRow) (s : CompilerState Rest Result)
        → LeavesPlan (after_lookup Rest Result stages id hash now intent context s (found, cache))
    unfolding after_lookup
    after_lookup-leaves none cache s = run_stages-leaves (record s { cache = cache })
    after_lookup-leaves (some r) cache s =
        use_cached-leaves (stages.of_json r.plan_json) (record s { cache = cache })

  -- Once a request has been compiled to a new plan, the same request gives that plan again, unchanged and
  -- with nothing stored, as long as the cache is as it was left and its time is not over, where JSON reads
  -- back the plan that it wrote.
  pub compile-again :
      (id hash id' hash' : String) (now later : ℕ) (input : StructuredIntent Rest)
      (context : CompilerContext) (s t : CompilerState Rest Result) (plan : Plan Rest Result)
      → (compile Rest Result stages id hash now input context s).0 ≡ Compilation.compiled plan false
      → t.cache ≡ (compile Rest Result stages id hash now input context s).1.cache
      → later ≤ now + stages.cache_ttl
      → stages.of_json (stages.to_json plan) ≡ some plan
      → compile Rest Result stages id' hash' later input context t
        ≡ (Compilation.compiled plan true, t)
  unfolding compile after_lookup use_cached LeavesPlan
  compile-again id hash id' hash' now later input context s t plan made kept soon reads =
      let intent = parse stages.lower_trim input in
      let key = stages.content_hash intent context in
      let looked = get_cached key now s.cache in
      let ((before, left), status) =
        after_lookup-leaves id hash now intent context plan looked.0 looked.1 s
          (ap new_plan made) in
      let row : CacheRow = record {
        content_hash = key;
        plan_json = stages.to_json plan;
        created_at = now;
        ttl = stages.cache_ttl;
      } in
      let found : get_cached key later t.cache ≡ (some row, t.cache) =
        ap (get_cached key later) (kept ∙ left)
        ∙ get_cached-set_cached key (stages.to_json plan) stages.cache_ttl now later before soon
        ∙ ap (λ c. (some row, c)) (sym (kept ∙ left)) in
      ap (after_lookup Rest Result stages id' hash' later intent context t) found
      ∙ ap (λ p. use_cached Rest Result stages id' hash' later intent context p t) reads

  -- A new plan is stored under its first status.
  pub compile-stored :
      (id hash : String) (now : ℕ) (input : StructuredIntent Rest) (context : CompilerContext)
      (s : CompilerState Rest Result) (plan : Plan Rest Result)
      → (compile Rest Result stages id hash now input context s).0 ≡ Compilation.compiled plan false
      → status_of plan.plan_id (compile Rest Result stages id hash now input context s).1.plans
        ≡ some (first_status plan.body.requires_approval)
  unfolding compile LeavesPlan
  compile-stored id hash now input context s plan made =
      let intent = parse stages.lower_trim input in
      let looked = get_cached (stages.content_hash intent context) now s.cache in
      (after_lookup-leaves id hash now intent context plan looked.0 looked.1 s (ap new_plan made)).1
