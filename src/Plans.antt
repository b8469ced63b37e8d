-- ===== src/Plans.antt =====
-- agentix/packages/compiler: the life cycle of a plan. types/execution-plan.ts has the transitions,
-- pipeline/stage-10-plan-generator.ts the operations, and storage/plan-store.ts the table. What a plan
-- carries besides its status (intent, policy, graph, simulation, risk) is the parameter `Body`.
pub mod Lifecycle
pub mod Approval
mod Tests
use atf.Common.{
  ℕ, ◌+◌, Bool, true, false, ◌&&◌, ◌||◌, Option, none, some, String, List, [], ◌∷◌, ◌++◌, ltb, ◌==◌,
  if◌then◌else◌, str_eq, any, keep, not,
}

pub data PlanStatus : Type 0 where
  draft compiled simulated approval_required approved : PlanStatus
  rejected executing completed failed archived : PlanStatus

abbrev rank : PlanStatus → ℕ
rank PlanStatus.draft = 0
rank PlanStatus.compiled = 1
rank PlanStatus.simulated = 2
rank PlanStatus.approval_required = 3
rank PlanStatus.approved = 4
rank PlanStatus.rejected = 5
rank PlanStatus.executing = 6
rank PlanStatus.completed = 7
rank PlanStatus.failed = 8
rank PlanStatus.archived = 9

abbrev pub same_status : PlanStatus → PlanStatus → Bool
same_status a b = rank a == rank b

abbrev pub plan_lifecycle : List (PlanStatus × List PlanStatus)
plan_lifecycle =
    (PlanStatus.draft, PlanStatus.compiled ∷ [])
    ∷ (PlanStatus.compiled, PlanStatus.simulated ∷ PlanStatus.rejected ∷ [])
    ∷ (
      PlanStatus.simulated,
      PlanStatus.approval_required ∷ PlanStatus.approved ∷ PlanStatus.rejected ∷ [],
    )
    ∷ (PlanStatus.approval_required, PlanStatus.approved ∷ PlanStatus.rejected ∷ [])
    ∷ (PlanStatus.approved, PlanStatus.executing ∷ PlanStatus.rejected ∷ [])
    ∷ (PlanStatus.executing, PlanStatus.completed ∷ PlanStatus.failed ∷ [])
    ∷ (PlanStatus.failed, PlanStatus.approved ∷ PlanStatus.rejected ∷ [])
    ∷ (PlanStatus.completed, PlanStatus.archived ∷ [])
    ∷ (PlanStatus.rejected, [])
    ∷ (PlanStatus.archived, [])
    ∷ []

abbrev find_rule : PlanStatus → List (PlanStatus × List PlanStatus) → List PlanStatus
find_rule s [] = []
find_rule s ((t, to) ∷ rules) = if same_status t s then to else find_rule s rules

abbrev pub can_transition : PlanStatus → PlanStatus → Bool
can_transition from to = any (same_status to) (find_rule from plan_lifecycle)

pub data SignatureKind : Type 0 where
  owner session delegation : SignatureKind

pub record RequiredSignature : Type 0 where
  pub kind : SignatureKind
  pub address : String
  pub signed : Bool

pub record ExecutionPlan (Body : Type 0) : Type 0 where
  pub plan_id : String
  pub content_hash : String
  pub body : Body
  pub required_signatures : List RequiredSignature
  pub status : PlanStatus
  pub created_at : ℕ
  pub expires_at : ℕ
  pub executed_at : Option ℕ
  pub completed_at : Option ℕ
  pub tx_hash : Option String
  pub rejection_reason : Option String

-- What `generate` reads of the intent, the risk and the policy.
pub record PlanFacts : Type 0 where
  pub requires_approval : Bool
  pub wallet_address : String
  pub has_session : Bool
  -- `policy.effectiveLimits?.expiry`, 0 where it is absent
  pub expiry : ℕ

unfoldable pub determine_required_signatures : PlanFacts → List RequiredSignature
determine_required_signatures facts =
    (if facts.requires_approval
      then record { kind = SignatureKind.owner; address = facts.wallet_address; signed = false }
        ∷ []
      else [])
    ++ (if facts.has_session
        then record { kind = SignatureKind.session; address = facts.wallet_address; signed = false }
          ∷ []
        else [])

-- `o ?? old` for a column that an update may leave alone
abbrev override : Option String → Option String → Option String
override none old = old
override (some new) old = some new

unfoldable pub can_expire : PlanStatus → Bool
can_expire status = any (same_status status) (
    PlanStatus.draft ∷ PlanStatus.compiled ∷ PlanStatus.simulated ∷ PlanStatus.approved
    ∷ PlanStatus.approval_required ∷ [])

module _ {Body : Type 0} where
  -- The row that is read back: the signatures and the two times are not among the columns written.
  unfoldable pub deserialize : ExecutionPlan Body → ExecutionPlan Body
  deserialize p = record p {
    required_signatures = [];
    executed_at = none;
    completed_at = none;
    rejection_reason = none;
  }

  unfoldable pub find_plan : String → List (ExecutionPlan Body) → Option (ExecutionPlan Body)
  find_plan id [] = none
  find_plan id (p ∷ plans) = if str_eq p.plan_id id then some p else find_plan id plans

  abbrev read : Option (ExecutionPlan Body) → Option (ExecutionPlan Body)
  read none = none
  read (some p) = some (deserialize p)

  unfoldable pub get : String → List (ExecutionPlan Body) → Option (ExecutionPlan Body)
  unfolding find_plan deserialize
  get id plans = read (find_plan id plans)

  -- `INSERT OR REPLACE`
  unfoldable pub save : ExecutionPlan Body → List (ExecutionPlan Body) → List (ExecutionPlan Body)
  save p plans = keep (λ q. not (str_eq q.plan_id p.plan_id)) plans ++ p ∷ []

  unfoldable pub update_status :
      String
      → PlanStatus
      → Option String
      → Option String
      → List (ExecutionPlan Body)
      → List (ExecutionPlan Body)
  update_status id status tx reason [] = []
  update_status id status tx reason (p ∷ plans) =
      (if str_eq p.plan_id id
        then record p {
          status = status;
          tx_hash = override tx p.tx_hash;
          rejection_reason = override reason p.rejection_reason;
        }
        else p)
      ∷ update_status id status tx reason plans

  unfoldable pub expire_plans : ℕ → List (ExecutionPlan Body) → List (ExecutionPlan Body)
  unfolding can_expire
  expire_plans now [] = []
  expire_plans now (p ∷ plans) =
      (if can_expire p.status && ltb p.expires_at now
        then record p { status = PlanStatus.failed }
        else p)
      ∷ expire_plans now plans

  unfoldable pub generate :
      String
      → String
      → Body
      → PlanFacts
      → ℕ
      → List (ExecutionPlan Body)
      → ExecutionPlan Body × List (ExecutionPlan Body)
  unfolding save determine_required_signatures
  generate id hash body facts now plans =
      let plan : ExecutionPlan Body = record {
        plan_id = id;
        content_hash = hash;
        body = body;
        required_signatures = determine_required_signatures facts;
        status =
            if facts.requires_approval then PlanStatus.approval_required else PlanStatus.approved;
        created_at = now;
        expires_at = if facts.expiry == 0 then now + 3_600 else facts.expiry;
        executed_at = none;
        completed_at = none;
        tx_hash = none;
        rejection_reason = none;
      } in
      (plan, save plan plans)

  -- The shape of the operations: the plan that was read, if its status may become the new one.
  unfoldable pub move :
      PlanStatus
      → Option String
      → Option String
      → (ExecutionPlan Body → ExecutionPlan Body)
      → String
      → List (ExecutionPlan Body)
      → Option (ExecutionPlan Body)
      → Option (ExecutionPlan Body) × List (ExecutionPlan Body)
  unfolding update_status
  move to tx reason note id plans none = (none, plans)
  move to tx reason note id plans (some p) =
      if can_transition p.status to
      then (some (note (record p { status = to })), update_status id to tx reason plans)
      else (some p, plans)

  unfoldable pub approve :
      String → List (ExecutionPlan Body) → Option (ExecutionPlan Body) × List (ExecutionPlan Body)
  unfolding move get
  approve id plans = move PlanStatus.approved none none (λ p. p) id plans (get id plans)

  unfoldable pub reject :
      String
      → String
      → List (ExecutionPlan Body)
      → Option (ExecutionPlan Body) × List (ExecutionPlan Body)
  unfolding move get
  reject id reason plans =
      move PlanStatus.rejected none (some reason) (λ p. p) id plans (get id plans)

  unfoldable pub execute :
      String
      → ℕ
      → List (ExecutionPlan Body)
      → Option (ExecutionPlan Body) × List (ExecutionPlan Body)
  unfolding move get
  execute id now plans =
      move PlanStatus.executing none none (λ p. record p { executed_at = some now }) id plans
        (get id plans)

  unfoldable pub complete :
      String
      → String
      → ℕ
      → List (ExecutionPlan Body)
      → Option (ExecutionPlan Body) × List (ExecutionPlan Body)
  unfolding move get
  complete id tx now plans =
      move PlanStatus.completed (some tx) none
        (λ p. record p { completed_at = some now; tx_hash = some tx }) id plans (get id plans)

  unfoldable pub fail :
      String
      → String
      → List (ExecutionPlan Body)
      → Option (ExecutionPlan Body) × List (ExecutionPlan Body)
  unfolding move get
  fail id error plans = move PlanStatus.failed none (some error) (λ p. p) id plans (get id plans)

  -- The source of `archive` asks for the status itself.
  unfoldable pub archive_plan :
      String
      → List (ExecutionPlan Body)
      → Option (ExecutionPlan Body)
      → Option (ExecutionPlan Body) × List (ExecutionPlan Body)
  unfolding update_status
  archive_plan id plans none = (none, plans)
  archive_plan id plans (some p) =
      if same_status p.status PlanStatus.completed
      then (
        some (record p { status = PlanStatus.archived }),
        update_status id PlanStatus.archived none none plans,
      )
      else (some p, plans)

  unfoldable pub archive :
      String → List (ExecutionPlan Body) → Option (ExecutionPlan Body) × List (ExecutionPlan Body)
  unfolding archive_plan get
  archive id plans = archive_plan id plans (get id plans)
