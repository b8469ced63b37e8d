-- ===== src/Plans/Lifecycle.antt =====
-- Every operation on a stored plan follows the table of transitions.
use atf.Common.{
  ℕ, true, false, ◌⊎◌, Option, none, some, String, List, [], ◌∷◌, if◌then◌else◌, str_eq, str_eq_iff,
  str_eq_comm, ◌≡◌, refl, sym, ◌∙◌, ap, arith, Option-cases, Bool-cases, inl, inr,
}
use mathlib.Core.Option.{map as map_option, some-injective}
use atf.Plans.{
  PlanStatus, ExecutionPlan, can_transition, same_status, find_plan, deserialize, get,
  update_status, move, approve, reject, execute, complete, fail, archive, archive_plan,
}

-- The calls of `ExecutionPlanGenerator` on a plan that is stored.
pub data PlanCall : Type 0 where
  approves archives : String → PlanCall
  rejects fails : String → String → PlanCall
  executes : String → ℕ → PlanCall
  completes : String → String → ℕ → PlanCall

abbrev pub aim_of : PlanCall → PlanStatus
aim_of (PlanCall.approves id) = PlanStatus.approved
aim_of (PlanCall.archives id) = PlanStatus.archived
aim_of (PlanCall.rejects id reason) = PlanStatus.rejected
aim_of (PlanCall.fails id error) = PlanStatus.failed
aim_of (PlanCall.executes id now) = PlanStatus.executing
aim_of (PlanCall.completes id tx now) = PlanStatus.completed

-- The status after a call: the one before, or the one aimed at, which the table has next to it.
abbrev pub Follows : PlanStatus → Option PlanStatus → Option PlanStatus → Type 0
Follows to before after =
    (after ≡ before)
    ⊎ ((s : PlanStatus) × (before ≡ some s) × (after ≡ some to) × (can_transition s to ≡ true))

archivable :
    (s : PlanStatus)
    → same_status s PlanStatus.completed ≡ true
    → can_transition s PlanStatus.archived ≡ true
archivable s h = ground (arith, h)

module _ {Body : Type 0} where
  abbrev pub status_of : String → List (ExecutionPlan Body) → Option PlanStatus
  status_of id plans = map_option (λ p. p.status) (find_plan id plans)

  -- What a call leaves in the table.
  unfoldable pub call : PlanCall → List (ExecutionPlan Body) → List (ExecutionPlan Body)
  unfolding approve reject execute complete fail archive
  call (PlanCall.approves id) plans = (approve id plans).1
  call (PlanCall.archives id) plans = (archive id plans).1
  call (PlanCall.rejects id reason) plans = (reject id reason plans).1
  call (PlanCall.fails id error) plans = (fail id error plans).1
  call (PlanCall.executes id now) plans = (execute id now plans).1
  call (PlanCall.completes id tx now) plans = (complete id tx now plans).1

  status_of-update_status :
      (k id : String) (status : PlanStatus) (tx reason : Option String)
      (plans : List (ExecutionPlan Body))
      → status_of k (update_status id status tx reason plans)
        ≡ (if str_eq id k then map_option (λ p. status) (find_plan k plans) else status_of k plans)
  unfolding find_plan update_status
  status_of-update_status k id status tx reason [] = ground arith
  status_of-update_status k id status tx reason (q ∷ plans) =
      let more = status_of-update_status k id status tx reason plans in
      elim (Bool-cases (str_eq q.plan_id id)) [
        | inl same ↦
            let here : str_eq q.plan_id k ≡ str_eq id k =
              ap (λ j. str_eq j k) ((str_eq_iff q.plan_id id).0 same) in
            elim (Bool-cases (str_eq id k)) [
              | inl is ↦ rw (same, here ∙ is, is) refl
              | inr apart ↦ rw (same, here ∙ apart, apart) (rw apart at more)
            ]
        | inr other ↦ elim (Bool-cases (str_eq q.plan_id k)) [
          | inl is ↦
              let apart : str_eq id k ≡ false =
                str_eq_comm id k
                ∙ ap (λ j. str_eq j id) (sym ((str_eq_iff q.plan_id k).0 is))
                ∙ other in
              rw (other, is, apart) refl
          | inr off ↦ rw (other, off) more
        ]
      ]

  -- A write of a status that may come next.
  update_status-Follows :
      (k id : String) (status : PlanStatus) (tx reason : Option String) (p : ExecutionPlan Body)
      (plans : List (ExecutionPlan Body))
      → find_plan id plans ≡ some p
      → can_transition p.status status ≡ true
      → Follows status (status_of k plans) (status_of k (update_status id status tx reason plans))
  update_status-Follows k id status tx reason p plans found may =
      let wrote = status_of-update_status k id status tx reason plans in
      elim (Bool-cases (str_eq id k)) [
        | inl same ↦
            let at : find_plan k plans ≡ some p =
              ap (λ j. find_plan j plans) (sym ((str_eq_iff id k).0 same)) ∙ found in
            inr (p.status, ap (map_option (λ q. q.status)) at, rw (same, at) at wrote, may)
        | inr apart ↦ inl (rw apart at wrote)
      ]

  move-Follows :
      (to : PlanStatus) (tx reason : Option String) (note : ExecutionPlan Body → ExecutionPlan Body)
      (id k : String) (plans : List (ExecutionPlan Body))
      → Follows to
          (status_of k plans)
          (status_of k (move to tx reason note id plans (get id plans)).1)
  unfolding move get deserialize
  move-Follows to tx reason note id k plans = elim (Option-cases (find_plan id plans)) [
    | inl absent ↦ rw (absent, get) (inl refl)
    | inr (p, found) ↦ elim (Bool-cases (can_transition p.status to)) [
      | inl may ↦
          rw (found, get) (rw may (update_status-Follows k id to tx reason p plans found may))
      | inr not_next ↦ rw (found, get) (rw not_next (inl refl))
    ]
  ]

  archive-Follows :
      (id k : String) (plans : List (ExecutionPlan Body))
      → Follows PlanStatus.archived (status_of k plans) (status_of k (archive id plans).1)
  unfolding archive archive_plan get deserialize
  archive-Follows id k plans = elim (Option-cases (find_plan id plans)) [
    | inl absent ↦ rw (absent, get) (inl refl)
    | inr (p, found) ↦ elim (Bool-cases (same_status p.status PlanStatus.completed)) [
      | inl may ↦
          rw (found, get)
            (rw may (
              update_status-Follows k id PlanStatus.archived none none p plans found
                (archivable p.status may)))
      | inr not_next ↦ rw (found, get) (rw not_next (inl refl))
    ]
  ]

  -- Each call on a stored plan leaves the status of every plan as it was, or takes it to the status
  -- that the call is named for, where the table of transitions has it next to the one before.
  pub call-Follows :
      (c : PlanCall) (k : String) (plans : List (ExecutionPlan Body))
      → Follows (aim_of c) (status_of k plans) (status_of k (call c plans))
  unfolding call approve reject execute complete fail
  call-Follows (PlanCall.approves id) k plans =
      move-Follows PlanStatus.approved none none (λ p. p) id k plans
  call-Follows (PlanCall.archives id) k plans = archive-Follows id k plans
  call-Follows (PlanCall.rejects id reason) k plans =
      move-Follows PlanStatus.rejected none (some reason) (λ p. p) id k plans
  call-Follows (PlanCall.fails id error) k plans =
      move-Follows PlanStatus.failed none (some error) (λ p. p) id k plans
  call-Follows (PlanCall.executes id now) k plans =
      move-Follows PlanStatus.executing none none (λ p. record p { executed_at = some now }) id k
        plans
  call-Follows (PlanCall.completes id tx now) k plans =
      move-Follows PlanStatus.completed (some tx) none
        (λ p. record p { completed_at = some now; tx_hash = some tx }) id k plans

  move-other :
      (to : PlanStatus) (id k : String) (plans : List (ExecutionPlan Body))
      → str_eq id k ≡ false
      → status_of k (move to none none (λ p. p) id plans (get id plans)).1 ≡ status_of k plans
  unfolding move get deserialize
  move-other to id k plans apart = elim (Option-cases (find_plan id plans)) [
    | inl absent ↦ rw (absent, get) refl
    | inr (p, found) ↦ elim (Bool-cases (can_transition p.status to)) [
      | inl may ↦
          let wrote = status_of-update_status k id to none none plans in
          rw (found, get) (rw may (rw apart at wrote))
      | inr not_next ↦ rw (found, get) (rw not_next refl)
    ]
  ]

  -- An approval of another plan.
  pub approve-other :
      (id k : String) (plans : List (ExecutionPlan Body))
      → str_eq id k ≡ false
      → status_of k (call (PlanCall.approves id) plans) ≡ status_of k plans
  unfolding call approve
  approve-other id k plans apart = move-other PlanStatus.approved id k plans apart

  -- What an operation makes of the status of its own plan.
  pub status_of-move :
      (to : PlanStatus) (tx reason : Option String) (note : ExecutionPlan Body → ExecutionPlan Body)
      (id : String) (plans : List (ExecutionPlan Body)) (s : PlanStatus)
      → status_of id plans ≡ some s
      → status_of id (move to tx reason note id plans (get id plans)).1
        ≡ (if can_transition s to then some to else some s)
  unfolding move get deserialize
  status_of-move to tx reason note id plans s at = elim (Option-cases (find_plan id plans)) [
    | inl absent ↦
        let wrong : none ≡ some s = sym (ap (map_option (λ p. p.status)) absent) ∙ at in cc
    | inr (p, found) ↦
        let is : p.status ≡ s =
          some-injective p.status s (sym (ap (map_option (λ q. q.status)) found) ∙ at) in
        let own : str_eq id id ≡ true = (str_eq_iff id id).1 refl in
        elim (Bool-cases (can_transition p.status to)) [
          | inl may ↦
              let wrote = status_of-update_status id id to tx reason plans in
              let may' : can_transition s to ≡ true =
                ap (λ x. can_transition x to) (sym is) ∙ may in
              rw (found, get) (rw (may, may') (rw (own, found) at wrote))
          | inr not_next ↦
              let not_next' : can_transition s to ≡ false =
                ap (λ x. can_transition x to) (sym is) ∙ not_next in
              rw (found, get) (rw (not_next, not_next') at)
        ]
  ]
