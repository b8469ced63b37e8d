-- ===== src/Plans/Approval.antt =====
-- A plan that wants approval is not executed before it has been approved.
use atf.Common.{
  ℕ, Bool, true, false, not, ◌&&◌, Option, none, some, String, List, [], ◌∷◌, ltb, str_eq,
  str_eq_iff, any, every, ◌≡◌, refl, sym, ◌∙◌, ap, arith, Bool-cases, inl, inr,
}
use mathlib.Core.Option.{map as map_option}
use atf.Plans.{
  PlanStatus, ExecutionPlan, PlanFacts, can_transition, same_status, find_plan, save, expire_plans,
  generate, can_expire,
}
use atf.Plans.Lifecycle.{PlanCall, Follows, status_of, call, call-Follows, approve-other}

-- What happens to the table: a call, the expiry of plans at a time, or a new plan.
pub data PlanEvent (Body : Type 0) : Type 0 where
  called : PlanCall → PlanEvent Body
  expired : ℕ → PlanEvent Body
  generated : String → String → Body → PlanFacts → ℕ → PlanEvent Body

abbrev pub waits_for_owner : Option PlanStatus → Bool
waits_for_owner none = false
waits_for_owner (some s) =
    any (same_status s)
      (PlanStatus.approval_required ∷ PlanStatus.rejected ∷ PlanStatus.failed ∷ [])

next_waits :
    (s t : PlanStatus)
    → waits_for_owner (some s) ≡ true
    → can_transition s t ≡ true
    → same_status t PlanStatus.approved ≡ false
    → waits_for_owner (some t) ≡ true
next_waits s t h may other = ground (arith, h, may, other)

Follows-waits :
    (to : PlanStatus) (before after : Option PlanStatus)
    → same_status to PlanStatus.approved ≡ false
    → waits_for_owner before ≡ true
    → Follows to before after
    → waits_for_owner after ≡ true
Follows-waits to before after other h (inl same) = ap waits_for_owner same ∙ h
Follows-waits to before after other h (inr (s, was, is, may)) =
    ap waits_for_owner is ∙ next_waits s to (ap waits_for_owner (sym was) ∙ h) may other

module _ {Body : Type 0} where
  unfoldable pub happens : PlanEvent Body → List (ExecutionPlan Body) → List (ExecutionPlan Body)
  unfolding call expire_plans generate
  happens (PlanEvent.called c) plans = call c plans
  happens (PlanEvent.expired now) plans = expire_plans now plans
  happens (PlanEvent.generated id hash body facts now) plans =
      (generate id hash body facts now plans).1

  abbrev pub happen_all :
      List (PlanEvent Body) → List (ExecutionPlan Body) → List (ExecutionPlan Body)
  happen_all [] plans = plans
  happen_all (e ∷ events) plans = happen_all events (happens e plans)

  -- The event neither approves the plan nor generates one of its id.
  abbrev pub leaves_alone : String → PlanEvent Body → Bool
  leaves_alone k (PlanEvent.called (PlanCall.approves id)) = not (str_eq id k)
  leaves_alone k (PlanEvent.called (PlanCall.archives id)) = true
  leaves_alone k (PlanEvent.called (PlanCall.rejects id reason)) = true
  leaves_alone k (PlanEvent.called (PlanCall.fails id error)) = true
  leaves_alone k (PlanEvent.called (PlanCall.executes id now)) = true
  leaves_alone k (PlanEvent.called (PlanCall.completes id tx now)) = true
  leaves_alone k (PlanEvent.expired now) = true
  leaves_alone k (PlanEvent.generated id hash body facts now) = not (str_eq id k)

  expire_plans-waits :
      (k : String) (now : ℕ) (plans : List (ExecutionPlan Body))
      → waits_for_owner (status_of k plans) ≡ true
      → waits_for_owner (status_of k (expire_plans now plans)) ≡ true
  unfolding expire_plans find_plan can_expire
  expire_plans-waits k now [] h = h
  expire_plans-waits k now (p ∷ plans) h =
      let fails : Bool = can_expire p.status && ltb p.expires_at now in
      elim (Bool-cases (str_eq p.plan_id k)) [
        | inl here ↦
            let was : waits_for_owner (some p.status) ≡ true = rw (here, find_plan) at h in
            elim (Bool-cases fails) [
              | inl late ↦ rw late (rw here refl)
              | inr on_time ↦ rw on_time (rw here was)
            ]
        | inr off ↦
            let more = expire_plans-waits k now plans (rw (off, find_plan) at h) in
            elim (Bool-cases fails) [
              | inl late ↦ rw late (rw off more)
              | inr on_time ↦ rw on_time (rw off more)
            ]
      ]

  save_other :
      (k : String) (p : ExecutionPlan Body) (plans : List (ExecutionPlan Body))
      → str_eq p.plan_id k ≡ false
      → find_plan k (save p plans) ≡ find_plan k plans
  unfolding save find_plan
  save_other k p [] apart = rw apart refl
  save_other k p (q ∷ plans) apart =
      let more = save_other k p plans apart in
      elim (Bool-cases (str_eq q.plan_id p.plan_id)) [
        | inl same ↦
            let off : str_eq q.plan_id k ≡ false =
              ap (λ j. str_eq j k) ((str_eq_iff q.plan_id p.plan_id).0 same) ∙ apart in
            rw (same, off) more
        | inr other ↦ elim (Bool-cases (str_eq q.plan_id k)) [
          | inl here ↦ rw (other, here) refl
          | inr off ↦ rw (other, off) more
        ]
      ]

  happens-waits :
      (e : PlanEvent Body) (k : String) (plans : List (ExecutionPlan Body))
      → leaves_alone k e ≡ true
      → waits_for_owner (status_of k plans) ≡ true
      → waits_for_owner (status_of k (happens e plans)) ≡ true
  unfolding happens generate
  happens-waits (PlanEvent.called (PlanCall.approves id)) k plans alone h =
      ap waits_for_owner (approve-other id k plans (ground (arith, alone))) ∙ h
  happens-waits (PlanEvent.called (PlanCall.archives id)) k plans alone h =
      Follows-waits _ _ _ refl h (call-Follows (PlanCall.archives id) k plans)
  happens-waits (PlanEvent.called (PlanCall.rejects id reason)) k plans alone h =
      Follows-waits _ _ _ refl h (call-Follows (PlanCall.rejects id reason) k plans)
  happens-waits (PlanEvent.called (PlanCall.fails id error)) k plans alone h =
      Follows-waits _ _ _ refl h (call-Follows (PlanCall.fails id error) k plans)
  happens-waits (PlanEvent.called (PlanCall.executes id now)) k plans alone h =
      Follows-waits _ _ _ refl h (call-Follows (PlanCall.executes id now) k plans)
  happens-waits (PlanEvent.called (PlanCall.completes id tx now)) k plans alone h =
      Follows-waits _ _ _ refl h (call-Follows (PlanCall.completes id tx now) k plans)
  happens-waits (PlanEvent.expired now) k plans alone h = expire_plans-waits k now plans h
  happens-waits (PlanEvent.generated id hash body facts now) k plans alone h =
      ap (λ p. waits_for_owner (map_option (λ q. q.status) p))
        (save_other k (generate id hash body facts now plans).0 plans (ground (arith, alone)))
      ∙ h

  -- However calls, expiries and new plans follow each other, a stored plan that waits for its owner's
  -- approval, or is rejected or failed, stays stored and in one of these three states as long as nobody
  -- approves it and no new plan takes its id. So it is not executed.
  pub happen_all-waits :
      (events : List (PlanEvent Body)) (k : String) (plans : List (ExecutionPlan Body))
      → every (leaves_alone k) events ≡ true
      → waits_for_owner (status_of k plans) ≡ true
      → waits_for_owner (status_of k (happen_all events plans)) ≡ true
  happen_all-waits [] k plans alone h = h
  happen_all-waits (e ∷ events) k plans alone h =
      happen_all-waits events k (happens e plans) (ground (arith, alone))
        (happens-waits e k plans (ground (arith, alone)) h)
