-- ===== src/Plans/Tests.antt =====
-- Runs of a plan's life cycle.
use atf.Common.{ℕ, ◌≡◌, refl, true, List, [], ◌∷◌}
use atf.Plans.{PlanStatus, ExecutionPlan, PlanFacts, generate, find_plan}
use atf.Plans.Lifecycle.{PlanCall, Follows, status_of, call, call-Follows}
use atf.Plans.Approval.{PlanEvent, waits_for_owner, happen_all, happen_all-waits}

abbrev facts : PlanFacts
facts = record { requires_approval = true; wallet_address = "0xa"; has_session = true; expiry = 0 }

abbrev one_plan : List (ExecutionPlan ℕ)
one_plan = (generate "p1" "h1" 7 facts 100 []).1

call-Follows_example :
    Follows PlanStatus.approved
      (status_of "p1" one_plan)
      (status_of "p1" (call (PlanCall.approves "p1") one_plan))
call-Follows_example = call-Follows (PlanCall.approves "p1") "p1" one_plan

abbrev events : List (PlanEvent ℕ)
events =
    PlanEvent.called (PlanCall.executes "p1" 101)
    ∷ PlanEvent.generated "p2" "h2" 8 facts 102
    ∷ PlanEvent.called (PlanCall.approves "p2")
    ∷ PlanEvent.expired 9_000
    ∷ PlanEvent.called (PlanCall.executes "p1" 9_001)
    ∷ []

one_plan-waits : waits_for_owner (status_of "p1" one_plan) ≡ true
unfolding generate find_plan
one_plan-waits = refl

happen_all-waits_example : waits_for_owner (status_of "p1" (happen_all events one_plan)) ≡ true
happen_all-waits_example = happen_all-waits events "p1" one_plan refl one_plan-waits
