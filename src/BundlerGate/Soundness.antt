-- ===== src/BundlerGate/Soundness.antt =====
-- agentix/src/runtime/bundler-risk-gate.ts: which operations the gate lets through.
use atf.Common.{
  Bool, true, false, ◌⊎◌, inl, inr, Option, none, some, ◌≡◌, ◌↔◌, refl, sym, ◌∙◌, ap, arith,
  Bool-cases,
}
use mathlib.Core.Option.{some-injective}
use atf.Risk.Types.{RiskDecision}
use atf.Risk.Doubles.{Doubles}
use atf.Risk.Engine.{Assessment}
use atf.OwnerPolicy.{PolicyCheck}
use atf.BundlerGate.{
  UserOp, Reason, GateDecision, StepUp, GateHost, GateWorld, session_refusal, rule_on, rule_on_risk,
  rule_on_policy, rule_on_session, policy_check, risk_of, stepped_up, assess_bundler_op,
}
use atf.BundlerGate.Sessions.{IsServing, session_refusal-none}
use atf.BundlerGate.Attestation.{IsAttested, stepped_up-true}

abbrev pub IsMild : RiskDecision → Type 0
IsMild d = (d ≡ RiskDecision.allow) ⊎ (d ≡ RiskDecision.allow_with_controls)

abbrev pub IsReviewable : RiskDecision → Type 0
IsReviewable d = (d ≡ RiskDecision.review) ⊎ (d ≡ RiskDecision.challenge)

rule_on-allowed :
    (step : Bool) (d : RiskDecision) (a : Assessment)
    → ((rule_on step d a).allowed ≡ true) ↔ (IsMild d ⊎ (IsReviewable d × (step ≡ true)))
unfolding rule_on
rule_on-allowed step RiskDecision.allow a = (λ h. inl (inl refl), λ h. refl)
rule_on-allowed step RiskDecision.allow_with_controls a = (λ h. inl (inr refl), λ h. refl)
rule_on-allowed step RiskDecision.deny a = (λ h. ground (arith, h), λ h. ground (arith, h))
rule_on-allowed step RiskDecision.review a =
    (λ h. inr (inl refl, ground (arith, h)), λ h. ground (arith, h))
rule_on-allowed step RiskDecision.challenge a =
    (λ h. inr (inr refl, ground (arith, h)), λ h. ground (arith, h))

rule_on_risk-allowed :
    (step : Bool) (risk : Option Assessment)
    → ((rule_on_risk step risk).allowed ≡ true) ↔ (
        (a : Assessment) × (risk ≡ some a)
        × (IsMild a.decision ⊎ (IsReviewable a.decision × (step ≡ true))))
unfolding rule_on_risk
rule_on_risk-allowed step none =
    (λ h. let wrong : false ≡ true = h in cc, λ h. let wrong = h.1 in cc)
rule_on_risk-allowed step (some a) = (
  λ h. (a, refl, (rule_on-allowed step a.decision a).0 h),
  λ h.
      ap (λ b. (rule_on step b.decision b).allowed) (some-injective a h.0 h.1)
      ∙ (rule_on-allowed step h.0.decision h.0).1 h.2,
)

rule_on_policy-allowed :
    (check : Option PolicyCheck) (rest : GateDecision)
    → ((rule_on_policy check rest).allowed ≡ true) ↔ (
        ((check ≡ none) ⊎ ((c : PolicyCheck) × (check ≡ some c) × (c.allowed ≡ true)))
        × (rest.allowed ≡ true))
unfolding rule_on_policy
rule_on_policy-allowed none rest = (λ h. (inl refl, h), λ h. h.1)
rule_on_policy-allowed (some c) rest = elim (Bool-cases c.allowed) [
  | inl fine ↦ (λ h. (inr (c, refl, fine), rw fine at h), λ h. rw fine h.1)
  | inr refused ↦ (
    λ h. let wrong : false ≡ true = rw refused at h in cc,
    λ h. elim h.0 [
      | inl threw ↦ cc
      | inr (d, is, fine) ↦
          let wrong : false ≡ true =
            sym refused ∙ ap (λ x. x.allowed) (some-injective c d is) ∙ fine in
          cc
    ],
  )
]

rule_on_session-allowed :
    (refusal : Option Reason) (rest : GateDecision)
    → ((rule_on_session refusal rest).allowed ≡ true) ↔ ((refusal ≡ none) × (rest.allowed ≡ true))
unfolding rule_on_session
rule_on_session-allowed none rest = (λ h. (refl, h), λ h. h.1)
rule_on_session-allowed (some reason) rest =
    (λ h. let wrong : false ≡ true = h in cc, λ h. let wrong = h.0 in cc)

module _ (dbl : Doubles) (host : GateHost) (world : GateWorld dbl) where
  -- The gate lets an operation through exactly when all of this holds. The session that it names, if it
  -- names one, is stored and not revoked, and its expiry is 0, has not passed, or is 10^12 or more, which
  -- the gate never takes as passed. The owner's policy allows the operation, or its check has thrown. The
  -- risk engine allows it, or it wants a review or a challenge and the owner of the sender's wallet has
  -- signed the hash that the caller gives, which need not be the hash of this operation.
  pub assess_bundler_op-allowed :
      (op : UserOp) (step_up : StepUp)
      → ((assess_bundler_op dbl host world op step_up).allowed ≡ true) ↔ (
          IsServing world.now_ms op.session_id world.sessions
          × ((policy_check dbl host world op ≡ none)
              ⊎ ((c : PolicyCheck) × (policy_check dbl host world op ≡ some c)
                  × (c.allowed ≡ true)))
          × ((a : Assessment) × (risk_of dbl host world op ≡ some a)
              × (IsMild a.decision
                  ⊎ (IsReviewable a.decision × IsAttested host op.sender step_up world.wallets))))
  unfolding assess_bundler_op
  assess_bundler_op-allowed op step_up =
      let (serves, served) = session_refusal-none world.now_ms op.session_id world.sessions in
      let (attests, attested) = stepped_up-true dbl host world op step_up in
      let (session, to_session) =
        rule_on_session-allowed (session_refusal world.now_ms op.session_id world.sessions) _ in
      let (policy, to_policy) = rule_on_policy-allowed (policy_check dbl host world op) _ in
      let (risk, to_risk) =
        rule_on_risk-allowed (stepped_up dbl host world op step_up) (risk_of dbl host world op) in
      (
        λ h.
            let (fine, later) = session h in
            let (allowed, last) = policy later in
            let (a, is, verdict) = risk last in
            (
              serves fine,
              allowed,
              (
                a,
                is,
                elim verdict [
                  | inl mild ↦ inl mild
                  | inr (open_to, stepped) ↦ inr (open_to, attests stepped)
                ],
              ),
            ),
        λ (serving, allowed, (a, is, verdict)). to_session (
          served serving,
          to_policy (
            allowed,
            to_risk (
              a,
              is,
              elim verdict [
                | inl mild ↦ inl mild
                | inr (open_to, signed) ↦ inr (open_to, attested signed)
              ],
            ),
          ),
        ),
      )
