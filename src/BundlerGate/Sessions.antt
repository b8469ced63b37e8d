-- ===== src/BundlerGate/Sessions.antt =====
-- agentix/src/runtime/bundler-risk-gate.ts: the sessions that the gate accepts.
use atf.Common.{
  ℕ, ◌*◌, ◌^◌, ◌≤◌, true, false, ◌⊎◌, inl, inr, Option, none, some, String, List, str_eq,
  str_eq_iff, ◌≡◌, ◌↔◌, refl, sym, ◌∙◌, ap, arith, Bool-cases,
}
use mathlib.Core.Option.{some-injective}
use atf.BundlerGate.{SessionRow, Reason, session_with, has_expired, refuse_session, session_refusal}

-- The session has no expiry, or its time has not passed, or its number is too great for seconds.
abbrev pub IsCurrent : ℕ → ℕ → Type 0
IsCurrent expiry now_ms = (expiry ≡ 0) ⊎ ((now_ms ≤ expiry * 1_000) ⊎ (10 ^ 12 ≤ expiry))

abbrev pub IsServing : ℕ → String → List SessionRow → Type 0
IsServing now_ms id sessions =
    (id ≡ "")
    ⊎ ((s : SessionRow) × (session_with id sessions ≡ some s)
        × (s.revoked ≡ false)
        × IsCurrent s.expiry now_ms)

current : (expiry now_ms : ℕ) → has_expired expiry now_ms ≡ false → IsCurrent expiry now_ms
current expiry now_ms h = ground (arith, h)

not_expired : (expiry now_ms : ℕ) → IsCurrent expiry now_ms → has_expired expiry now_ms ≡ false
not_expired expiry now_ms (inl zero_expiry) = ground (arith, zero_expiry)
not_expired expiry now_ms (inr (inl later)) = ground (arith, later)
not_expired expiry now_ms (inr (inr great)) = ground (arith, great)

refuse_session-none :
    (now_ms : ℕ) (found : Option SessionRow)
    → (refuse_session now_ms found ≡ none)
      ↔ ((s : SessionRow) × (found ≡ some s) × (s.revoked ≡ false) × IsCurrent s.expiry now_ms)
unfolding refuse_session
refuse_session-none now_ms none =
    (λ h. let wrong : some Reason.unknown_session ≡ none = h in cc, λ h. let wrong = h.1 in cc)
refuse_session-none now_ms (some s) = (
  λ h. elim (Bool-cases s.revoked) [
    | inl revoked ↦ let wrong : some Reason.revoked_session ≡ none = rw revoked at h in cc
    | inr good ↦ elim (Bool-cases (has_expired s.expiry now_ms)) [
      | inl late ↦ let wrong : some Reason.expired_session ≡ none = rw (good, late) at h in cc
      | inr on_time ↦ (s, refl, good, current s.expiry now_ms on_time)
    ]
  ],
  λ (r, is, good, fresh).
      let same : s ≡ r = some-injective s r is in
      let good' : s.revoked ≡ false = ap (λ x. x.revoked) same ∙ good in
      let on_time : has_expired s.expiry now_ms ≡ false =
        ap (λ x. has_expired x.expiry now_ms) same ∙ not_expired r.expiry now_ms fresh in
      rw (good', on_time) refl,
)

pub session_refusal-none :
    (now_ms : ℕ) (id : String) (sessions : List SessionRow)
    → (session_refusal now_ms id sessions ≡ none) ↔ IsServing now_ms id sessions
unfolding session_refusal
session_refusal-none now_ms id sessions =
    let (serves, passes) = refuse_session-none now_ms (session_with id sessions) in
    elim (Bool-cases (str_eq id "")) [
      | inl absent ↦ (λ h. inl ((str_eq_iff id "").0 absent), λ h. rw absent refl)
      | inr given ↦ (
        λ h. inr (serves (rw given at h)),
        λ h. elim h [
          | inl absent ↦ let wrong : true ≡ false = sym ((str_eq_iff id "").1 absent) ∙ given in cc
          | inr found ↦ rw given (passes found)
        ],
      )
    ]
