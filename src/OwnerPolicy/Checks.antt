-- ===== src/OwnerPolicy/Checks.antt =====
-- What an action that `checkPolicy` allows satisfies.
use atf.Common.{
  ℕ, Bool, true, false, ◌&&◌, Option, none, some, String, List, [], ◌∷◌, keep, any, ltb, str_eq,
  str_eq_iff, includes, ◌≡◌, refl, sym, ap, ◌∙◌, ℤ, ◌+ℤ◌, gt, arith, Bool-cases, Option-cases, ◌⊎◌,
  inl, inr,
}
use mathlib.Core.List.{Mem, mem-cons_self, mem-cons_of_mem}
use mathlib.Core.Option.{some-injective}
use atf.OwnerPolicy.{
  OwnerPolicy, PolicyCheck, AgentAction, ActionParams, PolicyHost, get_owner_policy, total_used,
  today_start, daily_verdict, per_tx_verdict, check_limits, target_allowed, action_allowed,
  action_target, action_value, check_against, check_with, check_policy,
}

-- A successful action of the wallet after the second.
abbrev pub counts : String → ℕ → AgentAction → Bool
counts wallet since a = (str_eq a.wallet_address wallet && ltb since a.timestamp) && a.success

abbrev pub sum_of : List AgentAction → ℤ
sum_of [] = ℤ.pos 0
sum_of (a ∷ actions) = a.value +ℤ sum_of actions

pub total_used-eq-sum_of :
    (wallet : String) (since : ℕ) (actions : List AgentAction)
    → total_used wallet since actions ≡ sum_of (keep (counts wallet since) actions)
unfolding total_used
total_used-eq-sum_of wallet since [] = refl
total_used-eq-sum_of wallet since (a ∷ actions) =
    let later = total_used-eq-sum_of wallet since actions in
    elim (Bool-cases (counts wallet since a)) [
      | inl counted ↦ rw counted (ap (λ z. a.value +ℤ z) later)
      | inr left_out ↦ rw left_out later
    ]

module _ (host : PolicyHost) where
  -- Nothing is listed, or there is no target, or the target is listed but for the case of letters.
  abbrev pub IsListedTarget : String → List String → Type 0
  IsListedTarget target targets =
      (targets ≡ [])
      ⊎ ((target ≡ "")
          ⊎ ((t : String) × Mem t targets × (host.to_lower_case t ≡ host.to_lower_case target)))

  any-same :
      (target : String) (targets : List String)
      → any (λ x. str_eq (host.to_lower_case x) (host.to_lower_case target)) targets ≡ true
      → (t : String) × Mem t targets × (host.to_lower_case t ≡ host.to_lower_case target)
  any-same target [] h = let wrong : false ≡ true = h in cc
  any-same target (t ∷ targets) h =
      elim (Bool-cases (str_eq (host.to_lower_case t) (host.to_lower_case target))) [
        | inl same ↦ (t, mem-cons_self, (str_eq_iff _ _).0 same)
        | inr other ↦
            let (x, among, same) = any-same target targets (rw other at h) in
            (x, mem-cons_of_mem t among, same)
      ]

  target_allowed-IsListedTarget :
      (target : String) (targets : List String)
      → target_allowed host target targets ≡ true
      → IsListedTarget target targets
  unfolding target_allowed
  target_allowed-IsListedTarget target [] h = inl refl
  target_allowed-IsListedTarget target (t ∷ targets) h = elim (Bool-cases (str_eq target "")) [
    | inl absent ↦ inr (inl ((str_eq_iff target "").0 absent))
    | inr present ↦ inr (inr (any-same target (t ∷ targets) (rw present at h)))
  ]

  abbrev pub IsListedAction : String → List String → Type 0
  IsListedAction action actions = (actions ≡ []) ⊎ (includes action actions ≡ true)

  action_allowed-IsListedAction :
      (action : String) (actions : List String)
      → action_allowed host action actions ≡ true
      → IsListedAction action actions
  unfolding action_allowed
  action_allowed-IsListedAction action [] h = inl refl
  action_allowed-IsListedAction action (a ∷ actions) h = inr h

  -- BigInt reads the value and both limits; the value is within the limit of a transaction, and with
  -- the sum of the successful actions since the day's first second it is within the daily limit.
  abbrev pub IsWithinLimits : String → OwnerPolicy → String → List AgentAction → ℕ → Type 0
  IsWithinLimits wallet policy value actions now =
      (v : ℤ) × (limit : ℤ) × (used : ℤ) × (daily : ℤ) × (host.big_int value ≡ some v)
      × (host.big_int policy.per_tx_limit ≡ some limit)
      × (host.read_sum (sum_of (keep (counts wallet (today_start now)) actions)) ≡ some used)
      × (host.big_int policy.daily_limit ≡ some daily)
      × (gt v limit ≡ false)
      × (gt (used +ℤ v) daily ≡ false)

  daily_verdict-allowed :
      (used limit requested : Option ℤ)
      → (daily_verdict host used limit requested).allowed ≡ true
      → (u : ℤ) × (l : ℤ) × (r : ℤ) × (used ≡ some u)
        × (limit ≡ some l)
        × (requested ≡ some r)
        × (gt (u +ℤ r) l ≡ false)
  unfolding daily_verdict
  daily_verdict-allowed none limit requested h = let wrong : false ≡ true = h in cc
  daily_verdict-allowed (some used) none requested h = let wrong : false ≡ true = h in cc
  daily_verdict-allowed (some used) (some limit) none h = let wrong : false ≡ true = h in cc
  daily_verdict-allowed (some used) (some limit) (some requested) h =
      (used, limit, requested, refl, refl, refl, ground (arith, h))

  per_tx_verdict-allowed :
      (value limit : Option ℤ) (rest : PolicyCheck)
      → (per_tx_verdict host value limit rest).allowed ≡ true
      → (v : ℤ) × (l : ℤ) × (value ≡ some v)
        × (limit ≡ some l)
        × (gt v l ≡ false)
        × (rest.allowed ≡ true)
  unfolding per_tx_verdict
  per_tx_verdict-allowed none limit rest h = let wrong : false ≡ true = h in cc
  per_tx_verdict-allowed (some value) none rest h = let wrong : false ≡ true = h in cc
  per_tx_verdict-allowed (some value) (some limit) rest h =
      (value, limit, refl, refl, ground (arith, h), ground (arith, h))

  check_limits-allowed :
      (wallet : String) (policy : OwnerPolicy) (value : String) (actions : List AgentAction)
      (now : ℕ)
      → (check_limits host wallet policy value actions now).allowed ≡ true
      → IsWithinLimits wallet policy value actions now
  unfolding check_limits
  check_limits-allowed wallet policy value actions now h =
      let (v, limit, read, per_tx, low, rest) = per_tx_verdict-allowed _ _ _ h in
      let (used, daily, r, sum, day, again, room) = daily_verdict-allowed _ _ _ rest in
      (
        v,
        limit,
        used,
        daily,
        read,
        per_tx,
        ap host.read_sum (sym (total_used-eq-sum_of wallet (today_start now) actions)) ∙ sum,
        day,
        low,
        ap (λ x. gt (used +ℤ x) daily) (some-injective v r (sym read ∙ again)) ∙ room,
      )

  check_against-allowed :
      (wallet : String) (policy : OwnerPolicy) (action : String) (params : ActionParams)
      (actions : List AgentAction) (now : ℕ)
      → (check_against host wallet policy action params actions now).allowed ≡ true
      → (includes action policy.forbidden_actions ≡ false)
        × (action_allowed host action policy.allowed_actions ≡ true)
        × (target_allowed host (action_target host params) policy.allowed_targets ≡ true)
        × ((check_limits host wallet policy (action_value host params) actions now).allowed ≡ true)
  unfolding check_against
  check_against-allowed wallet policy action params actions now h =
      (ground (arith, h), ground (arith, h), ground (arith, h), ground (arith, h))

  -- An action that checkPolicy allows stands under a policy of the wallet that does not forbid it. The
  -- policy lists no actions or lists it, and lists no targets, or the action has none, or the target is
  -- listed but for the case of letters. The value is within the limit of a transaction, and within the
  -- daily limit together with the sum of the wallet's successful actions after the first second of the
  -- day, as the database gives it.
  pub check_policy_sound :
      (wallet action : String) (params : ActionParams) (policies : List OwnerPolicy)
      (actions : List AgentAction) (now : ℕ)
      → (check_policy host wallet action params policies actions now).allowed ≡ true
      → (policy : OwnerPolicy) × (get_owner_policy wallet policies ≡ some policy)
        × (includes action policy.forbidden_actions ≡ false)
        × IsListedAction action policy.allowed_actions
        × IsListedTarget (action_target host params) policy.allowed_targets
        × IsWithinLimits wallet policy (action_value host params) actions now
  unfolding check_policy check_with
  check_policy_sound wallet action params policies actions now h =
      elim (Option-cases (get_owner_policy wallet policies)) [
        | inl none_set ↦ let refused : false ≡ true = rw (none_set, check_policy) at h in cc
        | inr (policy, e) ↦
            let passed : (check_against host wallet policy action params actions now).allowed
                ≡ true =
              rw (e, check_policy) at h in
            let (free, fits, to, limits) =
              check_against-allowed wallet policy action params actions now passed in
            (
              policy,
              e,
              free,
              action_allowed-IsListedAction action policy.allowed_actions fits,
              target_allowed-IsListedTarget (action_target host params) policy.allowed_targets to,
              check_limits-allowed wallet policy (action_value host params) actions now limits,
            )
      ]
