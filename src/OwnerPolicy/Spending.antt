-- ===== src/OwnerPolicy/Spending.antt =====
-- What a wallet spends in a day, if each action is recorded before the next is checked.
use atf.Common.{
  ℕ, ◌+◌, ◌≤◌, Bool, true, false, ◌&&◌, some, String, List, [], ◌∷◌, every, ltb, ◌==◌,
  if◌then◌else◌, str_eq, ◌≡◌, refl, sym, ◌∙◌, ap, ℤ, ◌+ℤ◌, gt, pos-add, gt-le, arith, Bool-cases,
  ◌⊎◌, inl, inr, and_left, and_right,
}
use mathlib.Core.Option.{some-injective}
use atf.OwnerPolicy.{
  OwnerPolicy, AgentAction, ActionParams, PolicyHost, get_owner_policy, total_used, today_start,
  action_value, check_policy,
}
use atf.OwnerPolicy.Checks.{total_used-eq-sum_of, check_policy_sound}

-- The row that is written of an action.
abbrev pub logged : String → ℕ → Bool → ℕ → AgentAction
logged wallet now success value = record {
  wallet_address = wallet;
  timestamp = now;
  success = success;
  value = ℤ.pos value;
}

module _ (host : PolicyHost) (wallet : String) (policies : List OwnerPolicy) (day : ℕ) where
  -- The actions of a day: one that was allowed and succeeds with its value, one that fails, or one of
  -- another wallet.
  pub data Spends : List AgentAction → List AgentAction → Type 0 where
    done : (actions : List AgentAction) → Spends actions actions
    allowed :
        (actions later : List AgentAction) (action : String) (params : ActionParams) (value now : ℕ)
        → today_start now ≡ day
        → host.big_int (action_value host params) ≡ some (ℤ.pos value)
        → (check_policy host wallet action params policies actions now).allowed ≡ true
        → Spends (logged wallet now true value ∷ actions) later
        → Spends actions later
    failed :
        (actions later : List AgentAction) (value now : ℕ)
        → Spends (logged wallet now false value ∷ actions) later
        → Spends actions later
    elsewhere :
        (actions later : List AgentAction) (other : String) (success : Bool) (value now : ℕ)
        → str_eq other wallet ≡ false
        → Spends (logged other now success value ∷ actions) later
        → Spends actions later

-- The greatest number that JavaScript counts without a gap.
abbrev pub max_safe_integer : ℕ
max_safe_integer = 9_007_199_254_740_991

abbrev amount : ℤ → ℕ
amount (ℤ.pos n) = n
amount (ℤ.negsuc n) = 0

-- What successful actions of the wallet have spent, of those whose time passes the test.
abbrev spent_where : (ℕ → Bool) → String → List AgentAction → ℕ
spent_where in_time wallet [] = 0
spent_where in_time wallet (a ∷ actions) =
    let rest = spent_where in_time wallet actions in
    if (str_eq a.wallet_address wallet && in_time a.timestamp) && a.success
    then amount a.value + rest
    else rest

-- On the day that starts at a second, and in that second.
abbrev pub spent_on : String → ℕ → List AgentAction → ℕ
spent_on wallet day actions = spent_where (λ time. today_start time == day) wallet actions

abbrev pub spent_at : String → ℕ → List AgentAction → ℕ
spent_at wallet day actions = spent_where (λ time. time == day) wallet actions

-- What the code adds up is within the limit, and with the first second it is all that the day has spent.
abbrev pub IsSpent : String → ℕ → List AgentAction → ℕ → Type 0
IsSpent wallet day actions limit =
    (used : ℕ) × (total_used wallet day actions ≡ ℤ.pos used)
    × (used ≤ limit)
    × (spent_on wallet day actions ≡ used + spent_at wallet day actions)

abbrev pub are_earlier : ℕ → List AgentAction → Bool
are_earlier day actions = every (λ a. ltb a.timestamp day) actions

module _ (wallet : String) (day limit : ℕ) where
  -- A row that does not count: a failure, or one of another wallet.
  pub IsSpent-uncounted :
      (r : AgentAction) (actions : List AgentAction)
      → ((r.success ≡ false) ⊎ (str_eq r.wallet_address wallet ≡ false))
      → IsSpent wallet day actions limit
      → IsSpent wallet day (r ∷ actions) limit
  unfolding total_used
  IsSpent-uncounted r actions (inl fails) (used, total, low, all) =
      (used, ground (arith, fails, total), low, ground (arith, fails, all))
  IsSpent-uncounted r actions (inr other) (used, total, low, all) =
      (used, rw other total, low, rw other all)

  -- A row of the day whose value has room.
  pub IsSpent-counted :
      (r : AgentAction) (actions : List AgentAction) (value used : ℕ)
      → r.value ≡ ℤ.pos value
      → today_start r.timestamp ≡ day
      → total_used wallet day actions ≡ ℤ.pos used
      → used + value ≤ limit
      → spent_on wallet day actions ≡ used + spent_at wallet day actions
      → IsSpent wallet day (r ∷ actions) limit
  unfolding total_used
  IsSpent-counted r actions value used is today total low all =
      let of_day : (today_start r.timestamp == day) ≡ true = ground (arith, today) in
      let worth : amount r.value ≡ value = ap amount is in
      elim (Bool-cases (str_eq r.wallet_address wallet)) [
        | inr other ↦ (used, rw other total, omega (arith, low), rw other all)
        | inl own ↦ elim (Bool-cases r.success) [
          | inr fails ↦
              IsSpent-uncounted r actions (inl fails) (used, total, omega (arith, low), all)
          | inl succeeds ↦ elim (Bool-cases (ltb day r.timestamp)) [
            | inr before ↦
                let first : (r.timestamp == day) ≡ true = ground (arith, before, today) in
                (
                  used,
                  rw (own, before) total,
                  omega (arith, low),
                  rw (own, of_day, succeeds, first, worth) (omega (arith, all)),
                )
            | inl after ↦
                let later : (r.timestamp == day) ≡ false = ground (arith, after) in
                (
                  value + used,
                  rw (own, after, succeeds, is, total) (pos-add value used),
                  omega (arith, low),
                  rw (own, of_day, succeeds, later, worth) (omega (arith, all)),
                )
          ]
        ]
      ]

  -- A log of earlier times has spent nothing on the day.
  are_earlier-IsSpent :
      (actions : List AgentAction)
      → are_earlier day actions ≡ true
      → (total_used wallet day actions ≡ ℤ.pos 0)
        × (spent_on wallet day actions ≡ 0)
        × (spent_at wallet day actions ≡ 0)
  unfolding total_used
  are_earlier-IsSpent [] h = (refl, refl, refl)
  are_earlier-IsSpent (a ∷ actions) h =
      let (total, on, at) = are_earlier-IsSpent actions (and_right (ltb a.timestamp day) _ h) in
      let early = and_left (ltb a.timestamp day) _ h in
      let before : ltb day a.timestamp ≡ false = ground (arith, early) in
      let other_day : (today_start a.timestamp == day) ≡ false = ground (arith, early) in
      let other : (a.timestamp == day) ≡ false = ground (arith, early) in
      elim (Bool-cases (str_eq a.wallet_address wallet)) [
        | inr apart ↦ (rw apart total, rw apart on, rw apart at)
        | inl own ↦ (rw (own, before) total, rw (own, other_day) on, rw (own, other) at)
      ]

  pub IsSpent-start :
      (actions : List AgentAction)
      → are_earlier day actions ≡ true
      → IsSpent wallet day actions limit
  IsSpent-start actions h =
      let (total, on, at) = are_earlier-IsSpent actions h in
      (0, total, omega arith, omega (arith, on, at))

module _ (host : PolicyHost) (wallet : String) (policies : List OwnerPolicy) (day : ℕ)
    (policy : OwnerPolicy) (limit : ℕ) where
  -- What an allowed action leaves room for.
  pub allowed_room :
      (actions : List AgentAction) (action : String) (params : ActionParams) (value now used : ℕ)
      → ((n : ℕ) → n ≤ max_safe_integer → host.read_sum (ℤ.pos n) ≡ some (ℤ.pos n))
      → limit ≤ max_safe_integer
      → get_owner_policy wallet policies ≡ some policy
      → host.big_int policy.daily_limit ≡ some (ℤ.pos limit)
      → today_start now ≡ day
      → host.big_int (action_value host params) ≡ some (ℤ.pos value)
      → (check_policy host wallet action params policies actions now).allowed ≡ true
      → total_used wallet day actions ≡ ℤ.pos used
      → used ≤ limit
      → used + value ≤ limit
  allowed_room actions action params value now used exact safe set daily today read ok total low =
      let (found, at, free, fits, to, (v, l, u, d, r, per_tx, summed, cap, small, room)) =
        check_policy_sound host wallet action params policies actions now ok in
      let sum = ap host.read_sum (total_used-eq-sum_of wallet (today_start now) actions) ∙ summed in
      let v_is : v ≡ ℤ.pos value = some-injective _ _ (sym r ∙ read) in
      let same : found ≡ policy = some-injective _ _ (sym at ∙ set) in
      let d_is : d ≡ ℤ.pos limit =
        some-injective _ _ (sym cap ∙ ap (λ p. host.big_int p.daily_limit) same ∙ daily) in
      let u_is : u ≡ ℤ.pos used = some-injective _ _ (
        sym sum
        ∙ ap (λ t. host.read_sum (total_used wallet t actions)) today
        ∙ ap host.read_sum total
        ∙ exact used (omega (arith, low, safe))) in
      gt-le (used + value) limit (
        sym (ap (λ x. gt x (ℤ.pos limit)) (pos-add used value))
        ∙ sym (ap (λ x. gt (x +ℤ ℤ.pos value) (ℤ.pos limit)) u_is)
        ∙ sym (ap (λ x. gt (u +ℤ x) (ℤ.pos limit)) v_is)
        ∙ sym (ap (gt (u +ℤ v)) d_is)
        ∙ room)
