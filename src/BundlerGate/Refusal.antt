-- ===== src/BundlerGate/Refusal.antt =====
-- What the gate refuses whoever signs, and the limits that a relayed value keeps.
use atf.Common.{
  ℕ, ◌/◌, true, false, ◌⊎◌, inl, inr, none, some, String, str_eq, str_eq_iff, ℤ, ◌+ℤ◌, gt, ◌≡◌, ◌≢◌,
  refl, sym, ◌∙◌, ap, Bool-cases, text_or,
}
use mathlib.Core.Option.{some-injective}
use atf.Risk.Doubles.{Doubles}
use atf.Risk.Addresses.{address_of}
use atf.Risk.Calldata.{DecodedTokenOp}
use atf.Risk.Assembly.{token_call}
use atf.OwnerPolicy.{OwnerPolicy, get_owner_policy, total_used, today_start, check_policy}
use atf.OwnerPolicy.Checks.{total_used-eq-sum_of, check_policy_sound}
use atf.BundlerGate.{
  UserOp, StepUp, GateHost, GateWorld, readers, relay_intent, value_wei, policy_params,
  policy_check, assess_bundler_op,
}
use atf.BundlerGate.Soundness.{assess_bundler_op-allowed}

text_or-given : (a b : String) → a ≢ "" → text_or a b ≡ a
text_or-given a b given = elim (Bool-cases (str_eq a "")) [
  | inl empty ↦ absurd (given ((str_eq_iff a "").0 empty))
  | inr other ↦ rw other refl
]

module _ (dbl : Doubles) (host : GateHost) (world : GateWorld dbl) where
  -- The target of the operation, or the party that the token call of its data pays or empowers.
  abbrev pub Concerns : UserOp → ℕ → Type 0
  Concerns op t =
      (address_of op.target ≡ some t)
      ⊎ ((call : DecodedTokenOp) × (token_call (readers dbl host world)
              (relay_intent dbl host world op).params
            ≡ some call)
          × (call.counterparty ≡ t))

  -- An operation that is relayed while the check of the policy answers stands under a policy of its
  -- sender whose limits, of a transaction and of the day, hold the value that the gate reads of it, where
  -- BigInt reads back what toString writes.
  pub assess_bundler_op_within_limits :
      (op : UserOp) (step_up : StepUp)
      → ((v : ℤ) → host.policy.big_int (host.show_int v) ≡ some v)
      → ((v : ℤ) → host.show_int v ≢ "")
      → world.policy_answers ≡ true
      → (assess_bundler_op dbl host world op step_up).allowed ≡ true
      → (policy : OwnerPolicy) × (limit : ℤ) × (used : ℤ) × (daily : ℤ) × (get_owner_policy
            op.sender world.policies
          ≡ some policy)
        × (host.policy.big_int policy.per_tx_limit ≡ some limit)
        × (gt (value_wei dbl host world op) limit ≡ false)
        × (host.policy.read_sum
              (total_used op.sender (today_start (world.now_ms / 1_000)) world.actions)
            ≡ some used)
        × (host.policy.big_int policy.daily_limit ≡ some daily)
        × (gt (used +ℤ value_wei dbl host world op) daily ≡ false)
  unfolding policy_check
  assess_bundler_op_within_limits op step_up exact written answers passed =
      let (session, policy, risk) =
        (assess_bundler_op-allowed dbl host world op step_up).0 passed in
      elim policy [
        | inl threw ↦ let wrong : some _ ≡ none = rw answers at threw in cc
        | inr (c, is, allowed) ↦
            let v : ℤ = value_wei dbl host world op in
            let now : ℕ = world.now_ms / 1_000 in
            let fine : (check_policy host.policy op.sender "wallet_execute"
                  (policy_params dbl host world op) world.policies world.actions now).allowed
                ≡ true =
              ap (λ x. x.allowed) (some-injective _ c (rw answers at is)) ∙ allowed in
            let (
              policy,
              found,
              free,
              fits,
              to,
              (w, limit, used, daily, read, per_tx, sum, day, low, room),
            ) =
              check_policy_sound host.policy op.sender "wallet_execute"
                (policy_params dbl host world op) world.policies world.actions now fine in
            let same : w ≡ v = some-injective w v (
              sym read
              ∙ ap host.policy.big_int (text_or-given (host.show_int v) "0" (written v))
              ∙ exact v) in
            (
              policy,
              limit,
              used,
              daily,
              found,
              per_tx,
              sym (ap (λ x. gt x limit) same) ∙ low,
              ap host.policy.read_sum
                    (total_used-eq-sum_of op.sender (today_start now) world.actions)
                  ∙ sum,
              day,
              sym (ap (λ x. gt (used +ℤ x) daily) same) ∙ room,
            )
      ]
