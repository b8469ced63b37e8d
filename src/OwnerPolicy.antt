-- ===== src/OwnerPolicy.antt =====
-- agentix/src/core/owner-policy.ts: the spending policy that the owner of a wallet signs, and the
-- check of an action against it. The arrays of a row are kept as lists, not as their JSON.
pub mod Checks
pub mod Setting
pub mod Signing
pub mod Spending
mod Tests
use Prim.Native.String.{◌++◌ as append, compare}
use Prim.Native.Nat.{Ordering}
use atf.Common.{
  ℕ, ◌+◌, ◌-◌, ◌%◌, Bool, true, false, not, ◌&&◌, ◌||◌, Option, none, some, String, List, [], ◌∷◌,
  ◌++◌, map, keep, any, ltb, if◌then◌else◌, str_eq, text_or, includes, ℤ, ◌+ℤ◌, gt,
}

pub record OwnerPolicy : Type 0 where
  pub id : String
  pub wallet_address : String
  pub daily_limit : String
  pub per_tx_limit : String
  pub allowed_targets : List String
  pub allowed_actions : List String
  pub forbidden_actions : List String
  pub session_expiry : ℕ
  pub auto_create_sessions : Bool
  pub signed_by : String
  pub signature : String
  pub created_at : ℕ
  pub expires_at : ℕ

pub data Category : Type 0 where
  within_policy exceeds_limit forbidden_target forbidden_action no_policy : Category

pub record PolicyCheck : Type 0 where
  pub allowed : Bool
  pub category : Category

-- A row of `agent_actions`; `value` is what the query casts from the metadata, 0 where it is absent.
pub record AgentAction : Type 0 where
  pub wallet_address : String
  pub timestamp : ℕ
  pub success : Bool
  pub value : ℤ

-- A row of `wallets`, as far as it is read here.
pub record Wallet : Type 0 where
  pub wallet_address : String
  pub owner_address : String

-- The fields of `params` that the check reads.
pub record ActionParams : Type 0 where
  pub target : String
  pub recipient : String
  pub delegatee : String
  pub value : String

pub record PolicyParams : Type 0 where
  pub wallet_address : String
  pub daily_limit : String
  pub per_tx_limit : String
  pub allowed_targets : List String
  pub allowed_actions : List String
  pub forbidden_actions : List String
  pub session_expiry : ℕ
  pub auto_create_sessions : Bool
  pub signed_by : String
  pub signature : String

-- `toLowerCase`, `BigInt` of a text and of the sum that the query gives (`none` where either throws),
-- the text of a number, and `ethers.verifyMessage` (`none` where it throws).
pub record PolicyHost : Type 0 where
  pub to_lower_case : String → String
  pub big_int : String → Option ℤ
  pub read_sum : ℤ → Option ℤ
  pub show : ℕ → String
  pub verify_message : String → String → Option String

-- The newest row of the wallet; among rows of one second, the one that was inserted first.
unfoldable pub newer : OwnerPolicy → Option OwnerPolicy → OwnerPolicy
newer p none = p
newer p (some q) = if ltb p.created_at q.created_at then q else p

unfoldable pub get_owner_policy : String → List OwnerPolicy → Option OwnerPolicy
unfolding newer
get_owner_policy wallet [] = none
get_owner_policy wallet (p ∷ rows) =
    let rest = get_owner_policy wallet rows in
    if str_eq p.wallet_address wallet then some (newer p rest) else rest

unfoldable pub delete_owner_policy : String → List OwnerPolicy → List OwnerPolicy
delete_owner_policy wallet rows = keep (λ p. not (str_eq p.wallet_address wallet)) rows

-- `COALESCE(SUM(...), 0)`
unfoldable pub total_used : String → ℕ → List AgentAction → ℤ
total_used wallet since [] = ℤ.pos 0
total_used wallet since (a ∷ actions) =
    let rest = total_used wallet since actions in
    if (str_eq a.wallet_address wallet && ltb since a.timestamp) && a.success
    then a.value +ℤ rest
    else rest

abbrev pub today_start : ℕ → ℕ
today_start now = now - now % 86_400

abbrev pub refuse : Category → PolicyCheck
refuse category = record { allowed = false; category = category }

module _ (host : PolicyHost) where
  -- The daily limit, on what BigInt reads of the sum, of the limit and of the value.
  unfoldable pub daily_verdict : Option ℤ → Option ℤ → Option ℤ → PolicyCheck
  daily_verdict none limit requested = refuse Category.exceeds_limit
  daily_verdict (some used) none requested = refuse Category.exceeds_limit
  daily_verdict (some used) (some limit) none = refuse Category.exceeds_limit
  daily_verdict (some used) (some limit) (some requested) =
      if gt (used +ℤ requested) limit
      then refuse Category.exceeds_limit
      else record { allowed = true; category = Category.within_policy }

  -- The limit of a transaction, and then the rest of the check.
  unfoldable pub per_tx_verdict : Option ℤ → Option ℤ → PolicyCheck → PolicyCheck
  per_tx_verdict none limit rest = refuse Category.exceeds_limit
  per_tx_verdict (some value) none rest = refuse Category.exceeds_limit
  per_tx_verdict (some value) (some limit) rest =
      if gt value limit then refuse Category.exceeds_limit else rest

  unfoldable pub check_limits : String → OwnerPolicy → String → List AgentAction → ℕ → PolicyCheck
  unfolding daily_verdict per_tx_verdict total_used
  check_limits wallet policy value actions now =
      per_tx_verdict (host.big_int value) (host.big_int policy.per_tx_limit) (
        daily_verdict (host.read_sum (total_used wallet (today_start now) actions))
          (host.big_int policy.daily_limit) (host.big_int value))

  unfoldable pub target_allowed : String → List String → Bool
  target_allowed target [] = true
  target_allowed target (t ∷ targets) =
      str_eq target ""
      || any (λ x. str_eq (host.to_lower_case x) (host.to_lower_case target)) (t ∷ targets)

  unfoldable pub action_allowed : String → List String → Bool
  action_allowed action [] = true
  action_allowed action (a ∷ actions) = includes action (a ∷ actions)

  abbrev pub action_target : ActionParams → String
  action_target params = text_or params.target (text_or params.recipient params.delegatee)

  abbrev pub action_value : ActionParams → String
  action_value params = text_or params.value "0"

  unfoldable pub check_against :
      String → OwnerPolicy → String → ActionParams → List AgentAction → ℕ → PolicyCheck
  unfolding check_limits target_allowed action_allowed
  check_against wallet policy action params actions now =
      if includes action policy.forbidden_actions
      then refuse Category.forbidden_action
      else if not (action_allowed action policy.allowed_actions)
      then refuse Category.forbidden_action
      else if not (target_allowed (action_target params) policy.allowed_targets)
      then refuse Category.forbidden_target
      else check_limits wallet policy (action_value params) actions now

  unfoldable pub check_with :
      String → Option OwnerPolicy → String → ActionParams → List AgentAction → ℕ → PolicyCheck
  unfolding check_against
  check_with wallet none action params actions now = refuse Category.no_policy
  check_with wallet (some policy) action params actions now =
      check_against wallet policy action params actions now

  unfoldable pub check_policy :
      String → String → ActionParams → List OwnerPolicy → List AgentAction → ℕ → PolicyCheck
  unfolding get_owner_policy check_with
  check_policy wallet action params policies actions now =
      check_with wallet (get_owner_policy wallet policies) action params actions now
