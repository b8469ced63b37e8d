-- ===== src/OwnerPolicy/Tests.antt =====
-- Runs of the owner's policy, where a signature is its signer and texts are compared as they stand.
use atf.Common.{
  ◌≡◌, refl, true, false, Option, none, some, String, List, [], ◌∷◌, if◌then◌else◌, str_eq,
  includes, ℤ,
}
use atf.OwnerPolicy.{
  OwnerPolicy, Category, Wallet, ActionParams, PolicyParams, PolicyHost, get_owner_policy,
  check_policy, refuse, action_target, action_value,
}
use atf.OwnerPolicy.Setting.{SetResult, new_policy, set_owner_policy}
use atf.OwnerPolicy.Checks.{IsWithinLimits, IsListedAction, IsListedTarget, check_policy_sound}
use atf.OwnerPolicy.Signing.{
  IsSignedByOwner, set_owner_policy_sound, check_policy-default_forbidden,
}

abbrev read_wei : String → Option ℤ
read_wei text =
    if str_eq text "5"
    then some (ℤ.pos 5)
    else if str_eq text "8"
    then some (ℤ.pos 8)
    else if str_eq text "0"
    then some (ℤ.pos 0)
    else none

abbrev plain_host : PolicyHost
plain_host = record {
  to_lower_case = λ text. text;
  big_int = read_wei;
  read_sum = some;
  show = λ n. "86400";
  verify_message = λ message signature. some signature;
}

abbrev given : PolicyParams
given = record {
  wallet_address = "0xa";
  daily_limit = "8";
  per_tx_limit = "5";
  allowed_targets = "0xshop" ∷ [];
  allowed_actions = [];
  forbidden_actions = "erc20.approve" ∷ [];
  session_expiry = 86_400;
  auto_create_sessions = true;
  signed_by = "0xowner";
  signature = "0xowner";
}

abbrev wallets : List Wallet
wallets = record { wallet_address = "0xa"; owner_address = "0xowner" } ∷ []

abbrev policy : OwnerPolicy
policy = new_policy given "policy_1" 5_000_000

abbrev pay : ActionParams
pay = record { target = ""; recipient = "0xshop"; delegatee = ""; value = "5" }

is_allowed :
    (check_policy plain_host "0xa" "wallet_execute" pay (policy ∷ []) [] 172_900).allowed ≡ true
unfolding check_policy new_policy
is_allowed = refl

check_policy_sound_example :
    (found : OwnerPolicy) × (get_owner_policy "0xa" (policy ∷ []) ≡ some found)
    × (includes "wallet_execute" found.forbidden_actions ≡ false)
    × IsListedAction plain_host "wallet_execute" found.allowed_actions
    × IsListedTarget plain_host (action_target plain_host pay) found.allowed_targets
    × IsWithinLimits plain_host "0xa" found (action_value plain_host pay) [] 172_900
check_policy_sound_example =
    check_policy_sound plain_host "0xa" "wallet_execute" pay (policy ∷ []) [] 172_900 is_allowed

is_set :
    set_owner_policy plain_host given "policy_1" 5_000_000 wallets []
    ≡ (SetResult.returned (some policy), policy ∷ [])
unfolding set_owner_policy new_policy
is_set = refl

set_owner_policy_sound_example :
    IsSignedByOwner plain_host given wallets
    × ((SetResult.returned (some policy) ≡ SetResult.returned (some policy))
        × (get_owner_policy "0xa" (policy ∷ [])
            ≡ (if str_eq "0xa" "0xa" then some policy else get_owner_policy "0xa" [])))
set_owner_policy_sound_example =
    set_owner_policy_sound plain_host given "policy_1" 5_000_000 wallets [] (policy ∷ [])
      (some policy) "0xa" is_set

check_policy-default_forbidden_example :
    check_policy plain_host "0xa" "setAdmin" pay (policy ∷ []) [] 172_900
    ≡ refuse Category.forbidden_action
check_policy-default_forbidden_example =
    check_policy-default_forbidden plain_host given "policy_1" 5_000_000 wallets [] (policy ∷ [])
      (some policy) "setAdmin" pay [] 172_900 is_set refl
