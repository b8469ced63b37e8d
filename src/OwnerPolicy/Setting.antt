-- ===== src/OwnerPolicy/Setting.antt =====
-- agentix/src/core/owner-policy.ts: `setOwnerPolicy`, which the owner of the wallet signs.
use Prim.Native.String.{◌++◌ as append, compare}
use Prim.Native.Nat.{Ordering}
use atf.Common.{
  ℕ, ◌/◌, ◌||◌, Option, none, some, String, List, [], ◌∷◌, ◌++◌, if◌then◌else◌, str_eq,
}
use atf.OwnerPolicy.{
  OwnerPolicy, Wallet, PolicyParams, PolicyHost, get_owner_policy, delete_owner_policy,
}

abbrev pub default_forbidden : List String
default_forbidden =
    "changeOwner" ∷ "upgradeImplementation" ∷ "withdrawDeposit" ∷ "selfdestruct" ∷ "setAdmin" ∷ []

-- `[...texts].sort()`, by code points.
unfoldable pub insert_text : String → List String → List String
insert_text t [] = t ∷ []
insert_text t (x ∷ texts) = elim (compare x t) [
  | Ordering.gt ↦ t ∷ x ∷ texts
  | _ ↦ x ∷ insert_text t texts
]

unfoldable pub sort_texts : List String → List String
unfolding insert_text
sort_texts [] = []
sort_texts (t ∷ texts) = insert_text t (sort_texts texts)

-- `texts.join(separator)`
unfoldable pub join : String → List String → String
join separator [] = ""
join separator (t ∷ []) = t
join separator (t ∷ u ∷ texts) = append t (append separator (join separator (u ∷ texts)))

unfoldable pub find_owner : String → List Wallet → Option String
find_owner wallet [] = none
find_owner wallet (w ∷ wallets) =
    if str_eq w.wallet_address wallet then some w.owner_address else find_owner wallet wallets

pub data SetRefusal : Type 0 where
  unknown_wallet signature_required invalid_signature wrong_signer : SetRefusal

-- What is thrown, or the policy that is returned.
pub data SetResult : Type 0 where
  threw : SetRefusal → SetResult
  returned : Option OwnerPolicy → SetResult

unfoldable pub new_policy : PolicyParams → String → ℕ → OwnerPolicy
new_policy params id now_ms = record {
  id = id;
  wallet_address = params.wallet_address;
  daily_limit = params.daily_limit;
  per_tx_limit = params.per_tx_limit;
  allowed_targets = params.allowed_targets;
  allowed_actions = params.allowed_actions;
  forbidden_actions = default_forbidden ++ params.forbidden_actions;
  session_expiry = params.session_expiry;
  auto_create_sessions = params.auto_create_sessions;
  signed_by = params.signed_by;
  signature = params.signature;
  created_at = now_ms / 1_000;
  expires_at = 0;
}

unfoldable pub store_policy : OwnerPolicy → List OwnerPolicy → SetResult × List OwnerPolicy
unfolding delete_owner_policy get_owner_policy
store_policy p rows =
    let rows' = delete_owner_policy p.wallet_address rows ++ p ∷ [] in
    (SetResult.returned (get_owner_policy p.wallet_address rows'), rows')

module _ (host : PolicyHost) where
  unfoldable pub build_policy_message : PolicyParams → String
  unfolding sort_texts join
  build_policy_message params = join "\n" (
      "AgentIX Owner Policy"
      ∷ append "wallet: " params.wallet_address
      ∷ append "dailyLimit: " params.daily_limit
      ∷ append "perTxLimit: " params.per_tx_limit
      ∷ append "allowedTargets: " (join "," (sort_texts params.allowed_targets))
      ∷ append "allowedActions: " (join "," (sort_texts params.allowed_actions))
      ∷ append "forbiddenActions: " (join "," (sort_texts params.forbidden_actions))
      ∷ append "sessionExpiry: " (host.show params.session_expiry)
      ∷ [])

  -- From the recovered signer on.
  unfoldable pub set_signed :
      PolicyParams
      → String
      → String
      → ℕ
      → List OwnerPolicy
      → Option String
      → SetResult × List OwnerPolicy
  unfolding store_policy new_policy
  set_signed params owner id now_ms rows none = (SetResult.threw SetRefusal.invalid_signature, rows)
  set_signed params owner id now_ms rows (some recovered) =
      if str_eq (host.to_lower_case recovered) (host.to_lower_case owner)
      then store_policy (new_policy params id now_ms) rows
      else (SetResult.threw SetRefusal.wrong_signer, rows)

  -- From the owner's address on.
  unfoldable pub set_owned :
      PolicyParams → String → ℕ → List OwnerPolicy → Option String → SetResult × List OwnerPolicy
  unfolding build_policy_message set_signed
  set_owned params id now_ms rows none = (SetResult.threw SetRefusal.unknown_wallet, rows)
  set_owned params id now_ms rows (some owner) =
      if str_eq owner ""
      then (SetResult.threw SetRefusal.unknown_wallet, rows)
      else if str_eq params.signature "" || str_eq params.signature "0x"
      then (SetResult.threw SetRefusal.signature_required, rows)
      else set_signed params owner id now_ms rows
          (host.verify_message (build_policy_message params) params.signature)

  unfoldable pub set_owner_policy :
      PolicyParams → String → ℕ → List Wallet → List OwnerPolicy → SetResult × List OwnerPolicy
  unfolding find_owner set_owned
  set_owner_policy params id now_ms wallets rows =
      set_owned params id now_ms rows (find_owner params.wallet_address wallets)
