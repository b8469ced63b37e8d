-- ===== src/OwnerPolicy/Signing.antt =====
-- Only the owner's signature sets a policy, and what it sets.
use atf.Common.{
  ℕ, true, false, ◌||◌, Option, none, some, String, List, [], ◌∷◌, ◌++◌, if◌then◌else◌, str_eq,
  includes, ◌≡◌, refl, sym, ◌∙◌, ap, str_eq_iff, str_eq_comm, arith, Bool-cases, inl, inr,
}
use atf.OwnerPolicy.{
  OwnerPolicy, Category, AgentAction, Wallet, ActionParams, PolicyParams, PolicyHost,
  get_owner_policy, delete_owner_policy, check_policy, check_with, check_against, refuse, newer,
}
use atf.OwnerPolicy.Setting.{
  default_forbidden, find_owner, SetRefusal, SetResult, new_policy, store_policy,
  build_policy_message, set_signed, set_owned, set_owner_policy,
}

get_owner_policy-deleted :
    (wallet k : String) (rows : List OwnerPolicy)
    → get_owner_policy k (delete_owner_policy wallet rows)
      ≡ (if str_eq wallet k then none else get_owner_policy k rows)
unfolding get_owner_policy delete_owner_policy
get_owner_policy-deleted wallet k [] = ground arith
get_owner_policy-deleted wallet k (p ∷ rows) =
    let more = get_owner_policy-deleted wallet k rows in
    elim (Bool-cases (str_eq p.wallet_address wallet)) [
      | inl gone ↦
          let same : str_eq p.wallet_address k ≡ str_eq wallet k =
            ap (λ w. str_eq w k) ((str_eq_iff p.wallet_address wallet).0 gone) in
          elim (Bool-cases (str_eq wallet k)) [
            | inl here ↦ rw (gone, here) (rw here at more)
            | inr off ↦ rw (gone, off, same ∙ off) (rw off at more)
          ]
      | inr stays ↦ elim (Bool-cases (str_eq p.wallet_address k)) [
        | inl here ↦
            let apart : str_eq wallet k ≡ false =
              str_eq_comm wallet k
              ∙ ap (λ w. str_eq w wallet) (sym ((str_eq_iff p.wallet_address k).0 here))
              ∙ stays in
            rw (stays, apart, here) (ap (λ r. some (newer p r)) (rw apart at more))
        | inr off ↦ rw (stays, off) more
      ]
    ]

get_owner_policy-append :
    (k : String) (rows : List OwnerPolicy) (p : OwnerPolicy)
    → get_owner_policy k rows ≡ none
    → str_eq p.wallet_address k ≡ true
    → get_owner_policy k (rows ++ p ∷ []) ≡ some p
unfolding get_owner_policy newer
get_owner_policy-append k [] p h e = rw e refl
get_owner_policy-append k (r ∷ rows) p h e = ground (arith, get_owner_policy-append k rows p)

get_owner_policy-other :
    (k : String) (rows : List OwnerPolicy) (p : OwnerPolicy)
    → str_eq p.wallet_address k ≡ false
    → get_owner_policy k (rows ++ p ∷ []) ≡ get_owner_policy k rows
unfolding get_owner_policy newer
get_owner_policy-other k [] p e = rw e refl
get_owner_policy-other k (r ∷ rows) p e = ground (arith, get_owner_policy-other k rows p e)

includes-append :
    (s : String) (xs ys : List String) → includes s xs ≡ true → includes s (xs ++ ys) ≡ true
includes-append s [] ys h = let wrong : false ≡ true = h in cc
includes-append s (x ∷ xs) ys h = ground (arith, includes-append s xs ys)

store_policy-get :
    (p : OwnerPolicy) (rows : List OwnerPolicy) (k : String)
    → get_owner_policy k (store_policy p rows).1
      ≡ (if str_eq p.wallet_address k then some p else get_owner_policy k rows)
unfolding store_policy
store_policy-get p rows k =
    let left = delete_owner_policy p.wallet_address rows in
    let kept = get_owner_policy-deleted p.wallet_address k rows in
    elim (Bool-cases (str_eq p.wallet_address k)) [
      | inl here ↦ rw here (get_owner_policy-append k left p (rw here at kept) here)
      | inr off ↦ rw off (get_owner_policy-other k left p off ∙ (rw off at kept))
    ]

store_policy_result :
    (p : OwnerPolicy) (rows : List OwnerPolicy)
    → (store_policy p rows).0 ≡ SetResult.returned (some p)
unfolding store_policy
store_policy_result p rows =
    let own : str_eq p.wallet_address p.wallet_address ≡ true =
      (str_eq_iff p.wallet_address p.wallet_address).1 refl in
    ap SetResult.returned (store_policy-get p rows p.wallet_address ∙ rw own refl)

module _ (host : PolicyHost) where
  -- The message of the policy is signed by the registered owner of the wallet.
  abbrev pub IsSignedByOwner : PolicyParams → List Wallet → Type 0
  IsSignedByOwner params wallets =
      (owner : String) × (signer : String) × (find_owner params.wallet_address wallets ≡ some owner)
      × (host.verify_message (build_policy_message host params) params.signature ≡ some signer)
      × (host.to_lower_case signer ≡ host.to_lower_case owner)

  abbrev Sets :
      PolicyParams → String → ℕ → List OwnerPolicy → SetResult → List OwnerPolicy → String → Type 0
  Sets params id now_ms rows result rows' k =
      (result ≡ SetResult.returned (some (new_policy params id now_ms)))
      × (get_owner_policy k rows' ≡ (
          if str_eq params.wallet_address k
          then some (new_policy params id now_ms)
          else get_owner_policy k rows))

  set_signed-returned :
      (params : PolicyParams) (owner id : String) (now_ms : ℕ) (rows rows' : List OwnerPolicy)
      (recovered : Option String) (policy : Option OwnerPolicy) (k : String)
      → set_signed host params owner id now_ms rows recovered ≡ (SetResult.returned policy, rows')
      → (signer : String) × (recovered ≡ some signer)
        × (host.to_lower_case signer ≡ host.to_lower_case owner)
        × Sets params id now_ms rows (SetResult.returned policy) rows' k
  unfolding set_signed new_policy
  set_signed-returned params owner id now_ms rows rows' none policy k h =
      let wrong : SetResult.threw SetRefusal.invalid_signature ≡ SetResult.returned policy =
        ap (λ r. r.0) h in
      cc
  set_signed-returned params owner id now_ms rows rows' (some signer) policy k h =
      elim (Bool-cases (str_eq (host.to_lower_case signer) (host.to_lower_case owner))) [
        | inl same ↦
            let stored : store_policy (new_policy params id now_ms) rows
                ≡ (SetResult.returned policy, rows') =
              rw same at h in
            (
              signer,
              refl,
              (str_eq_iff _ _).0 same,
              (
                sym (ap (λ r. r.0) stored) ∙ store_policy_result (new_policy params id now_ms) rows,
                ap (λ r. get_owner_policy k r.1) (sym stored)
                    ∙ store_policy-get (new_policy params id now_ms) rows k,
              ),
            )
        | inr other ↦
            let thrown : (SetResult.threw SetRefusal.wrong_signer, rows)
                ≡ (SetResult.returned policy, rows') =
              rw other at h in
            let wrong : SetResult.threw SetRefusal.wrong_signer ≡ SetResult.returned policy =
              ap (λ r. r.0) thrown in
            cc
      ]

  set_owned-returned :
      (params : PolicyParams) (id : String) (now_ms : ℕ) (rows rows' : List OwnerPolicy)
      (owner : Option String) (policy : Option OwnerPolicy) (k : String)
      → set_owned host params id now_ms rows owner ≡ (SetResult.returned policy, rows')
      → (who : String) × (owner ≡ some who)
        × (set_signed host params who id now_ms rows
              (host.verify_message (build_policy_message host params) params.signature)
            ≡ (SetResult.returned policy, rows'))
  unfolding set_owned
  set_owned-returned params id now_ms rows rows' none policy k h =
      let wrong : SetResult.threw SetRefusal.unknown_wallet ≡ SetResult.returned policy =
        ap (λ r. r.0) h in
      cc
  set_owned-returned params id now_ms rows rows' (some owner) policy k h =
      elim (Bool-cases (str_eq owner "")) [
        | inl empty ↦
            let thrown : (SetResult.threw SetRefusal.unknown_wallet, rows)
                ≡ (SetResult.returned policy, rows') =
              rw empty at h in
            let wrong : SetResult.threw SetRefusal.unknown_wallet ≡ SetResult.returned policy =
              ap (λ r. r.0) thrown in
            cc
        | inr named ↦
            elim (Bool-cases (str_eq params.signature "" || str_eq params.signature "0x")) [
              | inl blank ↦
                  let thrown : (SetResult.threw SetRefusal.signature_required, rows)
                      ≡ (SetResult.returned policy, rows') =
                    rw (named, blank) at h in
                  let wrong : SetResult.threw SetRefusal.signature_required
                      ≡ SetResult.returned policy =
                    ap (λ r. r.0) thrown in
                  cc
              | inr present ↦ (owner, refl, rw (named, present) at h)
            ]
      ]

  -- A call of setOwnerPolicy that returns was signed by the registered owner of the wallet over the
  -- message of the policy; it returns the policy that it stored, which is what the wallet then has,
  -- with the default forbidden actions before those given, and no other wallet's policy changes.
  pub set_owner_policy_sound :
      (params : PolicyParams) (id : String) (now_ms : ℕ) (wallets : List Wallet)
      (rows rows' : List OwnerPolicy) (policy : Option OwnerPolicy) (k : String)
      → set_owner_policy host params id now_ms wallets rows ≡ (SetResult.returned policy, rows')
      → IsSignedByOwner params wallets
        × Sets params id now_ms rows (SetResult.returned policy) rows' k
  unfolding set_owner_policy
  set_owner_policy_sound params id now_ms wallets rows rows' policy k h =
      let (owner, found, signed) =
        set_owned-returned params id now_ms rows rows' (find_owner params.wallet_address wallets)
          policy k h in
      let (signer, recovered, same, stored) =
        set_signed-returned params owner id now_ms rows rows'
          (host.verify_message (build_policy_message host params) params.signature) policy k
          signed in
      ((owner, signer, found, recovered, same), stored)

  -- Once a call of setOwnerPolicy has returned, each of the default forbidden actions of the wallet is
  -- refused as forbidden, whatever the policy allows.
  pub check_policy-default_forbidden :
      (params : PolicyParams) (id : String) (now_ms : ℕ) (wallets : List Wallet)
      (rows rows' : List OwnerPolicy) (policy : Option OwnerPolicy) (action : String)
      (given : ActionParams) (actions : List AgentAction) (now : ℕ)
      → set_owner_policy host params id now_ms wallets rows ≡ (SetResult.returned policy, rows')
      → includes action default_forbidden ≡ true
      → check_policy host params.wallet_address action given rows' actions now
        ≡ refuse Category.forbidden_action
  unfolding check_policy check_with check_against new_policy
  check_policy-default_forbidden params id now_ms wallets rows rows' policy action given actions now
        h f =
      let set =
        set_owner_policy_sound params id now_ms wallets rows rows' policy params.wallet_address h in
      let own : str_eq params.wallet_address params.wallet_address ≡ true =
        (str_eq_iff params.wallet_address params.wallet_address).1 refl in
      let has : get_owner_policy params.wallet_address rows' ≡ some (new_policy params id now_ms) =
        rw own at set.1.1 in
      let banned : includes action (default_forbidden ++ params.forbidden_actions) ≡ true =
        includes-append action default_forbidden params.forbidden_actions f in
      rw (has, check_policy) (rw banned refl)
