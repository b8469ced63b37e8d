-- ===== src/Vouchers/Signing.antt =====
-- agentix/src/core/x402-voucher.ts: the agent's side, `signVoucher` and `signVoucherBatch`, against
-- the check of the server.
use atf.Common.{
  ℕ, ◌+◌, ◌/◌, ◌≤◌, ◌≡◌, refl, sym, false, Option, none, some, String, List, [], ◌∷◌, ltb, ◌==◌,
  if◌then◌else◌, str_eq_iff, arith,
}
use mathlib.Core.Option.{some-injective}
use mathlib.Core.Path.{subst}
use atf.Vouchers.{
  PaymentVoucher, SessionKeyInfo, Store, Host, Check, is_nonce_used, verify_session_key,
  check_limit, check_found, check_signer, check_amount, check_nonce, verify_voucher,
}

-- What is paid for. The random nonce is given.
pub record Payment : Type 0 where
  pub pay_to : String
  pub amount : String
  pub resource : String
  pub nonce : String

abbrev pub default_voucher_expiry : ℕ
default_voucher_expiry = 300

-- `params.expirySeconds || DEFAULT_VOUCHER_EXPIRY`
abbrev pub seconds_or_default : Option ℕ → ℕ
seconds_or_default none = default_voucher_expiry
seconds_or_default (some n) = if n == 0 then default_voucher_expiry else n

-- `sign` is `signTypedData` of the wallet that holds the session key, which reads every field but
-- the signature; `address` is that wallet's.
module _ (host : Host) (sign : ℕ → PaymentVoucher → String) (wallet address : String) (chain_id : ℕ)
    (expiry_seconds : Option ℕ) (now_ms : ℕ) where
  unfoldable pub unsigned : Payment → PaymentVoucher
  unsigned p = record {
    wallet = wallet;
    pay_to = p.pay_to;
    amount = p.amount;
    nonce = p.nonce;
    expiry = now_ms / 1000 + seconds_or_default expiry_seconds;
    resource = p.resource;
    session_key = address;
    signature = "";
  }

  -- `none` is the error of BigInt.
  unfoldable pub sign_voucher : Payment → Option PaymentVoucher
  unfolding unsigned
  sign_voucher p = elim (host.big_int p.amount) [
    | none ↦ none
    | some amount ↦ some (record (unsigned p) { signature = sign chain_id (unsigned p) })
  ]

  -- `Promise.all`: one error is the error of all.
  unfoldable pub sign_voucher_batch : List Payment → Option (List PaymentVoucher)
  unfolding sign_voucher
  sign_voucher_batch [] = some []
  sign_voucher_batch (p ∷ payments) =
      let rest = sign_voucher_batch payments in
      elim (sign_voucher p) [
        | none ↦ none
        | some v ↦ elim rest [ none ↦ none | some vs ↦ some (v ∷ vs) ]
      ]

check_session_valid :
    (host : Host) (v : PaymentVoucher) (amount now_ms : ℕ) (info : SessionKeyInfo)
    (p : Option SessionKeyInfo × Store)
    → p.0 ≡ some info
    → check_limit host info amount ≡ Check.valid
    → (check_found host amount p).0 ≡ Check.valid
unfolding check_found
check_session_valid host v amount now_ms info (none, s) e h = cc
check_session_valid host v amount now_ms info (some other, s) e h =
    subst (λ i. check_limit host i amount ≡ Check.valid) (sym (some-injective other info e)) h

-- What is enough for a voucher to be let through.
verify_voucher_complete :
    (host : Host) (v : PaymentVoucher) (chain_id now_ms amount : ℕ) (s : Store) (signer : String)
    (info : SessionKeyInfo)
    → now_ms / 1000 ≤ v.expiry
    → is_nonce_used v.nonce s ≡ (false, s)
    → host.big_int v.amount ≡ some amount
    → host.verify_typed_data chain_id v ≡ some signer
    → host.to_lower_case signer ≡ host.to_lower_case v.session_key
    → (verify_session_key host v.wallet v.session_key now_ms s).0 ≡ some info
    → check_limit host info amount ≡ Check.valid
    → (verify_voucher host v chain_id now_ms s).0 ≡ Check.valid
unfolding verify_voucher check_nonce check_amount check_signer
verify_voucher_complete host v chain_id now_ms amount s signer info early fresh read recovered same
      found covered =
    let on_time : ltb v.expiry (now_ms / 1000) ≡ false = ground (arith, early) in
    rw on_time (
      rw (fresh, check_nonce)
        (rw (read, check_amount)
          (rw (recovered, check_signer)
            (rw ((str_eq_iff (host.to_lower_case signer) (host.to_lower_case v.session_key)).1 same)
              (check_session_valid host v amount now_ms info _ found covered)))))

-- If a wallet's signature is recovered to its address, whatever it signs, then a voucher that the
-- agent signs is let through by the server up to its expiry, as long as its nonce is unused there
-- and a session of the wallet for that address covers the amount.
pub verify_voucher-sign_voucher :
    (host : Host) (sign : ℕ → PaymentVoucher → String) (wallet address : String) (chain_id : ℕ)
    (expiry_seconds : Option ℕ) (now_ms later : ℕ) (s : Store) (p : Payment) (amount : ℕ)
    (info : SessionKeyInfo)
    → ((v : PaymentVoucher)
        → host.verify_typed_data chain_id (record v { signature = sign chain_id v }) ≡ some address)
    → host.big_int p.amount ≡ some amount
    → later / 1000 ≤ now_ms / 1000 + seconds_or_default expiry_seconds
    → is_nonce_used p.nonce s ≡ (false, s)
    → (verify_session_key host wallet address later s).0 ≡ some info
    → check_limit host info amount ≡ Check.valid
    → (v : PaymentVoucher) × (sign_voucher host sign wallet address chain_id expiry_seconds now_ms p
        ≡ some v)
      × ((verify_voucher host v chain_id later s).0 ≡ Check.valid)
unfolding sign_voucher unsigned
verify_voucher-sign_voucher host sign wallet address chain_id expiry_seconds now_ms later s p amount
      info recovers read early fresh found covered =
    let plain = unsigned host sign wallet address chain_id expiry_seconds now_ms p in
    let signed : PaymentVoucher = record plain { signature = sign chain_id plain } in
    (
      signed,
      rw (read, sign_voucher) refl,
      verify_voucher_complete host signed chain_id later amount s address info early fresh read
          (recovers plain) refl found covered,
    )
