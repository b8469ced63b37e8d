-- ===== src/Vouchers.antt =====
-- agentix/src/core/x402-voucher.ts: payment vouchers, from their check on the server to their
-- acceptance. The tables of the database are lists of rows, the newest first.
pub mod Sessions
pub mod Checks
pub mod Settlement
pub mod Grouping
pub mod Accounting
pub mod Interleaving
pub mod Replay
pub mod Signing
mod Tests
use atf.Common.{
  ℕ, ◌+◌, ◌-◌, ◌*◌, ◌/◌, Bool, true, false, not, ◌&&◌, Option, none, some, String, List, [], ◌∷◌,
  ◌++◌, map, ltb, if◌then◌else◌, str_eq, includes, any,
}

pub record PaymentVoucher : Type 0 where
  pub wallet : String
  pub pay_to : String
  pub amount : String
  pub nonce : String
  pub expiry : ℕ
  pub resource : String
  pub session_key : String
  pub signature : String

pub record SessionKeyInfo : Type 0 where
  pub wallet_address : String
  pub session_key : String
  pub session_id : String
  pub expiry : ℕ
  pub verified_at : ℕ
  pub daily_spend_limit : String
  pub daily_spend_used : String

-- A row of `sessions`, as far as it is read here.
pub record Session : Type 0 where
  pub session_id : String
  pub wallet_address : String
  pub session_key : String
  pub revoked : Bool
  pub expiry : ℕ
  pub daily_spend_limit : String

pub data Status : Type 0 where
  pending settled : Status

-- A row of `x402_vouchers`.
pub record Row : Type 0 where
  pub voucher : PaymentVoucher
  pub status : Status
  pub settlement_tx : String
  pub settled_at : Option ℕ
  pub created_at : ℕ

pub record Store : Type 0 where
  -- `usedNonces`, in memory
  pub used_nonces : List String
  -- `x402_used_nonces`
  pub nonce_table : List String
  pub voucher_table : List Row
  -- `sessionKeyCache`, newest first
  pub session_key_cache : List (String × SessionKeyInfo)
  pub sessions : List Session

-- What the code calls: `toLowerCase`, `BigInt` (`none` where it throws; no amount is negative), the
-- joined key of the cache, and `verifyTypedData` under the domain of a chain (`none` where it
-- throws).
pub record Host : Type 0 where
  pub to_lower_case : String → String
  pub big_int : String → Option ℕ
  pub cache_key : String → String → String
  pub verify_typed_data : ℕ → PaymentVoucher → Option String

pub data Refusal : Type 0 where
  expired nonce_used invalid_signature wrong_signer no_session over_limit : Refusal

-- `thrown` is an exception that leaves the function.
pub data Check : Type 0 where
  valid : Check
  refused : Refusal → Check
  thrown : Check

abbrev pub session_key_cache_ttl : ℕ
session_key_cache_ttl = 60_000

abbrev pub add_to_set : String → List String → List String
add_to_set x xs = if includes x xs then xs else x ∷ xs

unfoldable pub mark_nonce_used : String → Store → Store
mark_nonce_used nonce s = record s {
  used_nonces = add_to_set nonce s.used_nonces;
  nonce_table = add_to_set nonce s.nonce_table;
}

unfoldable pub is_nonce_used : String → Store → Bool × Store
is_nonce_used nonce s =
    if includes nonce s.used_nonces
    then (true, s)
    else if includes nonce s.nonce_table
    then (true, record s { used_nonces = nonce ∷ s.used_nonces })
    else (false, s)

unfoldable pub find_cached : String → List (String × SessionKeyInfo) → Option SessionKeyInfo
find_cached key [] = none
find_cached key ((k, info) ∷ cache) = if str_eq key k then some info else find_cached key cache

-- The first row that the query of `verifySessionKey` gives.
unfoldable pub find_session : String → String → ℕ → List Session → Option Session
find_session wallet key now [] = none
find_session wallet key now (r ∷ rows) =
    if ((str_eq r.wallet_address wallet && str_eq r.session_key key) && not r.revoked)
      && ltb now r.expiry
    then some r
    else find_session wallet key now rows

module _ (host : Host) where
  -- From the database on. Its last part, on the chain, ends in the refusal whatever it finds.
  unfoldable pub look_up_session :
      String → String → String → ℕ → Store → Option SessionKeyInfo × Store
  unfolding find_session
  look_up_session key wallet session_key now_ms s =
      elim (find_session wallet session_key (now_ms / 1000) s.sessions) [
        | none ↦ (none, s)
        | some r ↦
            let info : SessionKeyInfo = record {
              wallet_address = wallet;
              session_key = session_key;
              session_id = r.session_id;
              expiry = r.expiry;
              verified_at = now_ms;
              daily_spend_limit = r.daily_spend_limit;
              daily_spend_used = "0";
            } in
            (some info, record s { session_key_cache = (key, info) ∷ s.session_key_cache })
      ]

  -- A cached entry answers for a minute.
  unfoldable pub verify_session_key : String → String → ℕ → Store → Option SessionKeyInfo × Store
  unfolding look_up_session find_cached
  verify_session_key wallet session_key now_ms s =
      let key = host.cache_key (host.to_lower_case wallet) (host.to_lower_case session_key) in
      elim (find_cached key s.session_key_cache) [
        | none ↦ look_up_session key wallet session_key now_ms s
        | some cached ↦
            if ltb (now_ms - cached.verified_at) session_key_cache_ttl
            then (some cached, s)
            else look_up_session key wallet session_key now_ms s
      ]

  -- `BigInt(text || "0")`
  abbrev pub big_int_or_zero : String → Option ℕ
  big_int_or_zero text = if str_eq text "" then some 0 else host.big_int text

  unfoldable pub check_limit : SessionKeyInfo → ℕ → Check
  check_limit info amount = elim (big_int_or_zero info.daily_spend_used) [
    | none ↦ Check.thrown
    | some used ↦ elim (big_int_or_zero info.daily_spend_limit) [
      | none ↦ Check.thrown
      | some limit ↦
          if ltb 0 limit && ltb limit (used + amount)
          then Check.refused Refusal.over_limit
          else Check.valid
    ]
  ]

  -- Step 6, on what step 5 has found.
  unfoldable pub check_found : ℕ → Option SessionKeyInfo × Store → Check × Store
  check_found amount (none, s) = (Check.refused Refusal.no_session, s)
  check_found amount (some info, s) = (check_limit info amount, s)

  -- Step 4 and what follows, on the signer that step 3 has recovered.
  unfoldable pub check_signer : PaymentVoucher → ℕ → ℕ → Store → Option String → Check × Store
  unfolding check_found verify_session_key
  check_signer v amount now_ms s none = (Check.refused Refusal.invalid_signature, s)
  check_signer v amount now_ms s (some recovered) =
      if str_eq (host.to_lower_case recovered) (host.to_lower_case v.session_key)
      then check_found amount (verify_session_key v.wallet v.session_key now_ms s)
      else (Check.refused Refusal.wrong_signer, s)

  -- Step 3 and what follows, on the amount that BigInt has read.
  unfoldable pub check_amount : PaymentVoucher → ℕ → ℕ → Store → Option ℕ → Check × Store
  unfolding check_signer
  check_amount v chain_id now_ms s none = (Check.thrown, s)
  check_amount v chain_id now_ms s (some amount) =
      check_signer v amount now_ms s (host.verify_typed_data chain_id v)

  -- Step 2 and what follows, on the answer of `isNonceUsed`.
  unfoldable pub check_nonce : PaymentVoucher → ℕ → ℕ → Bool × Store → Check × Store
  unfolding check_amount
  check_nonce v chain_id now_ms (true, s) = (Check.refused Refusal.nonce_used, s)
  check_nonce v chain_id now_ms (false, s) =
      check_amount v chain_id now_ms s (host.big_int v.amount)

  unfoldable pub verify_voucher : PaymentVoucher → ℕ → ℕ → Store → Check × Store
  unfolding is_nonce_used check_nonce
  verify_voucher v chain_id now_ms s =
      if ltb v.expiry (now_ms / 1000)
      then (Check.refused Refusal.expired, s)
      else check_nonce v chain_id now_ms (is_nonce_used v.nonce s)

-- `recordVoucher`; `none` is the error of the UNIQUE constraint on the nonce.
unfoldable pub record_voucher : PaymentVoucher → ℕ → Store → Option Store
record_voucher v now_ms s =
    if any (λ r. str_eq r.voucher.nonce v.nonce) s.voucher_table
    then none
    else some (record s {
      voucher_table =
          record {
            voucher = v;
            status = Status.pending;
            settlement_tx = "";
            settled_at = none;
            created_at = now_ms / 1000;
          }
          ∷ s.voucher_table;
    })

-- What the compiler gateway says of the payment.
pub data Gateway : Type 0 where
  passed wants_approval blocked unavailable : Gateway

pub data Outcome : Type 0 where
  accepted : Outcome
  rejected : Refusal → Outcome
  held_back : Outcome
  threw : Outcome

unfoldable pub recorded : Store → Option Store → Outcome × Store
recorded marked none = (Outcome.threw, marked)
recorded marked (some s) = (Outcome.accepted, s)

-- The end of `acceptVoucher`, which no other call interrupts.
unfoldable pub finish_accept : PaymentVoucher → ℕ → Store → Outcome × Store
unfolding mark_nonce_used record_voucher recorded
finish_accept v now_ms s =
    let marked = mark_nonce_used v.nonce s in recorded marked (record_voucher v now_ms marked)

unfoldable pub pass_gateway : Gateway → PaymentVoucher → ℕ → Store → Outcome × Store
unfolding finish_accept
pass_gateway Gateway.passed v now_ms s = finish_accept v now_ms s
pass_gateway Gateway.unavailable v now_ms s = finish_accept v now_ms s
pass_gateway Gateway.wants_approval v now_ms s = (Outcome.held_back, s)
pass_gateway Gateway.blocked v now_ms s = (Outcome.held_back, s)

unfoldable pub checked : PaymentVoucher → Gateway → ℕ → Check × Store → Outcome × Store
unfolding pass_gateway
checked v gateway now_ms (Check.valid, s) = pass_gateway gateway v now_ms s
checked v gateway now_ms (Check.refused refusal, s) = (Outcome.rejected refusal, s)
checked v gateway now_ms (Check.thrown, s) = (Outcome.threw, s)

-- A call that nothing interrupts.
unfoldable pub accept_voucher : Host → PaymentVoucher → ℕ → Gateway → ℕ → Store → Outcome × Store
unfolding verify_voucher checked
accept_voucher host v chain_id gateway now_ms s =
    checked v gateway now_ms (verify_voucher host v chain_id now_ms s)
