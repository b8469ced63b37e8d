-- ===== src/Vouchers/Tests.antt =====
-- Runs of the vouchers over texts that are compared as they stand.
use atf.Common.{
  ℕ, ◌≤◌, ◌≡◌, refl, false, Option, none, some, String, List, [], ◌∷◌, All, if◌then◌else◌, str_eq,
  arith, inl, inr,
}
use atf.Vouchers.{
  PaymentVoucher, Store, Host, Check, Outcome, Gateway, is_nonce_used, find_cached, find_session,
  look_up_session, verify_session_key, check_limit, check_found, check_signer, check_amount,
  check_nonce, verify_voucher, mark_nonce_used, record_voucher, recorded, finish_accept,
  pass_gateway, checked, accept_voucher, SessionKeyInfo,
}
use atf.Vouchers.Checks.{IsSigned, IsCovered, verify_voucher_sound}
use atf.Vouchers.Settlement.{
  BatchSettlementResult, Batch, group_vouchers_by_wallet, settle_voucher_batch,
}
use atf.Vouchers.Grouping.{size_of, group_of, of_wallet, group_vouchers_by_wallet_lem}
use atf.Vouchers.Accounting.{Covers, IsPayable, settle_voucher_batch_returns}
use atf.Vouchers.Interleaving.{World, Step, Steps, IsSound}
use atf.Vouchers.Signing.{Payment, sign_voucher, verify_voucher-sign_voucher}
use atf.Vouchers.Replay.{Steps-IsSound}

abbrev read_amount : String → Option ℕ
read_amount text = if str_eq text "5" then some 5 else if str_eq text "0" then some 0 else none

abbrev plain_host : Host
plain_host = record {
  to_lower_case = λ text. text;
  big_int = read_amount;
  cache_key = λ wallet key. key;
  verify_typed_data = λ chain_id v. some v.session_key;
}

abbrev payment : String → String → PaymentVoucher
payment wallet nonce = record {
  wallet = wallet;
  pay_to = "0xshop";
  amount = "5";
  nonce = nonce;
  expiry = 900;
  resource = "/data";
  session_key = "0xkey";
  signature = "0x01";
}

abbrev one_session : Store
one_session = record {
  used_nonces = [];
  nonce_table = [];
  voucher_table = [];
  session_key_cache = [];
  sessions =
      record {
        session_id = "s1";
        wallet_address = "0xa";
        session_key = "0xkey";
        revoked = false;
        expiry = 1_000;
        daily_spend_limit = "5";
      }
      ∷ [];
}

abbrev first : PaymentVoucher
first = payment "0xa" "n1"

is_valid_first : (verify_voucher plain_host first 8453 500_000 one_session).0 ≡ Check.valid
unfolding verify_voucher is_nonce_used check_nonce check_amount check_signer verify_session_key
    find_cached look_up_session find_session check_found check_limit
is_valid_first = refl

verify_voucher_sound_example :
    (500 ≤ first.expiry)
    × ((is_nonce_used "n1" one_session).0 ≡ false)
    × IsSigned plain_host first 8453
    × IsCovered plain_host first 500_000 (is_nonce_used "n1" one_session).1
verify_voucher_sound_example =
    verify_voucher_sound plain_host first 8453 500_000 one_session is_valid_first

abbrev used_store : Store
used_store = record one_session { nonce_table = "n1" ∷ [] }

is_accepted_first :
    (accept_voucher plain_host first 8453 Gateway.passed 500_000 one_session).0 ≡ Outcome.accepted
unfolding accept_voucher verify_voucher is_nonce_used check_nonce check_amount check_signer
    verify_session_key find_cached look_up_session find_session check_found check_limit checked
    pass_gateway finish_accept mark_nonce_used record_voucher recorded
is_accepted_first = refl

abbrev start : World
start = record { store = one_session; in_flight = first ∷ first ∷ []; accepted = [] }

abbrev after_one : World
after_one = record start {
  store = (finish_accept first 500_000 one_session).1;
  accepted = "n1" ∷ [];
}

first_finishes : Step start after_one
unfolding finish_accept mark_nonce_used record_voucher recorded
first_finishes = Step.finish start first 500_000 (inl refl)

-- The second call had passed its check before the first one ended.
abbrev after_two : World
after_two = record after_one { store = (finish_accept first 501_000 after_one.store).1 }

second_finishes : Step after_one after_two
unfolding finish_accept mark_nonce_used record_voucher recorded
second_finishes = Step.finish after_one first 501_000 (inr (inl refl))

Steps-IsSound_example : IsSound after_two
Steps-IsSound_example =
    Steps-IsSound (Steps.go (Steps.go (Steps.stay start) first_finishes) second_finishes)
      (refl, tt, tt)

abbrev three : List PaymentVoucher
three = payment "0xa" "n1" ∷ payment "0xb" "n2" ∷ payment "0xa" "n3" ∷ []

group_vouchers_by_wallet_lem_example :
    (size_of (group_vouchers_by_wallet plain_host three) ≡ 3)
    × (group_of "0xa" (group_vouchers_by_wallet plain_host three)
        ≡ of_wallet plain_host "0xa" three)
group_vouchers_by_wallet_lem_example = group_vouchers_by_wallet_lem plain_host three "0xa"

abbrev encode_all : PaymentVoucher → Option String
encode_all v = some v.pay_to

-- The bundler settles the group of one wallet alone.
abbrev submit_one : String → List PaymentVoucher → Batch → Option String
submit_one wallet vs batch = if str_eq wallet "0xa" then some "0xhash" else none

three-IsPayable : All (IsPayable plain_host "0xusdc" encode_all submit_one) three
three-IsPayable =
    ((5, "0xshop", refl, refl), ((5, "0xshop", refl, refl), ((5, "0xshop", refl, refl), tt)))

settle_voucher_batch_returns_example :
    (r : BatchSettlementResult) × ((settle_voucher_batch plain_host "0xusdc" encode_all submit_one
        three 500_000 one_session).0
      ≡ some r)
    × Covers 3 r
settle_voucher_batch_returns_example =
    settle_voucher_batch_returns plain_host "0xusdc" encode_all submit_one three 500_000 one_session
      three-IsPayable

abbrev one_payment : Payment
one_payment = record { pay_to = "0xshop"; amount = "5"; resource = "/data"; nonce = "n9" }

abbrev key_host : Host
key_host = record plain_host { verify_typed_data = λ chain_id v. some v.signature }

abbrev session_info : SessionKeyInfo
session_info = record {
  wallet_address = "0xa";
  session_key = "0xkey";
  session_id = "s1";
  expiry = 1_000;
  verified_at = 501_000;
  daily_spend_limit = "5";
  daily_spend_used = "0";
}

is_fresh_nine : is_nonce_used "n9" one_session ≡ (false, one_session)
unfolding is_nonce_used
is_fresh_nine = refl

session_found :
    (verify_session_key key_host "0xa" "0xkey" 501_000 one_session).0 ≡ some session_info
unfolding verify_session_key find_cached look_up_session find_session
session_found = refl

session_covers : check_limit key_host session_info 5 ≡ Check.valid
unfolding check_limit
session_covers = refl

verify_voucher-sign_voucher_example :
    (v : PaymentVoucher) × (sign_voucher key_host
        (λ chain_id u. "0xkey")
        "0xa"
        "0xkey"
        8453
        none
        500_000
        one_payment
      ≡ some v)
    × ((verify_voucher key_host v 8453 501_000 one_session).0 ≡ Check.valid)
verify_voucher-sign_voucher_example =
    verify_voucher-sign_voucher key_host (λ chain_id u. "0xkey") "0xa" "0xkey" 8453 none 500_000
      501_000 one_session one_payment 5 session_info (λ v. refl) refl (omega arith) is_fresh_nine
      session_found session_covers
