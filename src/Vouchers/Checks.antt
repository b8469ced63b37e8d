-- ===== src/Vouchers/Checks.antt =====
-- What a voucher that `verifyVoucher` lets through satisfies, and that a nonce that was accepted is
-- refused afterwards.
use atf.Common.{
  ℕ, ◌/◌, ◌≤◌, ◌≡◌, refl, Bool, true, false, ◌||◌, Option, none, some, String, List, ltb, str_eq,
  str_eq_iff, includes, arith, Bool-cases, ◌⊎◌, inl, inr,
}
use atf.Vouchers.Sessions.{
  IsCached, IsStored, IsWithinLimit, check_limit-IsWithinLimit, verify_session_key-answers,
}
use atf.Vouchers.{
  PaymentVoucher, SessionKeyInfo, Store, Host, Check, Refusal, mark_nonce_used, add_to_set,
  is_nonce_used, verify_session_key, check_limit, check_found, check_signer, check_amount,
  check_nonce, verify_voucher,
}

-- The nonce is used, in memory or in the table.
abbrev pub IsUsed : String → Store → Type 0
IsUsed nonce s = (includes nonce s.used_nonces || includes nonce s.nonce_table) ≡ true

is_nonce_used_iff :
    (nonce : String) (s : Store)
    → (is_nonce_used nonce s).0 ≡ (includes nonce s.used_nonces || includes nonce s.nonce_table)
unfolding is_nonce_used
is_nonce_used_iff nonce s = ground arith

-- A nonce that was not used leaves the store as it was.
is_nonce_used_fresh :
    (nonce : String) (s : Store)
    → (includes nonce s.used_nonces || includes nonce s.nonce_table) ≡ false
    → is_nonce_used nonce s ≡ (false, s)
unfolding is_nonce_used
is_nonce_used_fresh nonce s h = ground (arith, h)

module _ (host : Host) where
  abbrev pub IsSigned : PaymentVoucher → ℕ → Type 0
  IsSigned v chain_id =
      (a : String) × (host.verify_typed_data chain_id v ≡ some a)
      × (host.to_lower_case a ≡ host.to_lower_case v.session_key)

  abbrev pub IsCovered : PaymentVoucher → ℕ → Store → Type 0
  IsCovered v now_ms s =
      (amount : ℕ) × (info : SessionKeyInfo) × (host.big_int v.amount ≡ some amount)
      × (IsCached host v.wallet v.session_key now_ms s info
          ⊎ IsStored host v.wallet v.session_key now_ms s info)
      × IsWithinLimit host info amount

  check_found_sound :
      (amount : ℕ) (p : Option SessionKeyInfo × Store)
      → (check_found host amount p).0 ≡ Check.valid
      → (info : SessionKeyInfo) × (p.0 ≡ some info) × (check_limit host info amount ≡ Check.valid)
  unfolding check_found
  check_found_sound amount (none, s) h = cc
  check_found_sound amount (some info, s) h = (info, refl, h)

  check_signer_sound :
      (v : PaymentVoucher) (amount now_ms : ℕ) (s : Store) (o : Option String)
      → (check_signer host v amount now_ms s o).0 ≡ Check.valid
      → (a : String) × (o ≡ some a)
        × (host.to_lower_case a ≡ host.to_lower_case v.session_key)
        × ((check_found host amount (verify_session_key host v.wallet v.session_key now_ms s)).0
            ≡ Check.valid)
  unfolding check_signer
  check_signer_sound v amount now_ms s none h = cc
  check_signer_sound v amount now_ms s (some a) h =
      elim (Bool-cases (str_eq (host.to_lower_case a) (host.to_lower_case v.session_key))) [
        | inl same ↦ (a, refl, (str_eq_iff _ _).0 same, rw same at h)
        | inr other ↦
            let wrong : Check.refused Refusal.wrong_signer ≡ Check.valid = rw other at h in cc
      ]

  check_amount_sound :
      (v : PaymentVoucher) (chain_id now_ms : ℕ) (s : Store) (o : Option ℕ)
      → (check_amount host v chain_id now_ms s o).0 ≡ Check.valid
      → (amount : ℕ) × (o ≡ some amount)
        × ((check_signer host v amount now_ms s (host.verify_typed_data chain_id v)).0
            ≡ Check.valid)
  unfolding check_amount
  check_amount_sound v chain_id now_ms s none h = cc
  check_amount_sound v chain_id now_ms s (some amount) h = (amount, refl, h)

  check_nonce_sound :
      (v : PaymentVoucher) (chain_id now_ms : ℕ) (p : Bool × Store)
      → (check_nonce host v chain_id now_ms p).0 ≡ Check.valid
      → (p.0 ≡ false)
        × ((check_amount host v chain_id now_ms p.1 (host.big_int v.amount)).0 ≡ Check.valid)
  unfolding check_nonce
  check_nonce_sound v chain_id now_ms (true, s) h = cc
  check_nonce_sound v chain_id now_ms (false, s) h = (refl, h)

  in_time :
      (v : PaymentVoucher) (chain_id now_ms : ℕ) (s : Store)
      → (verify_voucher host v chain_id now_ms s).0 ≡ Check.valid
      → (now_ms / 1000 ≤ v.expiry)
        × ((check_nonce host v chain_id now_ms (is_nonce_used v.nonce s)).0 ≡ Check.valid)
  unfolding verify_voucher
  in_time v chain_id now_ms s h = elim (Bool-cases (ltb v.expiry (now_ms / 1000))) [
    | inl late ↦ let wrong : Check.refused Refusal.expired ≡ Check.valid = rw late at h in cc
    | inr early ↦ (ground (arith, early), rw early at h)
  ]

  -- A voucher that is let through has not expired, its nonce was not used, and its session key signed it.
  -- The key has a stored session of the voucher's wallet that is neither revoked nor expired, or an entry
  -- that was cached for the wallet and the key less than a minute ago; and the entry's use and the amount
  -- are within the entry's limit, unless that is 0. A fresh entry has the session's limit and a use of 0.
  pub verify_voucher_sound :
      (v : PaymentVoucher) (chain_id now_ms : ℕ) (s : Store)
      → (verify_voucher host v chain_id now_ms s).0 ≡ Check.valid
      → (now_ms / 1000 ≤ v.expiry)
        × ((is_nonce_used v.nonce s).0 ≡ false)
        × IsSigned v chain_id
        × IsCovered v now_ms (is_nonce_used v.nonce s).1
  verify_voucher_sound v chain_id now_ms s h =
      let (early, fresh) = in_time v chain_id now_ms s h in
      let (unused, readable) =
        check_nonce_sound v chain_id now_ms (is_nonce_used v.nonce s) fresh in
      let (amount, read, signed) =
        check_amount_sound v chain_id now_ms (is_nonce_used v.nonce s).1 (host.big_int v.amount)
          readable in
      let (a, recovered, same, found) =
        check_signer_sound v amount now_ms (is_nonce_used v.nonce s).1
          (host.verify_typed_data chain_id v) signed in
      let (info, there, covered) = check_found_sound amount _ found in
      (
        early,
        unused,
        (a, recovered, same),
        (
          amount,
          info,
          read,
          verify_session_key-answers host v.wallet v.session_key now_ms (is_nonce_used v.nonce s).1
              info there,
          check_limit-IsWithinLimit host info amount covered,
        ),
      )

includes-add_to_set :
    (x y : String) (xs : List String) → (includes x xs ≡ true) → includes x (add_to_set y xs) ≡ true
includes-add_to_set x y xs h = ground arith

includes_self-add_to_set : (x : String) (xs : List String) → includes x (add_to_set x xs) ≡ true
includes_self-add_to_set x xs = ground (arith, (str_eq_iff x x).1 refl)

-- Marking a nonce marks it, and no other call takes a mark away.
pub IsUsed-mark_nonce_used :
    (nonce other : String) (s : Store)
    → (IsUsed other s → IsUsed other (mark_nonce_used nonce s))
      × IsUsed nonce (mark_nonce_used nonce s)
unfolding mark_nonce_used
IsUsed-mark_nonce_used nonce other s =
    (λ h. ground (arith, h), ground (arith, (str_eq_iff nonce nonce).1 refl))

-- A voucher whose nonce is used is refused, whatever else it says.
pub verify_voucher-used :
    (host : Host) (v : PaymentVoucher) (chain_id now_ms : ℕ) (s : Store)
    → IsUsed v.nonce s
    → now_ms / 1000 ≤ v.expiry
    → (verify_voucher host v chain_id now_ms s).0 ≡ Check.refused Refusal.nonce_used
unfolding verify_voucher check_nonce is_nonce_used
verify_voucher-used host v chain_id now_ms s h early = ground (arith, h)
