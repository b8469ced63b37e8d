-- ===== src/Vouchers/Interleaving.antt =====
-- Calls of `acceptVoucher` that interleave: the check of one and the end of another come in any
-- order, since the gateway is awaited between them. Settlements come in between too.
use atf.Common.{
  ◌-◌, ◌/◌, Option-cases, ltb, All, ◌⊎◌, ℕ, ◌≡◌, refl, ap, ◌∙◌, Bool, true, false, ◌||◌, Option,
  none, some, String, List, [], ◌∷◌, if◌then◌else◌, str_eq, includes, any, arith, Bool-cases, inl,
  inr,
}
use atf.Vouchers.{
  PaymentVoucher, Row, Store, Host, Check, Outcome, is_nonce_used, verify_voucher, SessionKeyInfo,
  find_session, look_up_session, find_cached, verify_session_key, session_key_cache_ttl,
  check_found, check_signer, check_amount, check_nonce, finish_accept,
}
use atf.Vouchers.Checks.{IsUsed}
use atf.Vouchers.Settlement.{mark_vouchers_settled}

abbrev pub nonces : List Row → List String
nonces [] = []
nonces (r ∷ rows) = r.voucher.nonce ∷ nonces rows

abbrev pub AreDistinct : List String → Type 0
AreDistinct [] = Unit
AreDistinct (x ∷ xs) = (includes x xs ≡ false) × AreDistinct xs

pub any-nonce :
    (n : String) (rows : List Row)
    → any (λ r. str_eq r.voucher.nonce n) rows ≡ includes n (nonces rows)
any-nonce n [] = refl
any-nonce n (r ∷ rows) = ap (λ b. str_eq r.voucher.nonce n || b) (any-nonce n rows)

-- A shared store and the calls on it.
pub record World : Type 0 where
  pub store : Store
  -- Vouchers that have passed `verifyVoucher` in a call that has not ended.
  pub in_flight : List PaymentVoucher
  -- The nonces of the calls that have answered with acceptance, the newest first.
  pub accepted : List String

abbrev pub is_valid : Check → Bool
is_valid Check.valid = true
is_valid _ = false

abbrev pub is_accepted : Outcome → Bool
is_accepted Outcome.accepted = true
is_accepted _ = false

abbrev pub Holds : PaymentVoucher → List PaymentVoucher → Type 0
Holds v [] = ⊥
Holds v (u ∷ us) = (v ≡ u) ⊎ Holds v us

-- A call begins with the whole check; a call that has passed it ends at any later time, or never; a
-- settlement marks any vouchers.
pub data Step : World → World → Type 0 where
  begin :
      (w : World) (host : Host) (v : PaymentVoucher) (chain_id now_ms : ℕ)
      → Step w (record w {
        store = (verify_voucher host v chain_id now_ms w.store).1;
        in_flight =
            if is_valid (verify_voucher host v chain_id now_ms w.store).0
            then v ∷ w.in_flight
            else w.in_flight;
      })
  finish :
      (w : World) (v : PaymentVoucher) (now_ms : ℕ)
      → Holds v w.in_flight
      → Step w (record w {
        store = (finish_accept v now_ms w.store).1;
        accepted =
            if is_accepted (finish_accept v now_ms w.store).0
            then v.nonce ∷ w.accepted
            else w.accepted;
      })
  settle :
      (w : World) (settled : List String) (tx_hash : String) (now_ms : ℕ)
      → Step w (record w { store = mark_vouchers_settled settled tx_hash now_ms w.store })

pub data Steps : World → World → Type 0 where
  stay : (w : World) → Steps w w
  go : {u v w : World} → Steps u v → Step v w → Steps u w

-- The accepted nonces are those of the table, no two of them are one, and all are used.
abbrev pub IsSound : World → Type 0
IsSound w =
    (nonces w.store.voucher_table ≡ w.accepted)
    × AreDistinct w.accepted
    × All (λ n. IsUsed n w.store) w.accepted

-- What every call keeps of the store.
abbrev pub Keeps : Store → Store → Type 0
Keeps s t =
    (nonces t.voucher_table ≡ nonces s.voucher_table) × ((n : String) → IsUsed n s → IsUsed n t)

Keeps-trans : (s t u : Store) → Keeps s t → Keeps t u → Keeps s u
Keeps-trans s t u (e, k) (e', k') = (e' ∙ e, λ n h. k' n (k n h))

pub All-Keeps :
    (s t : Store) (ns : List String)
    → Keeps s t
    → All (λ n. IsUsed n s) ns
    → All (λ n. IsUsed n t) ns
All-Keeps s t [] k h = tt
All-Keeps s t (n ∷ ns) k (h, hs) = (k.1 n h, All-Keeps s t ns k hs)

is_nonce_used-Keeps : (n : String) (s : Store) → Keeps s (is_nonce_used n s).1
unfolding is_nonce_used
is_nonce_used-Keeps n s = (ground arith, λ m h. ground (arith, h))

module _ (host : Host) where
  look_up_session-Keeps :
      (key wallet session_key : String) (now_ms : ℕ) (s : Store)
      → Keeps s (look_up_session host key wallet session_key now_ms s).1
  unfolding look_up_session
  look_up_session-Keeps key wallet session_key now_ms s =
      elim (Option-cases (find_session wallet session_key (now_ms / 1000) s.sessions)) [
        | inl missing ↦ rw (missing, look_up_session) (refl, λ n h. h)
        | inr (r, found) ↦ rw (found, look_up_session) (refl, λ n h. h)
      ]

  verify_session_key-Keeps :
      (wallet session_key : String) (now_ms : ℕ) (s : Store)
      → Keeps s (verify_session_key host wallet session_key now_ms s).1
  unfolding verify_session_key
  verify_session_key-Keeps wallet session_key now_ms s =
      let key = host.cache_key (host.to_lower_case wallet) (host.to_lower_case session_key) in
      let looked = look_up_session-Keeps key wallet session_key now_ms s in
      elim (Option-cases (find_cached key s.session_key_cache)) [
        | inl missing ↦ rw (missing, verify_session_key) looked
        | inr (cached, found) ↦
            elim (Bool-cases (ltb (now_ms - cached.verified_at) session_key_cache_ttl)) [
              | inl fresh ↦ rw (found, verify_session_key) (rw fresh (refl, λ n h. h))
              | inr stale ↦ rw (found, verify_session_key) (rw stale looked)
            ]
      ]

  check_found-Keeps :
      (amount : ℕ) (p : Option SessionKeyInfo × Store) → Keeps p.1 (check_found host amount p).1
  unfolding check_found
  check_found-Keeps amount (none, s) = (refl, λ n h. h)
  check_found-Keeps amount (some info, s) = (refl, λ n h. h)

  check_signer-Keeps :
      (v : PaymentVoucher) (amount now_ms : ℕ) (s : Store) (o : Option String)
      → Keeps s (check_signer host v amount now_ms s o).1
  unfolding check_signer
  check_signer-Keeps v amount now_ms s none = (refl, λ n h. h)
  check_signer-Keeps v amount now_ms s (some a) =
      elim (Bool-cases (str_eq (host.to_lower_case a) (host.to_lower_case v.session_key))) [
        | inl same ↦
            let found = verify_session_key host v.wallet v.session_key now_ms s in
            rw same (
              Keeps-trans s found.1 (check_found host amount found).1
                (verify_session_key-Keeps v.wallet v.session_key now_ms s)
                (check_found-Keeps amount found))
        | inr other ↦ rw other (refl, λ n h. h)
      ]

  check_amount-Keeps :
      (v : PaymentVoucher) (chain_id now_ms : ℕ) (s : Store) (o : Option ℕ)
      → Keeps s (check_amount host v chain_id now_ms s o).1
  unfolding check_amount
  check_amount-Keeps v chain_id now_ms s none = (refl, λ n h. h)
  check_amount-Keeps v chain_id now_ms s (some amount) =
      check_signer-Keeps v amount now_ms s (host.verify_typed_data chain_id v)

  check_nonce-Keeps :
      (v : PaymentVoucher) (chain_id now_ms : ℕ) (p : Bool × Store)
      → Keeps p.1 (check_nonce host v chain_id now_ms p).1
  unfolding check_nonce
  check_nonce-Keeps v chain_id now_ms (true, s) = (refl, λ n h. h)
  check_nonce-Keeps v chain_id now_ms (false, s) =
      check_amount-Keeps v chain_id now_ms s (host.big_int v.amount)

  pub verify_voucher-Keeps :
      (v : PaymentVoucher) (chain_id now_ms : ℕ) (s : Store)
      → Keeps s (verify_voucher host v chain_id now_ms s).1
  unfolding verify_voucher
  verify_voucher-Keeps v chain_id now_ms s = elim (Bool-cases (ltb v.expiry (now_ms / 1000))) [
    | inl late ↦ rw late (refl, λ n h. h)
    | inr early ↦
        let looked = is_nonce_used v.nonce s in
        rw early (
          Keeps-trans s looked.1 (check_nonce host v chain_id now_ms looked).1
            (is_nonce_used-Keeps v.nonce s) (check_nonce-Keeps v chain_id now_ms looked))
  ]
