-- ===== src/Vouchers/Sessions.antt =====
-- agentix/src/core/x402-voucher.ts: what verifySessionKey answers with, and what the limit of a session holds.
use atf.Common.{
  ℕ, ◌+◌, ◌-◌, ◌/◌, ◌≤◌, ◌<◌, ◌≡◌, sym, ◌∙◌, ap, false, not, ◌&&◌, none, some, String, List, [],
  ◌∷◌, ltb, str_eq, str_eq_iff, arith, Bool-cases, Option-cases, ◌⊎◌, inl, inr,
}
use mathlib.Core.List.{Mem, mem-cons_self, mem-cons_of_mem}
use mathlib.Core.Option.{some-injective}
use mathlib.Core.Path.{subst}
use atf.Vouchers.{
  SessionKeyInfo, Session, Store, Host, Check, Refusal, session_key_cache_ttl, find_cached,
  find_session, look_up_session, verify_session_key, big_int_or_zero, check_limit,
}

module _ (host : Host) where
  -- An entry that was cached for the wallet and the key less than a minute ago.
  abbrev pub IsCached : String → String → ℕ → Store → SessionKeyInfo → Type 0
  IsCached wallet session_key now_ms s info =
      (find_cached (host.cache_key (host.to_lower_case wallet) (host.to_lower_case session_key))
          s.session_key_cache
        ≡ some info)
      × (now_ms - info.verified_at < 60_000)

  -- What is read of a stored session of the wallet and the key that is neither revoked nor expired.
  abbrev pub IsStored : String → String → ℕ → Store → SessionKeyInfo → Type 0
  IsStored wallet session_key now_ms s info =
      (r : Session) × Mem r s.sessions
      × (r.wallet_address ≡ wallet)
      × (r.session_key ≡ session_key)
      × (r.revoked ≡ false)
      × (now_ms / 1000 < r.expiry)
      × (info.daily_spend_limit ≡ r.daily_spend_limit)
      × (info.daily_spend_used ≡ "0")

  -- The limit is 0, or what was used and the amount stay within it.
  abbrev pub IsWithinLimit : SessionKeyInfo → ℕ → Type 0
  IsWithinLimit info amount =
      (used : ℕ) × (limit : ℕ) × (big_int_or_zero host info.daily_spend_used ≡ some used)
      × (big_int_or_zero host info.daily_spend_limit ≡ some limit)
      × ((limit ≡ 0) ⊎ (used + amount ≤ limit))

  pub check_limit-IsWithinLimit :
      (info : SessionKeyInfo) (amount : ℕ)
      → check_limit host info amount ≡ Check.valid
      → IsWithinLimit info amount
  unfolding check_limit
  check_limit-IsWithinLimit info amount h =
      elim (Option-cases (big_int_or_zero host info.daily_spend_used)) [
        | inl none_used ↦
            let wrong : Check.thrown ≡ Check.valid = rw (none_used, check_limit) at h in cc
        | inr (used, e) ↦ elim (Option-cases (big_int_or_zero host info.daily_spend_limit)) [
          | inl none_set ↦
              let wrong : Check.thrown ≡ Check.valid = rw (e, none_set, check_limit) at h in cc
          | inr (limit, e') ↦ elim (Bool-cases (ltb 0 limit && ltb limit (used + amount))) [
            | inl over ↦
                let wrong : Check.refused Refusal.over_limit ≡ Check.valid =
                  rw (e, e', over, check_limit) at h in
                cc
            | inr fits ↦ (used, limit, e, e', ground (arith, fits))
          ]
        ]
      ]

  find_session-row :
      (wallet key : String) (now : ℕ) (rows : List Session) (found : Session)
      → find_session wallet key now rows ≡ some found
      → Mem found rows
        × (found.wallet_address ≡ wallet)
        × (found.session_key ≡ key)
        × (found.revoked ≡ false)
        × (now < found.expiry)
  unfolding find_session
  find_session-row wallet key now [] found h = cc
  find_session-row wallet key now (r ∷ rows) found h =
      let own = str_eq r.wallet_address wallet && str_eq r.session_key key in
      elim (Bool-cases ((own && not r.revoked) && ltb now r.expiry)) [
        | inl good ↦
            subst
              (λ x.
                Mem x (r ∷ rows)
                × (x.wallet_address ≡ wallet)
                × (x.session_key ≡ key)
                × (x.revoked ≡ false)
                × (now < x.expiry))
              (some-injective r found (rw good at h))
              (
                mem-cons_self,
                (str_eq_iff _ _).0 (ground (arith, good)),
                (str_eq_iff _ _).0 (ground (arith, good)),
                ground (arith, good),
                ground (arith, good),
              )
        | inr other ↦
            let (among, wallet_is, key_is, good, fresh) =
              find_session-row wallet key now rows found (rw other at h) in
            (mem-cons_of_mem r among, wallet_is, key_is, good, fresh)
      ]

  look_up_session-IsStored :
      (key wallet session_key : String) (now_ms : ℕ) (s : Store) (info : SessionKeyInfo)
      → (look_up_session host key wallet session_key now_ms s).0 ≡ some info
      → IsStored wallet session_key now_ms s info
  unfolding look_up_session
  look_up_session-IsStored key wallet session_key now_ms s info h =
      elim (Option-cases (find_session wallet session_key (now_ms / 1000) s.sessions)) [
        | inl missing ↦ let wrong : none ≡ some info = rw (missing, look_up_session) at h in cc
        | inr (r, found) ↦
            let (among, wallet_is, key_is, good, fresh) =
              find_session-row wallet session_key (now_ms / 1000) s.sessions r found in
            let made = some-injective _ info (rw (found, look_up_session) at h) in
            (
              r,
              among,
              wallet_is,
              key_is,
              good,
              fresh,
              sym (ap (λ i. i.daily_spend_limit) made),
              sym (ap (λ i. i.daily_spend_used) made),
            )
      ]

  pub verify_session_key-answers :
      (wallet session_key : String) (now_ms : ℕ) (s : Store) (info : SessionKeyInfo)
      → (verify_session_key host wallet session_key now_ms s).0 ≡ some info
      → IsCached wallet session_key now_ms s info ⊎ IsStored wallet session_key now_ms s info
  unfolding verify_session_key
  verify_session_key-answers wallet session_key now_ms s info h =
      let key = host.cache_key (host.to_lower_case wallet) (host.to_lower_case session_key) in
      elim (Option-cases (find_cached key s.session_key_cache)) [
        | inl missing ↦ inr (
            look_up_session-IsStored key wallet session_key now_ms s info
              (rw (missing, verify_session_key) at h))
        | inr (cached, e) ↦
            elim (Bool-cases (ltb (now_ms - cached.verified_at) session_key_cache_ttl)) [
              | inl young ↦
                  let is : cached ≡ info =
                    some-injective cached info (rw (e, young, verify_session_key) at h) in
                  inl (
                    e ∙ ap some is,
                    subst (λ i. now_ms - i.verified_at < 60_000) is (ground (arith, young)),
                  )
              | inr old ↦ inr (
                  look_up_session-IsStored key wallet session_key now_ms s info
                    (rw (e, old, verify_session_key) at h))
            ]
      ]
