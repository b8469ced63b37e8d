-- ===== src/Vouchers/Replay.antt =====
-- No nonce is accepted twice, in whatever order the calls interleave.
use atf.Common.{
  ℕ, ◌/◌, ◌≤◌, ◌≡◌, refl, sym, ap, ◌∙◌, false, String, List, [], ◌∷◌, map, if◌then◌else◌, str_eq,
  includes, any, arith, Bool-cases, inl, inr,
}
use atf.Vouchers.{
  PaymentVoucher, Row, Store, Host, Check, Outcome, mark_nonce_used, verify_voucher, record_voucher,
  recorded, finish_accept, Gateway, Refusal, pass_gateway, checked, accept_voucher,
}
use atf.Vouchers.Checks.{IsUsed, IsUsed-mark_nonce_used, verify_voucher-used}
use atf.Vouchers.Settlement.{mark_vouchers_settled, settle_row}
use atf.Vouchers.Interleaving.{
  nonces, any-nonce, World, is_accepted, Step, Steps, IsSound, Keeps, All-Keeps,
  verify_voucher-Keeps,
}

nonces-settle_row :
    (nonce tx_hash : String) (now : ℕ) (rows : List Row)
    → nonces (map (settle_row nonce tx_hash now) rows) ≡ nonces rows
nonces-settle_row nonce tx_hash now [] = refl
nonces-settle_row nonce tx_hash now (r ∷ rows) =
    ground (arith, nonces-settle_row nonce tx_hash now rows)

mark_vouchers_settled-Keeps :
    (ns : List String) (tx_hash : String) (now_ms : ℕ) (s : Store)
    → Keeps s (mark_vouchers_settled ns tx_hash now_ms s)
unfolding mark_vouchers_settled
mark_vouchers_settled-Keeps [] tx_hash now_ms s = (refl, λ n h. h)
mark_vouchers_settled-Keeps (n ∷ ns) tx_hash now_ms s =
    let (same, used) =
      mark_vouchers_settled-Keeps ns tx_hash now_ms
        (record s { voucher_table = map (settle_row n tx_hash (now_ms / 1000)) s.voucher_table }) in
    (same ∙ nonces-settle_row n tx_hash (now_ms / 1000) s.voucher_table, used)

-- What the end of a call does to a sound world.
abbrev ended : PaymentVoucher → ℕ → World → World
ended v now_ms w = record w {
  store = (finish_accept v now_ms w.store).1;
  accepted =
      if is_accepted (finish_accept v now_ms w.store).0 then v.nonce ∷ w.accepted else w.accepted;
}

finish-IsSound :
    (v : PaymentVoucher) (now_ms : ℕ) (w : World) → IsSound w → IsSound (ended v now_ms w)
unfolding finish_accept record_voucher recorded mark_nonce_used
finish-IsSound v now_ms w (same, distinct, used) =
    let kept : Keeps w.store (mark_nonce_used v.nonce w.store) =
      (refl, λ n h. (IsUsed-mark_nonce_used v.nonce n w.store).0 h) in
    let still = All-Keeps w.store (mark_nonce_used v.nonce w.store) w.accepted kept used in
    elim (Bool-cases (any (λ r. str_eq r.voucher.nonce v.nonce) w.store.voucher_table)) [
      | inl there ↦ rw there (same, distinct, still)
      | inr absent ↦
          let new : includes v.nonce w.accepted ≡ false =
            sym (ap (includes v.nonce) same)
            ∙ (sym (any-nonce v.nonce w.store.voucher_table) ∙ absent) in
          rw absent (
            ap (λ ns. v.nonce ∷ ns) same,
            (new, distinct),
            ((IsUsed-mark_nonce_used v.nonce v.nonce w.store).1, still),
          )
    ]

Step-IsSound : {u w : World} → Step u w → IsSound u → IsSound w
Step-IsSound (Step.begin w host v chain_id now_ms) (same, distinct, used) =
    let kept = verify_voucher-Keeps host v chain_id now_ms w.store in
    (
      kept.0 ∙ same,
      distinct,
      All-Keeps w.store (verify_voucher host v chain_id now_ms w.store).1 w.accepted kept used,
    )
Step-IsSound (Step.finish w v now_ms h) sound = finish-IsSound v now_ms w sound
Step-IsSound (Step.settle w settled tx_hash now_ms) (same, distinct, used) =
    let kept = mark_vouchers_settled-Keeps settled tx_hash now_ms w.store in
    (
      kept.0 ∙ same,
      distinct,
      All-Keeps w.store (mark_vouchers_settled settled tx_hash now_ms w.store) w.accepted kept used,
    )

-- However the checks and the ends of calls and the settlements interleave, from a sound world no
-- nonce is accepted twice: the accepted nonces stay distinct, they are the nonces of the table, and
-- each of them is used, so that no later check lets it through.
pub Steps-IsSound : {u w : World} → Steps u w → IsSound u → IsSound w
Steps-IsSound (Steps.stay w) sound = sound
Steps-IsSound (Steps.go steps step) sound = Step-IsSound step (Steps-IsSound steps sound)

checked_refused :
    (v : PaymentVoucher) (gateway : Gateway) (now_ms : ℕ) (p : Check × Store) (r : Refusal)
    → p.0 ≡ Check.refused r
    → (checked v gateway now_ms p).0 ≡ Outcome.rejected r
unfolding checked
checked_refused v gateway now_ms (Check.valid, s) r h = cc
checked_refused v gateway now_ms (Check.refused q, s) r h = cc
checked_refused v gateway now_ms (Check.thrown, s) r h = cc

finish_accept-IsUsed :
    (v : PaymentVoucher) (now_ms : ℕ) (s : Store) → IsUsed v.nonce (finish_accept v now_ms s).1
unfolding finish_accept record_voucher recorded mark_nonce_used
finish_accept-IsUsed v now_ms s =
    let marked = (IsUsed-mark_nonce_used v.nonce v.nonce s).1 in
    elim (Bool-cases (any (λ r. str_eq r.voucher.nonce v.nonce) s.voucher_table)) [
      | inl there ↦ rw there marked
      | inr absent ↦ rw absent marked
    ]

pass_gateway-IsUsed :
    (gateway : Gateway) (v : PaymentVoucher) (now_ms : ℕ) (s : Store)
    → (pass_gateway gateway v now_ms s).0 ≡ Outcome.accepted
    → IsUsed v.nonce (pass_gateway gateway v now_ms s).1
unfolding pass_gateway
pass_gateway-IsUsed Gateway.passed v now_ms s h = finish_accept-IsUsed v now_ms s
pass_gateway-IsUsed Gateway.unavailable v now_ms s h = finish_accept-IsUsed v now_ms s
pass_gateway-IsUsed Gateway.wants_approval v now_ms s h = cc
pass_gateway-IsUsed Gateway.blocked v now_ms s h = cc

checked-IsUsed :
    (v : PaymentVoucher) (gateway : Gateway) (now_ms : ℕ) (p : Check × Store)
    → (checked v gateway now_ms p).0 ≡ Outcome.accepted
    → IsUsed v.nonce (checked v gateway now_ms p).1
unfolding checked
checked-IsUsed v gateway now_ms (Check.valid, s) h = pass_gateway-IsUsed gateway v now_ms s h
checked-IsUsed v gateway now_ms (Check.refused q, s) h = cc
checked-IsUsed v gateway now_ms (Check.thrown, s) h = cc

accepted-IsUsed :
    (host : Host) (v : PaymentVoucher) (chain_id now_ms : ℕ) (gateway : Gateway) (s : Store)
    → (accept_voucher host v chain_id gateway now_ms s).0 ≡ Outcome.accepted
    → IsUsed v.nonce (accept_voucher host v chain_id gateway now_ms s).1
unfolding accept_voucher
accepted-IsUsed host v chain_id now_ms gateway s h =
    checked-IsUsed v gateway now_ms (verify_voucher host v chain_id now_ms s) h

-- After a call that was accepted, a voucher of the same nonce that has not expired is refused for
-- its nonce.
accept_voucher-once :
    (host : Host) (v u : PaymentVoucher) (chain_id now_ms later : ℕ) (gateway : Gateway) (s : Store)
    → (accept_voucher host v chain_id gateway now_ms s).0 ≡ Outcome.accepted
    → u.nonce ≡ v.nonce
    → later / 1000 ≤ u.expiry
    → (accept_voucher host u chain_id gateway later
        (accept_voucher host v chain_id gateway now_ms s).1).0
      ≡ Outcome.rejected Refusal.nonce_used
unfolding accept_voucher
accept_voucher-once host v u chain_id now_ms later gateway s h same early =
    let after = (accept_voucher host v chain_id gateway now_ms s).1 in
    let used : IsUsed u.nonce after =
      rw same (accepted-IsUsed host v chain_id now_ms gateway s h) in
    let refused = verify_voucher-used host u chain_id later after used early in
    checked_refused u gateway later (verify_voucher host u chain_id later after) Refusal.nonce_used
      refused
