-- ===== src/Vouchers/Accounting.antt =====
-- What a settlement reports.
use atf.Common.{
  All, str_eq, ◌++◌, Bool-cases, ℕ, ◌+◌, ◌≡◌, refl, ◌∙◌, true, false, Option, none, some, String,
  List, [], ◌∷◌, map, length, arith, or_else, Option-cases, inl, inr, ◌==◌,
}
use mathlib.Core.Option.{some-injective}
use mathlib.Core.Path.{subst}
use atf.Vouchers.{PaymentVoucher, Store, Host}
use atf.Vouchers.Settlement.{
  Groups, Batch, BatchSettlementResult, GroupResult, total_of, build_batch_calldata, settle_group,
  settle_groups, count_of, summary, group_vouchers_by_wallet, settle_voucher_batch,
  mark_vouchers_settled, add_to_group, group_all,
}
use atf.Vouchers.Grouping.{size_of, group_vouchers_by_wallet_lem}

count_of-cons :
    (r : GroupResult) (results : List GroupResult)
    → count_of true (r ∷ results) + count_of false (r ∷ results)
      ≡ r.count + (count_of true results + count_of false results)
unfolding count_of
count_of-cons r results = ground arith

-- A result accounts for `n` vouchers.
abbrev pub Covers : ℕ → BatchSettlementResult → Type 0
Covers n r = (r.settled_count + or_else r.error 0 ≡ n) × (r.success ≡ (r.settled_count == n))

summary-Covers :
    (n : ℕ) (rs : List GroupResult) (total : ℕ)
    → count_of true rs + count_of false rs ≡ n
    → Covers n (summary rs total)
unfolding summary
summary-Covers n rs total h = (ground (arith, h), ground (arith, h))

module _ (host : Host) (usdc : String) (encode : PaymentVoucher → Option String)
    (submit : String → List PaymentVoucher → Batch → Option String) where
  settle_group_count :
      (wallet : String) (vs : List PaymentVoucher) (now_ms : ℕ) (s s' : Store) (r : GroupResult)
      → settle_group host usdc encode submit wallet vs now_ms s ≡ some (r, s')
      → r.count ≡ length vs
  unfolding settle_group
  settle_group_count wallet vs now_ms s s' r h = ground (arith, h)

  settle_groups_count :
      (groups : Groups) (now_ms : ℕ) (s : Store) (rs : List GroupResult)
      → (settle_groups host usdc encode submit groups now_ms s).0 ≡ some rs
      → count_of true rs + count_of false rs ≡ size_of groups
  unfolding settle_groups count_of
  settle_groups_count [] now_ms s [] h = refl
  settle_groups_count [] now_ms s (r ∷ rs) h = cc
  settle_groups_count ((wallet, vs) ∷ groups) now_ms s rs h =
      elim (Option-cases (settle_group host usdc encode submit wallet vs now_ms s)) [
        | inl failed ↦ let wrong : none ≡ some rs = rw (failed, settle_groups) at h in cc
        | inr ((r, s'), done) ↦
            let more = rw (done, settle_groups) at h in
            elim (Option-cases (settle_groups host usdc encode submit groups now_ms s').0) [
              | inl stopped ↦ let wrong : none ≡ some rs = rw stopped at more in cc
              | inr (rest, e) ↦
                  let all : some (r ∷ rest) ≡ some rs = rw e at more in
                  let same : r ∷ rest ≡ rs = some-injective (r ∷ rest) rs all in
                  subst (λ l. count_of true l + count_of false l ≡ length vs + size_of groups) same
                    (omega (
                      arith,
                      count_of-cons r rest,
                      settle_group_count wallet vs now_ms s s' r done,
                      settle_groups_count groups now_ms s' rest e,
                    ))
            ]
      ]

  -- A settlement that returns accounts for each voucher: those that it counts as settled and those
  -- that its error counts are as many as there were, and it claims success if it settled them all.
  pub settle_voucher_batch_count :
      (vouchers : List PaymentVoucher) (now_ms : ℕ) (s : Store) (r : BatchSettlementResult)
      → (settle_voucher_batch host usdc encode submit vouchers now_ms s).0 ≡ some r
      → Covers (length vouchers) r
  unfolding settle_voucher_batch summary
  settle_voucher_batch_count [] now_ms s r h = subst (Covers 0) (some-injective _ r h) (refl, refl)
  settle_voucher_batch_count (v ∷ vouchers) now_ms s r h =
      let groups = group_vouchers_by_wallet host (v ∷ vouchers) in
      elim (Option-cases (settle_groups host usdc encode submit groups now_ms s).0) [
        | inl failed ↦ let wrong : none ≡ some r = rw (failed, settle_voucher_batch) at h in cc
        | inr (rs, done) ↦
            let more = rw (done, settle_voucher_batch) at h in
            elim (Option-cases (total_of host (v ∷ vouchers))) [
              | inl unreadable ↦ let wrong : none ≡ some r = rw unreadable at more in cc
              | inr (total, e) ↦
                  let all : some (summary rs total) ≡ some r = rw e at more in
                  let counted : count_of true rs + count_of false rs ≡ length (v ∷ vouchers) =
                    settle_groups_count groups now_ms s rs done
                    ∙ (group_vouchers_by_wallet_lem host (v ∷ vouchers) "").0 in
                  subst (Covers (length (v ∷ vouchers))) (some-injective _ r all)
                    (summary-Covers (length (v ∷ vouchers)) rs total counted)
            ]
      ]

  -- A voucher whose amount BigInt reads and whose transfer can be encoded.
  abbrev pub IsPayable : PaymentVoucher → Type 0
  IsPayable v =
      (amount : ℕ) × (call : String) × (host.big_int v.amount ≡ some amount)
      × (encode v ≡ some call)

  abbrev ArePayable : Groups → Type 0
  ArePayable [] = Unit
  ArePayable ((key, vs) ∷ groups) = All IsPayable vs × ArePayable groups

  total_of_returns :
      (vs : List PaymentVoucher) → All IsPayable vs → (total : ℕ) × (total_of host vs ≡ some total)
  unfolding total_of
  total_of_returns [] h = (0, refl)
  total_of_returns (v ∷ vs) ((amount, call, read, encoded), h) =
      let (total, e) = total_of_returns vs h in (amount + total, rw (read, total_of) (rw e refl))

  build_batch_calldata_returns :
      (vs : List PaymentVoucher)
      → All IsPayable vs
      → (batch : Batch) × (build_batch_calldata host usdc encode vs ≡ some batch)
  unfolding build_batch_calldata
  build_batch_calldata_returns [] h = (_, refl)
  build_batch_calldata_returns (v ∷ vs) ((amount, call, read, encoded), h) =
      let (batch, e) = build_batch_calldata_returns vs h in
      (
        record {
          targets = usdc ∷ batch.targets;
          values = "0" ∷ batch.values;
          data_of = call ∷ batch.data_of;
        },
        rw (encoded, build_batch_calldata) (rw e refl),
      )

  settle_group_returns :
      (wallet : String) (vs : List PaymentVoucher) (now_ms : ℕ) (s : Store)
      → All IsPayable vs
      → (r : GroupResult) × (s' : Store) × (settle_group host usdc encode submit wallet vs now_ms s
          ≡ some (r, s'))
  unfolding settle_group
  settle_group_returns wallet vs now_ms s h =
      let (batch, built) = build_batch_calldata_returns vs h in
      let (total, summed) = total_of_returns vs h in
      elim (Option-cases (submit wallet vs batch)) [
        | inl failed ↦ (
          record { success = false; tx_hash = ""; count = length vs },
          s,
          rw (built, settle_group) (rw summed (rw failed refl)),
        )
        | inr (tx_hash, sent) ↦ (
          record { success = true; tx_hash = tx_hash; count = length vs },
          mark_vouchers_settled (map (λ v. v.nonce) vs) tx_hash now_ms s,
          rw (built, settle_group) (rw summed (rw sent refl)),
        )
      ]

  settle_groups_returns :
      (groups : Groups) (now_ms : ℕ) (s : Store)
      → ArePayable groups
      → (rs : List GroupResult) × ((settle_groups host usdc encode submit groups now_ms s).0
          ≡ some rs)
  unfolding settle_groups
  settle_groups_returns [] now_ms s h = ([], refl)
  settle_groups_returns ((wallet, vs) ∷ groups) now_ms s (h, hs) =
      let (r, s', done) = settle_group_returns wallet vs now_ms s h in
      let (rs, e) = settle_groups_returns groups now_ms s' hs in
      (r ∷ rs, rw (done, settle_groups) (rw e refl))

  All-snoc :
      (v : PaymentVoucher) (vs : List PaymentVoucher)
      → IsPayable v
      → All IsPayable vs
      → All IsPayable (vs ++ v ∷ [])
  All-snoc v [] p h = (p, tt)
  All-snoc v (u ∷ vs) p (q, h) = (q, All-snoc v vs p h)

  add_to_group-ArePayable :
      (key : String) (v : PaymentVoucher) (groups : Groups)
      → IsPayable v
      → ArePayable groups
      → ArePayable (add_to_group key v groups)
  unfolding add_to_group
  add_to_group-ArePayable key v [] p h = ((p, tt), tt)
  add_to_group-ArePayable key v ((k, vs) ∷ groups) p (q, h) = elim (Bool-cases (str_eq key k)) [
    | inl same ↦ rw same (All-snoc v vs p q, h)
    | inr other ↦ rw other (q, add_to_group-ArePayable key v groups p h)
  ]

  group_all-ArePayable :
      (vs : List PaymentVoucher) (groups : Groups)
      → All IsPayable vs
      → ArePayable groups
      → ArePayable (group_all host vs groups)
  unfolding group_all
  group_all-ArePayable [] groups h hs = hs
  group_all-ArePayable (v ∷ vs) groups (p, h) hs =
      group_all-ArePayable vs _ h
        (add_to_group-ArePayable (host.to_lower_case v.wallet) v groups p hs)

  -- If BigInt reads each amount and each transfer can be encoded, a settlement returns, whatever
  -- the bundler answers, and its result accounts for each voucher.
  pub settle_voucher_batch_returns :
      (vouchers : List PaymentVoucher) (now_ms : ℕ) (s : Store)
      → All IsPayable vouchers
      → (r : BatchSettlementResult) × ((settle_voucher_batch host usdc encode submit vouchers now_ms
            s).0
          ≡ some r)
        × Covers (length vouchers) r
  unfolding settle_voucher_batch group_vouchers_by_wallet
  settle_voucher_batch_returns [] now_ms s h = (_, refl, (refl, refl))
  settle_voucher_batch_returns (v ∷ vouchers) now_ms s h =
      let (rs, done) =
        settle_groups_returns (group_all host (v ∷ vouchers) []) now_ms s
          (group_all-ArePayable (v ∷ vouchers) [] h tt) in
      let (total, summed) = total_of_returns (v ∷ vouchers) h in
      let returned : (settle_voucher_batch host usdc encode submit (v ∷ vouchers) now_ms s).0
          ≡ some (summary rs total) =
        rw (done, settle_voucher_batch, group_vouchers_by_wallet) (rw summed refl) in
      (
        summary rs total,
        returned,
        settle_voucher_batch_count (v ∷ vouchers) now_ms s (summary rs total) returned,
      )
