-- ===== src/Vouchers/Settlement.antt =====
-- agentix/src/core/x402-voucher.ts: the settlement of the vouchers that were accepted, in batches of
-- one wallet.
use atf.Common.{
  ℕ, ◌+◌, ◌/◌, Bool, true, false, Option, none, some, String, List, [], ◌∷◌, ◌++◌, map, reverse,
  leb, ltb, ◌==◌, ◌&&◌, if◌then◌else◌, str_eq, length, keep, take,
}
use atf.Vouchers.{PaymentVoucher, Status, Row, Store, Host}

abbrev pub max_batch_size : ℕ
max_batch_size = 50

abbrev pub settle_row : String → String → ℕ → Row → Row
settle_row nonce tx_hash now r =
    if str_eq r.voucher.nonce nonce
    then record r { status = Status.settled; settled_at = some now; settlement_tx = tx_hash }
    else r

unfoldable pub mark_vouchers_settled : List String → String → ℕ → Store → Store
mark_vouchers_settled [] tx_hash now_ms s = s
mark_vouchers_settled (nonce ∷ nonces) tx_hash now_ms s =
    mark_vouchers_settled nonces tx_hash now_ms
      (record s { voucher_table = map (settle_row nonce tx_hash (now_ms / 1000)) s.voucher_table })

abbrev is_pending : Status → Bool
is_pending Status.pending = true
is_pending Status.settled = false

-- ORDER BY created_at ASC, an older row before a newer one of the same second.
abbrev insert_by_age : Row → List Row → List Row
insert_by_age r [] = r ∷ []
insert_by_age r (x ∷ rows) =
    if leb r.created_at x.created_at then r ∷ x ∷ rows else x ∷ insert_by_age r rows

abbrev sort_by_age : List Row → List Row
sort_by_age [] = []
sort_by_age (r ∷ rows) = insert_by_age r (sort_by_age rows)

unfoldable pub get_pending_vouchers : ℕ → ℕ → Store → List PaymentVoucher
get_pending_vouchers limit now_ms s =
    map (λ r. r.voucher)
      (take limit (
        sort_by_age (
          keep (λ r. is_pending r.status && ltb (now_ms / 1000) r.voucher.expiry)
            (reverse s.voucher_table))))

abbrev pub Groups : Type 0
Groups = List (String × List PaymentVoucher)

-- One round of the loop: the Map keeps its keys in the order of their first voucher.
unfoldable pub add_to_group : String → PaymentVoucher → Groups → Groups
add_to_group key v [] = (key, v ∷ []) ∷ []
add_to_group key v ((k, vs) ∷ groups) =
    if str_eq key k then (k, vs ++ v ∷ []) ∷ groups else (k, vs) ∷ add_to_group key v groups

pub record Batch : Type 0 where
  pub targets : List String
  pub values : List String
  pub data_of : List String

pub record BatchSettlementResult : Type 0 where
  pub success : Bool
  pub tx_hash : Option String
  pub settled_count : ℕ
  pub total_amount : ℕ
  -- The count that the text of `error` names.
  pub error : Option ℕ

-- An entry of `results`.
pub record GroupResult : Type 0 where
  pub success : Bool
  pub tx_hash : String
  pub count : ℕ

unfoldable pub count_of : Bool → List GroupResult → ℕ
count_of wanted [] = 0
count_of true (r ∷ results) = (if r.success then r.count else 0) + count_of true results
count_of false (r ∷ results) = (if r.success then 0 else r.count) + count_of false results

unfoldable pub first_hash : List GroupResult → Option String
first_hash [] = none
first_hash (r ∷ results) = if r.success then some r.tx_hash else first_hash results

unfoldable pub summary : List GroupResult → ℕ → BatchSettlementResult
unfolding count_of first_hash
summary results total =
    let failed = count_of false results in
    record {
      success = failed == 0;
      tx_hash = first_hash results;
      settled_count = count_of true results;
      total_amount = total;
      error = if ltb 0 failed then some failed else none;
    }

module _ (host : Host) where
  unfoldable pub group_all : List PaymentVoucher → Groups → Groups
  unfolding add_to_group
  group_all [] groups = groups
  group_all (v ∷ vouchers) groups =
      group_all vouchers (add_to_group (host.to_lower_case v.wallet) v groups)

  unfoldable pub group_vouchers_by_wallet : List PaymentVoucher → Groups
  unfolding group_all
  group_vouchers_by_wallet vouchers = group_all vouchers []

  -- The sum of the amounts; `none` is an error of BigInt.
  unfoldable pub total_of : List PaymentVoucher → Option ℕ
  total_of [] = some 0
  total_of (v ∷ vouchers) =
      let rest = total_of vouchers in
      elim (host.big_int v.amount) [
        | none ↦ none
        | some amount ↦ elim rest [ none ↦ none | some total ↦ some (amount + total) ]
      ]

  -- `usdc` is the address of the token on the chain, `encode` ethers' encoding of a transfer; `none`
  -- is its error.
  module _ (usdc : String) (encode : PaymentVoucher → Option String) where
    unfoldable pub build_batch_calldata : List PaymentVoucher → Option Batch
    build_batch_calldata [] = some (record { targets = []; values = []; data_of = [] })
    build_batch_calldata (v ∷ vouchers) =
        let rest = build_batch_calldata vouchers in
        elim (encode v) [
          | none ↦ none
          | some call ↦ elim rest [
            | none ↦ none
            | some batch ↦ some (record {
              targets = usdc ∷ batch.targets;
              values = "0" ∷ batch.values;
              data_of = call ∷ batch.data_of;
            })
          ]
        ]

    -- `submit` is the part in the try block up to the bundler's answer: the hash of the transaction,
    -- or `none` for a failure or an error.
    module _ (submit : String → List PaymentVoucher → Batch → Option String) where
      -- One round of the loop over the groups; `none` is an error that leaves the function.
      unfoldable pub settle_group :
          String → List PaymentVoucher → ℕ → Store → Option (GroupResult × Store)
      unfolding build_batch_calldata total_of mark_vouchers_settled
      settle_group wallet vs now_ms s = elim (build_batch_calldata vs) [
        | none ↦ none
        | some batch ↦ elim (total_of vs) [
          | none ↦ none
          | some total ↦ elim (submit wallet vs batch) [
            | none ↦ some (record { success = false; tx_hash = ""; count = length vs }, s)
            | some tx_hash ↦ some (
              record { success = true; tx_hash = tx_hash; count = length vs },
              mark_vouchers_settled (map (λ v. v.nonce) vs) tx_hash now_ms s,
            )
          ]
        ]
      ]

      -- The results of the groups, or `none` for an error, and the store that is left behind.
      unfoldable pub settle_groups : Groups → ℕ → Store → Option (List GroupResult) × Store
      unfolding settle_group
      settle_groups [] now_ms s = (some [], s)
      settle_groups ((wallet, vs) ∷ groups) now_ms s = elim (settle_group wallet vs now_ms s) [
        | none ↦ (none, s)
        | some (r, s') ↦
            let (results, s'') = settle_groups groups now_ms s' in
            (elim results [ none ↦ none | some rs ↦ some (r ∷ rs) ], s'')
      ]

      -- `none` is an error that leaves the function.
      unfoldable pub settle_voucher_batch :
          List PaymentVoucher → ℕ → Store → Option BatchSettlementResult × Store
      unfolding settle_groups group_vouchers_by_wallet summary total_of
      settle_voucher_batch [] now_ms s = (
        some (record {
          success = true;
          tx_hash = none;
          settled_count = 0;
          total_amount = 0;
          error = none;
        }),
        s,
      )
      settle_voucher_batch (v ∷ vouchers) now_ms s =
          let (results, s') = settle_groups (group_vouchers_by_wallet (v ∷ vouchers)) now_ms s in
          (
            elim results [
              | none ↦ none
              | some rs ↦ elim (total_of (v ∷ vouchers)) [
                | none ↦ none
                | some total ↦ some (summary rs total)
              ]
            ],
            s',
          )
