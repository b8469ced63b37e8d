-- ===== src/Vouchers/Grouping.antt =====
-- Grouping by wallet loses no voucher, mixes no wallets and keeps the order within a wallet.
use atf.Common.{
  str_eq_comm, ℕ, ◌+◌, ◌≡◌, refl, sym, ap, ◌∙◌, false, String, List, [], ◌∷◌, ◌++◌, if◌then◌else◌,
  str_eq, str_eq_iff, length, length-append, keep, arith, Bool-cases, inl, inr,
}
use mathlib.Core.List.{append-nil, append_assoc}
use atf.Vouchers.{PaymentVoucher, Host}
use atf.Vouchers.Settlement.{Groups, add_to_group, group_all, group_vouchers_by_wallet}

-- The vouchers of all groups.
abbrev pub size_of : Groups → ℕ
size_of [] = 0
size_of ((key, vs) ∷ groups) = length vs + size_of groups

-- The group of a key, empty for one that is absent.
abbrev pub group_of : String → Groups → List PaymentVoucher
group_of key [] = []
group_of key ((k, vs) ∷ groups) = if str_eq key k then vs else group_of key groups

size_of-add_to_group :
    (key : String) (v : PaymentVoucher) (groups : Groups)
    → size_of (add_to_group key v groups) ≡ size_of groups + 1
unfolding add_to_group
size_of-add_to_group key v [] = refl
size_of-add_to_group key v ((k, vs) ∷ groups) =
    ground (arith, length-append vs (v ∷ []), size_of-add_to_group key v groups)

group_of-add_to_group :
    (key k : String) (v : PaymentVoucher) (groups : Groups)
    → group_of k (add_to_group key v groups)
      ≡ group_of k groups ++ (if str_eq key k then v ∷ [] else [])
unfolding add_to_group
group_of-add_to_group key k v [] = rw (str_eq_comm k key) refl
group_of-add_to_group key k v ((j, vs) ∷ groups) = elim (Bool-cases (str_eq key j)) [
  | inl same ↦
      let flip : str_eq key k ≡ str_eq k j =
        str_eq_comm key k ∙ ap (str_eq k) ((str_eq_iff key j).0 same) in
      elim (Bool-cases (str_eq k j)) [
        | inl at ↦ rw (same, flip, at) refl
        | inr off ↦ rw (same, flip, off) (sym (append-nil (group_of k groups)))
      ]
  | inr other ↦ elim (Bool-cases (str_eq k j)) [
    | inl at ↦
        let apart : str_eq key k ≡ false = ap (str_eq key) ((str_eq_iff k j).0 at) ∙ other in
        rw (other, apart, at) (sym (append-nil vs))
    | inr off ↦ rw (other, off) (group_of-add_to_group key k v groups)
  ]
]

module _ (host : Host) where
  -- The vouchers of a wallet, however its address is written.
  abbrev pub of_wallet : String → List PaymentVoucher → List PaymentVoucher
  of_wallet key vouchers = keep (λ v. str_eq (host.to_lower_case v.wallet) key) vouchers

  size_of-group_all :
      (vouchers : List PaymentVoucher) (groups : Groups)
      → size_of (group_all host vouchers groups) ≡ size_of groups + length vouchers
  unfolding group_all
  size_of-group_all [] groups = omega arith
  size_of-group_all (v ∷ vouchers) groups = omega (
    arith,
    size_of-group_all vouchers (add_to_group (host.to_lower_case v.wallet) v groups),
    size_of-add_to_group (host.to_lower_case v.wallet) v groups,
  )

  group_of-group_all :
      (key : String) (vouchers : List PaymentVoucher) (groups : Groups)
      → group_of key (group_all host vouchers groups)
        ≡ group_of key groups ++ of_wallet key vouchers
  unfolding group_all
  group_of-group_all key [] groups = sym (append-nil (group_of key groups))
  group_of-group_all key (v ∷ vouchers) groups =
      let w = host.to_lower_case v.wallet in
      let step = group_of-add_to_group w key v groups in
      elim (Bool-cases (str_eq w key)) [
        | inl here ↦
            group_of-group_all key vouchers (add_to_group w v groups)
            ∙ rw (step, here) (append_assoc (group_of key groups) (v ∷ []) (of_wallet key vouchers))
        | inr other ↦
            group_of-group_all key vouchers (add_to_group w v groups)
            ∙ rw (step, other)
                (ap (λ l. l ++ of_wallet key vouchers) (append-nil (group_of key groups)))
      ]

  -- The groups hold as many vouchers as there were, and the group of a wallet is the list of its
  -- vouchers in their order.
  pub group_vouchers_by_wallet_lem :
      (vouchers : List PaymentVoucher) (key : String)
      → (size_of (group_vouchers_by_wallet host vouchers) ≡ length vouchers)
        × (group_of key (group_vouchers_by_wallet host vouchers) ≡ of_wallet key vouchers)
  unfolding group_vouchers_by_wallet
  group_vouchers_by_wallet_lem vouchers key =
      (omega (arith, size_of-group_all vouchers []), group_of-group_all key vouchers [])
