-- ===== src/Risk/Calldata.antt =====
-- agentix/packages/compiler/risk/calldata.ts: the token call that the inner data of an execution
-- makes. Texts are lists of character codes here; a counterparty is a number, as every address.
use atf.Common.{
  ℕ, ◌-◌, ◌/◌, ◌%◌, ◌^◌, Bool, true, false, Option, none, some, String, List, [], ◌∷◌, map, take,
  drop, length, ltb, leb, if◌then◌else◌, codes, lower, same_codes,
}
use atf.Risk.Doubles.{Doubles}

abbrev pub transfer_selector : String
transfer_selector = "0xa9059cbb"

abbrev pub transfer_from_selector : String
transfer_from_selector = "0x23b872dd"

abbrev pub approve_selector : String
approve_selector = "0x095ea7b3"

abbrev pub increase_allowance_selector : String
increase_allowance_selector = "0x39509351"

unfoldable pub uint256_max : ℕ
uint256_max = 2 ^ 256 - 1

unfoldable pub near_unlimited : ℕ
unfolding uint256_max
near_unlimited = uint256_max / 2

pub data TokenOpKind : Type 0 where
  transfer transfer_from approve increase_allowance : TokenOpKind

pub record DecodedTokenOp : Type 0 where
  pub kind : TokenOpKind
  pub token : List ℕ
  pub counterparty : ℕ
  pub source : Option ℕ
  pub amount : ℕ
  pub is_unlimited_approval : Bool
  pub is_approval : Bool

-- `abi.decode` of the digits after "0x", for (address, uint256) and for (address, address, uint256);
-- `none` where it throws.
pub record AbiCoder : Type 0 where
  pub decode_pair : List ℕ → Option (ℕ × ℕ)
  pub decode_triple : List ℕ → Option (ℕ × ℕ × ℕ)

abbrev pub lower_codes : String → List ℕ
lower_codes text = map lower (codes text)

abbrev is_selector : String → List ℕ → Bool
is_selector selector data_codes = same_codes (codes selector) (take 10 data_codes)

unfoldable pub decoded_transfer : List ℕ → Option (ℕ × ℕ) → Option DecodedTokenOp
decoded_transfer token none = none
decoded_transfer token (some (to, amount)) = some (record {
  kind = TokenOpKind.transfer;
  token = token;
  counterparty = to;
  source = none;
  amount = amount;
  is_unlimited_approval = false;
  is_approval = false;
})

unfoldable pub decoded_transfer_from : List ℕ → Option (ℕ × ℕ × ℕ) → Option DecodedTokenOp
decoded_transfer_from token none = none
decoded_transfer_from token (some (source, to, amount)) = some (record {
  kind = TokenOpKind.transfer_from;
  token = token;
  counterparty = to;
  source = some source;
  amount = amount;
  is_unlimited_approval = false;
  is_approval = false;
})

unfoldable pub decoded_approval : TokenOpKind → List ℕ → Option (ℕ × ℕ) → Option DecodedTokenOp
unfolding near_unlimited
decoded_approval kind token none = none
decoded_approval kind token (some (spender, amount)) = some (record {
  kind = kind;
  token = token;
  counterparty = spender;
  source = none;
  amount = amount;
  is_unlimited_approval = leb near_unlimited amount;
  is_approval = true;
})

-- From the selector on; the data is in lower case and has a selector.
unfoldable pub decode_selected : AbiCoder → List ℕ → List ℕ → Option DecodedTokenOp
unfolding decoded_transfer decoded_transfer_from decoded_approval
decode_selected coder token text =
    if is_selector transfer_selector text
    then decoded_transfer token (coder.decode_pair (drop 10 text))
    else if is_selector transfer_from_selector text
    then decoded_transfer_from token (coder.decode_triple (drop 10 text))
    else if is_selector approve_selector text
    then decoded_approval TokenOpKind.approve token (coder.decode_pair (drop 10 text))
    else if is_selector increase_allowance_selector text
    then decoded_approval TokenOpKind.increase_allowance token (coder.decode_pair (drop 10 text))
    else none

-- An absent or empty text counts as "0x", which has no selector either.
unfoldable pub decode_token_call : AbiCoder → String → String → Option DecodedTokenOp
unfolding decode_selected
decode_token_call coder target inner_data =
    let text = lower_codes inner_data in
    if ltb (length text) 10 then none else decode_selected coder (lower_codes target) text

pub record KnownToken : Type 0 where
  pub address : String
  pub decimals : ℕ
  -- USD for a whole token
  pub usd : ℕ

abbrev pub known_tokens : List KnownToken
known_tokens =
    record { address = "0x036cbd53842c5426634e7929541ec2318f3dcf7e"; decimals = 6; usd = 1 }
    ∷ record { address = "0x833589fcd6edb6e08f4c7c32d4f71b54bda02913"; decimals = 6; usd = 1 }
    ∷ record { address = "0x50c5725949a6f0c72e6c4a641f24049a917db0cb"; decimals = 18; usd = 1 }
    ∷ []

abbrev pub find_token : List ℕ → List KnownToken → Option KnownToken
find_token address [] = none
find_token address (t ∷ tokens) =
    if same_codes (codes t.address) address then some t else find_token address tokens

module _ (dbl : Doubles) where
  open dbl use {Num, of_ℕ, add, mul, div}

  unfoldable pub notional_in : ℕ → Option KnownToken → Num
  notional_in amount none = of_ℕ 0
  notional_in amount (some t) =
      if leb t.usd 0
      then of_ℕ 0
      else (let denom = 10 ^ t.decimals in
          add (mul (of_ℕ (amount / denom)) (of_ℕ t.usd))
            (mul (div (of_ℕ (amount % denom)) (of_ℕ denom)) (of_ℕ t.usd)))

  -- The USD of an amount of a token, 0 where the token has no price.
  unfoldable pub token_notional_usd : List ℕ → ℕ → Num
  unfolding notional_in
  token_notional_usd address amount = notional_in amount (find_token address known_tokens)
