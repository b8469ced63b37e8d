-- ===== src/Risk/Addresses.antt =====
-- The texts that stand for addresses, and the targets that an intent names
-- (agentix/packages/compiler/risk/context.ts, `ADDR_RE` and `extractTargets`).
use atf.Common.{
  ℕ, ◌+◌, ◌-◌, ◌*◌, Bool, true, false, ◌&&◌, ◌||◌, Option, none, some, String, List, [], ◌∷◌, ◌++◌,
  any-append, every, length, foldl, leb, ◌==◌, if◌then◌else◌, codes, includes, str_eq_iff, str_eq,
  ◌≡◌, refl, ap, ◌∙◌, arith, Bool-cases, Option-cases, inl, inr,
}
use atf.Risk.Reputation.{has}

abbrev pub is_hex : ℕ → Bool
is_hex c = (leb b'0' c && leb c b'9') || ((leb b'a' c && leb c b'f') || (leb b'A' c && leb c b'F'))

abbrev pub digit_value : ℕ → ℕ
digit_value c = if leb c b'9' then c - b'0' else if leb c b'F' then c - 55 else c - 87

-- A text of the form of `ADDR_RE`, as the number that its digits write.
unfoldable pub address_of_codes : List ℕ → Option ℕ
address_of_codes [] = none
address_of_codes (a ∷ []) = none
address_of_codes (a ∷ b ∷ digits) =
    if ((a == b'0') && (b == b'x')) && ((length digits == 40) && every is_hex digits)
    then some (foldl (λ n c. n * 16 + digit_value c) 0 digits)
    else none

unfoldable pub address_of : String → Option ℕ
unfolding address_of_codes
address_of text = address_of_codes (codes text)

-- The parts of an intent that name an address; "" where a field is absent or no text.
pub record AddressParams : Type 0 where
  -- `intent.targets`
  pub intent_targets : List String
  pub target : String
  pub recipient : String
  pub delegatee : String
  pub delegator : String
  pub owner_address : String
  pub wallet_address : String
  pub session_key : String
  -- `params.targets`
  pub targets : List String

abbrev pub add_target : ℕ → List ℕ → List ℕ
add_target t out = if has out t then out else out ++ t ∷ []

abbrev add_if_some : Option ℕ → List ℕ → List ℕ
add_if_some none out = out
add_if_some (some t) out = add_target t out

-- `push`
unfoldable pub push : List ℕ → String → List ℕ
unfolding address_of
push out text = add_if_some (address_of text) out

abbrev pub address_texts : AddressParams → List String
address_texts p =
    p.intent_targets
    ++ p.target ∷ p.recipient ∷ p.delegatee ∷ p.delegator ∷ p.owner_address ∷ p.wallet_address
      ∷ p.session_key ∷ p.targets

unfoldable pub extract_targets : AddressParams → List ℕ
unfolding push
extract_targets p = foldl push [] (address_texts p)

has-append : (xs ys : List ℕ) (t : ℕ) → has (xs ++ ys) t ≡ (has xs t || has ys t)
has-append xs ys t = any-append (λ x. x == t) xs ys

-- Pushing keeps what is there, and leaves there what it pushes.
pub add_target-keeps : (x t : ℕ) (out : List ℕ) → has out t ≡ true → has (add_target x out) t ≡ true
add_target-keeps x t out there = elim (Bool-cases (has out x)) [
  | inl old ↦ rw old there
  | inr new ↦ rw new (has-append out (x ∷ []) t ∙ rw there refl)
]

pub add_target-has : (t : ℕ) (out : List ℕ) → has (add_target t out) t ≡ true
add_target-has t out = elim (Bool-cases (has out t)) [
  | inl old ↦ rw old old
  | inr new ↦ rw new (has-append out (t ∷ []) t ∙ ground (arith, new))
]

push-keeps :
    (out : List ℕ) (text : String) (t : ℕ) → has out t ≡ true → has (push out text) t ≡ true
unfolding push
push-keeps out text t there = elim (Option-cases (address_of text)) [
  | inl no_address ↦ rw (no_address, add_if_some) there
  | inr (x, is) ↦ rw (is, add_if_some) (add_target-keeps x t out there)
]

push-has :
    (out : List ℕ) (text : String) (t : ℕ) → address_of text ≡ some t → has (push out text) t ≡ true
unfolding push
push-has out text t is = rw (is, add_if_some) (add_target-has t out)

all_pushed-keeps :
    (texts : List String) (out : List ℕ) (t : ℕ)
    → has out t ≡ true
    → has (foldl push out texts) t ≡ true
all_pushed-keeps [] out t there = there
all_pushed-keeps (text ∷ texts) out t there =
    all_pushed-keeps texts (push out text) t (push-keeps out text t there)

all_pushed-has :
    (texts : List String) (out : List ℕ) (text : String) (t : ℕ)
    → address_of text ≡ some t
    → includes text texts ≡ true
    → has (foldl push out texts) t ≡ true
all_pushed-has [] out text t is among = let wrong : false ≡ true = among in cc
all_pushed-has (x ∷ texts) out text t is among = elim (Bool-cases (str_eq x text)) [
  | inl here ↦
      all_pushed-keeps texts (push out x) t
        (push-has out x t (ap address_of ((str_eq_iff x text).0 here) ∙ is))
  | inr off ↦ all_pushed-has texts (push out x) text t is (ground (arith, among, off))
]

-- Each text of the intent that is an address is among the targets.
pub extract_targets-has :
    (p : AddressParams) (text : String) (t : ℕ)
    → address_of text ≡ some t
    → includes text (address_texts p) ≡ true
    → has (extract_targets p) t ≡ true
unfolding extract_targets
extract_targets-has p text t is among = all_pushed-has (address_texts p) [] text t is among
