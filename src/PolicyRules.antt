-- ===== src/PolicyRules.antt =====
-- agentix/packages/compiler: the policy of an intent as rules. types/policy.ts has the rules, and
-- pipeline/stage-5-policy-optimizer.ts drops and merges those that say the same.
pub mod Meaning
pub mod Merging
pub mod Absorbing
pub mod Optimizing
pub mod Generator
mod Tests
use Prim.Native.String.{◌++◌ as append}
use atf.Common.{
  ℕ, Bool, true, false, not, ◌&&◌, ◌||◌, Option, none, some, String, List, [], ◌∷◌, ◌++◌, any,
  every, keep, ltb, leb, ◌==◌, if◌then◌else◌, str_eq, includes, ℤ, gt,
}

pub data RuleType : Type 0 where
  limit constraint requirement delegation : RuleType

pub data LimitField : Type 0 where
  value gas time count target : LimitField

pub data Operator : Type 0 where
  lte gte eq in_list not_in : Operator

-- The kinds of `unknown` that the code tells apart.
pub data LimitValue : Type 0 where
  text : String → LimitValue
  number : ℕ → LimitValue
  texts : List String → LimitValue

pub record Limit : Type 0 where
  pub field : LimitField
  pub operator : Operator
  pub value : LimitValue

pub record Constraint : Type 0 where
  pub must_have : List String
  pub must_not_have : List String
  pub must_delegate : Bool

pub record Requirement : Type 0 where
  pub credential_version : ℕ
  pub required_permissions : ℕ
  pub zk_proof_required : Bool

pub record PolicyRule : Type 0 where
  pub id : String
  pub rule_type : RuleType
  pub source : String
  pub precedence : ℕ
  pub limit : Option Limit
  pub constraint : Option Constraint
  pub requirement : Option Requirement

-- `BigInt` (`none` where it throws) and `toString` of a bigint.
pub record Numerals : Type 0 where
  pub big_int : String → Option ℤ
  pub to_string : ℤ → String

abbrev type_rank : RuleType → ℕ
type_rank RuleType.limit = 0
type_rank RuleType.constraint = 1
type_rank RuleType.requirement = 2
type_rank RuleType.delegation = 3

abbrev field_rank : LimitField → ℕ
field_rank LimitField.value = 0
field_rank LimitField.gas = 1
field_rank LimitField.time = 2
field_rank LimitField.count = 3
field_rank LimitField.target = 4

abbrev operator_rank : Operator → ℕ
operator_rank Operator.lte = 0
operator_rank Operator.gte = 1
operator_rank Operator.eq = 2
operator_rank Operator.in_list = 3
operator_rank Operator.not_in = 4

abbrev pub same_type : RuleType → RuleType → Bool
same_type a b = type_rank a == type_rank b

abbrev pub same_field : LimitField → LimitField → Bool
same_field a b = field_rank a == field_rank b

abbrev pub same_operator : Operator → Operator → Bool
same_operator a b = operator_rank a == operator_rank b

-- `a.limit?.field === b.limit?.field && a.limit?.operator === b.limit?.operator`
abbrev pub same_shape : Option Limit → Option Limit → Bool
same_shape none none = true
same_shape none (some b) = false
same_shape (some a) none = false
same_shape (some a) (some b) = same_field a.field b.field && same_operator a.operator b.operator

unfoldable pub is_compatible : PolicyRule → PolicyRule → Bool
is_compatible a b =
    (same_type a.rule_type b.rule_type && str_eq a.source b.source) && same_shape a.limit b.limit

module _ (numerals : Numerals) where
  abbrev pub at_most : Option ℤ → Option ℤ → Bool
  at_most none b = false
  at_most (some a) none = false
  at_most (some a) (some b) = not (gt a b)

  -- `_implies` on two values under one operator.
  abbrev pub value_implies : Operator → LimitValue → LimitValue → Bool
  value_implies Operator.lte (LimitValue.text a) (LimitValue.text b) =
      at_most (numerals.big_int a) (numerals.big_int b)
  value_implies Operator.in_list (LimitValue.texts a) (LimitValue.texts b) =
      every (λ v. includes v b) a
  value_implies _ a b = false

  abbrev pub limit_implies : Option Limit → Option Limit → Bool
  limit_implies none b = false
  limit_implies (some a) none = false
  limit_implies (some a) (some b) =
      (same_field a.field b.field && same_operator a.operator b.operator)
      && value_implies a.operator a.value b.value

  unfoldable pub implies : PolicyRule → PolicyRule → Bool
  implies a b = same_type a.rule_type b.rule_type && limit_implies a.limit b.limit

  -- The loop of `_removeRedundancies`, on the rules that are kept so far.
  unfoldable pub remove_redundancies : List PolicyRule → List PolicyRule → List PolicyRule
  unfolding implies
  remove_redundancies kept [] = kept
  remove_redundancies kept (r ∷ rules) =
      remove_redundancies (if any (λ a. implies a r) kept then kept else kept ++ r ∷ []) rules

  abbrev pub lesser : String → Option ℤ → Option ℤ → LimitValue
  lesser kept none b = LimitValue.text kept
  lesser kept (some a) none = LimitValue.text kept
  lesser kept (some a) (some b) = LimitValue.text (numerals.to_string (if gt b a then a else b))

  abbrev pub merge_values : Operator → LimitValue → LimitValue → LimitValue
  merge_values Operator.lte (LimitValue.text a) (LimitValue.text b) =
      lesser a (numerals.big_int a) (numerals.big_int b)
  merge_values Operator.in_list (LimitValue.texts a) (LimitValue.texts b) =
      LimitValue.texts (keep (λ v. includes v b) a)
  merge_values _ a b = a

  abbrev pub merge_limits : Option Limit → Option Limit → Option Limit
  merge_limits none b = none
  merge_limits (some a) none = some a
  merge_limits (some a) (some b) =
      some (record a { value = merge_values a.operator a.value b.value })

  unfoldable pub do_merge : PolicyRule → PolicyRule → PolicyRule
  do_merge a b = record a { limit = merge_limits a.limit b.limit }

  -- The inner loop of `_mergeCompatible`: the current rule, and the ids used.
  unfoldable pub absorb : PolicyRule → List String → List PolicyRule → PolicyRule × List String
  unfolding is_compatible do_merge
  absorb current used [] = (current, used)
  absorb current used (r ∷ rules) =
      if includes r.id used
      then absorb current used rules
      else if is_compatible current r
      then absorb (do_merge current r) (r.id ∷ used) rules
      else absorb current used rules

  unfoldable pub merge_compatible : List String → List PolicyRule → List PolicyRule
  unfolding absorb
  merge_compatible used [] = []
  merge_compatible used (r ∷ rules) =
      if includes r.id used
      then merge_compatible used rules
      else let (current, used') =
          absorb (record r { id = append r.id "_merged" }) (r.id ∷ used) rules in
        current ∷ merge_compatible used' rules

  unfoldable pub insert_rule : PolicyRule → List PolicyRule → List PolicyRule
  insert_rule r [] = r ∷ []
  insert_rule r (x ∷ rules) =
      if leb x.precedence r.precedence then r ∷ x ∷ rules else x ∷ insert_rule r rules

  -- `rules.sort((a, b) => b.precedence - a.precedence)`, which is stable.
  unfoldable pub sort_rules : List PolicyRule → List PolicyRule
  unfolding insert_rule
  sort_rules [] = []
  sort_rules (r ∷ rules) = insert_rule r (sort_rules rules)

  unfoldable pub optimize : List PolicyRule → List PolicyRule
  unfolding remove_redundancies merge_compatible sort_rules
  optimize rules = sort_rules (merge_compatible [] (remove_redundancies [] rules))
