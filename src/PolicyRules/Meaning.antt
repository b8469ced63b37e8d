-- ===== src/PolicyRules/Meaning.antt =====
-- What rules permit, and that the optimizer keeps it.
use atf.Common.{
  Bool, true, false, not, ◌&&◌, Option, none, some, String, List, [], ◌∷◌, ◌++◌, any, every, keep,
  str_eq, str_eq_iff, includes, ℤ, gt, is_some, ◌≡◌, refl, sym, ◌∙◌, ap, arith, Bool-cases, inl,
  inr, and_left, and_right,
}
use mathlib.Core.Path.{subst}
use atf.PolicyRules.{
  LimitField, Operator, LimitValue, Limit, PolicyRule, Numerals, same_field, same_operator, at_most,
  value_implies, limit_implies, implies, remove_redundancies,
}

-- The figures and addresses that an action has for each field.
pub record Request : Type 0 where
  pub amount : LimitField → ℤ
  pub place : LimitField → String

pub same_field_sound : (a b : LimitField) → same_field a b ≡ true → a ≡ b
same_field_sound a b h = ground (arith, h)

pub same_operator_sound : (a b : Operator) → same_operator a b ≡ true → a ≡ b
same_operator_sound a b h = ground (arith, h)

gt_trans : (x y z : ℤ) → gt x y ≡ false → gt y z ≡ false → gt x z ≡ false
gt_trans x y z h k = ground (arith, h, k)

includes-every :
    (p : String) (xs ys : List String)
    → every (λ v. includes v ys) xs ≡ true
    → includes p xs ≡ true
    → includes p ys ≡ true
includes-every p [] ys h k = let wrong : false ≡ true = k in cc
includes-every p (x ∷ xs) ys h k = elim (Bool-cases (str_eq x p)) [
  | inl same ↦ ap (λ v. includes v ys) (sym ((str_eq_iff x p).0 same)) ∙ ground arith
  | inr other ↦ includes-every p xs ys (ground arith) (rw other at k)
]

pub includes-keep :
    (p : String) (xs ys : List String)
    → includes p (keep (λ v. includes v ys) xs) ≡ (includes p xs && includes p ys)
includes-keep p [] ys = refl
includes-keep p (x ∷ xs) ys = elim (Bool-cases (str_eq x p)) [
  | inl same ↦
      let here : includes x ys ≡ includes p ys =
        ap (λ v. includes v ys) ((str_eq_iff x p).0 same) in
      ground (arith, here, includes-keep p xs ys)
  | inr other ↦ ground (arith, other, includes-keep p xs ys)
]

module _ (numerals : Numerals) (q : Request) where
  abbrev pub below : ℤ → Option ℤ → Bool
  below x none = true
  below x (some bound) = not (gt x bound)

  abbrev pub permits_value : LimitField → Operator → LimitValue → Bool
  permits_value f Operator.lte (LimitValue.text v) = below (q.amount f) (numerals.big_int v)
  permits_value f Operator.in_list (LimitValue.texts ts) = includes (q.place f) ts
  permits_value f _ v = true

  abbrev pub permits_limit : Option Limit → Bool
  permits_limit none = true
  permits_limit (some l) = permits_value l.field l.operator l.value

  -- What a rule permits, as far as bounds that are texts and lists of targets go.
  abbrev pub permits : PolicyRule → Bool
  permits r = permits_limit r.limit

  abbrev pub plain_value : Operator → LimitValue → Bool
  plain_value Operator.lte (LimitValue.text v) = is_some (numerals.big_int v)
  plain_value Operator.in_list (LimitValue.texts ts) = true
  plain_value _ v = false

  abbrev pub plain_limit : Option Limit → Bool
  plain_limit none = false
  plain_limit (some l) = plain_value l.operator l.value

  -- A rule with a bound that BigInt reads, or with a list of targets.
  abbrev pub is_plain : PolicyRule → Bool
  is_plain r = plain_limit r.limit

  at_most-below :
      (x : ℤ) (a b : Option ℤ) → at_most numerals a b ≡ true → below x a ≡ true → below x b ≡ true
  at_most-below x none b h k = let wrong : false ≡ true = h in cc
  at_most-below x (some a) none h k = refl
  at_most-below x (some a) (some b) h k = ground (arith, gt_trans x a b, h, k)

  value_implies-permits :
      (f : LimitField) (o : Operator) (a b : LimitValue)
      → value_implies numerals o a b ≡ true
      → permits_value f o a ≡ true
      → permits_value f o b ≡ true
  value_implies-permits f Operator.lte (LimitValue.text a) (LimitValue.text b) h k =
      at_most-below (q.amount f) (numerals.big_int a) (numerals.big_int b) h k
  value_implies-permits f Operator.in_list (LimitValue.texts a) (LimitValue.texts b) h k =
      includes-every (q.place f) a b h k
  value_implies-permits f o a b h k = let wrong : false ≡ true = h in cc

  same_shape-permits :
      (f g : LimitField) (o o' : Operator) (a b : LimitValue)
      → same_field f g ≡ true
      → same_operator o o' ≡ true
      → value_implies numerals o a b ≡ true
      → permits_value f o a ≡ true
      → permits_value g o' b ≡ true
  same_shape-permits f g o o' a b fields operators h k =
      subst (λ x. permits_value x o' b ≡ true) (same_field_sound f g fields)
        (subst (λ x. permits_value f x b ≡ true) (same_operator_sound o o' operators)
          (value_implies-permits f o a b h k))

  limit_implies-permits :
      (a b : Option Limit)
      → limit_implies numerals a b ≡ true
      → permits_limit a ≡ true
      → permits_limit b ≡ true
  limit_implies-permits none b h k = let wrong : false ≡ true = h in cc
  limit_implies-permits (some a) none h k = refl
  limit_implies-permits (some a) (some b) h k =
      let shape =
        and_left (same_field a.field b.field && same_operator a.operator b.operator) _ h in
      same_shape-permits a.field b.field a.operator b.operator a.value b.value
        (and_left (same_field a.field b.field) _ shape)
        (and_right (same_field a.field b.field) _ shape)
        (and_right (same_field a.field b.field && same_operator a.operator b.operator) _ h) k

  any-implies :
      (kept : List PolicyRule) (r : PolicyRule)
      → any (λ a. implies numerals a r) kept ≡ true
      → every permits kept ≡ true
      → permits r ≡ true
  unfolding implies
  any-implies [] r h k = let wrong : false ≡ true = h in cc
  any-implies (a ∷ kept) r h k = elim (Bool-cases (limit_implies numerals a.limit r.limit)) [
    | inl yes_it ↦ limit_implies-permits a.limit r.limit yes_it (ground arith)
    | inr no_it ↦ any-implies kept r (ground (arith, h, no_it)) (ground arith)
  ]

  every-append_rule :
      (p : PolicyRule → Bool) (rules : List PolicyRule) (r : PolicyRule)
      → every p (rules ++ r ∷ []) ≡ (every p rules && p r)
  every-append_rule p [] r = ground arith
  every-append_rule p (x ∷ rules) r = ground (arith, every-append_rule p rules r)

  pub remove_redundancies-permits :
      (kept rules : List PolicyRule)
      → every permits (remove_redundancies numerals kept rules)
        ≡ (every permits kept && every permits rules)
  unfolding remove_redundancies
  remove_redundancies-permits kept [] = ground arith
  remove_redundancies-permits kept (r ∷ rules) =
      elim (Bool-cases (any (λ a. implies numerals a r) kept)) [
        | inl known ↦
            rw known
              (ground (arith, remove_redundancies-permits kept rules, any-implies kept r known))
        | inr new ↦ rw new (
            ground (
              arith,
              remove_redundancies-permits (kept ++ r ∷ []) rules,
              every-append_rule permits kept r,
            ))
      ]
