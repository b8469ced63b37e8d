-- ===== src/PolicyRules/Merging.antt =====
-- Merged rules permit what the rules permitted that went into them.
use atf.Common.{
  true, false, not, ◌&&◌, Option, none, some, String, if◌then◌else◌, str_eq, ℤ, gt, is_some, ◌≡◌,
  refl, sym, arith, Option-cases, inl, inr, and_left, and_right,
}
use mathlib.Core.Path.{subst}
use atf.PolicyRules.{
  LimitField, Operator, LimitValue, Limit, PolicyRule, Numerals, same_field, same_type,
  same_operator, same_shape, is_compatible, lesser, merge_values, merge_limits, do_merge,
}
use atf.PolicyRules.Meaning.{
  Request, same_field_sound, same_operator_sound, includes-keep, permits_value, permits_limit,
  permits, plain_value, plain_limit, is_plain,
}

gt-lesser : (x a b : ℤ) → not (gt x (if gt b a then a else b)) ≡ (not (gt x a) && not (gt x b))
gt-lesser x a b = ground arith

module _ (numerals : Numerals) (q : Request) where
  -- The rule stands for both.
  abbrev Joins : LimitField → Operator → LimitValue → LimitValue → LimitValue → Type 0
  Joins f o a b m =
      (permits_value numerals q f o m
        ≡ (permits_value numerals q f o a && permits_value numerals q f o b))
      × (plain_value numerals q o m ≡ true)

  lesser-Joins :
      (f : LimitField) (a b : String)
      → ((z : ℤ) → numerals.big_int (numerals.to_string z) ≡ some z)
      → is_some (numerals.big_int a) ≡ true
      → is_some (numerals.big_int b) ≡ true
      → Joins f Operator.lte
          (LimitValue.text a)
          (LimitValue.text b)
          (lesser numerals a (numerals.big_int a) (numerals.big_int b))
  lesser-Joins f a b reads h k = elim (Option-cases (numerals.big_int a)) [
    | inl broken ↦ let wrong : false ≡ true = rw broken at h in cc
    | inr (x, is_x) ↦ elim (Option-cases (numerals.big_int b)) [
      | inl broken ↦ let wrong : false ≡ true = rw broken at k in cc
      | inr (y, is_y) ↦
          rw (is_x, is_y) (rw (reads (if gt y x then x else y)) (gt-lesser (q.amount f) x y, refl))
    ]
  ]

  merge_values-Joins :
      (f : LimitField) (o : Operator) (a b : LimitValue)
      → ((z : ℤ) → numerals.big_int (numerals.to_string z) ≡ some z)
      → plain_value numerals q o a ≡ true
      → plain_value numerals q o b ≡ true
      → Joins f o a b (merge_values numerals o a b)
  merge_values-Joins f Operator.lte (LimitValue.text a) (LimitValue.text b) reads h k =
      lesser-Joins f a b reads h k
  merge_values-Joins f Operator.in_list (LimitValue.texts a) (LimitValue.texts b) reads h k =
      (includes-keep (q.place f) a b, refl)
  merge_values-Joins f Operator.lte (LimitValue.text a) b reads h k =
      let wrong : false ≡ true = k in cc
  merge_values-Joins f Operator.in_list (LimitValue.texts a) b reads h k =
      let wrong : false ≡ true = k in cc
  merge_values-Joins f o a b reads h k = let wrong : false ≡ true = h in cc

  -- The same for two limits of one field and operator.
  merge_shapes :
      (f g : LimitField) (o o' : Operator) (a b : LimitValue)
      → ((z : ℤ) → numerals.big_int (numerals.to_string z) ≡ some z)
      → same_field f g ≡ true
      → same_operator o o' ≡ true
      → plain_value numerals q o a ≡ true
      → plain_value numerals q o' b ≡ true
      → (permits_value numerals q f o (merge_values numerals o a b)
          ≡ (permits_value numerals q f o a && permits_value numerals q g o' b))
        × (plain_value numerals q o (merge_values numerals o a b) ≡ true)
  merge_shapes f g o o' a b reads fields operators h k =
      subst
        (λ x.
          (permits_value numerals q f o (merge_values numerals o a b)
            ≡ (permits_value numerals q f o a && permits_value numerals q x o' b))
          × (plain_value numerals q o (merge_values numerals o a b) ≡ true))
        (same_field_sound f g fields)
        (subst
          (λ x.
            (permits_value numerals q f o (merge_values numerals o a b)
              ≡ (permits_value numerals q f o a && permits_value numerals q f x b))
            × (plain_value numerals q o (merge_values numerals o a b) ≡ true))
          (same_operator_sound o o' operators)
          (merge_values-Joins f o a b reads h (
            subst (λ x. plain_value numerals q x b ≡ true)
              (sym (same_operator_sound o o' operators)) k)))

  merge_limits-permits :
      (a b : Option Limit)
      → ((z : ℤ) → numerals.big_int (numerals.to_string z) ≡ some z)
      → same_shape a b ≡ true
      → plain_limit numerals q a ≡ true
      → plain_limit numerals q b ≡ true
      → (permits_limit numerals q (merge_limits numerals a b)
          ≡ (permits_limit numerals q a && permits_limit numerals q b))
        × (plain_limit numerals q (merge_limits numerals a b) ≡ true)
  merge_limits-permits none b reads shape h k = let wrong : false ≡ true = h in cc
  merge_limits-permits (some a) none reads shape h k = let wrong : false ≡ true = k in cc
  merge_limits-permits (some a) (some b) reads shape h k =
      merge_shapes a.field b.field a.operator b.operator a.value b.value reads
        (and_left (same_field a.field b.field) _ shape)
        (and_right (same_field a.field b.field) _ shape) h k

  pub do_merge-permits :
      (a b : PolicyRule)
      → ((z : ℤ) → numerals.big_int (numerals.to_string z) ≡ some z)
      → is_compatible a b ≡ true
      → is_plain numerals q a ≡ true
      → is_plain numerals q b ≡ true
      → (permits numerals q (do_merge numerals a b)
          ≡ (permits numerals q a && permits numerals q b))
        × (is_plain numerals q (do_merge numerals a b) ≡ true)
  unfolding do_merge is_compatible
  do_merge-permits a b reads both h k =
      merge_limits-permits a.limit b.limit reads
        (and_right (same_type a.rule_type b.rule_type && str_eq a.source b.source) _ both) h k
