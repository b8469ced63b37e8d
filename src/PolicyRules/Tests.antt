-- ===== src/PolicyRules/Tests.antt =====
-- A run of the optimizer, with numbers written in strokes after their sign.
use atf.Common.{
  ◌≡◌, refl, none, some, String, List, [], ◌∷◌, every, ℤ, read_strokes, write_strokes,
  read_strokes-write_strokes,
}
use atf.PolicyRules.{RuleType, LimitField, Operator, LimitValue, PolicyRule, Numerals, optimize}
use atf.PolicyRules.Meaning.{Request, permits}
use atf.PolicyRules.Optimizing.{optimize-permits}

abbrev unary : Numerals
unary = record { big_int = read_strokes; to_string = write_strokes }

abbrev bound : String → String → PolicyRule
bound id text = record {
  id = id;
  rule_type = RuleType.limit;
  source = "intent";
  precedence = 100;
  limit =
      some (record {
        field = LimitField.value;
        operator = Operator.lte;
        value = LimitValue.text text;
      });
  constraint = none;
  requirement = none;
}

abbrev targets : String → List String → PolicyRule
targets id list = record {
  id = id;
  rule_type = RuleType.limit;
  source = "intent";
  precedence = 95;
  limit = some (record {
    field = LimitField.target;
    operator = Operator.in_list;
    value = LimitValue.texts list;
  });
  constraint = none;
  requirement = none;
}

abbrev rules : List PolicyRule
rules =
    bound "a" "+1111"
    ∷ targets "b" ("0x1" ∷ "0x2" ∷ [])
    ∷ bound "c" "+11"
    ∷ targets "d" ("0x2" ∷ "0x3" ∷ [])
    ∷ []

abbrev request : Request
request = record { amount = λ f. ℤ.pos 2; place = λ f. "0x2" }

optimize-permits_example :
    every (permits unary request) (optimize unary rules) ≡ every (permits unary request) rules
optimize-permits_example = optimize-permits unary request rules read_strokes-write_strokes refl refl
