-- ===== src/PolicyRules/Generator.antt =====
-- agentix/packages/compiler/pipeline/stage-4-policy-generator.ts: the rules that an intent gives rise
-- to, and the limits that they come to.
use atf.Common.{
  ℕ, ◌+◌, false, Option, none, some, String, List, [], ◌∷◌, ◌++◌, take, length, leb, ◌==◌,
  if◌then◌else◌, str_eq, or_else,
}
use atf.PolicyRules.{
  RuleType, LimitField, Operator, LimitValue, Limit, Constraint, PolicyRule, Numerals, same_field,
  sort_rules,
}

-- What the generator reads of an intent; an absent number is 0 and an absent text is empty, which the
-- source's tests of truth do not tell apart.
pub record IntentFacts : Type 0 where
  pub normalized_action : String
  pub session_id : String
  pub organization_id : String
  pub identity_id : String
  pub max_value : String
  pub max_gas : String
  pub expiry : ℕ
  pub targets : List String

-- A rule that a plugin gives.
pub record PluginRule : Type 0 where
  pub id : String
  pub rule_type : Option RuleType
  pub precedence : ℕ
  pub limit : Option Limit
  pub constraint : Option Constraint

pub record EffectiveLimits : Type 0 where
  pub max_value : LimitValue
  pub max_gas : LimitValue
  pub expiry : LimitValue
  pub allowed_targets : List String
  pub max_batch_size : LimitValue

-- `if (text) rules.push(rule)`
abbrev pub if_given : String → PolicyRule → List PolicyRule
if_given text rule = if str_eq text "" then [] else rule ∷ []

abbrev pub limit_rule : String → String → ℕ → LimitField → Operator → LimitValue → PolicyRule
limit_rule id source precedence field operator value = record {
  id = id;
  rule_type = RuleType.limit;
  source = source;
  precedence = precedence;
  limit = some (record { field = field; operator = operator; value = value });
  constraint = none;
  requirement = none;
}

abbrev pub constraint_rule : String → String → ℕ → List String → List String → PolicyRule
constraint_rule id source precedence must must_not = record {
  id = id;
  rule_type = RuleType.constraint;
  source = source;
  precedence = precedence;
  limit = none;
  constraint = some (record { must_have = must; must_not_have = must_not; must_delegate = false });
  requirement = none;
}

-- The ids that `generateId` gives are the parameter `fresh`, one for each place of a call.
module _ (fresh : ℕ → String) where
  unfoldable pub default_rules : IntentFacts → List PolicyRule
  default_rules intent =
      (if intent.expiry == 0
        then []
        else limit_rule (fresh 0) "intent" 100 LimitField.time Operator.lte
            (LimitValue.number intent.expiry)
          ∷ [])
      ++ if_given intent.session_id
          (constraint_rule (fresh 1) "session" 90 [] ("wallet_execute_batch" ∷ []))
      ++ constraint_rule (fresh 2) "system" 10 (intent.normalized_action ∷ []) [] ∷ []

  unfoldable pub limit_rules : IntentFacts → List PolicyRule
  limit_rules intent =
      if_given intent.max_value (
        limit_rule (fresh 3) "intent" 100 LimitField.value Operator.lte
          (LimitValue.text intent.max_value))
      ++ if_given intent.max_gas (
          limit_rule (fresh 4) "intent" 100 LimitField.gas Operator.lte
            (LimitValue.text intent.max_gas))
      ++ (if length intent.targets == 0
          then []
          else limit_rule (fresh 5) "intent" 95 LimitField.target Operator.in_list
              (LimitValue.texts intent.targets)
            ∷ [])
      ++ limit_rule (fresh 6) "system" 5 LimitField.count Operator.lte (LimitValue.number 20) ∷ []

  unfoldable pub constraint_rules : IntentFacts → List PolicyRule
  constraint_rules intent =
      if_given intent.organization_id (constraint_rule (fresh 7) "organization" 80 [] [])
      ++ if_given intent.identity_id (record {
        id = fresh 8;
        rule_type = RuleType.requirement;
        source = "identity";
        precedence = 85;
        limit = none;
        constraint = none;
        requirement = some (record {
          credential_version = 1;
          required_permissions = 1;
          zk_proof_required = false;
        });
      })

  -- A rule of a plugin, with its defaults; `n` numbers the place of the call of generateId.
  unfoldable pub plugin_rule : String → ℕ → PluginRule → PolicyRule
  plugin_rule source n r = record {
    id = if str_eq r.id "" then fresh n else r.id;
    rule_type = or_else r.rule_type RuleType.limit;
    source = source;
    precedence = if r.precedence == 0 then 50 else r.precedence;
    limit = r.limit;
    constraint = r.constraint;
    requirement = none;
  }

  -- The inner loop over the rules of a plugin, up to the greatest number of rules.
  unfoldable pub add_rules : ℕ → String → List PluginRule → List PolicyRule → List PolicyRule
  unfolding plugin_rule
  add_rules max source [] rules = rules
  add_rules max source (r ∷ more) rules =
      if leb max (length rules)
      then rules
      else add_rules max source more (rules ++ plugin_rule source (length rules + 9) r ∷ [])

  -- The loop over the plugins, by their sources and what they answer; `none` where one throws.
  unfoldable pub add_plugins :
      ℕ → List (String × Option (List PluginRule)) → List PolicyRule → List PolicyRule
  unfolding add_rules
  add_plugins max [] rules = rules
  add_plugins max ((source, none) ∷ plugins) rules =
      if leb max (length rules) then rules else add_plugins max plugins rules
  add_plugins max ((source, some given) ∷ plugins) rules =
      if leb max (length rules)
      then rules
      else add_plugins max plugins (add_rules max source given rules)

  -- The first rule that limits a field, in the order of precedence.
  unfoldable pub first_limit : LimitField → List PolicyRule → Option Limit
  first_limit field [] = none
  first_limit field (r ∷ rules) = elim r.limit [
    | none ↦ first_limit field rules
    | some l ↦ if same_field l.field field then some l else first_limit field rules
  ]

  abbrev value_or : LimitValue → Option Limit → LimitValue
  value_or d none = d
  value_or d (some l) = l.value

  abbrev targets_of : Operator → LimitValue → List String
  targets_of Operator.in_list (LimitValue.texts ts) = ts
  targets_of _ v = []

  abbrev targets_or_none : Option Limit → List String
  targets_or_none none = []
  targets_or_none (some l) = targets_of l.operator l.value

  unfoldable pub compute_effective_limits : ℕ → List PolicyRule → EffectiveLimits
  unfolding first_limit
  compute_effective_limits now rules = record {
    max_value = value_or (LimitValue.text "0") (first_limit LimitField.value rules);
    max_gas = value_or (LimitValue.text "0") (first_limit LimitField.gas rules);
    expiry = value_or (LimitValue.number (now + 3_600)) (first_limit LimitField.time rules);
    allowed_targets = targets_or_none (first_limit LimitField.target rules);
    max_batch_size = value_or (LimitValue.number 20) (first_limit LimitField.count rules);
  }

  -- The rules, and the limits, which are taken before the rules are cut to the greatest number.
  unfoldable pub generate_policy :
      Numerals
      → ℕ
      → ℕ
      → List (String × Option (List PluginRule))
      → IntentFacts
      → List PolicyRule × EffectiveLimits
  unfolding default_rules limit_rules constraint_rules add_plugins compute_effective_limits
  generate_policy numerals max now plugins intent =
      let own = default_rules intent ++ limit_rules intent ++ constraint_rules intent in
      let rules = sort_rules numerals (add_plugins max plugins own) in
      (take max rules, compute_effective_limits now rules)
