-- ===== src/PolicyRules/Optimizing.antt =====
-- agentix/packages/compiler/pipeline/stage-5-policy-optimizer.ts: the optimizer as a whole.
use atf.Common.{
  Bool, true, not, ◌&&◌, some, List, [], ◌∷◌, ◌++◌, any, every, str_eq, ℤ, ◌≡◌, refl, sym, ◌∙◌, ap,
  arith, Bool-cases, inl, inr, and_left, and_right, and_both,
}
use mathlib.Core.List.{append-nil}
use mathlib.Core.Path.{subst}
use atf.PolicyRules.{
  PolicyRule, Numerals, implies, remove_redundancies, merge_compatible, insert_rule, sort_rules,
  optimize,
}
use atf.PolicyRules.Absorbing.{lacks, ids_distinct, unused, merge_compatible-permits}
use atf.PolicyRules.Meaning.{Request, permits, is_plain, remove_redundancies-permits}

every-drop :
    (p : PolicyRule → Bool) (kept : List PolicyRule) (r : PolicyRule) (rules : List PolicyRule)
    → every p (kept ++ r ∷ rules) ≡ true
    → every p (kept ++ rules) ≡ true
every-drop p [] r rules h = ground (arith, h)
every-drop p (x ∷ kept) r rules h = ground (arith, h, every-drop p kept r rules)

ids_distinct-drop :
    (kept : List PolicyRule) (r : PolicyRule) (rules : List PolicyRule)
    → ids_distinct (kept ++ r ∷ rules) ≡ true
    → ids_distinct (kept ++ rules) ≡ true
ids_distinct-drop [] r rules h = and_right (lacks r.id rules) _ h
ids_distinct-drop (x ∷ kept) r rules h =
    and_both (lacks x.id (kept ++ rules)) (ids_distinct (kept ++ rules))
      (every-drop (λ y. not (str_eq y.id x.id)) kept r rules
        (and_left (lacks x.id (kept ++ r ∷ rules)) _ h))
      (ids_distinct-drop kept r rules (and_right (lacks x.id (kept ++ r ∷ rules)) _ h))

append_middle :
    (kept : List PolicyRule) (r : PolicyRule) (rules : List PolicyRule)
    → (kept ++ r ∷ []) ++ rules ≡ kept ++ r ∷ rules
append_middle [] r rules = refl
append_middle (x ∷ kept) r rules = ap (λ l. x ∷ l) (append_middle kept r rules)

unused-nil : (rules : List PolicyRule) → unused [] rules ≡ rules
unused-nil [] = refl
unused-nil (r ∷ rules) = ap (λ l. r ∷ l) (unused-nil rules)

module _ (numerals : Numerals) where
  -- What holds of lists without a rule that they had, the first loop keeps.
  every-remove_redundancies :
      (p : PolicyRule → Bool) (kept rules : List PolicyRule)
      → every p (kept ++ rules) ≡ true
      → every p (remove_redundancies numerals kept rules) ≡ true
  unfolding remove_redundancies
  every-remove_redundancies p kept [] h = subst (λ l. every p l ≡ true) (append-nil kept) h
  every-remove_redundancies p kept (r ∷ rules) h =
      elim (Bool-cases (any (λ a. implies numerals a r) kept)) [
        | inl known ↦
            rw known (every-remove_redundancies p kept rules (every-drop p kept r rules h))
        | inr new ↦ rw new (
            every-remove_redundancies p (kept ++ r ∷ []) rules
              (subst (λ l. every p l ≡ true) (sym (append_middle kept r rules)) h))
      ]

  ids_distinct-remove_redundancies :
      (kept rules : List PolicyRule)
      → ids_distinct (kept ++ rules) ≡ true
      → ids_distinct (remove_redundancies numerals kept rules) ≡ true
  unfolding remove_redundancies
  ids_distinct-remove_redundancies kept [] h =
      subst (λ l. ids_distinct l ≡ true) (append-nil kept) h
  ids_distinct-remove_redundancies kept (r ∷ rules) h =
      elim (Bool-cases (any (λ a. implies numerals a r) kept)) [
        | inl known ↦
            rw known
              (ids_distinct-remove_redundancies kept rules (ids_distinct-drop kept r rules h))
        | inr new ↦ rw new (
            ids_distinct-remove_redundancies (kept ++ r ∷ []) rules
              (subst (λ l. ids_distinct l ≡ true) (sym (append_middle kept r rules)) h))
      ]

  every-insert_rule :
      (p : PolicyRule → Bool) (r : PolicyRule) (rules : List PolicyRule)
      → every p (insert_rule numerals r rules) ≡ (p r && every p rules)
  unfolding insert_rule
  every-insert_rule p r [] = refl
  every-insert_rule p r (x ∷ rules) = ground (arith, every-insert_rule p r rules)

  every-sort_rules :
      (p : PolicyRule → Bool) (rules : List PolicyRule)
      → every p (sort_rules numerals rules) ≡ every p rules
  unfolding sort_rules
  every-sort_rules p [] = refl
  every-sort_rules p (r ∷ rules) =
      every-insert_rule p r (sort_rules numerals rules)
      ∙ ap (λ b. p r && b) (every-sort_rules p rules)

  -- For rules with distinct ids, each a bound that BigInt reads or a list of targets, the optimized
  -- policy permits exactly the requests that the policy permitted, if BigInt reads back what toString
  -- writes.
  pub optimize-permits :
      (q : Request) (rules : List PolicyRule)
      → ((z : ℤ) → numerals.big_int (numerals.to_string z) ≡ some z)
      → every (is_plain numerals q) rules ≡ true
      → ids_distinct rules ≡ true
      → every (permits numerals q) (optimize numerals rules) ≡ every (permits numerals q) rules
  unfolding optimize
  optimize-permits q rules reads plains distinct =
      let left = remove_redundancies numerals [] rules in
      every-sort_rules (permits numerals q) (merge_compatible numerals [] left)
      ∙ merge_compatible-permits numerals q reads [] left
          (every-remove_redundancies (is_plain numerals q) [] rules plains)
          (ids_distinct-remove_redundancies [] rules distinct)
      ∙ ap (every (permits numerals q)) (unused-nil left)
      ∙ remove_redundancies-permits numerals q [] rules
