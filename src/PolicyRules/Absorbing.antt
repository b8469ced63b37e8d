-- ===== src/PolicyRules/Absorbing.antt =====
-- agentix/packages/compiler/pipeline/stage-5-policy-optimizer.ts: the rules that a rule takes in, and the
-- loop that lets each rule take in the later ones.
use Prim.Native.String.{◌++◌ as append}
use atf.Common.{
  Bool, true, false, not, ◌&&◌, some, String, List, [], ◌∷◌, every, if◌then◌else◌, str_eq,
  str_eq_iff, str_eq_comm, includes, ℤ, ◌≡◌, refl, sym, ◌∙◌, ap, arith, Bool-cases, inl, inr,
  and_left, and_right,
}
use atf.PolicyRules.{PolicyRule, Numerals, is_compatible, do_merge, absorb, merge_compatible}
use atf.PolicyRules.Meaning.{Request, permits, is_plain}
use atf.PolicyRules.Merging.{do_merge-permits}

-- No rule has the id.
abbrev pub lacks : String → List PolicyRule → Bool
lacks id rules = every (λ r. not (str_eq r.id id)) rules

abbrev pub ids_distinct : List PolicyRule → Bool
ids_distinct [] = true
ids_distinct (r ∷ rules) = lacks r.id rules && ids_distinct rules

abbrev pub unused : List String → List PolicyRule → List PolicyRule
unused used [] = []
unused used (r ∷ rules) = if includes r.id used then unused used rules else r ∷ unused used rules

and_swap : (a b c : Bool) → (a && (b && c)) ≡ (b && (a && c))
and_swap a b c = ground arith

and_swap' : (a b c : Bool) → ((a && b) && c) ≡ (b && (a && c))
and_swap' a b c = ground arith

unused-lacks :
    (id : String) (used : List String) (rules : List PolicyRule)
    → lacks id rules ≡ true
    → unused (id ∷ used) rules ≡ unused used rules
unused-lacks id used [] h = refl
unused-lacks id used (r ∷ rules) h = ground (arith, unused-lacks id used rules, str_eq_comm id r.id)

module _ (numerals : Numerals) (q : Request) where
  absorb-keeps :
      (x : String) (c : PolicyRule) (used : List String) (rules : List PolicyRule)
      → includes x used ≡ true
      → includes x (absorb numerals c used rules).1 ≡ true
  unfolding absorb
  absorb-keeps x c used [] h = h
  absorb-keeps x c used (r ∷ rules) h = elim (Bool-cases (includes r.id used)) [
    | inl old ↦ rw old (absorb-keeps x c used rules h)
    | inr new ↦ elim (Bool-cases (is_compatible c r)) [
      | inl both ↦
          rw (new, both)
            (absorb-keeps x (do_merge numerals c r) (r.id ∷ used) rules (ground (arith, h)))
      | inr apart ↦ rw (new, apart) (absorb-keeps x c used rules h)
    ]
  ]

  absorb-fresh :
      (x : String) (c : PolicyRule) (used : List String) (rules : List PolicyRule)
      → lacks x rules ≡ true
      → includes x used ≡ false
      → includes x (absorb numerals c used rules).1 ≡ false
  unfolding absorb
  absorb-fresh x c used [] h e = e
  absorb-fresh x c used (r ∷ rules) h e = elim (Bool-cases (includes r.id used)) [
    | inl old ↦ rw old (absorb-fresh x c used rules (ground arith) e)
    | inr new ↦ elim (Bool-cases (is_compatible c r)) [
      | inl both ↦
          rw (new, both)
            (absorb-fresh x (do_merge numerals c r) (r.id ∷ used) rules (ground arith)
              (ground (arith, h, e)))
      | inr apart ↦ rw (new, apart) (absorb-fresh x c used rules (ground arith) e)
    ]
  ]

  -- What the current rule permits together with the rules that are not used.
  abbrev together : PolicyRule × List String → List PolicyRule → Bool
  together p rules = permits numerals q p.0 && every (permits numerals q) (unused p.1 rules)

  together_used :
      (p : PolicyRule × List String) (r : PolicyRule) (rules : List PolicyRule)
      → includes r.id p.1 ≡ true
      → together p (r ∷ rules) ≡ together p rules
  together_used p r rules h = rw h refl

  together_new :
      (p : PolicyRule × List String) (r : PolicyRule) (rules : List PolicyRule)
      → includes r.id p.1 ≡ false
      → together p (r ∷ rules) ≡ (permits numerals q r && together p rules)
  together_new p r rules h = rw h (
      and_swap (permits numerals q p.0) (permits numerals q r)
        (every (permits numerals q) (unused p.1 rules)))

  absorb_old :
      (c : PolicyRule) (used : List String) (r : PolicyRule) (rules : List PolicyRule)
      → includes r.id used ≡ true
      → absorb numerals c used (r ∷ rules) ≡ absorb numerals c used rules
  unfolding absorb
  absorb_old c used r rules old = rw old refl

  absorb_joined :
      (c : PolicyRule) (used : List String) (r : PolicyRule) (rules : List PolicyRule)
      → includes r.id used ≡ false
      → is_compatible c r ≡ true
      → absorb numerals c used (r ∷ rules)
        ≡ absorb numerals (do_merge numerals c r) (r.id ∷ used) rules
  unfolding absorb
  absorb_joined c used r rules new both = rw (new, both) refl

  absorb_apart :
      (c : PolicyRule) (used : List String) (r : PolicyRule) (rules : List PolicyRule)
      → includes r.id used ≡ false
      → is_compatible c r ≡ false
      → absorb numerals c used (r ∷ rules) ≡ absorb numerals c used rules
  unfolding absorb
  absorb_apart c used r rules new apart = rw (new, apart) refl

  -- What the inner loop has taken in it still permits.
  absorb-together :
      ((z : ℤ) → numerals.big_int (numerals.to_string z) ≡ some z)
      → (c : PolicyRule) (used : List String) (rules : List PolicyRule)
      → is_plain numerals q c ≡ true
      → every (is_plain numerals q) rules ≡ true
      → ids_distinct rules ≡ true
      → together (absorb numerals c used rules) rules ≡ together (c, used) rules
  unfolding absorb
  absorb-together reads c used [] plain plains distinct = refl
  absorb-together reads c used (r ∷ rules) plain plains distinct =
      let later = and_right (is_plain numerals q r) _ plains in
      let fresh = and_left (lacks r.id rules) _ distinct in
      let rest_distinct = and_right (lacks r.id rules) _ distinct in
      elim (Bool-cases (includes r.id used)) [
        | inl old ↦
            ap (λ p. together p (r ∷ rules)) (absorb_old c used r rules old)
            ∙ together_used (absorb numerals c used rules) r rules
                (absorb-keeps r.id c used rules old)
            ∙ absorb-together reads c used rules plain later rest_distinct
            ∙ sym (together_used (c, used) r rules old)
        | inr new ↦ elim (Bool-cases (is_compatible c r)) [
          | inl both ↦
              let (joined, still) =
                do_merge-permits numerals q c r reads both plain
                  (and_left (is_plain numerals q r) _ plains) in
              let c' = do_merge numerals c r in
              let self : includes r.id (r.id ∷ used) ≡ true =
                rw ((str_eq_iff r.id r.id).1 refl) refl in
              ap (λ p. together p (r ∷ rules)) (absorb_joined c used r rules new both)
              ∙ together_used (absorb numerals c' (r.id ∷ used) rules) r rules
                  (absorb-keeps r.id c' (r.id ∷ used) rules self)
              ∙ absorb-together reads c' (r.id ∷ used) rules still later rest_distinct
              ∙ ap (λ rs. permits numerals q c' && every (permits numerals q) rs)
                  (unused-lacks r.id used rules fresh)
              ∙ ap (λ b. b && every (permits numerals q) (unused used rules)) joined
              ∙ and_swap' (permits numerals q c) (permits numerals q r)
                  (every (permits numerals q) (unused used rules))
              ∙ sym (together_new (c, used) r rules new)
          | inr apart ↦
              ap (λ p. together p (r ∷ rules)) (absorb_apart c used r rules new apart)
              ∙ together_new (absorb numerals c used rules) r rules
                  (absorb-fresh r.id c used rules fresh new)
              ∙ ap (λ b. permits numerals q r && b)
                  (absorb-together reads c used rules plain later rest_distinct)
              ∙ sym (together_new (c, used) r rules new)
        ]
      ]

  pub merge_compatible-permits :
      ((z : ℤ) → numerals.big_int (numerals.to_string z) ≡ some z)
      → (used : List String) (rules : List PolicyRule) → every (is_plain numerals q) rules ≡ true
      → ids_distinct rules ≡ true
      → every (permits numerals q) (merge_compatible numerals used rules)
        ≡ every (permits numerals q) (unused used rules)
  unfolding merge_compatible
  merge_compatible-permits reads used [] plains distinct = refl
  merge_compatible-permits reads used (r ∷ rules) plains distinct =
      let later = and_right (is_plain numerals q r) _ plains in
      let fresh = and_left (lacks r.id rules) _ distinct in
      let rest_distinct = and_right (lacks r.id rules) _ distinct in
      let renamed : PolicyRule = record r { id = append r.id "_merged" } in
      let p = absorb numerals renamed (r.id ∷ used) rules in
      elim (Bool-cases (includes r.id used)) [
        | inl old ↦ rw old (merge_compatible-permits reads used rules later rest_distinct)
        | inr new ↦ rw new (
            ap (λ b. permits numerals q p.0 && b)
              (merge_compatible-permits reads p.1 rules later rest_distinct)
            ∙ absorb-together reads renamed (r.id ∷ used) rules
                (and_left (is_plain numerals q r) _ plains) later rest_distinct
            ∙ ap (λ rs. permits numerals q r && every (permits numerals q) rs)
                (unused-lacks r.id used rules fresh))
      ]
