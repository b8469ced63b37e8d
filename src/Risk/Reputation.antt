-- ===== src/Risk/Reputation.antt =====
-- agentix/packages/compiler/risk/reputation.ts, and the part of engine.ts that asks it about each
-- target. An address is a number, which the case of its digits does not change.
use atf.Common.{
  ℕ, Bool, true, false, Option, none, some, List, [], ◌∷◌, any, Dict, lookup, insert, lookup-insert,
  ◌==◌, eq_or_ne, if◌then◌else◌, ◌≡◌, refl, sym, ◌∙◌, ap, arith, Bool-cases, Option-cases, inl, inr,
}
use mathlib.Core.Option.{some-injective}
use atf.Risk.Types.{RiskDecision, RiskDimension, RiskSignal}
use atf.Risk.Doubles.{Doubles}
use atf.Risk.Input.{Tier, AddressReputation, RiskInput}
use atf.Risk.Signals.Parties.{is_blocked}
use atf.Risk.Engine.{assess}
use atf.Risk.Engine.Guards.{assess_blocked}

-- The sets of `ReputationResolver`.
pub record AddressLists : Type 0 where
  pub system : List ℕ
  pub trusted : List ℕ
  pub blocked : List ℕ

-- What the chain says of an address: nothing, code, no code and no nonce, or no code and a nonce.
pub data OnChain : Type 0 where
  unavailable contract dormant active : OnChain

abbrev pub has : List ℕ → ℕ → Bool
has set address = any (λ x. x == address) set

unfoldable pub resolve : AddressLists → List ℕ → ℕ → AddressReputation
resolve lists seen address =
    if has lists.blocked address
    then record { tier = Tier.blocked; score = 100 }
    else if has lists.system address
    then record { tier = Tier.system; score = 0 }
    else if has lists.trusted address
    then record { tier = Tier.trusted; score = 5 }
    else if has seen address
    then record { tier = Tier.seen; score = 25 }
    else record { tier = Tier.unknown; score = 60 }

abbrev is_unknown : Tier → Bool
is_unknown Tier.unknown = true
is_unknown _ = false

abbrev refined : OnChain → AddressReputation → AddressReputation
refined OnChain.unavailable base = base
refined OnChain.contract base = record { tier = Tier.known; score = 65 }
refined OnChain.dormant base = record base { score = 70 }
refined OnChain.active base = record { tier = Tier.known; score = 45 }

unfoldable pub enrich : OnChain → AddressReputation → AddressReputation
enrich found base = if is_unknown base.tier then refined found base else base

-- `for (const t of targets) reputation.set(t, resolver.resolve(t, behavior))`
unfoldable pub resolve_all :
    AddressLists → List ℕ → List ℕ → Dict AddressReputation → Dict AddressReputation
unfolding resolve
resolve_all lists seen [] reputation = reputation
resolve_all lists seen (t ∷ targets) reputation =
    resolve_all lists seen targets (insert t (resolve lists seen t) reputation)

-- What an enrichment that has ended writes: only what was unknown at first is asked about.
abbrev write_enriched :
    (ℕ → OnChain) → ℕ → Option AddressReputation → Dict AddressReputation → Dict AddressReputation
write_enriched chain t none reputation = reputation
write_enriched chain t (some base) reputation =
    if is_unknown base.tier then insert t (enrich (chain t) base) reputation else reputation

-- `enrichReputation`: `ended` are the addresses whose enrichment ended within the time, in order.
unfoldable pub enrich_reputation :
    (ℕ → OnChain)
    → Dict AddressReputation
    → List ℕ
    → Dict AddressReputation
    → Dict AddressReputation
unfolding enrich
enrich_reputation chain first [] reputation = reputation
enrich_reputation chain first (t ∷ ended) reputation =
    enrich_reputation chain first ended (write_enriched chain t (lookup t first) reputation)

unfoldable pub reputation_of :
    AddressLists → (ℕ → OnChain) → List ℕ → List ℕ → List ℕ → Dict AddressReputation
unfolding resolve_all enrich_reputation
reputation_of lists chain seen targets ended =
    let first = resolve_all lists seen targets [] in enrich_reputation chain first ended first

lookup-resolve_all :
    (lists : AddressLists) (seen targets : List ℕ) (reputation : Dict AddressReputation) (t : ℕ)
    → lookup t (resolve_all lists seen targets reputation)
      ≡ (if has targets t then some (resolve lists seen t) else lookup t reputation)
unfolding resolve_all
lookup-resolve_all lists seen [] reputation t = refl
lookup-resolve_all lists seen (x ∷ targets) reputation t =
    lookup-resolve_all lists seen targets (insert x (resolve lists seen x) reputation) t
    ∙ elim (Bool-cases (has targets t)) [
      | inl later ↦ ground (arith, later)
      | inr absent ↦ rw absent (
          lookup-insert x t (resolve lists seen x) reputation ∙ elim (eq_or_ne x t) [
            | inl same ↦
                let here : (t == x) ≡ true = ground (arith, same) in
                let there : (x == t) ≡ true = ground (arith, same) in
                rw (here, there) (ap (λ y. some (resolve lists seen y)) same)
            | inr other ↦
                let away : (t == x) ≡ false = ground (arith, other) in
                let gone : (x == t) ≡ false = ground (arith, other) in rw (away, gone) refl
          ])
    ]

lookup-write_enriched :
    (chain : ℕ → OnChain) (first reputation : Dict AddressReputation) (x t : ℕ)
    (base : AddressReputation)
    → lookup t first ≡ some base
    → is_unknown base.tier ≡ false
    → lookup t (write_enriched chain x (lookup x first) reputation) ≡ lookup t reputation
lookup-write_enriched chain first reputation x t base at known =
    elim (Option-cases (lookup x first)) [
      | inl absent ↦ rw absent refl
      | inr (found, e) ↦ elim (Bool-cases (is_unknown found.tier)) [
        | inr settled ↦ rw e (rw settled refl)
        | inl unknown ↦ elim (eq_or_ne x t) [
          | inl same ↦
              let is : some found ≡ some base = sym e ∙ ap (λ y. lookup y first) same ∙ at in
              let clash : true ≡ false =
                sym unknown ∙ ap (λ r. is_unknown r.tier) (some-injective found base is) ∙ known in
              cc
          | inr other ↦
              let away : (t == x) ≡ false = ground (arith, other) in
              rw e
                (rw unknown (lookup-insert x t (enrich (chain x) found) reputation ∙ rw away refl))
        ]
      ]
    ]

lookup-enrich_reputation :
    (chain : ℕ → OnChain) (first : Dict AddressReputation) (ended : List ℕ)
    (reputation : Dict AddressReputation) (t : ℕ) (base : AddressReputation)
    → lookup t first ≡ some base
    → is_unknown base.tier ≡ false
    → lookup t (enrich_reputation chain first ended reputation) ≡ lookup t reputation
unfolding enrich_reputation
lookup-enrich_reputation chain first [] reputation t base at known = refl
lookup-enrich_reputation chain first (x ∷ ended) reputation t base at known =
    lookup-enrich_reputation chain first ended (write_enriched chain x (lookup x first) reputation)
      t base at known
    ∙ lookup-write_enriched chain first reputation x t base at known

-- A target on the blocklist is blocked in the map that the engine assembles, whatever the chain says.
reputation_of_blocked :
    (lists : AddressLists) (chain : ℕ → OnChain) (seen targets ended : List ℕ) (t : ℕ)
    → has lists.blocked t ≡ true
    → has targets t ≡ true
    → lookup t (reputation_of lists chain seen targets ended)
      ≡ some (record { tier = Tier.blocked; score = 100 })
unfolding reputation_of resolve
reputation_of_blocked lists chain seen targets ended t listed among =
    let first = resolve_all lists seen targets [] in
    let at : lookup t first ≡ some (record { tier = Tier.blocked; score = 100 }) =
      lookup-resolve_all lists seen targets [] t ∙ rw (among, listed) refl in
    lookup-enrich_reputation chain first ended first t _ at refl ∙ at

any_blocked :
    (reputation : Dict AddressReputation) (targets : List ℕ) (t : ℕ)
    → lookup t reputation ≡ some (record { tier = Tier.blocked; score = 100 })
    → has targets t ≡ true
    → any (is_blocked reputation) targets ≡ true
unfolding is_blocked
any_blocked reputation [] t at among = let wrong : false ≡ true = among in cc
any_blocked reputation (x ∷ targets) t at among = elim (eq_or_ne x t) [
  | inl same ↦
      let here : lookup x reputation ≡ some (record { tier = Tier.blocked; score = 100 }) =
        ap (λ y. lookup y reputation) same ∙ at in
      rw (here, is_blocked) refl
  | inr other ↦
      let rest = any_blocked reputation targets t at (ground (arith, among, other)) in
      ground (arith, rest)
]

module _ (dbl : Doubles) (threshold : ℕ) (weights : RiskDimension → Option dbl.Num)
    (plugins : List RiskSignal) where
  -- If the reputations of an input are those that the engine assembles, and one of its targets is on
  -- the operator's blocklist, the engine denies with score 100 and asks for approval, whatever the
  -- chain, the history, the weights and the plugins say.
  pub assess_blocklisted :
      (input : RiskInput dbl) (lists : AddressLists) (chain : ℕ → OnChain) (ended : List ℕ) (t : ℕ)
      → input.reputation ≡ reputation_of lists chain input.behavior.seen_targets input.targets ended
      → has lists.blocked t ≡ true
      → has input.targets t ≡ true
      → ((assess dbl threshold weights plugins input).decision ≡ RiskDecision.deny)
        × ((assess dbl threshold weights plugins input).score ≡ 100)
        × ((assess dbl threshold weights plugins input).requires_approval ≡ true)
  assess_blocklisted input lists chain ended t built listed among =
      assess_blocked dbl input threshold weights plugins (
        any_blocked input.reputation input.targets t
          (ap (lookup t) built
            ∙ reputation_of_blocked lists chain input.behavior.seen_targets input.targets ended t
                listed among)
          among)
