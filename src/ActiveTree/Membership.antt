-- ===== src/ActiveTree/Membership.antt =====
-- What the calls of the active tree promise: who is a member after them, and what a proof shows.
use atf.Common.{
  ◌⊎◌, false, Bool, Option, ℕ, ◌^◌, ◌<◌, ◌≡◌, refl, sym, ◌∙◌, ◌≢◌, inl, inr, true, none, some, List,
  lookup, lookup-insert, lookup-erase, ◌==◌, arith, Option-cases, eq_or_ne, le→leb, if◌then◌else◌,
}
use mathlib.Core.Path.{subst, fun_ext, ap₂}
use atf.Merkle.{verify_proof, get_proof, Proof}
use atf.Merkle.Spec.{node}
use atf.Merkle.Proofs.{Collision, position, verify_proof-get_proof, verify_proof_sound}
use atf.ActiveTree.{
  tree_depth, max_leaves, ActiveTree, Added, add_leaf, remove_leaf_of, get_proof_for_commitment,
}
use atf.ActiveTree.Laws.{IsValid, readd, add_new, remove_leaf_of-IsValid}

is_true_or_not : (o : Option Bool) → (o ≡ some true) ⊎ (o ≢ some true)
is_true_or_not none = inr (λ e. cc)
is_true_or_not (some true) = inl refl
is_true_or_not (some false) = inr (λ e. cc)

module _ (hash_pair : ℕ → ℕ → ℕ) where
  -- A commitment can be added if it is there already or an index is left.
  abbrev pub HasRoom : ActiveTree → ℕ → Type 0
  HasRoom a value = lookup value a.index_of ≡ none → a.next_index < max_leaves

  module _ (a : ActiveTree) (v : IsValid hash_pair a) where
    -- If the commitment is there already or an index is left, adding it throws no error, keeps the
    -- tree valid, files the commitment under the index that is returned, and moves no other one.
    pub add_leaf-IsValid :
        (value : ℕ)
        → HasRoom a value
        → (a' : ActiveTree) × (r : Added) × (add_leaf hash_pair value a ≡ (a', some r))
          × IsValid hash_pair a'
          × ((d : ℕ)
              → lookup d a'.index_of
                ≡ (if d == value then some r.leaf_index else lookup d a.index_of))
    add_leaf-IsValid value room = elim (Option-cases (lookup value a.index_of)) [
      | inl missing ↦
          let (a', r, done, at, same, v') = add_new hash_pair a v value missing (room missing) in
          (a', r, done, v', λ d. rw (same, at) (lookup-insert value d a.next_index a.index_of))
      | inr (idx, found) ↦
          let (a', r, done, at, same, v') = readd hash_pair a v value idx found in
          (a', r, done, v', λ d. rw (same, at) (ground (arith, found)))
    ]

    -- A new commitment is refused, and nothing changes, once every index has been given out.
    pub add_leaf-full :
        (value : ℕ)
        → lookup value a.index_of ≡ none
        → a.next_index ≡ max_leaves
        → add_leaf hash_pair value a ≡ (a, none)
    unfolding add_leaf
    add_leaf-full value missing full =
        rw (missing, add_leaf, le→leb max_leaves a.next_index (omega arith)) refl

    -- A member's proof is given and is accepted against the current root.
    pub get_proof_for_commitment-accepted :
        (c idx : ℕ)
        → lookup c a.index_of ≡ some idx
        → (p : Proof) × (get_proof_for_commitment hash_pair c a ≡ some p)
          × (p.root ≡ a.tree.root)
          × (verify_proof hash_pair c p.path_elements p.path_indices a.tree.root tree_depth
              ≡ some true)
    unfolding get_proof_for_commitment
    get_proof_for_commitment-accepted c idx found =
        let (here, lt) = v.held c idx found in
        let room : idx < 2 ^ a.tree.depth = rw v.depth (omega (arith, v.bounded)) in
        let (ok, same) = verify_proof-get_proof hash_pair a.tree v.leaf v.rep idx room in
        (
          get_proof hash_pair a.tree idx,
          rw (found, get_proof_for_commitment) refl,
          same,
          subst
              (λ d.
                verify_proof hash_pair c (get_proof hash_pair a.tree idx).path_elements
                  (get_proof hash_pair a.tree idx).path_indices a.tree.root d
                ≡ some true)
              v.depth (rw (here, same) at ok),
        )

    -- If a path is accepted against the root for a value other than the empty leaf, then the value
    -- is a member, at the index that the directions of the path spell, or the hash has a collision.
    pub accepted_is_member :
        (x : ℕ) (es is : List ℕ)
        → x ≢ 0
        → verify_proof hash_pair x es is a.tree.root tree_depth ≡ some true
        → (lookup x a.index_of ≡ some (position tree_depth is)) ⊎ Collision hash_pair
    accepted_is_member x es is ne ok =
        let deep : verify_proof hash_pair x es is a.tree.root a.tree.depth ≡ some true =
          rw v.depth ok in
        elim (verify_proof_sound hash_pair a.tree v.leaf v.rep x es is deep) [
          | inr found ↦ inr found
          | inl there ↦
              let same : x ≡ v.leaf (position tree_depth is) = rw v.depth at there in
              inl (rw same (v.indexed (position tree_depth is) (λ z. ne (same ∙ z))))
        ]

    -- After a removal the commitment is no member, the others are what they were.
    pub lookup-remove_leaf_of :
        (c d : ℕ)
        → lookup d (remove_leaf_of hash_pair c a).index_of
          ≡ (if d == c then none else lookup d a.index_of)
    unfolding remove_leaf_of
    lookup-remove_leaf_of c d = elim (Option-cases (lookup c a.index_of)) [
      | inl missing ↦ rw (missing, remove_leaf_of) (ground (arith, missing))
      | inr (idx, found) ↦ rw (found, remove_leaf_of) (lookup-erase c d a.index_of)
    ]

  -- After the removal of a commitment other than the empty leaf, each path is refused for it
  -- against the new root, or the hash has a collision.
  pub removed_not_accepted :
      (a : ActiveTree) (v : IsValid hash_pair a) (c : ℕ) (es is : List ℕ)
      → c ≢ 0
      → (verify_proof hash_pair c es is (remove_leaf_of hash_pair c a).tree.root tree_depth
          ≢ some true)
        ⊎ Collision hash_pair
  removed_not_accepted a v c es is ne =
      let v' = remove_leaf_of-IsValid hash_pair a v c in
      let after = remove_leaf_of hash_pair c a in
      elim (is_true_or_not (verify_proof hash_pair c es is after.tree.root tree_depth)) [
        | inr refused ↦ inl refused
        | inl ok ↦ elim (accepted_is_member after v' c es is ne ok) [
          | inr found ↦ inr found
          | inl member ↦ absurd (ground (arith, member, lookup-remove_leaf_of a v c c))
        ]
      ]

  leaf-eq :
      (a b : ActiveTree) (v : IsValid hash_pair a) (w : IsValid hash_pair b)
      → ((c : ℕ) → lookup c a.index_of ≡ lookup c b.index_of)
      → (i : ℕ) → v.leaf i ≡ w.leaf i
  leaf-eq a b v w same i = elim (eq_or_ne (v.leaf i) 0) [
    | inl e ↦ elim (eq_or_ne (w.leaf i) 0) [
      | inl e' ↦ e ∙ sym e'
      | inr ne' ↦ (v.held (w.leaf i) i (same (w.leaf i) ∙ w.indexed i ne')).0
    ]
    | inr ne ↦ sym (w.held (v.leaf i) i (sym (same (v.leaf i)) ∙ v.indexed i ne)).0
  ]

  -- The root of a valid tree depends on nothing but which commitment has which index: not on the
  -- order of the calls that led there, and not on what has been removed.
  pub root_determined :
      (a b : ActiveTree)
      → IsValid hash_pair a
      → IsValid hash_pair b
      → ((c : ℕ) → lookup c a.index_of ≡ lookup c b.index_of)
      → a.tree.root ≡ b.tree.root
  root_determined a b v w same =
      let roots : node hash_pair v.leaf a.tree.depth 0 ≡ node hash_pair w.leaf b.tree.depth 0 =
        ap₂ (λ leaf depth. node hash_pair leaf depth 0) (fun_ext (leaf-eq a b v w same))
          (v.depth ∙ sym w.depth) in
      v.rep.rooted ∙ roots ∙ sym w.rep.rooted

  -- Removing a commitment that was just added brings the root back.
  remove-add_leaf :
      (a : ActiveTree) (v : IsValid hash_pair a) (c : ℕ)
      → lookup c a.index_of ≡ none
      → a.next_index < max_leaves
      → (remove_leaf_of hash_pair c (add_leaf hash_pair c a).0).tree.root ≡ a.tree.root
  remove-add_leaf a v c missing room =
      let (a', r, added, v', members) = add_leaf-IsValid a v c (λ e. room) in
      rw added (
        root_determined (remove_leaf_of hash_pair c a') a (remove_leaf_of-IsValid hash_pair a' v' c)
          v λ d. ground (arith, lookup-remove_leaf_of a' v' c d, members d, missing))
