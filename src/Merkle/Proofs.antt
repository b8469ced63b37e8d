-- ===== src/Merkle/Proofs.antt =====
-- `getProof` against `verifyProof`: the proof of a leaf is accepted, and whatever else is accepted at
-- its position shows a collision of the hash.
use native.Mathlib.Numerals.{add-one}
use native.Mathlib.Nat.{add-zero, pow-suc}
use atf.Common.{
  ◌≢◌, ◌⊎◌, eq_or_ne, ℕ, zero, suc, ◌+◌, ◌-◌, ◌*◌, ◌/◌, ◌%◌, ◌^◌, ◌≤◌, ◌<◌, ◌≡◌, refl, inl, inr,
  Option, some, none, List, [], ◌∷◌, true, arith, ◌==◌, Bool-cases, if◌then◌else◌,
}
use atf.Merkle.{
  Tree, is_right, sibling_index, first_is_one, rest, value_at, siblings, directions, fold_path,
  get_proof, verify_proof,
}
use atf.Merkle.Spec.{ancestor, ancestor-half, ancestor-eq-zero, node, Represents}

-- The position below the root that a list of directions leads to, the lowest first.
unfoldable pub position : ℕ → List ℕ → ℕ
position zero is = 0
position (suc n) is = 2 * position n (rest is) + (if first_is_one is then 1 else 0)

module _ (hash_pair : ℕ → ℕ → ℕ) where
  -- Two pairs that have one hash, the one event that Poseidon is relied on to keep out of reach.
  abbrev pub Collision : Type 0
  Collision = (a b c d : ℕ) × (hash_pair a b ≡ hash_pair c d) × ((a ≢ c) ⊎ (b ≢ d))

  -- Two pairs of one hash are one pair, or a collision.
  same_pair : (a b c d : ℕ) → hash_pair a b ≡ hash_pair c d → ((a ≡ c) × (b ≡ d)) ⊎ Collision
  same_pair a b c d e = elim (eq_or_ne a c) [
    | inr ne ↦ inr (a, b, c, d, e, inl ne)
    | inl left ↦ elim (eq_or_ne b d) [
      | inr ne ↦ inr (a, b, c, d, e, inr ne)
      | inl right ↦ inl (left, right)
    ]
  ]

  module _ (t : Tree) (leaf : ℕ → ℕ) (rep : Represents hash_pair t leaf) where
    -- One round of the check computes the parent of a node of the tree.
    round_up :
        (l a : ℕ)
        → l ≤ t.depth
        → (if (if is_right a then 1 else 0) == 1
            then hash_pair
                (value_at hash_pair t.nodes l (sibling_index a))
                (node hash_pair leaf l a)
            else hash_pair
                (node hash_pair leaf l a)
                (value_at hash_pair t.nodes l (sibling_index a)))
          ≡ node hash_pair leaf (suc l) (a / 2)
    unfolding is_right sibling_index node
    round_up l a le = elim (Bool-cases (a % 2 == 1)) [
      | inl odd ↦ rw (odd, rep.stored l le (a - 1)) (ground arith)
      | inr even ↦ rw (even, rep.stored l le (a + 1)) (ground arith)
    ]

    fold_path-siblings :
        (rounds l a d : ℕ)
        → l + rounds ≡ d
        → d ≤ t.depth
        → fold_path hash_pair rounds
            (node hash_pair leaf l a)
            (siblings hash_pair t.nodes rounds l a)
            (directions rounds a)
          ≡ some (node hash_pair leaf d (ancestor rounds a))
    unfolding fold_path siblings directions ancestor
    fold_path-siblings zero l a d e le = let same : l ≡ d = omega arith in rw same refl
    fold_path-siblings (suc rounds) l a d e le =
        rw (round_up l a (omega arith), add-one l, ← ancestor-half rounds a)
          (fold_path-siblings rounds (suc l) (a / 2) d (omega arith) le)

    accepted :
        {r : ℕ} (o : Option ℕ)
        → o ≡ some r
        → t.root ≡ r
        → elim o [ none ↦ none | some c ↦ some (c == t.root) ] ≡ some true
    accepted o e same = rw e (ground arith)

    -- The proof that the tree gives for a leaf in range is accepted against its root, and carries
    -- that root.
    pub verify_proof-get_proof :
        (index : ℕ)
        → index < 2 ^ t.depth
        → let p = get_proof hash_pair t index in
          (verify_proof hash_pair (leaf index) p.path_elements p.path_indices p.root t.depth
            ≡ some true)
          × (p.root ≡ t.root)
    unfolding get_proof verify_proof node
    verify_proof-get_proof index h = (
      accepted _ (fold_path-siblings t.depth 0 index t.depth (omega arith) (omega arith))
          (rw (ancestor-eq-zero t.depth index h) rep.rooted),
      refl,
    )

    fold_path_sound :
        (rounds l d current : ℕ) (es is : List ℕ)
        → l + rounds ≡ d
        → fold_path hash_pair rounds current es is ≡ some (node hash_pair leaf d 0)
        → (current ≡ node hash_pair leaf l (position rounds is)) ⊎ Collision
    unfolding fold_path position node
    fold_path_sound zero l d current es is e h =
        let same : l ≡ d = omega arith in inl (rw same (ground arith))
    fold_path_sound (suc rounds) l d current [] is e h = cc
    fold_path_sound (suc rounds) l d current (s ∷ es) is e h =
        elim (fold_path_sound rounds (suc l) d _ es (rest is) (omega arith) h) [
          | inr found ↦ inr found
          | inl up ↦ elim (Bool-cases (first_is_one is)) [
            | inl right ↦ rw right (elim (same_pair _ _ _ _ (rw right at up)) [
              | inl same ↦ inl same.1
              | inr found ↦ inr found
            ])
            | inr left ↦
                rw (left, add-zero)
                  (elim (same_pair _ _ _ _ (rw left at up)) [
                    | inl same ↦ inl same.0
                    | inr found ↦ inr found
                  ])
          ]
        ]

    verified_fold :
        (leaf_hash : ℕ) (es is : List ℕ)
        → verify_proof hash_pair leaf_hash es is t.root t.depth ≡ some true
        → fold_path hash_pair t.depth leaf_hash es is ≡ some t.root
    unfolding verify_proof
    verified_fold leaf_hash es is h = ground arith

    -- If a path is accepted against the root, however it was made, then the value is the leaf that
    -- the tree holds at the position to which its directions lead, or the hash has a collision.
    pub verify_proof_sound :
        (leaf_hash : ℕ) (es is : List ℕ)
        → verify_proof hash_pair leaf_hash es is t.root t.depth ≡ some true
        → (leaf_hash ≡ leaf (position t.depth is)) ⊎ Collision
    unfolding node
    verify_proof_sound leaf_hash es is h =
        fold_path_sound t.depth 0 t.depth leaf_hash es is (omega arith)
          (rw (← rep.rooted) (verified_fold leaf_hash es is h))

-- The directions of a proof lead to its index.
pub position-directions : (n i : ℕ) → i < 2 ^ n → position n (directions n i) ≡ i
unfolding position directions is_right
position-directions zero i h = omega arith
position-directions (suc n) i h =
    let small : i < 2 ^ n * 2 = rw (← pow-suc 2 n) h in
    ground (arith, position-directions n (i / 2) (omega arith))
