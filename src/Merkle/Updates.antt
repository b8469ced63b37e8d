-- ===== src/Merkle/Updates.antt =====
-- The writes of `insert` and `remove`, from the leaf up to the root.
use atf.Common.{
  ℕ, zero, suc, ◌+◌, ◌-◌, ◌/◌, ◌%◌, ◌^◌, ◌≤◌, ◌<◌, ◌≡◌, refl, sym, ◌≢◌, ◌⊎◌, inl, inr, some, arith,
  ◌==◌, lt→leb, ◌&&◌, Bool-cases, eq_or_ne, if◌then◌else◌, lookup-insert, lookup-erase, false,
}
use native.Mathlib.Numerals.{add-one}
use atf.Merkle.{
  Nodes, Tree, climb, set_node, delete_node, with_nodes, zero_hash, value_at, parent_value,
  empty_tree, insert_level, remove_level, insert_leaf, remove_leaf,
}
use atf.Merkle.Spec.{update, no_leaves, ancestor, node, node-no_leaves, node-update, Represents}

not_here : (m index j : ℕ) → j ≢ ancestor m index → ((m == 0) && (j == index)) ≡ false
unfolding ancestor
not_here zero index j off = ground arith
not_here (suc m) index j off = ground arith

zero_hash-zero : (hash_pair : ℕ → ℕ → ℕ) (m : ℕ) → m ≡ 0 → zero_hash hash_pair m ≡ 0
unfolding zero_hash
zero_hash-zero hash_pair zero e = refl
zero_hash-zero hash_pair (suc m) e = absurd (omega arith)

leaf_stored :
    (hash_pair : ℕ → ℕ → ℕ) (t : Tree) (leaf : ℕ → ℕ)
    → Represents hash_pair t leaf
    → (j : ℕ) → value_at hash_pair t.nodes 0 j ≡ leaf j
unfolding node
leaf_stored hash_pair t leaf rep j = rep.stored 0 (omega arith) j

module _ (hash_pair : ℕ → ℕ → ℕ) where
  value_at-set_node :
      (nodes : Nodes) (l i v m j : ℕ)
      → value_at hash_pair (set_node l i v nodes) m j
        ≡ (if (m == l) && (j == i) then v else value_at hash_pair nodes m j)
  unfolding value_at
  value_at-set_node nodes l i v m j = ground (arith, lookup-insert i j v (nodes m))

  value_at-delete_node :
      (nodes : Nodes) (l i m j : ℕ)
      → value_at hash_pair (delete_node l i nodes) m j
        ≡ (if (m == l) && (j == i) then zero_hash hash_pair m else value_at hash_pair nodes m j)
  unfolding value_at
  value_at-delete_node nodes l i m j = ground (arith, lookup-erase i j (nodes m))

  -- What one round writes: the parent of the node, one level up, and nothing else.
  abbrev Writes : (ℕ → ℕ → Nodes → Nodes) → Type 0
  Writes round =
      (l i : ℕ) (nodes : Nodes) (m j : ℕ)
      → value_at hash_pair (round l i nodes) m j ≡ (
          if (m == (l + 1)) && (j == (i / 2))
          then parent_value hash_pair nodes l i
          else value_at hash_pair nodes m j)

  insert_level-Writes : Writes (insert_level hash_pair)
  unfolding insert_level
  insert_level-Writes l i nodes m j = value_at-set_node nodes (l + 1) (i / 2) _ m j

  -- Deleting a parent that equals the empty subtree's hash reads as writing it.
  remove_level-Writes : Writes (remove_level hash_pair)
  unfolding remove_level
  remove_level-Writes l i nodes m j = ground (
    arith,
    value_at-set_node nodes (l + 1) (i / 2) (parent_value hash_pair nodes l i) m j,
    value_at-delete_node nodes (l + 1) (i / 2) m j,
  )

  module _ (leaf : ℕ → ℕ) (index : ℕ) where
    -- Levels up to `l` are right, and above it all that is not over the leaf.
    abbrev IsClimbed : ℕ → ℕ → Nodes → Type 0
    IsClimbed depth l nodes =
        (m : ℕ)
        → m ≤ depth
        → (j : ℕ) → (m ≤ l) ⊎ (j ≢ ancestor m index)
        → value_at hash_pair nodes m j ≡ node hash_pair leaf m j

    parent-node :
        (depth l : ℕ) (nodes : Nodes)
        → IsClimbed depth l nodes
        → l < depth
        → parent_value hash_pair nodes l (ancestor l index)
          ≡ node hash_pair leaf (suc l) (ancestor (suc l) index)
    unfolding parent_value node ancestor
    parent-node depth l nodes h lt =
        let a = ancestor l index in
        let right : (j : ℕ) → value_at hash_pair nodes l j ≡ node hash_pair leaf l j =
          λ j. h l (omega arith) j (inl (omega arith)) in
        elim (Bool-cases (a % 2 == 1)) [
          | inl odd ↦ rw (odd, right a, right (a - 1)) (ground arith)
          | inr even ↦ rw (even, right a, right (a + 1)) (ground arith)
        ]

    -- What a round leaves alone was right before it.
    untouched :
        (l m j : ℕ)
        → ((m == (l + 1)) && (j == (ancestor l index / 2))) ≡ false
        → (m ≤ suc l) ⊎ (j ≢ ancestor m index)
        → (m ≤ l) ⊎ (j ≢ ancestor m index)
    unfolding ancestor
    untouched l m j other (inr off) = inr off
    untouched l m j other (inl le) = elim (eq_or_ne m (suc l)) [
      | inl e ↦ inr (rw e (ground arith))
      | inr ne ↦ inl (omega arith)
    ]

    round-IsClimbed :
        (round : ℕ → ℕ → Nodes → Nodes)
        → Writes round
        → (depth l : ℕ) (nodes : Nodes) → IsClimbed depth l nodes
        → l < depth
        → IsClimbed depth (suc l) (round l (ancestor l index) nodes)
    unfolding ancestor
    round-IsClimbed round writes depth l nodes h lt m le j side =
        rw (writes l (ancestor l index) nodes m j)
          (elim (Bool-cases ((m == (l + 1)) && (j == (ancestor l index / 2)))) [
            | inl here ↦ rw here (ground (arith, parent-node depth l nodes h lt))
            | inr other ↦ rw other (h m le j (untouched l m j other side))
          ])

    climb-IsClimbed :
        (round : ℕ → ℕ → Nodes → Nodes)
        → Writes round
        → (depth rounds l : ℕ) (nodes : Nodes) → l + rounds ≡ depth
        → IsClimbed depth l nodes
        → IsClimbed depth depth (climb round rounds l (ancestor l index) nodes)
    unfolding climb ancestor
    climb-IsClimbed round writes depth zero l nodes e h =
        λ m le j side. h m le j (elim side [ inl below ↦ inl (omega arith) | inr off ↦ inr off ])
    climb-IsClimbed round writes depth (suc rounds) l nodes e h = rw add-one (
        climb-IsClimbed round writes depth rounds (suc l) (round l (ancestor l index) nodes)
          (omega arith) (round-IsClimbed round writes depth l nodes h (omega arith)))

    -- The whole climb, once the leaf is written.
    climb-Represents :
        (round : ℕ → ℕ → Nodes → Nodes)
        → Writes round
        → (depth : ℕ) (nodes : Nodes) → ((j : ℕ) → value_at hash_pair nodes 0 j ≡ leaf j)
        → ((m : ℕ)
            → m ≤ depth
            → (j : ℕ) → j ≢ ancestor m index
            → value_at hash_pair nodes m j ≡ node hash_pair leaf m j)
        → (m : ℕ) → m ≤ depth
        → (j : ℕ)
        → value_at hash_pair (climb round depth 0 index nodes) m j ≡ node hash_pair leaf m j
    unfolding ancestor node
    climb-Represents round writes depth nodes bottom off m le j =
        climb-IsClimbed round writes depth depth 0 nodes (omega arith) start m le j (inl le)
      where
        start : IsClimbed depth 0 nodes
        start zero le' j' side = bottom j'
        start (suc k) le' j' (inl small) = absurd (omega arith)
        start (suc k) le' j' (inr ne) = off (suc k) le' j' ne

  -- A new tree has no leaves.
  pub empty_tree-Represents :
      (depth : ℕ) → Represents hash_pair (empty_tree hash_pair depth) no_leaves
  unfolding empty_tree value_at
  empty_tree-Represents depth = record {
    stored = λ m le j. sym (node-no_leaves hash_pair m j);
    rooted = sym (node-no_leaves hash_pair depth 0);
  }

  module _ (t : Tree) (leaf : ℕ → ℕ) (rep : Represents hash_pair t leaf) (index : ℕ) where
    -- Either operation: the leaf is replaced at level 0, and the climb repairs the path.
    climb-replaced :
        (v : ℕ) (round : ℕ → ℕ → Nodes → Nodes) (nodes : Nodes)
        → Writes round
        → ((m j : ℕ)
            → value_at hash_pair nodes m j
              ≡ (if (m == 0) && (j == index) then v else value_at hash_pair t.nodes m j))
        → (m : ℕ) → m ≤ t.depth
        → (j : ℕ)
        → value_at hash_pair (climb round t.depth 0 index nodes) m j
          ≡ node hash_pair (update leaf index v) m j
    climb-replaced v round nodes writes replaced =
        climb-Represents (update leaf index v) index round writes t.depth nodes bottom above
      where
        bottom : (j : ℕ) → value_at hash_pair nodes 0 j ≡ update leaf index v j
        bottom j = rw (replaced 0 j) (ground (arith, leaf_stored hash_pair t leaf rep j))

        above :
            (m : ℕ)
            → m ≤ t.depth
            → (j : ℕ) → j ≢ ancestor m index
            → value_at hash_pair nodes m j ≡ node hash_pair (update leaf index v) m j
        above m le j off =
            rw (replaced m j, not_here m index j off, node-update hash_pair leaf index v m j off)
              (rep.stored m le j)

    -- An insertion within the range succeeds, and the tree then stands for the updated leaves.
    pub insert_leaf-Represents :
        (v : ℕ)
        → index < 2 ^ t.depth
        → (t' : Tree) × (insert_leaf hash_pair index v t ≡ some t')
          × (t'.depth ≡ t.depth)
          × Represents hash_pair t' (update leaf index v)
    unfolding insert_leaf
    insert_leaf-Represents v h =
        let nodes = climb (insert_level hash_pair) t.depth 0 index (set_node 0 index v t.nodes) in
        let all =
          climb-replaced v (insert_level hash_pair) (set_node 0 index v t.nodes) insert_level-Writes
            (value_at-set_node t.nodes 0 index v) in
        (
          with_nodes hash_pair t nodes,
          rw (lt→leb _ _ h) refl,
          refl,
          record { stored = all; rooted = all t.depth (omega arith) 0 },
        )

    -- A removal resets the leaf to the empty value, whatever the index.
    pub remove_leaf-Represents :
        Represents hash_pair (remove_leaf hash_pair index t) (update leaf index 0)
    unfolding remove_leaf
    remove_leaf-Represents = record { stored = all; rooted = all t.depth (omega arith) 0 }
      where
        zeroed :
            (m j : ℕ)
            → value_at hash_pair (delete_node 0 index t.nodes) m j
              ≡ (if (m == 0) && (j == index) then 0 else value_at hash_pair t.nodes m j)
        zeroed m j =
            rw (value_at-delete_node t.nodes 0 index m j)
              (ground (arith, zero_hash-zero hash_pair m))

        all :
            (m : ℕ)
            → m ≤ t.depth
            → (j : ℕ)
            → value_at hash_pair (remove_leaf hash_pair index t).nodes m j
              ≡ node hash_pair (update leaf index 0) m j
        all =
            climb-replaced 0 (remove_level hash_pair) (delete_node 0 index t.nodes)
              remove_level-Writes zeroed

  pub depth-remove_leaf : (t : Tree) (index : ℕ) → (remove_leaf hash_pair index t).depth ≡ t.depth
  unfolding remove_leaf
  depth-remove_leaf t index = refl
