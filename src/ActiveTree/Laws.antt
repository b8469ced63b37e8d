-- ===== src/ActiveTree/Laws.antt =====
-- What a valid active tree keeps: each commitment sits at an index of its own, and the Merkle tree
-- holds exactly the commitments that the index knows.
use atf.Common.{
  ℕ, ◌+◌, ◌^◌, ◌≤◌, ◌<◌, ◌≡◌, refl, sym, ◌∙◌, ◌≢◌, inl, inr, Option, none, some, lookup, insert,
  erase, lookup-insert, lookup-erase, arith, eq_or_ne, lt→leb,
}
use atf.Merkle.{remove_leaf}
use atf.Merkle.Spec.{update, no_leaves, Represents}
use atf.Merkle.Updates.{
  empty_tree-Represents, insert_leaf-Represents, remove_leaf-Represents, depth-remove_leaf,
}
use atf.ActiveTree.{
  tree_depth, max_leaves, ActiveTree, Added, new_active_tree, insert_at, add_leaf, remove_leaf_of,
  persist_root,
}

module _ (hash_pair : ℕ → ℕ → ℕ) where
  pub record IsValid (a : ActiveTree) : Type 0 where
    pub depth : a.tree.depth ≡ tree_depth
    pub leaf : ℕ → ℕ
    pub rep : Represents hash_pair a.tree leaf
    pub bounded : a.next_index ≤ max_leaves
    -- An indexed commitment is the leaf at its index.
    pub held : (c i : ℕ) → lookup c a.index_of ≡ some i → (leaf i ≡ c) × (i < a.next_index)
    -- A leaf that is not empty belongs to an indexed commitment.
    pub indexed : (i : ℕ) → leaf i ≢ 0 → lookup (leaf i) a.index_of ≡ some i

  pub new_active_tree-IsValid : IsValid (new_active_tree hash_pair)
  unfolding new_active_tree
  new_active_tree-IsValid = record {
    depth = refl;
    leaf = no_leaves;
    rep = empty_tree-Represents hash_pair tree_depth;
    bounded = omega arith;
    held = λ c i h. cc;
    indexed = λ i h. absurd (h refl);
  }

  -- No two commitments share an index.
  pub lookup-injective :
      (a : ActiveTree)
      → IsValid a
      → (c d i : ℕ) → lookup c a.index_of ≡ some i
      → lookup d a.index_of ≡ some i
      → c ≡ d
  lookup-injective a v c d i hc hd = sym (v.held c i hc).0 ∙ (v.held d i hd).0

  -- Writing a commitment at its index, whether that is new or not, gives a valid tree.
  insert_at-IsValid :
      (a : ActiveTree) (value idx : ℕ) (leaf : ℕ → ℕ)
      → a.tree.depth ≡ tree_depth
      → Represents hash_pair a.tree leaf
      → a.next_index ≤ max_leaves
      → idx < a.next_index
      → ((c i : ℕ)
          → lookup c a.index_of ≡ some i
          → (update leaf idx value i ≡ c) × (i < a.next_index))
      → ((i : ℕ)
          → update leaf idx value i ≢ 0
          → lookup (update leaf idx value i) a.index_of ≡ some i)
      → (a' : ActiveTree) × (r : Added) × (insert_at hash_pair idx value a ≡ (a', some r))
        × (r.leaf_index ≡ idx)
        × (a'.index_of ≡ a.index_of)
        × IsValid a'
  unfolding insert_at
  insert_at-IsValid a value idx leaf depth rep bounded lt held indexed =
      let room : idx < 2 ^ a.tree.depth = rw depth (omega arith) in
      let (t', inserted, same, rep') =
        insert_leaf-Represents hash_pair a.tree leaf rep idx value room in
      let grown : ActiveTree = persist_root (record a { tree = t'; epoch = a.epoch + 1 }) in
      (
        grown,
        record { root = t'.root; epoch = a.epoch + 1; leaf_index = idx },
        rw (inserted, insert_at) refl,
        refl,
        refl,
        record {
          depth = same ∙ depth;
          leaf = update leaf idx value;
          rep = rep';
          bounded = bounded;
          held = held;
          indexed = indexed;
        },
      )

  add_leaf_known :
      (a : ActiveTree) (value idx : ℕ)
      → lookup value a.index_of ≡ some idx
      → add_leaf hash_pair value a ≡ insert_at hash_pair idx value a
  unfolding add_leaf
  add_leaf_known a value idx found = rw (found, add_leaf) refl

  -- What `addLeaf` has written before it calls the tree, for a commitment that is new.
  abbrev claimed : ℕ → ActiveTree → ActiveTree
  claimed value a = record a {
    index_of = insert value a.next_index a.index_of;
    next_index = a.next_index + 1;
  }

  add_leaf_new :
      (a : ActiveTree) (value : ℕ)
      → lookup value a.index_of ≡ none
      → a.next_index < max_leaves
      → add_leaf hash_pair value a ≡ insert_at hash_pair a.next_index value (claimed value a)
  unfolding add_leaf
  add_leaf_new a value missing room = rw (missing, add_leaf, lt→leb _ _ room) refl

  module _ (a : ActiveTree) (v : IsValid a) where
    -- Below the next index lies every leaf that is not empty.
    pub leaf-next : (i : ℕ) → a.next_index ≤ i → v.leaf i ≡ 0
    leaf-next i le = elim (eq_or_ne (v.leaf i) 0) [
      | inl e ↦ e
      | inr ne ↦ absurd (omega (arith, (v.held (v.leaf i) i (v.indexed i ne)).1))
    ]

    pub readd :
        (value idx : ℕ)
        → lookup value a.index_of ≡ some idx
        → (a' : ActiveTree) × (r : Added) × (add_leaf hash_pair value a ≡ (a', some r))
          × (r.leaf_index ≡ idx)
          × (a'.index_of ≡ a.index_of)
          × IsValid a'
    readd value idx found =
        let (here, lt) = v.held value idx found in
        rw (add_leaf_known a value idx found) (
          insert_at-IsValid a value idx v.leaf v.depth v.rep v.bounded lt
            (λ c i h. ground (arith, v.held c i h)) (λ i ne. ground (arith, v.indexed i)))

    pub add_new :
        (value : ℕ)
        → lookup value a.index_of ≡ none
        → a.next_index < max_leaves
        → (a' : ActiveTree) × (r : Added) × (add_leaf hash_pair value a ≡ (a', some r))
          × (r.leaf_index ≡ a.next_index)
          × (a'.index_of ≡ insert value a.next_index a.index_of)
          × IsValid a'
    add_new value missing room = rw (add_leaf_new a value missing room) (
        insert_at-IsValid (claimed value a) value a.next_index v.leaf v.depth v.rep (omega arith)
          (omega arith)
          (λ c i h. ground (arith, v.held c i, lookup-insert value c a.next_index a.index_of))
          (λ i ne. ground (
            arith,
            v.indexed i,
            lookup-insert value (v.leaf i) a.next_index a.index_of,
            lookup-insert value value a.next_index a.index_of,
          )))

    -- A commitment that is removed leaves an empty leaf, and the tree stays valid.
    pub remove_leaf_of-IsValid : (c : ℕ) → IsValid (remove_leaf_of hash_pair c a)
    unfolding remove_leaf_of
    remove_leaf_of-IsValid c = go (lookup c a.index_of) refl
      where
        go :
            (o : Option ℕ)
            → lookup c a.index_of ≡ o
            → IsValid (elim o [
              | none ↦ a
              | some idx ↦ persist_root (record a {
                tree = remove_leaf hash_pair idx a.tree;
                index_of = erase c a.index_of;
                epoch = a.epoch + 1;
              })
            ])
        go none e = v
        go (some idx) e = record {
          depth = depth-remove_leaf hash_pair a.tree idx ∙ v.depth;
          leaf = update v.leaf idx 0;
          rep = remove_leaf-Represents hash_pair a.tree v.leaf v.rep idx;
          bounded = v.bounded;
          held = λ d i h. ground (arith, v.held d i, v.held c idx e, lookup-erase c d a.index_of);
          indexed = λ i ne. ground (arith, v.indexed i, lookup-erase c (v.leaf i) a.index_of);
        }
