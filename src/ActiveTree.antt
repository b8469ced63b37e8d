-- ===== src/ActiveTree.antt =====
-- src/trees/active-tree.ts: the active credentials of one organization, over the incremental tree.
-- The rows that `persistRoot` adds to `credential_roots` are kept in the state, newest last.
pub mod Laws
pub mod Membership
pub mod Histories
pub mod Epochs
mod Tests
use atf.Common.{
  ℕ, ◌+◌, ◌^◌, Bool, Option, none, some, List, [], ◌∷◌, ◌++◌, Dict, lookup, insert, erase, leb,
  if◌then◌else◌, is_some, or_else,
}
use atf.Merkle.{Tree, Proof, empty_tree, insert_leaf, remove_leaf, get_proof}

abbrev pub tree_depth : ℕ
tree_depth = 20

abbrev pub max_leaves : ℕ
max_leaves = 2 ^ tree_depth

pub record ActiveTree : Type 0 where
  pub tree : Tree
  -- commitment ↦ dense index
  pub index_of : Dict ℕ
  pub next_index : ℕ
  pub epoch : ℕ
  pub roots : List (ℕ × ℕ)

pub record Added : Type 0 where
  pub root : ℕ
  pub epoch : ℕ
  pub leaf_index : ℕ

persist_root : ActiveTree → ActiveTree
persist_root a = record a { roots = a.roots ++ (a.tree.root, a.epoch) ∷ [] }

unfoldable pub has_leaf : ℕ → ActiveTree → Bool
has_leaf commitment a = is_some (lookup commitment a.index_of)

module _ (hash_pair : ℕ → ℕ → ℕ) where
  -- The constructor.
  unfoldable pub new_active_tree : ActiveTree
  unfolding empty_tree
  new_active_tree = record {
    tree = empty_tree hash_pair tree_depth;
    index_of = [];
    next_index = 0;
    epoch = 0;
    roots = [];
  }

  -- The second half of `addLeaf`; `none` is the error that the tree's `insert` throws.
  insert_at : ℕ → ℕ → ActiveTree → ActiveTree × Option Added
  unfolding persist_root
  insert_at idx value a = elim (insert_leaf hash_pair idx value a.tree) [
    | none ↦ (a, none)
    | some t ↦
        let a' = persist_root (record a { tree = t; epoch = a.epoch + 1 }) in
        (a', some (record { root = t.root; epoch = a.epoch + 1; leaf_index = idx }))
  ]

  -- The state after the call, and its result; `none` is the thrown error "tree is full".
  unfoldable pub add_leaf : ℕ → ActiveTree → ActiveTree × Option Added
  unfolding insert_at
  add_leaf value a = elim (lookup value a.index_of) [
    | some idx ↦ insert_at idx value a
    | none ↦
        if leb max_leaves a.next_index
        then (a, none)
        else insert_at a.next_index value (record a {
          index_of = insert value a.next_index a.index_of;
          next_index = a.next_index + 1;
        })
  ]

  unfoldable pub remove_leaf_of : ℕ → ActiveTree → ActiveTree
  unfolding persist_root
  remove_leaf_of commitment a = elim (lookup commitment a.index_of) [
    | none ↦ a
    | some idx ↦ persist_root (record a {
      tree = remove_leaf hash_pair idx a.tree;
      index_of = erase commitment a.index_of;
      epoch = a.epoch + 1;
    })
  ]

  unfoldable pub get_proof_for_commitment : ℕ → ActiveTree → Option Proof
  get_proof_for_commitment commitment a = elim (lookup commitment a.index_of) [
    | none ↦ none
    | some idx ↦ some (get_proof hash_pair a.tree idx)
  ]
