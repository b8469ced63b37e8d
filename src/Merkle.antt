-- ===== src/Merkle.antt =====
-- src/utils/merkle.ts: the incremental Merkle tree of the active credentials, and the check of a
-- proof. A bigint is a natural number; `hash_pair` is circomlibjs's Poseidon of two inputs.
pub mod Spec
pub mod Updates
pub mod Proofs
pub mod Builder
pub mod Loading
pub mod Paths
pub mod Collision
mod Tests
use atf.Common.{
  ℕ, zero, suc, ◌+◌, ◌-◌, ◌/◌, ◌%◌, ◌^◌, Bool, true, false, Option, none, some, List, [], ◌∷◌, Dict,
  lookup, insert, erase, length, leb, ltb, ◌==◌, if◌then◌else◌, or_else,
}

-- `nodes[level]` is the Map of one level.
abbrev pub Nodes : Type 0
Nodes = ℕ → Dict ℕ

pub record Tree : Type 0 where
  pub depth : ℕ
  pub nodes : Nodes
  pub root : ℕ

pub record Proof : Type 0 where
  pub path_elements : List ℕ
  pub path_indices : List ℕ
  pub root : ℕ

abbrev set_node : ℕ → ℕ → ℕ → Nodes → Nodes
set_node level idx v nodes m = if m == level then insert idx v (nodes m) else nodes m

abbrev delete_node : ℕ → ℕ → Nodes → Nodes
delete_node level idx nodes m = if m == level then erase idx (nodes m) else nodes m

unfoldable pub size : Tree → ℕ
size t = length (t.nodes 0)

unfoldable pub is_right : ℕ → Bool
is_right idx = idx % 2 == 1

unfoldable pub sibling_index : ℕ → ℕ
unfolding is_right
sibling_index idx = if is_right idx then idx - 1 else idx + 1

-- The climb from a leaf to the root: `update level idx` writes the parent of the node.
unfoldable pub climb : (ℕ → ℕ → Nodes → Nodes) → ℕ → ℕ → ℕ → Nodes → Nodes
climb update zero level idx nodes = nodes
climb update (suc rounds) level idx nodes =
    climb update rounds (level + 1) (idx / 2) (update level idx nodes)

unfoldable pub directions : ℕ → ℕ → List ℕ
unfolding is_right
directions zero idx = []
directions (suc rounds) idx = (if is_right idx then 1 else 0) ∷ directions rounds (idx / 2)

-- `pathIndices[i] === 1`, false past the end.
abbrev first_is_one : List ℕ → Bool
first_is_one [] = false
first_is_one (i ∷ is) = i == 1

abbrev rest : List ℕ → List ℕ
rest [] = []
rest (i ∷ is) = is

module _ (hash_pair : ℕ → ℕ → ℕ) where
  -- `zeros[level]`
  unfoldable pub zero_hash : ℕ → ℕ
  zero_hash zero = 0
  zero_hash (suc i) = hash_pair (zero_hash i) (zero_hash i)

  -- `this.nodes[level].get(idx) ?? this.zeros[level]`
  unfoldable pub value_at : Nodes → ℕ → ℕ → ℕ
  value_at nodes level idx = or_else (lookup idx (nodes level)) (zero_hash level)

  unfoldable pub parent_value : Nodes → ℕ → ℕ → ℕ
  unfolding is_right sibling_index value_at
  parent_value nodes level idx =
      let cur = value_at nodes level idx in
      let sib = value_at nodes level (sibling_index idx) in
      if is_right idx then hash_pair sib cur else hash_pair cur sib

  unfoldable pub empty_tree : ℕ → Tree
  empty_tree depth = record { depth = depth; nodes = λ _. []; root = zero_hash depth }

  unfoldable pub insert_level : ℕ → ℕ → Nodes → Nodes
  unfolding parent_value
  insert_level level idx nodes = set_node (level + 1) (idx / 2) (parent_value nodes level idx) nodes

  unfoldable pub remove_level : ℕ → ℕ → Nodes → Nodes
  unfolding parent_value zero_hash
  remove_level level idx nodes =
      let parent = parent_value nodes level idx in
      if parent == zero_hash (level + 1)
      then delete_node (level + 1) (idx / 2) nodes
      else set_node (level + 1) (idx / 2) parent nodes

  with_nodes : Tree → Nodes → Tree
  unfolding value_at zero_hash
  with_nodes t nodes = record t { nodes = nodes; root = value_at nodes t.depth 0 }

  -- `none` is the thrown error, raised before anything is written.
  unfoldable pub insert_leaf : ℕ → ℕ → Tree → Option Tree
  unfolding climb insert_level with_nodes
  insert_leaf index value t =
      if leb (2 ^ t.depth) index
      then none
      else some (with_nodes t (climb insert_level t.depth 0 index (set_node 0 index value t.nodes)))

  -- The source tests no range here.
  unfoldable pub remove_leaf : ℕ → Tree → Tree
  unfolding climb remove_level with_nodes
  remove_leaf index t =
      with_nodes t (climb remove_level t.depth 0 index (delete_node 0 index t.nodes))

  siblings : Nodes → ℕ → ℕ → ℕ → List ℕ
  unfolding sibling_index value_at
  siblings nodes zero level idx = []
  siblings nodes (suc rounds) level idx =
      value_at nodes level (sibling_index idx) ∷ siblings nodes rounds (level + 1) (idx / 2)

  unfoldable pub get_proof : Tree → ℕ → Proof
  unfolding siblings directions
  get_proof t index = record {
    path_elements = siblings t.nodes t.depth 0 index;
    path_indices = directions t.depth index;
    root = t.root;
  }

  -- The loop over the entries, and whether it ended with no error thrown.
  pub insert_all : List (ℕ × ℕ) → Tree → Tree × Bool
  unfolding insert_leaf
  insert_all [] t = (t, true)
  insert_all ((index, value) ∷ entries) t = elim (insert_leaf index value t) [
    | none ↦ (t, false)
    | some t' ↦ insert_all entries t'
  ]

  unfoldable pub load_leaves : List (ℕ × ℕ) → Tree → Tree × Bool
  unfolding insert_all empty_tree
  load_leaves entries t = insert_all entries (empty_tree t.depth)

  -- `none` is the error of hashing `undefined`, when the path is shorter than the depth.
  unfoldable pub fold_path : ℕ → ℕ → List ℕ → List ℕ → Option ℕ
  fold_path zero current es is = some current
  fold_path (suc n) current [] is = none
  fold_path (suc n) current (e ∷ es) is =
      fold_path n (if first_is_one is then hash_pair e current else hash_pair current e) es
        (rest is)

  unfoldable pub verify_proof : ℕ → List ℕ → List ℕ → ℕ → ℕ → Option Bool
  unfolding fold_path
  verify_proof leaf_hash es is root depth = elim (fold_path depth leaf_hash es is) [
    | none ↦ none
    | some r ↦ some (r == root)
  ]
