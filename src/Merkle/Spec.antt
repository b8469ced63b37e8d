-- ===== src/Merkle/Spec.antt =====
-- The tree that the incremental one stands for: a function from positions to leaves, hashed level
-- by level.
use atf.Common.{
  ℕ, zero, suc, ◌+◌, ◌*◌, ◌/◌, ◌^◌, ◌≤◌, ◌<◌, ◌≡◌, refl, ◌≢◌, arith, ◌==◌, if◌then◌else◌,
}
use native.Mathlib.Nat.{pow-suc}
use atf.Merkle.{Tree, zero_hash, value_at}

-- Position 0 is the value of an empty leaf.
abbrev pub update : (ℕ → ℕ) → ℕ → ℕ → ℕ → ℕ
update leaf index v j = if j == index then v else leaf j

abbrev pub no_leaves : ℕ → ℕ
no_leaves j = 0

-- The index at a level of the node above a leaf.
unfoldable pub ancestor : ℕ → ℕ → ℕ
ancestor zero i = i
ancestor (suc l) i = ancestor l i / 2

pub ancestor-half : (l i : ℕ) → ancestor l (i / 2) ≡ ancestor l i / 2
unfolding ancestor
ancestor-half zero i = refl
ancestor-half (suc l) i = rw (ancestor-half l i)

pub ancestor-eq-zero : (d i : ℕ) → i < 2 ^ d → ancestor d i ≡ 0
unfolding ancestor
ancestor-eq-zero zero i h = omega arith
ancestor-eq-zero (suc d) i h =
    let p : i < 2 ^ d * 2 = rw (← pow-suc 2 d) h in
    rw (← ancestor-half d i) (ancestor-eq-zero d (i / 2) (omega arith))

module _ (hash_pair : ℕ → ℕ → ℕ) where
  unfoldable pub node : (ℕ → ℕ) → ℕ → ℕ → ℕ
  node leaf zero i = leaf i
  node leaf (suc l) i = hash_pair (node leaf l (2 * i)) (node leaf l (2 * i + 1))

  -- Each stored or defaulted node, and the root, are those of the hashed leaves.
  pub record Represents (t : Tree) (leaf : ℕ → ℕ) : Type 0 where
    pub stored : (m : ℕ) → m ≤ t.depth → (j : ℕ) → value_at hash_pair t.nodes m j ≡ node leaf m j
    pub rooted : t.root ≡ node leaf t.depth 0

  pub node-no_leaves : (l i : ℕ) → node no_leaves l i ≡ zero_hash hash_pair l
  unfolding node zero_hash
  node-no_leaves zero i = refl
  node-no_leaves (suc l) i = rw (node-no_leaves l (2 * i), node-no_leaves l (2 * i + 1))

  -- A leaf matters to the nodes above it alone.
  pub node-update :
      (leaf : ℕ → ℕ) (index v l j : ℕ)
      → j ≢ ancestor l index
      → node (update leaf index v) l j ≡ node leaf l j
  unfolding node ancestor
  node-update leaf index v zero j h = ground arith
  node-update leaf index v (suc l) j h = rw (
    node-update leaf index v l (2 * j) (omega arith),
    node-update leaf index v l (2 * j + 1) (omega arith),
  )
