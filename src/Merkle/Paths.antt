-- ===== src/Merkle/Paths.antt =====
-- src/utils/merkle.ts: the proofs that `getMerkleProof` and `getRawMerkleProof` read from the
-- layers of a tree built from scratch.
use native.Mathlib.Nat.{pow-suc}
use native.Mathlib.Numerals.{add-one}
use atf.Common.{
  ℕ, zero, suc, ◌+◌, ◌*◌, ◌/◌, ◌%◌, ◌^◌, ◌<◌, ◌≡◌, refl, sym, Bool, true, Option, none, some, List,
  [], ◌∷◌, arith, ◌==◌, if◌then◌else◌, length, get_or, Bool-cases, inl, inr,
}
use atf.Merkle.{Proof, is_right, sibling_index, directions, fold_path, verify_proof}
use atf.Merkle.Spec.{node, no_leaves}
use atf.Merkle.Builder.{
  root_of, next_layer, layers_from, build_layers, placed, first_layer, IsLayer, next_layer-IsLayer,
  length-next_layer, length-first_layer, first_layer-IsLayer, root_of-build_layers,
}

-- The loop over the levels. A sibling that is missing is 0; a level that is missing (`none`) is the
-- error of reading from `undefined`.
unfoldable pub path_from : ℕ → List (List ℕ) → ℕ → Option (List ℕ)
unfolding sibling_index
path_from zero layers idx = some []
path_from (suc rounds) [] idx = none
path_from (suc rounds) (layer ∷ layers) idx =
    let above = path_from rounds layers (idx / 2) in
    elim above [ none ↦ none | some es ↦ some (get_or layer (sibling_index idx) 0 ∷ es) ]

-- `none` also where the root is `undefined`.
unfoldable pub get_raw_merkle_proof : List (List ℕ) → ℕ → ℕ → Option Proof
unfolding path_from directions root_of
get_raw_merkle_proof layers leaf_index depth = elim (path_from depth layers leaf_index) [
  | none ↦ none
  | some es ↦ elim (root_of layers depth) [
    | none ↦ none
    | some r ↦
        some (record { path_elements = es; path_indices = directions depth leaf_index; root = r })
  ]
]

module _ (hash_pair : ℕ → ℕ → ℕ) where
  node_up :
      (leaf : ℕ → ℕ) (l a : ℕ)
      → (if (if is_right a then 1 else 0) == 1
          then hash_pair (node hash_pair leaf l (sibling_index a)) (node hash_pair leaf l a)
          else hash_pair (node hash_pair leaf l a) (node hash_pair leaf l (sibling_index a)))
        ≡ node hash_pair leaf (suc l) (a / 2)
  unfolding is_right sibling_index node
  node_up leaf l a = elim (Bool-cases (a % 2 == 1)) [
    | inl odd ↦ rw odd (ground arith)
    | inr even ↦ rw even (ground arith)
  ]

  sibling_index_lt : (rounds a : ℕ) → a < 2 ^ rounds * 2 → sibling_index a < 2 ^ rounds * 2
  unfolding sibling_index is_right
  sibling_index_lt rounds a h = ground arith

  path_from-layers_from :
      (leaf : ℕ → ℕ) (rounds level d a : ℕ) (prev : List ℕ)
      → level + rounds ≡ d
      → length prev ≡ 2 ^ rounds
      → IsLayer hash_pair leaf level prev
      → a < 2 ^ rounds
      → (es : List ℕ) × (path_from rounds (layers_from hash_pair rounds level prev) a ≡ some es)
        × (fold_path hash_pair rounds (node hash_pair leaf level a) es (directions rounds a)
            ≡ some (node hash_pair leaf d 0))
  unfolding path_from layers_from fold_path directions
  path_from-layers_from leaf zero level d a prev e len h lt =
      let same : level ≡ d = omega arith in
      let at : a ≡ 0 = omega arith in ([], refl, rw (same, at) refl)
  path_from-layers_from leaf (suc rounds) level d a prev e len h lt =
      let twice : length prev ≡ 2 ^ rounds * 2 = rw (← pow-suc 2 rounds) len in
      let small : a < 2 ^ rounds * 2 = rw (← pow-suc 2 rounds) lt in
      let (es, read, up) =
        path_from-layers_from leaf rounds (suc level) d (a / 2) (next_layer hash_pair level prev)
          (omega arith) (omega (arith, length-next_layer hash_pair level prev))
          (next_layer-IsLayer hash_pair leaf rounds level prev len h) (omega arith) in
      let beside : get_or prev (sibling_index a) 0 ≡ node hash_pair leaf level (sibling_index a) =
        h (sibling_index a) (rw twice (sibling_index_lt rounds a small)) in
      (
        get_or prev (sibling_index a) 0 ∷ es,
        rw (add-one level, read) refl,
        rw (beside, node_up leaf level a) up,
      )

  accepts :
      (depth x r : ℕ) (es is : List ℕ)
      → fold_path hash_pair depth x es is ≡ some r
      → verify_proof hash_pair x es is r depth ≡ some true
  unfolding verify_proof
  accepts depth x r es is h = rw (h, verify_proof) (ground arith)

  -- The proof that is read for a leaf in range of a tree built from scratch is accepted for the
  -- leaf that was placed there, against the root that it carries, which is the root of the tree.
  pub verify_proof-get_raw_merkle_proof :
      (raw_leaf : Bool) (leaves : List (ℕ × ℕ)) (depth index : ℕ)
      → index < 2 ^ depth
      → (p : Proof) × (get_raw_merkle_proof
            (build_layers hash_pair raw_leaf leaves depth)
            index
            depth
          ≡ some p)
        × (some p.root ≡ root_of (build_layers hash_pair raw_leaf leaves depth) depth)
        × (verify_proof hash_pair
              (placed hash_pair raw_leaf (2 ^ depth) leaves no_leaves index)
              p.path_elements
              p.path_indices
              p.root
              depth
            ≡ some true)
  unfolding get_raw_merkle_proof build_layers node
  verify_proof-get_raw_merkle_proof raw_leaf leaves depth index h =
      let leaf = placed hash_pair raw_leaf (2 ^ depth) leaves no_leaves in
      let (es, read, up) =
        path_from-layers_from leaf depth 0 depth index (first_layer hash_pair raw_leaf leaves depth)
          (omega arith) (length-first_layer hash_pair raw_leaf leaves depth)
          (first_layer-IsLayer hash_pair raw_leaf leaves depth) h in
      let top = root_of-build_layers hash_pair raw_leaf leaves depth in
      (
        record {
          path_elements = es;
          path_indices = directions depth index;
          root = node hash_pair leaf depth 0;
        },
        rw (read, get_raw_merkle_proof, build_layers) (rw top refl),
        sym top,
        accepts depth (leaf index) (node hash_pair leaf depth 0) es (directions depth index) up,
      )
