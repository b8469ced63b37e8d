-- ===== src/Merkle/Builder.antt =====
-- src/utils/merkle.ts: the tree built from scratch, `buildMerkleTreeImpl`, over an array of
-- 2^depth leaves, and the proofs read from its layers.
use native.Mathlib.Nat.{pow-suc, mod-lt, one-le-pow}
use native.Mathlib.Numerals.{add-one}
use atf.Common.{
  ℕ, zero, suc, ◌+◌, ◌*◌, ◌/◌, ◌%◌, ◌^◌, ◌<◌, ◌≡◌, refl, ap, ◌∙◌, Bool, Option, none, some, List,
  [], ◌∷◌, arith, ◌==◌, ◌&&◌, if◌then◌else◌, length, get_elem?, get_or, set, replicate, length-set,
  length-replicate, get_or-replicate, get_or-set,
}
use atf.Merkle.{zero_hash}
use atf.Merkle.Spec.{node, update, no_leaves}

-- `layers[depth][0]`
unfoldable pub root_of : List (List ℕ) → ℕ → Option ℕ
root_of layers depth = elim (get_elem? layers depth) [ none ↦ none | some top ↦ get_elem? top 0 ]

module _ (hash_pair : ℕ → ℕ → ℕ) where
  -- `hashLeaf` and `hashPair` are one Poseidon of two inputs.
  abbrev hash_leaf : ℕ → ℕ → ℕ
  hash_leaf key value = hash_pair key value

  -- The loop over the Map of leaves, whose later entries overwrite earlier ones.
  unfoldable pub place_leaves : Bool → ℕ → List (ℕ × ℕ) → List ℕ → List ℕ
  place_leaves raw_leaf size [] array = array
  place_leaves raw_leaf size ((key, value) ∷ leaves) array =
      place_leaves raw_leaf size leaves
        (set array (key % size) (if raw_leaf then value else hash_leaf key value))

  unfoldable pub parent_of : ℕ → ℕ → ℕ → ℕ
  parent_of level left right =
      let child_zero = zero_hash hash_pair level in
      if left == child_zero && right == child_zero
      then zero_hash hash_pair (level + 1)
      else if left == child_zero
      then hash_pair child_zero right
      else if right == child_zero
      then hash_pair left child_zero
      else hash_pair left right

  unfoldable pub next_layer : ℕ → List ℕ → List ℕ
  unfolding parent_of
  next_layer level [] = []
  next_layer level (x ∷ []) = []
  next_layer level (left ∷ right ∷ prev) = parent_of level left right ∷ next_layer level prev

  unfoldable pub layers_from : ℕ → ℕ → List ℕ → List (List ℕ)
  unfolding next_layer
  layers_from zero level prev = prev ∷ []
  layers_from (suc rounds) level prev =
      prev ∷ layers_from rounds (level + 1) (next_layer level prev)

  unfoldable pub build_layers : Bool → List (ℕ × ℕ) → ℕ → List (List ℕ)
  unfolding layers_from place_leaves
  build_layers raw_leaf leaves depth =
      layers_from depth 0 (place_leaves raw_leaf (2 ^ depth) leaves (replicate (2 ^ depth) 0))

  -- The short cuts for empty children compute the hash of the two children all the same.
  parent_of-eq-hash_pair :
      (level left right : ℕ) → parent_of level left right ≡ hash_pair left right
  unfolding parent_of zero_hash
  parent_of-eq-hash_pair level left right = rw (add-one level) (ground arith)

  pub length-next_layer :
      (level : ℕ) (prev : List ℕ) → length (next_layer level prev) ≡ length prev / 2
  unfolding next_layer
  length-next_layer level [] = omega arith
  length-next_layer level (x ∷ []) = omega arith
  length-next_layer level (x ∷ y ∷ prev) = omega (arith, length-next_layer level prev)

  get_or-next_layer :
      (level i : ℕ) (prev : List ℕ)
      → 2 * i + 1 < length prev
      → get_or (next_layer level prev) i 0
        ≡ hash_pair (get_or prev (2 * i) 0) (get_or prev (2 * i + 1) 0)
  unfolding next_layer
  get_or-next_layer level i [] h = absurd (omega arith)
  get_or-next_layer level i (x ∷ []) h = absurd (omega arith)
  get_or-next_layer level zero (x ∷ y ∷ prev) h = parent_of-eq-hash_pair level x y
  get_or-next_layer level (suc i) (x ∷ y ∷ prev) h =
      let even : 2 * suc i ≡ suc (suc (2 * i)) = omega arith in
      let odd : suc (suc (2 * i)) + 1 ≡ suc (suc (2 * i + 1)) = omega arith in
      rw (even, odd) (get_or-next_layer level i prev (omega arith))

  abbrev pub IsLayer : (ℕ → ℕ) → ℕ → List ℕ → Type 0
  IsLayer leaf level layer =
      (i : ℕ) → i < length layer → get_or layer i 0 ≡ node hash_pair leaf level i

  pub next_layer-IsLayer :
      (leaf : ℕ → ℕ) (rounds level : ℕ) (prev : List ℕ)
      → length prev ≡ 2 ^ suc rounds
      → IsLayer leaf level prev
      → IsLayer leaf (suc level) (next_layer level prev)
  unfolding node
  next_layer-IsLayer leaf rounds level prev len h i lt =
      let twice : length prev ≡ 2 ^ rounds * 2 = rw (← pow-suc 2 rounds) len in
      let half = length-next_layer level prev in
      let room : 2 * i + 1 < length prev = omega (arith, half) in
      rw (get_or-next_layer level i prev room, h (2 * i) (omega arith), h (2 * i + 1) room)

  root_of-layers_from :
      (leaf : ℕ → ℕ) (rounds level d : ℕ) (prev : List ℕ)
      → level + rounds ≡ d
      → length prev ≡ 2 ^ rounds
      → IsLayer leaf level prev
      → root_of (layers_from rounds level prev) rounds ≡ some (node hash_pair leaf d 0)
  unfolding layers_from root_of
  root_of-layers_from leaf zero level d [] e len h = absurd (omega arith)
  root_of-layers_from leaf zero level d (x ∷ prev) e len h =
      let same : level ≡ d = omega arith in ap some (h 0 (omega arith) ∙ rw same refl)
  root_of-layers_from leaf (suc rounds) level d prev e len h =
      let twice : length prev ≡ 2 ^ rounds * 2 = rw (← pow-suc 2 rounds) len in
      rw (add-one level) (
        root_of-layers_from leaf rounds (suc level) d (next_layer level prev) (omega arith)
          (omega (arith, length-next_layer level prev))
          (next_layer-IsLayer leaf rounds level prev len h))

  -- The leaves that the loop over the Map leaves behind, as a function of the position.
  unfoldable pub placed : Bool → ℕ → List (ℕ × ℕ) → (ℕ → ℕ) → ℕ → ℕ
  placed raw_leaf size [] leaf = leaf
  placed raw_leaf size ((key, value) ∷ leaves) leaf =
      placed raw_leaf size leaves
        (update leaf (key % size) (if raw_leaf then value else hash_leaf key value))

  length-place_leaves :
      (raw_leaf : Bool) (size : ℕ) (leaves : List (ℕ × ℕ)) (array : List ℕ)
      → length (place_leaves raw_leaf size leaves array) ≡ length array
  unfolding place_leaves
  length-place_leaves raw_leaf size [] array = refl
  length-place_leaves raw_leaf size ((key, value) ∷ leaves) array =
      length-place_leaves raw_leaf size leaves _ ∙ length-set array (key % size) _

  get_or-place_leaves :
      (raw_leaf : Bool) (size : ℕ) (leaves : List (ℕ × ℕ)) (array : List ℕ) (leaf : ℕ → ℕ)
      → 0 < size
      → length array ≡ size
      → ((i : ℕ) → i < size → get_or array i 0 ≡ leaf i)
      → (i : ℕ) → i < size
      → get_or (place_leaves raw_leaf size leaves array) i 0 ≡ placed raw_leaf size leaves leaf i
  unfolding place_leaves placed
  get_or-place_leaves raw_leaf size [] array leaf pos len h = h
  get_or-place_leaves raw_leaf size ((key, value) ∷ leaves) array leaf pos len h =
      let v = if raw_leaf then value else hash_leaf key value in
      get_or-place_leaves raw_leaf size leaves (set array (key % size) v)
        (update leaf (key % size) v) pos (length-set array (key % size) v ∙ len)
        λ i lt.
          rw (get_or-set array (key % size) i v 0 (rw len (mod-lt key pos)))
            (ground (arith, h i lt))

  -- The array of leaves that the builder starts from.
  abbrev pub first_layer : Bool → List (ℕ × ℕ) → ℕ → List ℕ
  first_layer raw_leaf leaves depth =
      place_leaves raw_leaf (2 ^ depth) leaves (replicate (2 ^ depth) 0)

  pub length-first_layer :
      (raw_leaf : Bool) (leaves : List (ℕ × ℕ)) (depth : ℕ)
      → length (first_layer raw_leaf leaves depth) ≡ 2 ^ depth
  length-first_layer raw_leaf leaves depth =
      length-place_leaves raw_leaf (2 ^ depth) leaves _ ∙ length-replicate (2 ^ depth) 0

  pub first_layer-IsLayer :
      (raw_leaf : Bool) (leaves : List (ℕ × ℕ)) (depth : ℕ)
      → IsLayer (placed raw_leaf (2 ^ depth) leaves no_leaves) 0 (first_layer raw_leaf leaves depth)
  unfolding node
  first_layer-IsLayer raw_leaf leaves depth i lt =
      get_or-place_leaves raw_leaf (2 ^ depth) leaves (replicate (2 ^ depth) 0) no_leaves
        (one-le-pow depth 2 (omega arith)) (length-replicate (2 ^ depth) 0)
        (λ j small. get_or-replicate (2 ^ depth) j 0) i
        (rw (length-first_layer raw_leaf leaves depth) at lt)

  -- The root of the tree built from scratch is the hash of the placed leaves.
  pub root_of-build_layers :
      (raw_leaf : Bool) (leaves : List (ℕ × ℕ)) (depth : ℕ)
      → root_of (build_layers raw_leaf leaves depth) depth
        ≡ some (node hash_pair (placed raw_leaf (2 ^ depth) leaves no_leaves) depth 0)
  unfolding build_layers node
  root_of-build_layers raw_leaf leaves depth =
      root_of-layers_from (placed raw_leaf (2 ^ depth) leaves no_leaves) depth 0 depth _
        (omega arith) (length-first_layer raw_leaf leaves depth)
        (first_layer-IsLayer raw_leaf leaves depth)
