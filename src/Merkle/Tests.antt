-- ===== src/Merkle/Tests.antt =====
-- Runs of the tree of depth 3 over a pairing with no collisions.
use atf.Common.{◌⊎◌, ℕ, ◌^◌, ◌<◌, ◌≡◌, true, some, List, [], ◌∷◌, arith}
use atf.Merkle.{Tree, Proof, get_proof, verify_proof, load_leaves}
use atf.Merkle.Spec.{Represents, no_leaves}
use atf.Merkle.Proofs.{Collision, position, verify_proof-get_proof, verify_proof_sound}
use atf.Merkle.Builder.{root_of, build_layers, placed}
use atf.Merkle.Loading.{IsInRange, written, load_leaves-Represents, load_leaves-eq-build_layers}
use atf.Merkle.Paths.{get_raw_merkle_proof, verify_proof-get_raw_merkle_proof}
use atf.Merkle.Collision.{pair}

abbrev two_leaves : List (ℕ × ℕ)
two_leaves = (2, 7) ∷ (5, 9) ∷ []

abbrev small_tree : Tree
small_tree = record { depth = 3; nodes = λ _. []; root = 0 }

two_leaves-IsInRange : IsInRange (2 ^ 3) two_leaves
two_leaves-IsInRange = (omega arith, (omega arith, tt))

load_leaves-eq-build_layers_example :
    (t' : Tree) × (load_leaves pair two_leaves small_tree ≡ (t', true))
    × (root_of (build_layers pair true two_leaves 3) 3 ≡ some t'.root)
load_leaves-eq-build_layers_example =
    load_leaves-eq-build_layers pair two_leaves small_tree two_leaves-IsInRange

loaded :
    (t' : Tree) × (load_leaves pair two_leaves small_tree ≡ (t', true))
    × (t'.depth ≡ 3)
    × Represents pair t' (written two_leaves no_leaves)
loaded = load_leaves-Represents pair two_leaves small_tree two_leaves-IsInRange

-- The tree that holds 7 at 2 and 9 at 5.
abbrev filled : Tree
filled = loaded.0

in_range : (i : ℕ) → i < 8 → i < 2 ^ filled.depth
in_range i h = rw loaded.2 (omega arith)

verify_proof-get_proof_example :
    (verify_proof pair
        (written two_leaves no_leaves 5)
        (get_proof pair filled 5).path_elements
        (get_proof pair filled 5).path_indices
        (get_proof pair filled 5).root
        filled.depth
      ≡ some true)
    × ((get_proof pair filled 5).root ≡ filled.root)
verify_proof-get_proof_example =
    verify_proof-get_proof pair filled (written two_leaves no_leaves) loaded.3 5
      (in_range 5 (omega arith))

accepted_five :
    verify_proof pair
      (written two_leaves no_leaves 5)
      (get_proof pair filled 5).path_elements
      (get_proof pair filled 5).path_indices
      filled.root
      filled.depth
    ≡ some true
accepted_five =
    let (ok, same) =
      verify_proof-get_proof pair filled (written two_leaves no_leaves) loaded.3 5
        (in_range 5 (omega arith)) in
    rw same at ok

verify_proof_sound_example :
    (written two_leaves no_leaves 5
      ≡ written two_leaves no_leaves (position filled.depth (get_proof pair filled 5).path_indices))
    ⊎ Collision pair
verify_proof_sound_example =
    verify_proof_sound pair filled (written two_leaves no_leaves) loaded.3
      (written two_leaves no_leaves 5) (get_proof pair filled 5).path_elements
      (get_proof pair filled 5).path_indices accepted_five

verify_proof-get_raw_merkle_proof_example :
    (p : Proof) × (get_raw_merkle_proof (build_layers pair true two_leaves 3) 5 3 ≡ some p)
    × (some p.root ≡ root_of (build_layers pair true two_leaves 3) 3)
    × (verify_proof pair
          (placed pair true (2 ^ 3) two_leaves no_leaves 5)
          p.path_elements
          p.path_indices
          p.root
          3
        ≡ some true)
verify_proof-get_raw_merkle_proof_example =
    verify_proof-get_raw_merkle_proof pair true two_leaves 3 5 (omega arith)
