-- ===== src/Merkle/Loading.antt =====
-- `loadLeaves`, and the claim of the source that the incremental tree has the root of the tree
-- built from scratch for the same placement.
use native.Mathlib.Nat.{mod-eq_of_lt}
use atf.Common.{ℕ, ◌^◌, ◌<◌, ◌≡◌, refl, sym, ap, ◌∙◌, some, List, [], ◌∷◌, true, All}
use atf.Merkle.{Tree, empty_tree, insert_all, load_leaves}
use atf.Merkle.Spec.{update, no_leaves, Represents}
use atf.Merkle.Updates.{empty_tree-Represents, insert_leaf-Represents}
use atf.Merkle.Builder.{placed, build_layers, root_of, root_of-build_layers}

abbrev pub IsInRange : ℕ → List (ℕ × ℕ) → Type 0
IsInRange size entries = All (λ e. e.0 < size) entries

-- The leaves after the entries are written in their order.
unfoldable pub written : List (ℕ × ℕ) → (ℕ → ℕ) → ℕ → ℕ
written [] leaf = leaf
written ((index, value) ∷ entries) leaf = written entries (update leaf index value)

module _ (hash_pair : ℕ → ℕ → ℕ) where
  insert_all-Represents :
      (entries : List (ℕ × ℕ)) (t : Tree) (leaf : ℕ → ℕ)
      → Represents hash_pair t leaf
      → IsInRange (2 ^ t.depth) entries
      → (t' : Tree) × (insert_all hash_pair entries t ≡ (t', true))
        × (t'.depth ≡ t.depth)
        × Represents hash_pair t' (written entries leaf)
  unfolding insert_all written
  insert_all-Represents [] t leaf rep h = (t, refl, refl, rep)
  insert_all-Represents ((index, value) ∷ entries) t leaf rep (small, h) =
      let (t₁, inserted, same, rep₁) =
        insert_leaf-Represents hash_pair t leaf rep index value small in
      let (t', loaded, same', rep') =
        insert_all-Represents entries t₁ (update leaf index value) rep₁ (rw same h) in
      (t', rw (inserted, insert_all) loaded, same' ∙ same, rep')

  -- Loading entries whose indices are in range throws no error, and the tree stands for them alone.
  pub load_leaves-Represents :
      (entries : List (ℕ × ℕ)) (t : Tree)
      → IsInRange (2 ^ t.depth) entries
      → (t' : Tree) × (load_leaves hash_pair entries t ≡ (t', true))
        × (t'.depth ≡ t.depth)
        × Represents hash_pair t' (written entries no_leaves)
  unfolding load_leaves empty_tree
  load_leaves-Represents entries t h =
      insert_all-Represents entries (empty_tree hash_pair t.depth) no_leaves
        (empty_tree-Represents hash_pair t.depth) h

  written-eq-placed :
      (size : ℕ) (entries : List (ℕ × ℕ)) (leaf : ℕ → ℕ)
      → IsInRange size entries
      → placed hash_pair true size entries leaf ≡ written entries leaf
  unfolding placed written
  written-eq-placed size [] leaf h = refl
  written-eq-placed size ((index, value) ∷ entries) leaf (small, h) =
      rw (mod-eq_of_lt small) (written-eq-placed size entries (update leaf index value) h)

  -- For entries in range, the incremental tree has the root that `buildMerkleTreeRaw` computes.
  pub load_leaves-eq-build_layers :
      (entries : List (ℕ × ℕ)) (t : Tree)
      → IsInRange (2 ^ t.depth) entries
      → (t' : Tree) × (load_leaves hash_pair entries t ≡ (t', true))
        × (root_of (build_layers hash_pair true entries t.depth) t.depth ≡ some t'.root)
  load_leaves-eq-build_layers entries t h =
      let (t', loaded, same, rep) = load_leaves-Represents entries t h in
      (
        t',
        loaded,
        root_of-build_layers hash_pair true entries t.depth
            ∙ rw (written-eq-placed (2 ^ t.depth) entries no_leaves h)
                (ap some (sym (rep.rooted ∙ rw same refl))),
      )
