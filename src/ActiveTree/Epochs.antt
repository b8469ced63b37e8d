-- ===== src/ActiveTree/Epochs.antt =====
-- The roots that the active tree persists: one row for each change, under rising epochs, the last
-- of them the current root.
use atf.Common.{
  ℕ, ◌+◌, ◌≤◌, ◌<◌, ◌≡◌, refl, List, [], ◌∷◌, ◌++◌, lookup, insert, leb, arith, Option-cases,
  Bool-cases, inl, inr, All,
}
use atf.Merkle.{insert_leaf}
use atf.ActiveTree.{ActiveTree, new_active_tree, insert_at, add_leaf, remove_leaf_of, max_leaves}

-- Epochs rise strictly along the rows and stay at or below `top`.
abbrev pub AreRising : ℕ → List (ℕ × ℕ) → Type 0
AreRising top [] = Unit
AreRising top ((root, epoch) ∷ rows) =
    (epoch ≤ top) × All (λ r. epoch < r.1) rows × AreRising top rows

-- The last row holds the current root and epoch; with no row nothing has changed yet.
abbrev pub EndsAt : ℕ → ℕ → List (ℕ × ℕ) → Type 0
EndsAt root epoch [] = epoch ≡ 0
EndsAt root epoch (r ∷ []) = r ≡ (root, epoch)
EndsAt root epoch (r ∷ s ∷ rows) = EndsAt root epoch (s ∷ rows)

abbrev pub IsLogged : ActiveTree → Type 0
IsLogged a = AreRising a.epoch a.roots × EndsAt a.tree.root a.epoch a.roots

All-snoc :
    (e n : ℕ) (rows : List (ℕ × ℕ)) (root : ℕ)
    → All (λ r. e < r.1) rows
    → e < n
    → All (λ r. e < r.1) (rows ++ (root, n) ∷ [])
All-snoc e n [] root h lt = (lt, tt)
All-snoc e n (r ∷ rows) root (h, hs) lt = (h, All-snoc e n rows root hs lt)

AreRising-snoc :
    (top : ℕ) (rows : List (ℕ × ℕ)) (root : ℕ)
    → AreRising top rows
    → AreRising (top + 1) (rows ++ (root, top + 1) ∷ [])
AreRising-snoc top [] root h = (omega arith, tt, tt)
AreRising-snoc top ((r, e) ∷ rows) root (le, up, h) =
    (omega arith, All-snoc e (top + 1) rows root up (omega arith), AreRising-snoc top rows root h)

EndsAt-snoc :
    (root epoch : ℕ) (rows : List (ℕ × ℕ)) → EndsAt root epoch (rows ++ (root, epoch) ∷ [])
EndsAt-snoc root epoch [] = refl
EndsAt-snoc root epoch (r ∷ []) = refl
EndsAt-snoc root epoch (r ∷ s ∷ rows) = EndsAt-snoc root epoch (s ∷ rows)

module _ (hash_pair : ℕ → ℕ → ℕ) where
  pub new_active_tree-IsLogged : IsLogged (new_active_tree hash_pair)
  unfolding new_active_tree
  new_active_tree-IsLogged = (tt, refl)

  insert_at-IsLogged :
      (idx value : ℕ) (a : ActiveTree) → IsLogged a → IsLogged (insert_at hash_pair idx value a).0
  unfolding insert_at
  insert_at-IsLogged idx value a h = elim (Option-cases (insert_leaf hash_pair idx value a.tree)) [
    | inl refused ↦ rw (refused, insert_at) h
    | inr (t, inserted) ↦
        rw (inserted, insert_at)
          (AreRising-snoc a.epoch a.roots t.root h.0, EndsAt-snoc t.root (a.epoch + 1) a.roots)
  ]

  -- Adding a commitment keeps the log of roots in order, whether the call throws or not.
  add_leaf-IsLogged :
      (value : ℕ) (a : ActiveTree) → IsLogged a → IsLogged (add_leaf hash_pair value a).0
  unfolding add_leaf
  add_leaf-IsLogged value a h = elim (Option-cases (lookup value a.index_of)) [
    | inr (idx, found) ↦ rw (found, add_leaf) (insert_at-IsLogged idx value a h)
    | inl missing ↦ elim (Bool-cases (leb max_leaves a.next_index)) [
      | inl full ↦ rw (missing, add_leaf, full) h
      | inr room ↦
          rw (missing, add_leaf, room)
            (insert_at-IsLogged a.next_index value
              (record a {
                index_of = insert value a.next_index a.index_of;
                next_index = a.next_index + 1;
              })
              h)
    ]
  ]

  -- Removing a commitment keeps the log of roots in order, whether it was there or not.
  pub remove_leaf_of-IsLogged :
      (c : ℕ) (a : ActiveTree) → IsLogged a → IsLogged (remove_leaf_of hash_pair c a)
  unfolding remove_leaf_of
  remove_leaf_of-IsLogged c a h = elim (Option-cases (lookup c a.index_of)) [
    | inl missing ↦ rw (missing, remove_leaf_of) h
    | inr (idx, found) ↦
        rw (found, remove_leaf_of)
          (AreRising-snoc a.epoch a.roots _ h.0, EndsAt-snoc _ (a.epoch + 1) a.roots)
  ]
