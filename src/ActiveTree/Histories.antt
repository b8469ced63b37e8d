-- ===== src/ActiveTree/Histories.antt =====
-- agentix/src/trees/active-tree.ts: the root after any calls of addLeaf and removeLeaf.
use atf.Common.{
  ℕ, ◌≤◌, ◌<◌, List, [], ◌∷◌, none, lookup, ◌≡◌, sym, ap, inl, inr, arith, Option-cases, Bool-cases,
  ltb,
}
use mathlib.Core.Path.{subst}
use atf.ActiveTree.{ActiveTree, max_leaves, new_active_tree, add_leaf, remove_leaf_of}
use atf.ActiveTree.Laws.{IsValid, new_active_tree-IsValid, remove_leaf_of-IsValid}
use atf.ActiveTree.Membership.{add_leaf-IsValid, add_leaf-full, root_determined}

pub data TreeCall : Type 0 where
  adds removes : ℕ → TreeCall

module _ (hash_pair : ℕ → ℕ → ℕ) where
  abbrev pub apply_call : TreeCall → ActiveTree → ActiveTree
  apply_call (TreeCall.adds c) a = (add_leaf hash_pair c a).0
  apply_call (TreeCall.removes c) a = remove_leaf_of hash_pair c a

  -- The calls, one after the other.
  abbrev pub play : List TreeCall → ActiveTree → ActiveTree
  play [] a = a
  play (c ∷ calls) a = play calls (apply_call c a)

  -- Whether a commitment is refused because the tree is full, or not.
  add_leaf-keeps_IsValid :
      (c : ℕ) (a : ActiveTree) → IsValid hash_pair a → IsValid hash_pair (add_leaf hash_pair c a).0
  add_leaf-keeps_IsValid c a v =
      let placed = λ (room : lookup c a.index_of ≡ none → a.next_index < max_leaves).
        let (a', r, is, valid, members) = add_leaf-IsValid hash_pair a v c room in
        subst (IsValid hash_pair) (ap (λ p. p.0) (sym is)) valid in
      elim (Option-cases (lookup c a.index_of)) [
        | inr (i, there) ↦ placed (λ missing. cc)
        | inl missing ↦ elim (Bool-cases (ltb a.next_index max_leaves)) [
          | inl room ↦ placed (λ e. ground (arith, room))
          | inr no_room ↦
              let late : max_leaves ≤ a.next_index = ground (arith, no_room) in
              let full : a.next_index ≡ max_leaves = omega (arith, v.bounded, late) in
              subst (IsValid hash_pair)
                (ap (λ p. p.0) (sym (add_leaf-full hash_pair a v c missing full))) v
        ]
      ]

  play-IsValid :
      (calls : List TreeCall) (a : ActiveTree)
      → IsValid hash_pair a
      → IsValid hash_pair (play calls a)
  play-IsValid [] a v = v
  play-IsValid (TreeCall.adds c ∷ calls) a v =
      play-IsValid calls (add_leaf hash_pair c a).0 (add_leaf-keeps_IsValid c a v)
  play-IsValid (TreeCall.removes c ∷ calls) a v =
      play-IsValid calls (remove_leaf_of hash_pair c a) (remove_leaf_of-IsValid hash_pair a v c)

  -- Two sequences of addLeaf and removeLeaf calls from the empty tree, refused ones among them, that give
  -- each commitment the same index or none end with the same root.
  pub play-root :
      (calls others : List TreeCall)
      → ((c : ℕ)
          → lookup c (play calls (new_active_tree hash_pair)).index_of
            ≡ lookup c (play others (new_active_tree hash_pair)).index_of)
      → (play calls (new_active_tree hash_pair)).tree.root
        ≡ (play others (new_active_tree hash_pair)).tree.root
  play-root calls others same =
      let start = new_active_tree-IsValid hash_pair in
      root_determined hash_pair (play calls (new_active_tree hash_pair))
        (play others (new_active_tree hash_pair))
        (play-IsValid calls (new_active_tree hash_pair) start)
        (play-IsValid others (new_active_tree hash_pair) start) same
