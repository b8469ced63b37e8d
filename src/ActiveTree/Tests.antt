-- ===== src/ActiveTree/Tests.antt =====
-- Runs of the active tree over a pairing with no collisions.
use atf.Common.{
  ◌⊎◌, ℕ, ◌<◌, List, [], ◌∷◌, ap, ◌∙◌, ◌≡◌, refl, ◌≢◌, true, none, some, lookup, ◌==◌,
  if◌then◌else◌, arith,
}
use atf.Merkle.{Proof, verify_proof}
use atf.Merkle.Proofs.{Collision, position}
use atf.Merkle.Collision.{pair}
use atf.ActiveTree.{
  ActiveTree, Added, tree_depth, max_leaves, new_active_tree, add_leaf, remove_leaf_of,
  get_proof_for_commitment,
}
use atf.ActiveTree.Laws.{IsValid, new_active_tree-IsValid, remove_leaf_of-IsValid}
use atf.ActiveTree.Membership.{
  add_leaf-IsValid, get_proof_for_commitment-accepted, accepted_is_member, lookup-remove_leaf_of,
  removed_not_accepted,
}
use atf.ActiveTree.Histories.{TreeCall, play, play-root}

abbrev start : ActiveTree
start = new_active_tree pair

start-IsValid : IsValid pair start
start-IsValid = new_active_tree-IsValid pair

start_room : start.next_index < max_leaves
unfolding new_active_tree
start_room = omega arith

start_misses : (c : ℕ) → lookup c start.index_of ≡ none
unfolding new_active_tree
start_misses c = refl

add_leaf-IsValid_example :
    (a' : ActiveTree) × (r : Added) × (add_leaf pair 5 start ≡ (a', some r))
    × IsValid pair a'
    × ((d : ℕ)
        → lookup d a'.index_of ≡ (if d == 5 then some r.leaf_index else lookup d start.index_of))
add_leaf-IsValid_example = add_leaf-IsValid pair start start-IsValid 5 (λ e. start_room)

added :
    (a' : ActiveTree) × (r : Added) × (add_leaf pair 5 start ≡ (a', some r))
    × IsValid pair a'
    × ((d : ℕ)
        → lookup d a'.index_of ≡ (if d == 5 then some r.leaf_index else lookup d start.index_of))
added = add_leaf-IsValid pair start start-IsValid 5 (λ e. start_room)

-- The tree with the commitment 5 alone.
abbrev one_member : ActiveTree
one_member = added.0

member_five : lookup 5 one_member.index_of ≡ some added.1.leaf_index
member_five = added.4 5

remove_leaf_of-IsValid_example : IsValid pair (remove_leaf_of pair 5 one_member)
remove_leaf_of-IsValid_example = remove_leaf_of-IsValid pair one_member added.3 5

proof_five :
    (p : Proof) × (get_proof_for_commitment pair 5 one_member ≡ some p)
    × (p.root ≡ one_member.tree.root)
    × (verify_proof pair 5 p.path_elements p.path_indices one_member.tree.root tree_depth
        ≡ some true)
proof_five =
    get_proof_for_commitment-accepted pair one_member added.3 5 added.1.leaf_index member_five

accepted_is_member_example :
    (lookup 5 one_member.index_of ≡ some (position tree_depth proof_five.0.path_indices))
    ⊎ Collision pair
accepted_is_member_example =
    accepted_is_member pair one_member added.3 5 proof_five.0.path_elements
      proof_five.0.path_indices (omega arith) proof_five.3

removed_not_accepted_example :
    (verify_proof pair 5 proof_five.0.path_elements proof_five.0.path_indices
        (remove_leaf_of pair 5 one_member).tree.root
        tree_depth
      ≢ some true)
    ⊎ Collision pair
removed_not_accepted_example =
    removed_not_accepted pair one_member added.3 5 proof_five.0.path_elements
      proof_five.0.path_indices (omega arith)

same_members :
    (c : ℕ) → lookup c (remove_leaf_of pair 5 one_member).index_of ≡ lookup c start.index_of
same_members c =
    ground (arith, lookup-remove_leaf_of pair one_member added.3 5 c, added.4 c, start_misses c)

abbrev and_back : List TreeCall
and_back = TreeCall.adds 5 ∷ TreeCall.removes 5 ∷ []

play-root_example : (play pair and_back start).tree.root ≡ start.tree.root
play-root_example =
    play-root pair and_back []
      λ c. ap (λ p. lookup c (remove_leaf_of pair 5 p.0).index_of) added.2 ∙ same_members c
