-- ===== src/Merkle/OnChain/Total.antt =====
-- The tree for a hash that never fails, which the proofs compare the program's with: the program's
-- operations, with their results in place of what they return.
use kirite.Prelude.{
  ℕ, zero, suc, ◌+◌, ◌/◌, List, [], ◌∷◌, get_or, take, ◌==◌, if◌then◌else◌, bit_and,
}
use kirite.Merkle.OnChain.{Tree, merkle_tree_height}

module _ {ℓ} {A : Type ℓ} (pair : A → A → A) (z : A) where
  unfoldable pub up : ℕ → A → A
  up zero h = h
  up (suc level) h = up level (pair h h)

  unfoldable pub zero_node : ℕ → A
  unfolding up
  zero_node level = up level z

  unfoldable pub zero_nodes : ℕ → A → List A
  zero_nodes zero h = h ∷ []
  zero_nodes (suc n) h = h ∷ zero_nodes n (pair h h)

  abbrev pub new_tree : Tree A
  new_tree = record {
    filled_subtrees = take merkle_tree_height (zero_nodes merkle_tree_height z);
    next_leaf_index = 0;
    current_root = get_or (zero_nodes merkle_tree_height z) merkle_tree_height z;
  }

  unfoldable pub grow_levels : ℕ → List A → A → ℕ → List A × A
  unfolding zero_node
  grow_levels i [] current idx = ([], current)
  grow_levels i (filled ∷ rest) current idx =
      let is_left = bit_and idx 1 == 0 in
      let above =
        grow_levels (suc i) rest
          (if is_left then pair current (zero_node i) else pair filled current) (idx / 2) in
      ((if is_left then current else filled) ∷ above.0, above.1)

  abbrev pub grow : Tree A → A → Tree A
  grow t c =
      let inserted = grow_levels 0 t.filled_subtrees c t.next_leaf_index in
      record {
        filled_subtrees = inserted.0;
        next_leaf_index = t.next_leaf_index + 1;
        current_root = inserted.1;
      }

  unfoldable pub grow_all : Tree A → List A → Tree A
  grow_all t [] = t
  grow_all t (c ∷ cs) = grow_all (grow t c) cs

module _ {ℓ} {A : Type ℓ} (pair : A → A → A) where
  unfoldable pub fold_nodes : List A → A → ℕ → A
  fold_nodes [] current idx = current
  fold_nodes (sibling ∷ rest) current idx =
      fold_nodes rest (if bit_and idx 1 == 0 then pair current sibling else pair sibling current)
        (idx / 2)
