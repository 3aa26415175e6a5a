-- ===== src/Merkle/OnChain/Grown.antt =====
-- What the tree of a hash that never fails holds after any number of leaves.
use kirite.Prelude.{
  ℕ, zero, suc, ◌+◌, ◌≤◌, ◌<◌, ◌≡◌, refl, sym, ap, ◌∙◌, List, [], ◌∷◌, ◌++◌, append_assoc,
  append-nil, arith, length, length-append, get_or, get_or-append_left, get_or-append_at,
  get_or-end, take,
}
use kirite.Merkle.Tree.{ancestor, ancestor-root, node, node-empty}
use kirite.Merkle.OnChain.{Tree, merkle_tree_height, merkle_tree_capacity}
use kirite.Merkle.OnChain.Total.{up, zero_node, zero_nodes, new_tree, grow_levels, grow, grow_all}
use kirite.Merkle.OnChain.Insert.{
  Filled, root-grow_levels, Filled-insert, zero_node-eq, length-grow_levels,
}

module _ {ℓ} {A : Type ℓ} (pair : A → A → A) (z : A) where
  -- The leaf of each index: a commitment, or the empty leaf behind the last one.
  abbrev pub leaf_at : List A → ℕ → A
  leaf_at cs i = get_or cs i z

  abbrev pub merkle_root : List A → A
  merkle_root cs = node pair (leaf_at cs) merkle_tree_height 0

  -- The tree holds these commitments.
  pub record Holds (cs : List A) (t : Tree A) : Type ℓ where
    pub counted : t.next_leaf_index ≡ length cs
    pub levels : length t.filled_subtrees ≡ merkle_tree_height
    pub filled : Filled pair z (leaf_at cs) 0 t.filled_subtrees (length cs)
    pub root : t.current_root ≡ merkle_root cs

  module _ (cs : List A) (c : A) where
    length-snoc : length (cs ++ c ∷ []) ≡ length cs + 1
    length-snoc = length-append cs (c ∷ [])

    same_before : (i : ℕ) → i < length cs → leaf_at cs i ≡ leaf_at (cs ++ c ∷ []) i
    same_before i h = sym (get_or-append_left cs (c ∷ []) i z h)

    blank_behind : (i : ℕ) → suc (length cs) ≤ i → leaf_at (cs ++ c ∷ []) i ≡ z
    blank_behind i h = get_or-end (cs ++ c ∷ []) i z (omega (arith, length-snoc))

    module _ (t : Tree A) (h : Holds cs t) where
      inserted : List A × A
      inserted = grow_levels pair z 0 t.filled_subtrees c (length cs)

      at_leaf : c ≡ node pair (leaf_at (cs ++ c ∷ [])) 0 (length cs)
      unfolding node
      at_leaf = sym (get_or-append_at cs c [] z)

      root-inserted : length cs < merkle_tree_capacity → inserted.1 ≡ merkle_root (cs ++ c ∷ [])
      unfolding inserted ancestor
      root-inserted room =
          root-grow_levels pair z (leaf_at cs) (leaf_at (cs ++ c ∷ [])) (length cs) same_before
            blank_behind 0 merkle_tree_height t.filled_subtrees c (omega (arith, h.levels)) h.filled
            at_leaf
          ∙ ap (node pair (leaf_at (cs ++ c ∷ [])) merkle_tree_height)
              (ancestor-root merkle_tree_height (length cs) room)

      Filled-inserted : Filled pair z (leaf_at (cs ++ c ∷ [])) 0 inserted.0 (length cs + 1)
      unfolding inserted ancestor
      Filled-inserted =
          Filled-insert pair z (leaf_at cs) (leaf_at (cs ++ c ∷ [])) (length cs) same_before
            blank_behind 0 t.filled_subtrees c h.filled at_leaf

      grow-Holds : length cs < merkle_tree_capacity → Holds (cs ++ c ∷ []) (grow pair z t c)
      unfolding inserted
      grow-Holds room = rw h.counted (record {
        counted = omega (arith, h.counted, length-snoc);
        levels = length-grow_levels pair z 0 t.filled_subtrees c (length cs) ∙ h.levels;
        filled = rw length-snoc Filled-inserted;
        root = root-inserted room;
      })

  pub grow_all-Holds :
      (cs ds : List A) (t : Tree A)
      → Holds cs t
      → length cs + length ds ≤ merkle_tree_capacity
      → Holds (cs ++ ds) (grow_all pair z t ds)
  unfolding grow_all
  grow_all-Holds cs [] t h room = rw append-nil h
  grow_all-Holds cs (d ∷ ds) t h room =
      let space : length cs < merkle_tree_capacity = omega arith in
      rw append_assoc at (
        grow_all-Holds (cs ++ d ∷ []) ds (grow pair z t d) (grow-Holds cs d t h space)
          (omega (arith, length-snoc cs d)))

  get_or-zero_hashes :
      (n i : ℕ) (h : A) → i ≤ n → get_or (zero_nodes pair z n h) i z ≡ up pair z i h
  unfolding zero_nodes up
  get_or-zero_hashes zero zero h le = refl
  get_or-zero_hashes zero (suc i) h le = absurd (omega arith)
  get_or-zero_hashes (suc n) zero h le = refl
  get_or-zero_hashes (suc n) (suc i) h le = get_or-zero_hashes n i (pair h h) (omega arith)

  Filled-zero : (leaf : ℕ → A) (i : ℕ) (fs : List A) → Filled pair z leaf i fs 0
  Filled-zero leaf i [] = tt
  Filled-zero leaf i (f ∷ fs) = (λ odd. absurd (omega arith), Filled-zero leaf (suc i) fs)

  length-take_zero_hashes : (n k : ℕ) (h : A) → length (take n (zero_nodes pair z (n + k) h)) ≡ n
  unfolding zero_nodes
  length-take_zero_hashes zero k h = refl
  length-take_zero_hashes (suc n) k h =
      let sum : suc n + k ≡ suc (n + k) = omega arith in
      rw sum (ap suc (length-take_zero_hashes n k (pair h h)))

  pub new_tree-Holds : Holds [] (new_tree pair z)
  unfolding zero_node
  new_tree-Holds = record {
    counted = refl;
    levels = length-take_zero_hashes merkle_tree_height 0 z;
    filled = Filled-zero (leaf_at []) 0 (new_tree pair z).filled_subtrees;
    root =
        get_or-zero_hashes 15 15 z (omega arith)
        ∙ zero_node-eq pair z 15
        ∙ sym (node-empty pair (leaf_at []) z 0 (λ i h. refl) 15 0 (omega arith));
  }
