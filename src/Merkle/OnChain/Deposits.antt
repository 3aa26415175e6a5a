-- ===== src/Merkle/OnChain/Deposits.antt =====
-- Deposits into a pool where the syscall takes what it is given: they succeed, and give the tree of the
-- hash that never fails.
use kirite.Prelude.{
  ℕ, zero, suc, ◌+◌, ◌/◌, ◌≤◌, ◌<◌, ◌≡◌, refl, ◌∙◌, List, [], ◌∷◌, Result, ok, All, length, take,
  lt→ltb, arith, inl, inr, if◌then◌else◌, ◌==◌, bit_and,
}
use kirite.Bytes.{Bytes}
use kirite.Poseidon.{Poseidon, hash_nodes}
use kirite.Merkle.Syscall.{IsCanonical, Syscall, hash_nodes-IsCanonical, empty-IsCanonical}
use kirite.Merkle.OnChain.{
  Tree, merkle_tree_height, merkle_tree_capacity, hash_up, zero_hash_at_level, zero_hashes_from,
  compute_zero_hashes, init_tree, hash_level, insert_levels, insert_leaf_light, deposit_leaf,
  deposit_leaves, deposits_from_start,
}
use kirite.Merkle.OnChain.Total.{up, zero_node, zero_nodes, new_tree, grow_levels, grow, grow_all}
use kirite.Merkle.OnChain.Insert.{is_left-cases}
use kirite.Merkle.OnChain.Grown.{merkle_root, new_tree-Holds, grow_all-Holds}

module _ {ℓ} {A : Type ℓ} (hash_pair : A → A → Result A) (z : A) where
  -- A deposit is the insertion at the next index.
  pub deposit_leaf_lem :
      (t : Tree A) (c : A) (inserted : List A × A)
      → insert_leaf_light hash_pair z c t.next_leaf_index t.filled_subtrees ≡ ok inserted
      → deposit_leaf hash_pair z t c
        ≡ ok (record {
          filled_subtrees = inserted.0;
          next_leaf_index = t.next_leaf_index + 1;
          current_root = inserted.1;
        })
  unfolding deposit_leaf
  deposit_leaf_lem t c inserted h = rw h refl

  pub insert_leaf_light-room :
      (leaf : A) (i : ℕ) (filled : List A)
      → i < merkle_tree_capacity
      → insert_leaf_light hash_pair z leaf i filled ≡ insert_levels hash_pair z 0 filled leaf i
  unfolding insert_leaf_light
  insert_leaf_light-room leaf i filled small = rw (lt→ltb i merkle_tree_capacity small) refl

-- A hash that succeeds where `P` holds, with a value where it holds too.
module _ {ℓ κ} {A : Type ℓ} (hash_pair : A → A → Result A) (pair : A → A → A) (P : A → Type κ)
    (succeeds : (a b : A) → P a → P b → hash_pair a b ≡ ok (pair a b))
    (closed : (a b : A) → P (pair a b)) where
  hash_up-ok :
      (k : ℕ) (h : A)
      → P h
      → (z : A) → (hash_up hash_pair z k h ≡ ok (up pair z k h)) × P (up pair z k h)
  unfolding hash_up up
  hash_up-ok zero h good z = (refl, good)
  hash_up-ok (suc k) h good z = rw (succeeds h h good good) (hash_up-ok k (pair h h) (closed h h) z)

  pub zero_hashes_from-ok :
      (n : ℕ) (h : A)
      → P h
      → (z : A)
      → (zero_hashes_from hash_pair z n h ≡ ok (zero_nodes pair z n h))
        × All P (zero_nodes pair z n h)
  unfolding zero_hashes_from zero_nodes
  zero_hashes_from-ok zero h good z = (refl, (good, tt))
  zero_hashes_from-ok (suc n) h good z =
      let (run, all) = zero_hashes_from-ok n (pair h h) (closed h h) z in
      (rw (succeeds h h good good, run) refl, (good, all))

  take-All : (n : ℕ) (xs : List A) → All P xs → All P (take n xs)
  take-All zero xs h = tt
  take-All (suc n) [] h = tt
  take-All (suc n) (x ∷ xs) (here, h) = (here, take-All n xs h)

  module _ (z : A) (z_good : P z) where
    above : ℕ → A → A → ℕ → A
    above i filled current m =
        if bit_and m 1 == 0 then pair current (zero_node pair z i) else pair filled current

    hash_level-ok :
        (i : ℕ) (filled current : A) (m : ℕ)
        → P filled
        → P current
        → (hash_level hash_pair z i filled current m ≡ ok (above i filled current m))
          × P (above i filled current m)
    unfolding hash_level zero_hash_at_level zero_node above
    hash_level-ok i filled current m stored good =
        let (run, zero_P) = hash_up-ok i z z_good z in
        elim (is_left-cases m) [
          | inl (left, even) ↦
              (rw (left, run) (succeeds current _ good zero_P), rw left (closed current _))
          | inr (right, odd) ↦
              (rw right (succeeds filled current stored good), rw right (closed filled current))
        ]

    stored-P :
        (m : ℕ) (filled current : A)
        → P filled
        → P current
        → P (if bit_and m 1 == 0 then current else filled)
    stored-P m filled current stored good = elim (is_left-cases m) [
      | inl (left, even) ↦ rw left good
      | inr (right, odd) ↦ rw right stored
    ]

    pub insert_levels-ok :
        (i : ℕ) (fs : List A) (current : A) (m : ℕ)
        → All P fs
        → P current
        → (insert_levels hash_pair z i fs current m ≡ ok (grow_levels pair z i fs current m))
          × All P (grow_levels pair z i fs current m).0
    unfolding insert_levels grow_levels above
    insert_levels-ok i [] current m all good = (refl, tt)
    insert_levels-ok i (f ∷ fs) current m (stored, all) good =
        let (step, next_P) = hash_level-ok i f current m stored good in
        let (run, rest) = insert_levels-ok (suc i) fs (above i f current m) (m / 2) all next_P in
        (rw (step, run) refl, (stored-P m f current stored good, rest))

    deposit_leaves-ok :
        (cs : List A) (t : Tree A)
        → All P cs
        → All P t.filled_subtrees
        → t.next_leaf_index + length cs ≤ merkle_tree_capacity
        → deposit_leaves hash_pair z t cs ≡ ok (grow_all pair z t cs)
    unfolding deposit_leaves grow_all
    deposit_leaves-ok [] t all filled room = refl
    deposit_leaves-ok (c ∷ cs) t (here, all) filled room =
        let (run, still) = insert_levels-ok 0 t.filled_subtrees c t.next_leaf_index filled here in
        let inserted =
          insert_leaf_light-room hash_pair z c t.next_leaf_index t.filled_subtrees (omega arith)
          ∙ run in
        rw (deposit_leaf_lem hash_pair z t c _ inserted)
          (deposit_leaves-ok cs (grow pair z t c) all still (omega arith))

    init_tree-ok :
        (init_tree hash_pair z ≡ ok (new_tree pair z)) × All P (new_tree pair z).filled_subtrees
    unfolding init_tree compute_zero_hashes
    init_tree-ok =
        let (run, all) = zero_hashes_from-ok merkle_tree_height z z_good z in
        (rw run refl, take-All merkle_tree_height _ all)

    pub deposits_from_start-ok :
        (cs : List A)
        → All P cs
        → length cs ≤ merkle_tree_capacity
        → deposits_from_start hash_pair z cs ≡ ok (grow_all pair z (new_tree pair z) cs)
    unfolding deposits_from_start
    deposits_from_start-ok cs all room =
        rw init_tree-ok.0 (deposit_leaves-ok cs (new_tree pair z) all init_tree-ok.1 (omega arith))

module _ (p : Poseidon) (s : Syscall p) where
  -- Up to the capacity every sequence of deposits of canonical commitments into a new pool succeeds,
  -- and the root that the program has grown level by level is that of the whole tree of those
  -- commitments.
  pub deposits_into_new_pool :
      (cs : List Bytes)
      → All IsCanonical cs
      → length cs ≤ merkle_tree_capacity
      → (t : Tree Bytes) × (deposits_from_start s.hash_pair s.empty cs ≡ ok t)
        × (t.next_leaf_index ≡ length cs)
        × (t.current_root ≡ merkle_root (hash_nodes p) s.empty cs)
  deposits_into_new_pool cs canonical room =
      let held =
        grow_all-Holds (hash_nodes p) s.empty [] cs (new_tree (hash_nodes p) s.empty)
          (new_tree-Holds (hash_nodes p) s.empty) (omega arith) in
      (
        grow_all (hash_nodes p) s.empty (new_tree (hash_nodes p) s.empty) cs,
        deposits_from_start-ok s.hash_pair (hash_nodes p) IsCanonical s.hash_pair-eq
            (hash_nodes-IsCanonical p) s.empty (empty-IsCanonical p s) cs canonical room,
        held.counted,
        held.root,
      )
