-- ===== src/Merkle/OnChain.antt =====
-- The tree that the program keeps, programs/kirite/src/utils/crypto.rs: of each level it stores the
-- last node that was a left child, and grows by one leaf at a time.
-- `hash_pair` stands for `poseidon_hash` of two inputs, where a panic is an error.
pub mod Total
pub mod Insert
pub mod Grown
pub mod Deposits
pub mod Verify
use kirite.Prelude.{
  ℕ, zero, suc, ◌+◌, ◌/◌, ◌^◌, Bool, false, List, [], ◌∷◌, Result, ok, err, ◌>>=◌, Error, length,
  get_or, take, bytes_eq, ltb, ◌==◌, if◌then◌else◌, bit_and,
}
use kirite.Bytes.{Bytes}

-- `MERKLE_TREE_HEIGHT` and `MERKLE_TREE_CAPACITY`
abbrev pub merkle_tree_height : ℕ
merkle_tree_height = 15

abbrev pub merkle_tree_capacity : ℕ
merkle_tree_capacity = 2 ^ merkle_tree_height

-- The part of a `ShieldPool` that a deposit's insertion reads and writes.
pub record Tree {ℓ} (A : Type ℓ) : Type ℓ where
  pub filled_subtrees : List A
  pub next_leaf_index : ℕ
  pub current_root : A

module _ {ℓ} {A : Type ℓ} (hash_pair : A → A → Result A) (empty_leaf : A) where
  -- `for _ in 0..level { h = hash_pair(&h, &h); }`
  unfoldable pub hash_up : ℕ → A → Result A
  hash_up zero h = ok h
  hash_up (suc level) h = do above ← hash_pair h h; hash_up level above

  unfoldable pub zero_hash_at_level : ℕ → Result A
  unfolding hash_up
  zero_hash_at_level level = hash_up level empty_leaf

  -- The hash of an empty subtree at this level and at the `n` levels above it.
  unfoldable pub zero_hashes_from : ℕ → A → Result (List A)
  zero_hashes_from zero h = ok (h ∷ [])
  zero_hashes_from (suc n) h = do
    above ← hash_pair h h
    rest ← zero_hashes_from n above
    ok (h ∷ rest)

  unfoldable pub compute_zero_hashes : Result (List A)
  unfolding zero_hashes_from
  compute_zero_hashes = zero_hashes_from merkle_tree_height empty_leaf

  -- The tree of a new pool, from `handle_initialize_shield_pool`.
  unfoldable pub init_tree : Result (Tree A)
  unfolding compute_zero_hashes
  init_tree = do
    zeros ← compute_zero_hashes
    ok (record {
      filled_subtrees = take merkle_tree_height zeros;
      next_leaf_index = 0;
      current_root = get_or zeros merkle_tree_height empty_leaf;
    })

  -- One round of the loop of `insert_leaf_light`: the node above.
  unfoldable pub hash_level : ℕ → A → A → ℕ → Result A
  unfolding zero_hash_at_level
  hash_level i filled current idx =
      if bit_and idx 1 == 0
      then zero_hash_at_level i >>= hash_pair current
      else hash_pair filled current

  -- The loop of `insert_leaf_light` from level `i` on, over the levels that are left.
  unfoldable pub insert_levels : ℕ → List A → A → ℕ → Result (List A × A)
  unfolding hash_level
  insert_levels i [] current idx = ok ([], current)
  insert_levels i (filled ∷ rest) current idx = do
    next ← hash_level i filled current idx
    above ← insert_levels (suc i) rest next (idx / 2)
    ok ((if bit_and idx 1 == 0 then current else filled) ∷ above.0, above.1)

  -- The new `filled_subtrees` and the new root.
  unfoldable pub insert_leaf_light : A → ℕ → List A → Result (List A × A)
  unfolding insert_levels
  insert_leaf_light leaf next_index filled_subtrees =
      if ltb next_index merkle_tree_capacity
      then insert_levels 0 filled_subtrees leaf next_index
      else err Error.pool_capacity_exceeded

  -- What `handle_deposit` does to the tree.
  unfoldable pub deposit_leaf : Tree A → A → Result (Tree A)
  unfolding insert_leaf_light
  deposit_leaf t commitment = do
    inserted ← insert_leaf_light commitment t.next_leaf_index t.filled_subtrees
    ok (record {
      filled_subtrees = inserted.0;
      next_leaf_index = t.next_leaf_index + 1;
      current_root = inserted.1;
    })

  -- Deposits one after another.
  unfoldable pub deposit_leaves : Tree A → List A → Result (Tree A)
  unfolding deposit_leaf
  deposit_leaves t [] = ok t
  deposit_leaves t (c ∷ cs) = do next ← deposit_leaf t c; deposit_leaves next cs

  -- The tree of a new pool after these deposits.
  unfoldable pub deposits_from_start : List A → Result (Tree A)
  unfolding init_tree deposit_leaves
  deposits_from_start cs = do start ← init_tree; deposit_leaves start cs

module _ {ℓ} {A : Type ℓ} (hash_pair : A → A → Result A) where
  -- The loop of `verify_merkle_proof` over the siblings.
  unfoldable pub fold_path : List A → A → ℕ → Result A
  fold_path [] current idx = ok current
  fold_path (sibling ∷ rest) current idx = do
    next ← if bit_and idx 1 == 0 then hash_pair current sibling else hash_pair sibling current
    fold_path rest next (idx / 2)

unfoldable pub verify_merkle_proof :
    (Bytes → Bytes → Result Bytes) → Bytes → List Bytes → ℕ → Bytes → Result Bool
unfolding fold_path
verify_merkle_proof hash_pair leaf proof index root =
    if length proof == merkle_tree_height
    then (do current ← fold_path hash_pair proof leaf index; ok (bytes_eq current root))
    else ok false
