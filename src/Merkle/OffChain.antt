-- ===== src/Merkle/OffChain.antt =====
-- The tree that the prover rebuilds from the list of leaves: `poseidonZeroHashes` and
-- `buildMerkleProof` of sdk/src/zk.mjs. Indices stay below 2 ^ 31, where the bit operations of
-- JavaScript numbers are those of natural numbers.
pub mod Levels
pub mod Path
pub mod Verify
pub mod ZeroHashes
use kirite.Prelude.{
  ℕ, zero, suc, ◌/◌, ◌^◌, Option, none, some, ◌≡◌, refl, List, [], ◌∷◌, Result, ok, err, Error,
  ◌>>=◌, get_or, get_elem?, bit_and, bit_xor,
}
use kirite.Bytes.{Bytes}
use kirite.Poseidon.{Poseidon, fe_to_be32, hash_nodes}

-- `MERKLE_HEIGHT` and `MERKLE_CAPACITY`
abbrev pub merkle_height : ℕ
merkle_height = 15

abbrev pub merkle_capacity : ℕ
merkle_capacity = 2 ^ merkle_height

-- What `buildMerkleProof` returns; a place of an array beyond its end is `undefined`.
pub record MerkleProof : Type 0 where
  pub root : Option Bytes
  pub path_elements : List (Option Bytes)
  pub path_indices : List ℕ

-- `padded`, for the next `n` places: a hole of the list of leaves is an empty leaf too.
pub pad_leaves : ℕ → List (Option Bytes) → Bytes → List Bytes
pad_leaves zero leaves zero_leaf = []
pad_leaves (suc n) [] zero_leaf = zero_leaf ∷ pad_leaves n [] zero_leaf
pad_leaves (suc n) (none ∷ leaves) zero_leaf = zero_leaf ∷ pad_leaves n leaves zero_leaf
pad_leaves (suc n) (some leaf ∷ leaves) zero_leaf = leaf ∷ pad_leaves n leaves zero_leaf

module _ (p : Poseidon) where
  open p use {Fe, e, hash}

  -- The rounds of the loop of `poseidonZeroHashes`.
  zero_hash_rounds : ℕ → Fe → List Bytes
  zero_hash_rounds zero h = []
  zero_hash_rounds (suc n) h =
      let next = hash (h ∷ h ∷ []) in fe_to_be32 p next ∷ zero_hash_rounds n next

  pub poseidon_zero_hashes : List Bytes
  unfolding zero_hash_rounds
  poseidon_zero_hashes =
      let h = hash (e 0 ∷ []) in fe_to_be32 p h ∷ zero_hash_rounds merkle_height h

  -- `zeros[0]`
  pub empty_leaf : Bytes
  unfolding poseidon_zero_hashes
  empty_leaf = get_or poseidon_zero_hashes 0 []

  pub empty_leaf-eq : empty_leaf ≡ fe_to_be32 p (hash (e 0 ∷ []))
  unfolding empty_leaf
  empty_leaf-eq = refl

  -- The inner loop: the level above. A level of odd length would read past its end, where
  -- `be32ToField` throws.
  pub next_level : List Bytes → Result (List Bytes)
  next_level [] = ok []
  next_level (a ∷ []) = err Error.type_error
  next_level (a ∷ b ∷ rest) = do above ← next_level rest; ok (hash_nodes p a b ∷ above)

  -- The outer loop, for the levels that are left.
  pub climb : ℕ → List Bytes → ℕ → Result MerkleProof
  unfolding next_level
  climb zero level idx =
      ok (record { root = get_elem? level 0; path_elements = []; path_indices = [] })
  climb (suc depth) level idx = do
    next ← next_level level
    above ← climb depth next (idx / 2)
    ok (record {
      root = above.root;
      path_elements = get_elem? level (bit_xor idx 1) ∷ above.path_elements;
      path_indices = bit_and idx 1 ∷ above.path_indices;
    })

  pub build_merkle_proof : List (Option Bytes) → ℕ → Result MerkleProof
  unfolding pad_leaves climb
  build_merkle_proof leaves target_index =
      climb merkle_height (pad_leaves merkle_capacity leaves empty_leaf) target_index
