-- ===== src/Merkle/OffChain/Verify.antt =====
-- The proofs of `buildMerkleProof` pass the check of `verify_merkle_proof`, programs/kirite/src/utils/crypto.rs.
use kirite.Prelude.{
  ℕ, zero, suc, ◌<◌, ◌≡◌, true, List, [], ◌∷◌, Option, none, some, map, ok, All, length,
}
use kirite.Bytes.{Bytes}
use kirite.Poseidon.{Poseidon, hash_nodes}
use kirite.Merkle.Tree.{node}
use kirite.Merkle.Syscall.{IsCanonical, Syscall, empty_leaf-IsCanonical}
use kirite.Merkle.OnChain.{verify_merkle_proof}
use kirite.Merkle.OnChain.Verify.{verify_merkle_proof-eq}
use kirite.Merkle.OffChain.{MerkleProof, merkle_capacity, empty_leaf, build_merkle_proof}
use kirite.Merkle.OffChain.Levels.{leaf_of}
use kirite.Merkle.OffChain.Path.{prover_leaf, build_merkle_proof-LeadsToRoot}

-- A hole in the list counts as the empty leaf.
abbrev pub IsCanonicalLeaf : Option Bytes → Type 0
IsCanonicalLeaf none = Unit
IsCanonicalLeaf (some c) = IsCanonical c

module _ (p : Poseidon) where
  prover_leaf-IsCanonical :
      (leaves : List (Option Bytes))
      → All IsCanonicalLeaf leaves
      → (i : ℕ) → IsCanonical (leaf_of leaves (empty_leaf p) i)
  prover_leaf-IsCanonical [] all i = empty_leaf-IsCanonical p
  prover_leaf-IsCanonical (none ∷ leaves) (here, all) zero = empty_leaf-IsCanonical p
  prover_leaf-IsCanonical (some c ∷ leaves) (here, all) zero = here
  prover_leaf-IsCanonical (l ∷ leaves) (here, all) (suc i) = prover_leaf-IsCanonical leaves all i

  module _ (s : Syscall p) (leaves : List (Option Bytes)) where
    -- For leaves that are canonical where they are defined, and an index below the capacity,
    -- `buildMerkleProof` succeeds with a root and 15 siblings, all of them defined, and the program's
    -- `verify_merkle_proof`, run with the syscall of the chain, does not panic and takes them for the
    -- leaf that stands at the index.
    pub build_merkle_proof-verifies :
        (target : ℕ)
        → All IsCanonicalLeaf leaves
        → target < merkle_capacity
        → (r : MerkleProof) × (root : Bytes) × (siblings : List Bytes) × (build_merkle_proof p
              leaves target
            ≡ ok r)
          × (r.root ≡ some root)
          × (r.path_elements ≡ map some siblings)
          × (length siblings ≡ 15)
          × (verify_merkle_proof s.hash_pair (prover_leaf p leaves target) siblings target root
              ≡ ok true)
    unfolding node
    build_merkle_proof-verifies target all below =
        let canonical = prover_leaf-IsCanonical leaves all in
        let (r, built, leads) = build_merkle_proof-LeadsToRoot p leaves target below in
        (
          r,
          node (hash_nodes p) (prover_leaf p leaves) 15 0,
          leads.siblings,
          built,
          leads.root,
          leads.elements,
          leads.count,
          verify_merkle_proof-eq p s (prover_leaf p leaves target) leads.siblings target _
              leads.count (leads.canonical canonical) (canonical target) leads.folds,
        )
