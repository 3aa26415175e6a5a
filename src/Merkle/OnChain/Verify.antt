-- ===== src/Merkle/OnChain/Verify.antt =====
-- When `verify_merkle_proof` answers yes.
use kirite.Prelude.{
  ℕ, ◌/◌, ◌≡◌, refl, true, List, [], ◌∷◌, ok, All, length, bytes_eq_refl, inl, inr,
}
use kirite.Bytes.{Bytes}
use kirite.Poseidon.{Poseidon, hash_nodes}
use kirite.Merkle.Syscall.{IsCanonical, Syscall, hash_nodes-IsCanonical}
use kirite.Merkle.OnChain.{fold_path, verify_merkle_proof}
use kirite.Merkle.OnChain.Total.{fold_nodes}
use kirite.Merkle.OnChain.Insert.{is_left-cases}

module _ (p : Poseidon) (s : Syscall p) where
  fold_path-ok :
      (siblings : List Bytes) (current : Bytes) (idx : ℕ)
      → All IsCanonical siblings
      → IsCanonical current
      → fold_path s.hash_pair siblings current idx
        ≡ ok (fold_nodes (hash_nodes p) siblings current idx)
  unfolding fold_path fold_nodes
  fold_path-ok [] current idx all good = refl
  fold_path-ok (sibling ∷ rest) current idx (here, all) good = elim (is_left-cases idx) [
    | inl (left, even) ↦
        rw (left, s.hash_pair-eq current sibling good here)
          (fold_path-ok rest _ (idx / 2) all (hash_nodes-IsCanonical p current sibling))
    | inr (right, odd) ↦
        rw (right, s.hash_pair-eq sibling current here good)
          (fold_path-ok rest _ (idx / 2) all (hash_nodes-IsCanonical p sibling current))
  ]

  pub verify_merkle_proof-eq :
      (leaf : Bytes) (proof : List Bytes) (index : ℕ) (root : Bytes)
      → length proof ≡ 15
      → All IsCanonical proof
      → IsCanonical leaf
      → fold_nodes (hash_nodes p) proof leaf index ≡ root
      → verify_merkle_proof s.hash_pair leaf proof index root ≡ ok true
  unfolding verify_merkle_proof
  verify_merkle_proof-eq leaf proof index root len all good same =
      rw (len, fold_path-ok proof leaf index all good, same, bytes_eq_refl root) refl
