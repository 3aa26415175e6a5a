-- ===== src/Merkle/OffChain/ZeroHashes.antt =====
-- The hashes of the empty subtrees: sdk/src/zk.mjs against programs/kirite/src/utils/crypto.rs.
use kirite.Prelude.{ℕ, zero, suc, ◌≡◌, refl, sym, ap, ◌∙◌, [], ◌∷◌, ok}
use kirite.Poseidon.{Poseidon, fe_to_be32, hash_nodes, hash_nodes_lem}
use kirite.Poseidon.Elements.{e-fe_to_be32}
use kirite.Merkle.Syscall.{Syscall, IsCanonical, hash_nodes-IsCanonical, empty-IsCanonical}
use kirite.Merkle.OnChain.{compute_zero_hashes}
use kirite.Merkle.OnChain.Total.{zero_nodes}
use kirite.Merkle.OnChain.Deposits.{zero_hashes_from-ok}
use kirite.Merkle.OffChain.{zero_hash_rounds, poseidon_zero_hashes, merkle_height}

module _ (p : Poseidon) (s : Syscall p) where
  open p use {Fe, e, hash}

  pair_of_equal :
      (h : Fe) → hash_nodes p (fe_to_be32 p h) (fe_to_be32 p h) ≡ fe_to_be32 p (hash (h ∷ h ∷ []))
  pair_of_equal h = rw (hash_nodes_lem p (fe_to_be32 p h) (fe_to_be32 p h), e-fe_to_be32 p h)

  zero_hash_rounds-eq :
      (n : ℕ) (h : Fe)
      → fe_to_be32 p h ∷ zero_hash_rounds p n h
        ≡ zero_nodes (hash_nodes p) s.empty n (fe_to_be32 p h)
  unfolding zero_hash_rounds zero_nodes
  zero_hash_rounds-eq zero h = refl
  zero_hash_rounds-eq (suc n) h =
      rw (pair_of_equal h) (ap (fe_to_be32 p h ∷◌) (zero_hash_rounds-eq n (hash (h ∷ h ∷ []))))

  -- `compute_zero_hashes` succeeds, with the 16 hashes that `poseidonZeroHashes` gives.
  compute_zero_hashes-eq : compute_zero_hashes s.hash_pair s.empty ≡ ok (poseidon_zero_hashes p)
  unfolding poseidon_zero_hashes compute_zero_hashes
  compute_zero_hashes-eq =
      (zero_hashes_from-ok s.hash_pair (hash_nodes p) IsCanonical s.hash_pair-eq
        (hash_nodes-IsCanonical p) 15 s.empty (empty-IsCanonical p s) s.empty).0
      ∙ ap ok (
          ap (zero_nodes (hash_nodes p) s.empty 15) s.empty-eq
          ∙ sym (zero_hash_rounds-eq merkle_height (hash (e 0 ∷ []))))
