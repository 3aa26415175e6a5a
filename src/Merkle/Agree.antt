-- ===== src/Merkle/Agree.antt =====
-- The program and the prover hash the same tree: what ties programs/kirite/src/utils/crypto.rs to
-- sdk/src/zk.mjs.
use kirite.Prelude.{
  ℕ, zero, suc, ◌≤◌, ◌<◌, ◌≡◌, refl, sym, ap, ◌∙◌, some, List, [], ◌∷◌, map, ok, length, All,
}
use mathlib.Core.Path.{fun_ext}
use kirite.Bytes.{Bytes}
use kirite.Poseidon.{Poseidon, hash_nodes}
use kirite.Merkle.Tree.{node}
use kirite.Merkle.OnChain.{Tree, merkle_tree_capacity, deposits_from_start}
use kirite.Merkle.Syscall.{IsCanonical, Syscall}
use kirite.Merkle.OnChain.Deposits.{deposits_into_new_pool}
use kirite.Merkle.OnChain.Grown.{leaf_at, merkle_root}
use kirite.Merkle.OffChain.{MerkleProof, empty_leaf, empty_leaf-eq, build_merkle_proof}
use kirite.Merkle.OffChain.Levels.{leaf_of}
use kirite.Merkle.OffChain.Path.{build_merkle_proof-LeadsToRoot}

module _ (p : Poseidon) where
  leaf_of-map-some :
      (cs : List Bytes) (i : ℕ)
      → leaf_of (map some cs) (empty_leaf p) i ≡ leaf_at (hash_nodes p) (empty_leaf p) cs i
  leaf_of-map-some [] i = refl
  leaf_of-map-some (c ∷ cs) zero = refl
  leaf_of-map-some (c ∷ cs) (suc i) = leaf_of-map-some cs i

  module _ (s : Syscall p) where
    merkle_root-agree :
        (cs : List Bytes)
        → merkle_root (hash_nodes p) s.empty cs ≡ merkle_root (hash_nodes p) (empty_leaf p) cs
    merkle_root-agree cs =
        ap (λ z. merkle_root (hash_nodes p) z cs) (s.empty-eq ∙ sym (empty_leaf-eq p))

    -- After deposits of canonical commitments into a new pool the root that the program stores is
    -- the root that `buildMerkleProof` makes of those commitments, whichever leaf it is asked for.
    pub roots_agree :
        (cs : List Bytes) (target : ℕ)
        → All IsCanonical cs
        → length cs ≤ merkle_tree_capacity
        → target < merkle_tree_capacity
        → (t : Tree Bytes) × (r : MerkleProof) × (deposits_from_start s.hash_pair s.empty cs ≡ ok t)
          × (build_merkle_proof p (map some cs) target ≡ ok r)
          × (r.root ≡ some t.current_root)
    roots_agree cs target h room below =
        let (t, run, counted, root) = deposits_into_new_pool p s cs h room in
        let (r, built, leads) = build_merkle_proof-LeadsToRoot p (map some cs) target below in
        (
          t,
          r,
          run,
          built,
          leads.root
              ∙ ap (λ leaf. some (node (hash_nodes p) leaf 15 0)) (fun_ext (leaf_of-map-some cs))
              ∙ ap some (sym (root ∙ merkle_root-agree cs)),
        )
