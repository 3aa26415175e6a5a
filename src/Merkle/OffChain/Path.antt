-- ===== src/Merkle/OffChain/Path.antt =====
-- What `buildMerkleProof` returns: the root of the tree, and a path that leads to it.
use kirite.Prelude.{
  ℕ, zero, suc, ◌+◌, ◌*◌, ◌/◌, ◌%◌, ◌^◌, ◌<◌, ◌≡◌, refl, ap, ◌⊎◌, inl, inr, Option, some, List, [],
  ◌∷◌, map, ok, length, get_elem?, arith, true, false, bit_and, bit_xor, bit_and-one, bit_xor-one,
  All, ◌==◌, if◌then◌else◌,
}
use kirite.Bytes.{Bytes}
use kirite.Poseidon.{Poseidon, hash_nodes}
use kirite.Merkle.Tree.{node}
use kirite.Merkle.OnChain.Total.{fold_nodes}
use kirite.Merkle.Syscall.{IsCanonical, hash_nodes-IsCanonical}
use kirite.Merkle.OffChain.{
  MerkleProof, merkle_height, merkle_capacity, pad_leaves, climb, empty_leaf, build_merkle_proof,
}
use kirite.Merkle.OffChain.Levels.{
  Lists, get_elem?-Lists, leaf_of, length-pad_leaves, pad_leaves-leaf_of, next_level-Lists,
}
use native.Mathlib.Nat.{two-pow-succ}

-- The bits of an index, the lowest first.
abbrev pub index_bits : ℕ → ℕ → List ℕ
index_bits zero idx = []
index_bits (suc d) idx = idx % 2 ∷ index_bits d (idx / 2)

module _ (p : Poseidon) (leaf : ℕ → Bytes) where
  abbrev pub nodes : ℕ → ℕ → Bytes
  nodes = node (hash_nodes p) leaf

  nodes-IsCanonical : ((i : ℕ) → IsCanonical (leaf i)) → (d i : ℕ) → IsCanonical (nodes d i)
  unfolding node
  nodes-IsCanonical leaves zero i = leaves i
  nodes-IsCanonical leaves (suc d) i = hash_nodes-IsCanonical p _ _

  -- A path for the node of index `idx` at depth `k` of a tree of height `h`, `d` levels below its root.
  pub record LeadsToRoot (d h k idx : ℕ) (r : MerkleProof) : Type 0 where
    pub siblings : List Bytes
    pub root : r.root ≡ some (nodes h 0)
    pub elements : r.path_elements ≡ map some siblings
    pub count : length siblings ≡ d
    pub indices : r.path_indices ≡ index_bits d idx
    pub folds : fold_nodes (hash_nodes p) siblings (nodes k idx) idx ≡ nodes h 0
    pub canonical : ((i : ℕ) → IsCanonical (leaf i)) → All IsCanonical siblings

  -- One step up: the node hashed with its sibling, in the order that the lowest bit says.
  step_up :
      (k idx : ℕ)
      → (if bit_and idx 1 == 0
          then hash_nodes p (nodes k idx) (nodes k (bit_xor idx 1))
          else hash_nodes p (nodes k (bit_xor idx 1)) (nodes k idx))
        ≡ nodes (suc k) (idx / 2)
  unfolding node
  step_up k idx = elim (parity idx) [
    | inl (bit, here, next) ↦ rw (bit, next, here)
    | inr (bit, here, next) ↦ rw (bit, next, here)
  ]
    where
      parity :
          (i : ℕ)
          → ((bit_and i 1 == 0) ≡ true) × (2 * (i / 2) ≡ i) × (bit_xor i 1 ≡ 2 * (i / 2) + 1)
            ⊎ ((bit_and i 1 == 0) ≡ false) × (2 * (i / 2) + 1 ≡ i) × (bit_xor i 1 ≡ 2 * (i / 2))
      parity i = ground (arith, bit_and-one i, bit_xor-one i)

  even-pow : (d : ℕ) → 2 ^ suc d % 2 ≡ 0
  even-pow d = omega (arith, two-pow-succ d)

  climb-LeadsToRoot :
      (d h k idx : ℕ) (level : List Bytes)
      → k + d ≡ h
      → length level ≡ 2 ^ d
      → Lists (nodes k) 0 level
      → idx < 2 ^ d
      → (r : MerkleProof) × (climb p d level idx ≡ ok r) × LeadsToRoot d h k idx r
  unfolding climb fold_nodes
  climb-LeadsToRoot zero h k idx level height len listed below =
      let top : k ≡ h = omega arith in
      let first : idx ≡ 0 = omega arith in
      (
        record { root = get_elem? level 0; path_elements = []; path_indices = [] },
        refl,
        record {
          siblings = [];
          root = rw (← top) (get_elem?-Lists (nodes k) 0 level 0 listed (omega arith));
          elements = refl;
          count = refl;
          indices = refl;
          folds = rw (← top, first) refl;
          canonical = λ leaves. tt;
        },
      )
  climb-LeadsToRoot (suc d) h k idx level height len listed below =
      let power : 2 ^ suc d ≡ 2 ^ d + 2 ^ d = two-pow-succ d in
      let (next, run, count, listed') =
        next_level-Lists p leaf k (2 ^ d) 0 level (omega arith) listed in
      let (r, climbed, leads) =
        climb-LeadsToRoot d h (suc k) (idx / 2) next (omega arith) count listed' (omega arith) in
      let start : 0 + bit_xor idx 1 ≡ bit_xor idx 1 = omega arith in
      let sibling : get_elem? level (bit_xor idx 1) ≡ some (nodes k (bit_xor idx 1)) = rw start at (
        get_elem?-Lists (nodes k) 0 level (bit_xor idx 1) listed
          (omega (arith, bit_xor-one idx, even-pow d))) in
      (
        record {
          root = r.root;
          path_elements = get_elem? level (bit_xor idx 1) ∷ r.path_elements;
          path_indices = bit_and idx 1 ∷ r.path_indices;
        },
        rw (run, climbed) refl,
        record {
          siblings = nodes k (bit_xor idx 1) ∷ leads.siblings;
          root = leads.root;
          elements = rw (sibling, leads.elements) refl;
          count = ap suc leads.count;
          indices = rw (bit_and-one idx, leads.indices) refl;
          folds = rw (step_up k idx) leads.folds;
          canonical =
              λ leaves. (nodes-IsCanonical leaves k (bit_xor idx 1), leads.canonical leaves);
        },
      )

module _ (p : Poseidon) (leaves : List (Option Bytes)) where
  abbrev pub prover_leaf : ℕ → Bytes
  prover_leaf = leaf_of leaves (empty_leaf p)

  -- For an index below the capacity `buildMerkleProof` succeeds, whatever the list of leaves: with the
  -- root of the binary tree of the padded leaves, 15 siblings whose hashes with the leaf at the index
  -- lead to that root, and the bits of the index.
  pub build_merkle_proof-LeadsToRoot :
      (target : ℕ)
      → target < merkle_capacity
      → (r : MerkleProof) × (build_merkle_proof p leaves target ≡ ok r)
        × LeadsToRoot p prover_leaf merkle_height merkle_height 0 target r
  unfolding build_merkle_proof node
  build_merkle_proof-LeadsToRoot target below =
      climb-LeadsToRoot p prover_leaf merkle_height merkle_height 0 target
        (pad_leaves merkle_capacity leaves (empty_leaf p)) refl
        (length-pad_leaves merkle_capacity leaves (empty_leaf p))
        (pad_leaves-leaf_of merkle_capacity leaves (empty_leaf p)) below
