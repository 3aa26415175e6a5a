-- ===== src/Membership/Completeness.antt =====
-- What `generateMembershipProof` hands to the prover satisfies the circuit.
use kirite.Prelude.{
  ℕ, zero, suc, ◌/◌, ◌%◌, ◌<◌, ◌≡◌, ◌≢◌, refl, sym, ap, ◌∙◌, ◌⊎◌, inl, inr, Option, none, some,
  List, [], ◌∷◌, map, ok, err, Error, ◌>>=◌, All, length, get_elem?, get_or_of_get_elem?,
  length-map, arith, map_result, bytes_eq, bytes_eq_refl, bytes_eq_ne, start_of_ok, eq_of_bytes_eq,
  bit_and, bit_and-one, ◌==◌, true, false, Bool-cases,
}
use kirite.Bytes.{Bytes}
use kirite.Field.{be32_to_field}
use kirite.Poseidon.Elements.{e-fe_to_be32}
use kirite.Poseidon.{
  Poseidon, fe_to_be32, hash_nodes, hash_nodes_lem, compute_commitment, compute_nullifier_hash,
}
use kirite.Merkle.Tree.{node}
use kirite.Merkle.OnChain.Total.{fold_nodes}
use kirite.Merkle.OffChain.{MerkleProof, merkle_height, merkle_capacity, build_merkle_proof}
use kirite.Merkle.OffChain.Path.{
  index_bits, prover_leaf, nodes, LeadsToRoot, build_merkle_proof-LeadsToRoot,
}
use kirite.Membership.{
  element_to_field, CircuitInput, Note, Prover, MembershipProof, note_commitment, check_leaf,
  check_note, pubkey_to_field, circuit_input, membership_output, generate_membership_proof,
}
use kirite.Membership.Circuit.{level_hash, leaf_hash, Satisfies}

index_bits-All : (d idx : ℕ) → All (λ b. (b ≡ 0) ⊎ (b ≡ 1)) (index_bits d idx)
index_bits-All zero idx = tt
index_bits-All (suc d) idx = (omega arith, index_bits-All d (idx / 2))

length-index_bits : (d idx : ℕ) → length (index_bits d idx) ≡ d
length-index_bits zero idx = refl
length-index_bits (suc d) idx = ap suc (length-index_bits d (idx / 2))

map_result-map-some :
    (bs : List Bytes) → map_result element_to_field (map some bs) ≡ ok (map be32_to_field bs)
map_result-map-some [] = refl
map_result-map-some (b ∷ bs) = rw (map_result-map-some bs)

module _ (p : Poseidon) where
  open p use {Fe, e, to_object, hash}

  hash_nodes-left :
      (x : Fe) (s : Bytes)
      → hash_nodes p (fe_to_be32 p x) s ≡ fe_to_be32 p (hash (x ∷ e (be32_to_field s) ∷ []))
  hash_nodes-left x s = rw (hash_nodes_lem p (fe_to_be32 p x) s, e-fe_to_be32 p x)

  hash_nodes-right :
      (x : Fe) (s : Bytes)
      → hash_nodes p s (fe_to_be32 p x) ≡ fe_to_be32 p (hash (e (be32_to_field s) ∷ x ∷ []))
  hash_nodes-right x s = rw (hash_nodes_lem p s (fe_to_be32 p x), e-fe_to_be32 p x)

  -- The circuit's path and the prover's tree, level by level.
  level_hash-fold_nodes :
      (siblings : List Bytes) (idx : ℕ) (x : Fe)
      → fe_to_be32 p
          (level_hash p (map be32_to_field siblings) (index_bits (length siblings) idx) x)
        ≡ fold_nodes (hash_nodes p) siblings (fe_to_be32 p x) idx
  unfolding level_hash fold_nodes
  level_hash-fold_nodes [] idx x = refl
  level_hash-fold_nodes (s ∷ siblings) idx x = elim (parity idx) [
    | inl (bit, low) ↦
        rw (bit, low)
          (level_hash-fold_nodes siblings (idx / 2) (hash (x ∷ e (be32_to_field s) ∷ []))
            ∙ ap (λ t. fold_nodes (hash_nodes p) siblings t (idx / 2)) (sym (hash_nodes-left x s)))
    | inr (bit, low) ↦
        rw (bit, low)
          (level_hash-fold_nodes siblings (idx / 2) (hash (e (be32_to_field s) ∷ x ∷ []))
            ∙ ap (λ t. fold_nodes (hash_nodes p) siblings t (idx / 2)) (sym (hash_nodes-right x s)))
  ]
    where
      parity :
          (i : ℕ)
          → ((bit_and i 1 == 0) ≡ true) × ((i % 2 == 0) ≡ true)
            ⊎ ((bit_and i 1 == 0) ≡ false) × ((i % 2 == 0) ≡ false)
      parity i = ground (arith, bit_and-one i)

check_leaf-ok :
    (c : Bytes) (i : ℕ) (held : Option (Option Bytes)) {u : Unit {0}}
    → check_leaf c i held ≡ ok u
    → held ≡ some (some c)
unfolding check_leaf
check_leaf-ok c i none h = cc
check_leaf-ok c i (some none) h = cc
check_leaf-ok c i (some (some leaf)) h = elim (Bool-cases (bytes_eq c leaf)) [
  | inl same ↦ rw (eq_of_bytes_eq c leaf same)
  | inr other ↦ absurd (cc (rw other at h))
]

module _ (p : Poseidon) (n : Note) where
  check_note-ok :
      get_elem? n.all_leaves n.leaf_index ≡ some (some (note_commitment p n))
      → check_note p n ≡ ok tt
  unfolding check_note
  check_note-ok found = rw (found, bytes_eq_refl (note_commitment p n))

  check_note-wrong_note :
      (leaf : Bytes)
      → get_elem? n.all_leaves n.leaf_index ≡ some (some leaf)
      → note_commitment p n ≢ leaf
      → check_note p n ≡ err Error.wrong_note
  unfolding check_note
  check_note-wrong_note leaf held other = rw (held, bytes_eq_ne _ _ other)

module _ (p : Poseidon) (keccak_256 : Bytes → Bytes) (n : Note) where
  open p use {Fe, e, hash}

  note_commitment-leaf_hash :
      (root : Bytes) (elements indices : List ℕ)
      → note_commitment p n
        ≡ fe_to_be32 p (leaf_hash p (circuit_input p keccak_256 n root elements indices))
  unfolding note_commitment leaf_hash circuit_input compute_commitment fe_to_be32
  note_commitment-leaf_hash root elements indices = refl

  module _ (found : get_elem? n.all_leaves n.leaf_index ≡ some (some (note_commitment p n)))
      (r : MerkleProof)
      (leads : LeadsToRoot p
        (prover_leaf p n.all_leaves)
        merkle_height
        merkle_height
        0
        n.leaf_index
        r) where
    root_bytes : Bytes
    root_bytes = nodes p (prover_leaf p n.all_leaves) merkle_height 0

    input : CircuitInput
    input =
        circuit_input p keccak_256 n root_bytes (map be32_to_field leads.siblings) r.path_indices

    leaf-is_commitment :
        nodes p (prover_leaf p n.all_leaves) 0 n.leaf_index ≡ fe_to_be32 p (leaf_hash p input)
    unfolding node input
    leaf-is_commitment =
        rw (get_or_of_get_elem? n.all_leaves n.leaf_index none found)
          (note_commitment-leaf_hash _ _ _)

    level_hash-root :
        fe_to_be32 p
          (level_hash p (map be32_to_field leads.siblings) r.path_indices (leaf_hash p input))
        ≡ root_bytes
    unfolding root_bytes
    level_hash-root =
        ap
          (λ t.
            fe_to_be32 p (level_hash p (map be32_to_field leads.siblings) t (leaf_hash p input)))
          (leads.indices ∙ ap (λ t. index_bits t n.leaf_index) (sym leads.count))
        ∙ level_hash-fold_nodes p leads.siblings n.leaf_index (leaf_hash p input)
        ∙ ap (λ t. fold_nodes (hash_nodes p) leads.siblings t n.leaf_index) (sym leaf-is_commitment)
        ∙ leads.folds

    input-Satisfies : Satisfies p merkle_height input
    unfolding input circuit_input compute_nullifier_hash
    input-Satisfies = record {
      elements = length-map leads.siblings be32_to_field ∙ leads.count;
      indices = rw leads.indices (length-index_bits merkle_height n.leaf_index);
      bits = rw leads.indices (index_bits-All merkle_height n.leaf_index);
      root = sym (e-fe_to_be32 p _) ∙ ap (λ t. e (be32_to_field t)) level_hash-root;
      nullifier = e-fe_to_be32 p _;
    }

    input-generated :
        (full_prove : Prover)
        → build_merkle_proof p n.all_leaves n.leaf_index ≡ ok r
        → generate_membership_proof p keccak_256 full_prove n
          ≡ (full_prove input >>= λ proved. ok (membership_output p keccak_256 n root_bytes proved))
    unfolding generate_membership_proof input root_bytes
    input-generated full_prove built = rw (
      check_note-ok p n found,
      built,
      leads.root,
      leads.elements,
      map_result-map-some leads.siblings,
    )

  -- For a note whose commitment is the leaf at its index, below the capacity, nothing throws before
  -- the prover is called, the input that it is called with satisfies every constraint of the
  -- membership circuit of height 15, and what it gives is packed with the root and hashes of that
  -- very input.
  pub generate_membership_proof-Satisfies :
      (full_prove : Prover)
      → get_elem? n.all_leaves n.leaf_index ≡ some (some (note_commitment p n))
      → n.leaf_index < merkle_capacity
      → (w : CircuitInput) × (root : Bytes) × Satisfies p merkle_height w
        × (generate_membership_proof p keccak_256 full_prove n
            ≡ (full_prove w >>= λ proved. ok (membership_output p keccak_256 n root proved)))
        × (w.root ≡ be32_to_field root)
        × (w.nullifier_hash
            ≡ be32_to_field (compute_nullifier_hash p n.nullifier_secret n.leaf_index))
        × (w.recipient_hash ≡ be32_to_field (pubkey_to_field keccak_256 n.recipient))
        × (w.amount ≡ n.amount)
  unfolding input circuit_input
  generate_membership_proof-Satisfies full_prove found below =
      let (r, built, leads) = build_merkle_proof-LeadsToRoot p n.all_leaves n.leaf_index below in
      (
        input found r leads,
        root_bytes found r leads,
        input-Satisfies found r leads,
        input-generated found r leads full_prove built,
        refl,
        refl,
        refl,
        refl,
      )

  -- A leaf other than the note's commitment is refused, whatever the prover.
  generate_membership_proof-wrong_note :
      (full_prove : Prover) (leaf : Bytes)
      → get_elem? n.all_leaves n.leaf_index ≡ some (some leaf)
      → note_commitment p n ≢ leaf
      → generate_membership_proof p keccak_256 full_prove n ≡ err Error.wrong_note
  unfolding generate_membership_proof
  generate_membership_proof-wrong_note full_prove leaf held other =
      rw (check_note-wrong_note p n leaf held other)

  -- A proof is only ever returned for a note whose commitment is the leaf at its index.
  generate_membership_proof-ok :
      (full_prove : Prover) {out : MembershipProof}
      → generate_membership_proof p keccak_256 full_prove n ≡ ok out
      → get_elem? n.all_leaves n.leaf_index ≡ some (some (note_commitment p n))
  unfolding generate_membership_proof check_note
  generate_membership_proof-ok full_prove h =
      let (_, checked) = start_of_ok (check_note p n) _ h in
      check_leaf-ok (note_commitment p n) n.leaf_index (get_elem? n.all_leaves n.leaf_index) checked
