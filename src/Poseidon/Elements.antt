-- ===== src/Poseidon/Elements.antt =====
-- Elements and their 32 bytes, and the hash of a pair by each of its two routes.
use kirite.Prelude.{ℕ, ◌≡◌, refl, arith, length}
use kirite.Bytes.{Bytes, length-be_bytes}
use kirite.Field.{be32_to_field}
use kirite.Field.Hex.{field_to_be32-eq-be_bytes}
use kirite.Field.RoundTrip.{be32_to_field-field_to_be32}
use kirite.Poseidon.{
  Poseidon, bigint, bytes, fe_to_be32, fe_to_be32_lem, compute_commitment, poseidon_hash_pair,
  pair_input, be32_to_fe, hash_nodes,
}

module _ (p : Poseidon) where
  open p use {Fe, e, to_object, hash}

  -- An element survives the way to bytes and back.
  pub e-fe_to_be32 : (x : Fe) → e (be32_to_field (fe_to_be32 p x)) ≡ x
  e-fe_to_be32 x =
      rw
        (
          fe_to_be32_lem p x,
          be32_to_field-field_to_be32 (to_object x) (omega (arith, p.to_object-lt x)),
        )
        (p.e-to_object x)

  pub length-fe_to_be32 : (x : Fe) → length (fe_to_be32 p x) ≡ 32
  length-fe_to_be32 x =
      rw
        (
          fe_to_be32_lem p x,
          field_to_be32-eq-be_bytes (to_object x) (omega (arith, p.to_object-lt x)),
        )
        (length-be_bytes 32 (to_object x))

  pub length-compute_commitment :
      (secret : Bytes) (amount : ℕ) (blinding : Bytes) (leaf_index : ℕ)
      → length (compute_commitment p secret amount blinding leaf_index) ≡ 32
  unfolding compute_commitment
  length-compute_commitment secret amount blinding leaf_index = length-fe_to_be32 _

  -- `poseidonHashPair` of two byte strings is the hash that `buildMerkleProof` makes of two nodes, and
  -- bytes count as the number that they spell, reduced.
  pub poseidon_hash_pair-hash_nodes :
      (a b : Bytes)
      → (poseidon_hash_pair p (bytes a) (bytes b) ≡ hash_nodes p a b)
        × (poseidon_hash_pair p (bigint (be32_to_field a)) (bytes b) ≡ hash_nodes p a b)
        × (poseidon_hash_pair p (bytes a) (bigint (be32_to_field b)) ≡ hash_nodes p a b)
  unfolding poseidon_hash_pair pair_input hash_nodes be32_to_fe
  poseidon_hash_pair-hash_nodes a b = (refl, refl, refl)
