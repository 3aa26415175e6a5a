-- ===== src/Poseidon.antt =====
-- The hash that circomlibjs gives to sdk/src/zk.mjs: elements of the circuit's field, the element of
-- a number (`F.e`, which also takes a number beyond the modulus), the number of an element
-- (`F.toObject`), and Poseidon on elements. An input that is a number is made an element first.
pub mod Toy
pub mod Elements
use kirite.Prelude.{ℕ, ◌<◌, ◌≡◌, refl, List, [], ◌∷◌}
use kirite.Bytes.{Bytes}
use kirite.Field.{field_to_be32, be32_to_field}

-- `BN254_FIELD_MODULUS` of sdk/src/constants.ts, the order of the circuit's field.
abbrev pub bn254_field_modulus : ℕ
bn254_field_modulus = 0x30644e72e131a029b85045b68181585d2833e84879b9709143e1f593f0000001

pub record Poseidon : Type 1 where
  pub Fe : Type 0
  pub e : ℕ → Fe
  pub to_object : Fe → ℕ
  pub hash : List Fe → Fe
  pub e-to_object : (x : Fe) → e (to_object x) ≡ x
  pub to_object-lt : (x : Fe) → to_object x < bn254_field_modulus

-- An argument of `poseidonHashPair`: a bigint, or bytes.
pub data PairInput : Type 0 where
  bigint : ℕ → PairInput
  bytes : Bytes → PairInput

pair_input : PairInput → ℕ
pair_input (bigint n) = n
pair_input (bytes bs) = be32_to_field bs

module _ (p : Poseidon) where
  open p use {Fe, e, to_object, hash}

  -- `fieldToBE32` on an element.
  unfoldable pub fe_to_be32 : Fe → Bytes
  fe_to_be32 x = field_to_be32 (to_object x)

  pub fe_to_be32_lem : (x : Fe) → fe_to_be32 x ≡ field_to_be32 (to_object x)
  unfolding fe_to_be32
  fe_to_be32_lem x = refl

  -- The element that a hash makes of bytes.
  pub be32_to_fe : Bytes → Fe
  be32_to_fe bs = e (be32_to_field bs)

  pub poseidon_hash_pair : PairInput → PairInput → Bytes
  unfolding fe_to_be32 pair_input
  poseidon_hash_pair left right =
      fe_to_be32 (hash (e (pair_input left) ∷ e (pair_input right) ∷ []))

  -- The hash of two nodes in the loop of `buildMerkleProof`.
  pub hash_nodes : Bytes → Bytes → Bytes
  unfolding fe_to_be32 be32_to_fe
  hash_nodes a b = fe_to_be32 (hash (be32_to_fe a ∷ be32_to_fe b ∷ []))

  pub hash_nodes_lem :
      (a b : Bytes)
      → hash_nodes a b ≡ fe_to_be32 (hash (e (be32_to_field a) ∷ e (be32_to_field b) ∷ []))
  unfolding hash_nodes
  hash_nodes_lem a b = refl

  unfoldable pub compute_commitment : Bytes → ℕ → Bytes → ℕ → Bytes
  unfolding fe_to_be32
  compute_commitment nullifier_secret amount blinding_factor leaf_index = fe_to_be32 (
      hash (
        e (be32_to_field nullifier_secret)
        ∷ e amount
        ∷ e (be32_to_field blinding_factor)
        ∷ e leaf_index
        ∷ []))

  unfoldable pub compute_nullifier_hash : Bytes → ℕ → Bytes
  unfolding fe_to_be32
  compute_nullifier_hash nullifier_secret leaf_index =
      fe_to_be32 (hash (e (be32_to_field nullifier_secret) ∷ e leaf_index ∷ []))
