-- ===== src/Merkle/Syscall.antt =====
-- The Poseidon syscall behind `hash_pair` of programs/kirite/src/utils/crypto.rs, next to the hash of
-- the prover's library.
use kirite.Prelude.{ℕ, ◌^◌, ◌<◌, ◌≡◌, [], ◌∷◌, Result, ok, length, arith}
use kirite.Bytes.{Bytes, IsBytes, be_value, be_value-be_bytes, be_bytes-IsBytes, length-be_bytes}
use kirite.Field.{field_to_be32}
use kirite.Field.Hex.{field_to_be32-eq-be_bytes}
use kirite.Poseidon.{
  Poseidon, bn254_field_modulus, fe_to_be32, fe_to_be32_lem, hash_nodes, hash_nodes_lem,
}
use kirite.Merkle.OffChain.{empty_leaf, empty_leaf-eq}

-- 32 bytes that spell a number of the circuit's field.
pub record IsCanonical (bs : Bytes) : Type 0 where
  pub are_bytes : IsBytes bs
  pub len : length bs ≡ 32
  pub small : be_value bs < bn254_field_modulus

field_to_be32-IsCanonical : (n : ℕ) → n < bn254_field_modulus → IsCanonical (field_to_be32 n)
field_to_be32-IsCanonical n h =
    let fits : n < 256 ^ 32 = omega arith in
    rw (field_to_be32-eq-be_bytes n fits) (record {
      are_bytes = be_bytes-IsBytes 32 n;
      len = length-be_bytes 32 n;
      small = rw (be_value-be_bytes 32 n fits) h;
    })

-- The Poseidon syscall of the chain: on canonical bytes it succeeds, with the hash of the prover's
-- library. On others `poseidon_hash` may panic.
pub record Syscall (p : Poseidon) : Type 0 where
  pub hash_pair : Bytes → Bytes → Result Bytes
  pub empty : Bytes
  pub hash_pair-eq :
      (a b : Bytes) → IsCanonical a → IsCanonical b → hash_pair a b ≡ ok (hash_nodes p a b)
  pub empty-eq : empty ≡ fe_to_be32 p (p.hash (p.e 0 ∷ []))

module _ (p : Poseidon) where
  fe_to_be32-IsCanonical : (x : p.Fe) → IsCanonical (fe_to_be32 p x)
  fe_to_be32-IsCanonical x =
      rw (fe_to_be32_lem p x) (field_to_be32-IsCanonical (p.to_object x) (p.to_object-lt x))

  pub hash_nodes-IsCanonical : (a b : Bytes) → IsCanonical (hash_nodes p a b)
  hash_nodes-IsCanonical a b = rw (hash_nodes_lem p a b) (fe_to_be32-IsCanonical _)

  pub empty_leaf-IsCanonical : IsCanonical (empty_leaf p)
  empty_leaf-IsCanonical = rw (empty_leaf-eq p) (fe_to_be32-IsCanonical _)

  pub empty-IsCanonical : (s : Syscall p) → IsCanonical s.empty
  empty-IsCanonical s = rw s.empty-eq (fe_to_be32-IsCanonical _)
