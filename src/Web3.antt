-- ===== src/Web3.antt =====
-- What the sources use of @solana/web3.js: public keys, their 32 bytes, and program addresses.
pub mod Toy
use kirite.Prelude.{ℕ, ◌≡◌, ◌↔◌, Bool, true, List, Result, ok, length}
use kirite.Bytes.{Bytes, IsBytes}

pub record Web3 : Type 1 where
  pub PublicKey : Type 0
  pub of_bytes : Bytes → Result PublicKey
  pub to_bytes : PublicKey → Bytes
  pub equals : PublicKey → PublicKey → Bool
  -- `findProgramAddressSync(seeds, programId)`, a key and its bump.
  pub find_program_address : List Bytes → PublicKey → PublicKey × ℕ
  pub length-to_bytes : (k : PublicKey) → length (to_bytes k) ≡ 32
  pub to_bytes-IsBytes : (k : PublicKey) → IsBytes (to_bytes k)
  pub of_bytes-to_bytes : (k : PublicKey) → of_bytes (to_bytes k) ≡ ok k
  pub equals_iff : (a b : PublicKey) → (equals a b ≡ true) ↔ (a ≡ b)
