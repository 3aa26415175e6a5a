-- ===== src/Instructions.antt =====
-- What the instruction builders of the SDK share: the parts of an instruction, program addresses, and
-- Anchor's discriminators.
pub mod Text
pub mod Shield
pub mod Staking
pub mod OnChain
pub mod Handlers
pub mod Accepted
pub mod Rejected
use kirite.Prelude.{ℕ, ◌≡◌, Bool, true, false, List, [], ◌∷◌, ◌++◌, length, take}
use kirite.Bytes.{Bytes}
use kirite.Web3.{Web3}
use kirite.Instructions.Text

pub record AccountMeta (K : Type 0) : Type 0 where
  pub pubkey : K
  pub is_signer : Bool
  pub is_writable : Bool

pub record TransactionInstruction (K : Type 0) : Type 0 where
  pub program_id : K
  -- The field `keys`.
  pub account_keys : List (AccountMeta K)
  pub bytes : Bytes

-- SHA-256 of node:crypto, and the addresses that @solana/web3.js and @solana/spl-token export.
pub record Sdk : Type 1 where
  pub web3 : Web3
  pub sha256 : Bytes → Bytes
  pub length-sha256 : (bs : Bytes) → length (sha256 bs) ≡ 32
  pub kirite_program_id : web3.PublicKey
  pub staking_program_id : web3.PublicKey
  pub token_program_id : web3.PublicKey
  pub system_program_id : web3.PublicKey

-- `{ pubkey, isSigner, isWritable }`
abbrev pub writable : {K : Type 0} → K → AccountMeta K
writable k = record { pubkey = k; is_signer = false; is_writable = true }

abbrev pub readonly : {K : Type 0} → K → AccountMeta K
readonly k = record { pubkey = k; is_signer = false; is_writable = false }

abbrev pub signer : {K : Type 0} → K → AccountMeta K
signer k = record { pubkey = k; is_signer = true; is_writable = true }

module _ (sdk : Sdk) where
  open sdk use {web3, sha256, kirite_program_id, staking_program_id}
  open web3 use {PublicKey, to_bytes, find_program_address}

  -- `disc` of kirite-zk.mjs and `discriminator` of staking.mjs.
  pub discriminator : Bytes → Bytes
  discriminator name = take 8 (sha256 (Text.global ++ name))

  -- The address that a derivation gives, its bump left out.
  abbrev pub kirite_address : List Bytes → PublicKey
  kirite_address seeds = (find_program_address seeds kirite_program_id).0

  abbrev pub staking_address : List Bytes → PublicKey
  staking_address seeds = (find_program_address seeds staking_program_id).0
