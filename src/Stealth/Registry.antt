-- ===== src/Stealth/Registry.antt =====
-- The registry of stealth keys in sdk/src/stealth/registry.ts: its addresses, the lookups, and the instruction builders. The connection and Node's UTF-8 are parameters.
pub mod Layout
pub mod Mismatch
use kirite.Prelude.{
  ℕ, suc, ◌+◌, ◌-◌, ◌*◌, ◌%◌, ◌^◌, Bool, true, false, ℤ, pos, negsuc, List, [], ◌∷◌, ◌++◌, Option,
  none, some, Result, ok, err, Error, ◌>>=◌, length, take, concat, ltb, if◌then◌else◌, codes,
}
use kirite.Bytes.{Bytes}
use kirite.Buffer.{u32_le}
use kirite.Events.{Line}
use kirite.Instructions.{AccountMeta, TransactionInstruction, writable, readonly, signer}
use kirite.Stealth.{StealthMetaAddress}
use kirite.Stealth.Parsers.{StealthRegistryEntry, parse_registry_entry}
use kirite.Web3.{Web3}

-- The accounts that a connection gives, or its throw; a filter is an offset and a base58 text.
pub record Accounts (K : Type 0) : Type 0 where
  pub get_account_info : K → Result (Option Bytes)
  pub get_program_accounts : K → ℕ × Line → Result (List (K × Bytes))

module _ (w : Web3) where
  open w use {PublicKey, to_bytes, find_program_address}

  pub derive_registry_address : PublicKey → PublicKey → PublicKey × ℕ
  derive_registry_address owner program_id =
      find_program_address (codes "stealth_registry" ∷ to_bytes owner ∷ []) program_id

  pub derive_announcement_address : Bytes → PublicKey → PublicKey → PublicKey × ℕ
  derive_announcement_address ephemeral_pubkey stealth_address program_id =
      find_program_address
        (codes "stealth_announcement" ∷ ephemeral_pubkey ∷ to_bytes stealth_address ∷ []) program_id

  module _ (utf8_decode : Bytes → Line) where
    -- `fetchAccountOrThrow` of connection.ts, on the account's bytes.
    pub fetch_account_or_throw : Accounts PublicKey → PublicKey → Result Bytes
    fetch_account_or_throw net address = do
      account ← net.get_account_info address
      elim account [ none ↦ err Error.account_not_found | some bytes ↦ ok bytes ]

    -- The `catch`, which throws an error of its own whatever it caught.
    pub or_not_found : {A : Type 0} → Result A → Result A
    or_not_found (ok a) = ok a
    or_not_found (err e) = err Error.registry_not_found

    pub fetch_registry_entry :
        Accounts PublicKey → PublicKey → PublicKey → Result (StealthRegistryEntry PublicKey)
    unfolding derive_registry_address fetch_account_or_throw or_not_found
    fetch_registry_entry net owner program_id = or_not_found (do
      account ← fetch_account_or_throw net (derive_registry_address owner program_id).0
      parse_registry_entry w utf8_decode account)

    -- The loop of `fetchAllRegistryEntries`, which passes over what does not parse.
    pub parse_entries : List (PublicKey × Bytes) → List (StealthRegistryEntry PublicKey)
    parse_entries [] = []
    parse_entries ((key, account) ∷ rest) = elim (parse_registry_entry w utf8_decode account) [
      | err e ↦ parse_entries rest
      | ok entry ↦ entry ∷ parse_entries rest
    ]

    pub fetch_all_registry_entries :
        Accounts PublicKey → PublicKey → Result (List (StealthRegistryEntry PublicKey))
    unfolding parse_entries
    fetch_all_registry_entries net program_id = do
      accounts ← net.get_program_accounts program_id (0, codes "4Rr")
      ok (parse_entries accounts)

    pub lookup_stealth_meta_address :
        Accounts PublicKey → PublicKey → PublicKey → Result StealthMetaAddress
    unfolding fetch_registry_entry
    lookup_stealth_meta_address net recipient program_id = do
      entry ← fetch_registry_entry net recipient program_id
      ok (entry.meta_address)

  module _ (utf8_encode : Line → Bytes) (system_program_id : PublicKey) where
    -- The bytes of a registration behind the discriminator.
    pub registration_bytes : Bytes → StealthMetaAddress → Bytes → Result Bytes
    registration_bytes discriminator meta label_bytes = do
      label_len ← u32_le (pos (length label_bytes))
      ok (
          concat
            (discriminator ∷ meta.spending_key ∷ meta.viewing_key ∷ label_len ∷ label_bytes ∷ []))

    pub build_register_instruction :
        PublicKey
        → StealthMetaAddress
        → Line
        → PublicKey
        → Result (TransactionInstruction PublicKey)
    unfolding derive_registry_address registration_bytes
    build_register_instruction owner meta label program_id = do
      bytes ←
          registration_bytes (0x5c ∷ 0x6d ∷ 0x7e ∷ 0x8f ∷ 0x9a ∷ 0xab ∷ 0xbc ∷ 0xcd ∷ []) meta
            (take 64 (utf8_encode label))
      ok (record {
        program_id = program_id;
        account_keys =
            signer owner
            ∷ writable (derive_registry_address owner program_id).0
            ∷ readonly system_program_id
            ∷ [];
        bytes = bytes;
      })

    -- `newLabel ? ... : ...`, which takes an empty text as no text.
    pub label_or_empty : Option Line → Bytes
    label_or_empty none = []
    label_or_empty (some []) = []
    label_or_empty (some (c ∷ cs)) = take 64 (utf8_encode (c ∷ cs))

    pub build_update_registry_instruction :
        PublicKey
        → StealthMetaAddress
        → Option Line
        → PublicKey
        → Result (TransactionInstruction PublicKey)
    unfolding derive_registry_address registration_bytes label_or_empty
    build_update_registry_instruction owner meta label program_id = do
      bytes ←
          registration_bytes (0x6e ∷ 0x7f ∷ 0x8a ∷ 0x9b ∷ 0xac ∷ 0xbd ∷ 0xce ∷ 0xdf ∷ []) meta
            (label_or_empty label)
      ok (record {
        program_id = program_id;
        account_keys = signer owner ∷ writable (derive_registry_address owner program_id).0 ∷ [];
        bytes = bytes;
      })

    pub build_announcement_instruction :
        PublicKey → Bytes → PublicKey → ℕ → PublicKey → TransactionInstruction PublicKey
    unfolding derive_announcement_address
    build_announcement_instruction sender ephemeral_pubkey stealth_address view_tag program_id =
        record {
          program_id = program_id;
          account_keys =
              signer sender
              ∷ writable (derive_announcement_address ephemeral_pubkey stealth_address program_id).0
              ∷ readonly system_program_id
              ∷ [];
          bytes = concat (
              (0x7a ∷ 0x8b ∷ 0x9c ∷ 0xad ∷ 0xbe ∷ 0xcf ∷ 0xd0 ∷ 0xe1 ∷ [])
              ∷ ephemeral_pubkey
              ∷ to_bytes stealth_address
              ∷ (view_tag % 256 ∷ [])
              ∷ []);
        }
