-- ===== src/Instructions/Shield.antt =====
-- The derivations and the builders of sdk/src/kirite-zk.mjs: `deriveProtocolConfig` to
-- `buildWithdrawIx`. A builder throws where a number does not fit its width.
use kirite.Prelude.{◌∷◌, [], concat, ℤ, Result, ok, ◌>>=◌}
use kirite.Bytes.{Bytes}
use kirite.Buffer.{u16_le, u64_le, i64_le}
use kirite.Instructions.Text
use kirite.Instructions.{
  TransactionInstruction, Sdk, writable, readonly, signer, discriminator, kirite_address,
}

pub record InitializeProtocol (K : Type 0) : Type 0 where
  pub authority : K
  pub treasury : K
  pub fee_bps : ℤ
  pub burn_ratio_bps : ℤ

pub record InitializeShieldPool (K : Type 0) : Type 0 where
  pub operator : K
  pub mint : K
  pub vault : K
  pub denomination : ℤ
  pub timelock_seconds : ℤ

pub record Deposit (K : Type 0) : Type 0 where
  pub depositor : K
  pub depositor_token_account : K
  pub vault : K
  pub shield_pool : K
  pub commitment : Bytes

pub record Withdraw (K : Type 0) : Type 0 where
  pub relayer : K
  pub recipient_token_account : K
  pub treasury_token_account : K
  pub mint : K
  pub shield_pool : K
  pub vault : K
  pub proof : Bytes
  pub nullifier_hash : Bytes
  pub proof_root : Bytes

module _ (sdk : Sdk) where
  open sdk use {web3, kirite_program_id, token_program_id, system_program_id}
  open web3 use {PublicKey, to_bytes}

  pub derive_protocol_config : PublicKey
  derive_protocol_config = kirite_address sdk (Text.protocol_config ∷ [])

  pub derive_governance : PublicKey → PublicKey
  derive_governance protocol_config =
      kirite_address sdk (Text.governance ∷ to_bytes protocol_config ∷ [])

  unfoldable pub derive_shield_pool : PublicKey → ℤ → Result PublicKey
  derive_shield_pool mint denomination = do
    seed ← u64_le denomination
    ok (kirite_address sdk (Text.shield_pool ∷ to_bytes mint ∷ seed ∷ []))

  pub derive_vault_authority : PublicKey → PublicKey
  derive_vault_authority pool = kirite_address sdk (Text.vault_authority ∷ to_bytes pool ∷ [])

  pub derive_nullifier_record : PublicKey → Bytes → PublicKey
  derive_nullifier_record pool nullifier_hash =
      kirite_address sdk (Text.nullifier ∷ to_bytes pool ∷ nullifier_hash ∷ [])

  unfoldable pub build_initialize_protocol_ix :
      InitializeProtocol PublicKey → Result (TransactionInstruction PublicKey)
  unfolding derive_protocol_config derive_governance
  build_initialize_protocol_ix args = do
    fee_bps ← u16_le args.fee_bps
    burn_ratio_bps ← u16_le args.burn_ratio_bps
    ok (record {
      program_id = kirite_program_id;
      account_keys =
          writable derive_protocol_config
          ∷ writable (derive_governance derive_protocol_config)
          ∷ signer args.authority
          ∷ readonly args.treasury
          ∷ readonly system_program_id
          ∷ [];
      bytes = concat (discriminator sdk Text.initialize_protocol ∷ fee_bps ∷ burn_ratio_bps ∷ []);
    })

  unfoldable pub build_initialize_shield_pool_ix :
      InitializeShieldPool PublicKey → Result (TransactionInstruction PublicKey)
  unfolding derive_shield_pool derive_protocol_config derive_vault_authority
  build_initialize_shield_pool_ix args = do
    shield_pool ← derive_shield_pool args.mint args.denomination
    denomination ← u64_le args.denomination
    timelock_seconds ← i64_le args.timelock_seconds
    ok (record {
      program_id = kirite_program_id;
      account_keys =
          writable shield_pool
          ∷ writable derive_protocol_config
          ∷ readonly (derive_vault_authority shield_pool)
          ∷ writable args.vault
          ∷ readonly args.mint
          ∷ signer args.operator
          ∷ readonly system_program_id
          ∷ [];
      bytes =
          concat
            (discriminator sdk Text.initialize_shield_pool ∷ denomination ∷ timelock_seconds ∷ []);
    })

  unfoldable pub build_deposit_ix : Deposit PublicKey → TransactionInstruction PublicKey
  unfolding derive_protocol_config
  build_deposit_ix args = record {
    program_id = kirite_program_id;
    account_keys =
        writable args.shield_pool
        ∷ readonly derive_protocol_config
        ∷ writable args.depositor_token_account
        ∷ writable args.vault
        ∷ signer args.depositor
        ∷ readonly token_program_id
        ∷ readonly system_program_id
        ∷ [];
    bytes = concat (discriminator sdk Text.deposit ∷ args.commitment ∷ []);
  }

  unfoldable pub build_withdraw_ix : Withdraw PublicKey → TransactionInstruction PublicKey
  unfolding derive_protocol_config derive_vault_authority derive_nullifier_record
  build_withdraw_ix args = record {
    program_id = kirite_program_id;
    account_keys =
        writable args.shield_pool
        ∷ readonly derive_protocol_config
        ∷ writable (derive_nullifier_record args.shield_pool args.nullifier_hash)
        ∷ writable args.vault
        ∷ readonly (derive_vault_authority args.shield_pool)
        ∷ writable args.recipient_token_account
        ∷ writable args.treasury_token_account
        ∷ writable args.mint
        ∷ signer args.relayer
        ∷ readonly token_program_id
        ∷ readonly system_program_id
        ∷ [];
    bytes =
        concat (
          discriminator sdk Text.withdraw
          ∷ args.proof
          ∷ args.nullifier_hash
          ∷ args.proof_root
          ∷ []);
  }
