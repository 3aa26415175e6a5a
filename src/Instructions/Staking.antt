-- ===== src/Instructions/Staking.antt =====
-- The derivations and the builders of sdk/src/staking.mjs.
use kirite.Prelude.{ℕ, ◌∷◌, [], concat, ℤ, List, Result, ok, ◌>>=◌}
use kirite.Buffer.{u32_le, u64_le}
use kirite.Instructions.Text
use kirite.Instructions.{
  TransactionInstruction, Sdk, writable, readonly, signer, discriminator, staking_address,
}

-- Days, and the multiplier of the weight in hundredths.
abbrev pub lock_options : List (ℕ × ℕ)
lock_options = (30, 150) ∷ (90, 250) ∷ (180, 400) ∷ (365, 800) ∷ []

pub record Initialize (K : Type 0) : Type 0 where
  pub authority : K
  pub kirite_mint : K
  pub kirite_vault : K

pub record Stake (K : Type 0) : Type 0 where
  pub staker : K
  pub staker_kirite : K
  pub kirite_vault : K
  pub amount : ℤ
  pub lock_days : ℤ

pub record Unstake (K : Type 0) : Type 0 where
  pub staker : K
  pub staker_kirite : K
  pub kirite_vault : K

module _ (sdk : Sdk) where
  open sdk use {web3, staking_program_id, token_program_id, system_program_id}
  open web3 use {PublicKey, to_bytes}

  pub derive_staking_pool : PublicKey
  derive_staking_pool = staking_address sdk (Text.staking_pool ∷ [])

  pub derive_vault_authority : PublicKey → PublicKey
  derive_vault_authority pool = staking_address sdk (Text.vault_authority ∷ to_bytes pool ∷ [])

  pub derive_fee_vault : PublicKey → PublicKey
  derive_fee_vault pool = staking_address sdk (Text.fee_vault ∷ to_bytes pool ∷ [])

  pub derive_stake_account : PublicKey → PublicKey
  derive_stake_account staker = staking_address sdk (Text.stake_account ∷ to_bytes staker ∷ [])

  unfoldable pub build_initialize_ix : Initialize PublicKey → TransactionInstruction PublicKey
  unfolding derive_staking_pool derive_vault_authority derive_fee_vault
  build_initialize_ix args = record {
    program_id = staking_program_id;
    account_keys =
        writable derive_staking_pool
        ∷ readonly args.kirite_mint
        ∷ readonly args.kirite_vault
        ∷ readonly (derive_vault_authority derive_staking_pool)
        ∷ writable (derive_fee_vault derive_staking_pool)
        ∷ signer args.authority
        ∷ readonly system_program_id
        ∷ [];
    bytes = discriminator sdk Text.initialize;
  }

  unfoldable pub build_stake_ix : Stake PublicKey → Result (TransactionInstruction PublicKey)
  unfolding derive_staking_pool derive_stake_account derive_fee_vault
  build_stake_ix args = do
    amount ← u64_le args.amount
    lock_days ← u32_le args.lock_days
    ok (record {
      program_id = staking_program_id;
      account_keys =
          writable derive_staking_pool
          ∷ writable (derive_stake_account args.staker)
          ∷ writable args.staker_kirite
          ∷ writable args.kirite_vault
          ∷ writable (derive_fee_vault derive_staking_pool)
          ∷ signer args.staker
          ∷ readonly token_program_id
          ∷ readonly system_program_id
          ∷ [];
      bytes = concat (discriminator sdk Text.stake ∷ amount ∷ lock_days ∷ []);
    })

  unfoldable pub build_claim_ix : PublicKey → TransactionInstruction PublicKey
  unfolding derive_staking_pool derive_stake_account derive_fee_vault
  build_claim_ix staker = record {
    program_id = staking_program_id;
    account_keys =
        writable derive_staking_pool
        ∷ writable (derive_stake_account staker)
        ∷ writable (derive_fee_vault derive_staking_pool)
        ∷ signer staker
        ∷ readonly system_program_id
        ∷ [];
    bytes = discriminator sdk Text.claim;
  }

  unfoldable pub build_unstake_ix : Unstake PublicKey → TransactionInstruction PublicKey
  unfolding derive_staking_pool derive_stake_account derive_vault_authority derive_fee_vault
  build_unstake_ix args = record {
    program_id = staking_program_id;
    account_keys =
        writable derive_staking_pool
        ∷ writable (derive_stake_account args.staker)
        ∷ writable args.staker_kirite
        ∷ writable args.kirite_vault
        ∷ readonly (derive_vault_authority derive_staking_pool)
        ∷ writable (derive_fee_vault derive_staking_pool)
        ∷ signer args.staker
        ∷ readonly token_program_id
        ∷ readonly system_program_id
        ∷ [];
    bytes = discriminator sdk Text.unstake;
  }
