-- ===== src/Accounts/Staking.antt =====
-- `decodeStakingPool` and `decodeStakeAccount` of sdk/src/staking.mjs, and the accounts that
-- programs/kirite-staking/src/lib.rs writes: Borsh spells the fields one after another.
use kirite.Prelude.{ℕ, ◌<◌, ◌^◌, ℤ, Bool, [], Result}
use kirite.Bytes.{Bytes, le_bytes}
use kirite.Prelude.{concat, ◌∷◌}
use kirite.Buffer.{
  Reader, ◌>>=◌, pure, read_uint_le, read_u128, read_i64, read_bool, read_key, decode_from_8,
}
use kirite.Buffer.Reads.{i64_bytes, IsI64, bool_bytes}
use kirite.Web3.{Web3}

pub record StakingPool (K : Type 0) : Type 0 where
  pub authority : K
  pub kirite_mint : K
  pub kirite_vault : K
  pub fee_vault : K
  pub total_stake_weight : ℕ
  pub acc_reward_per_weight : ℕ
  pub last_accounted_lamports : ℕ
  pub fee_vault_floor : ℕ
  pub bump : ℕ
  pub vault_authority_bump : ℕ
  pub fee_vault_bump : ℕ
  pub is_draining : Bool
  pub drain_started_at : ℤ
  pub claim_enabled : Bool

pub record StakeAccount (K : Type 0) : Type 0 where
  pub owner : K
  pub amount : ℕ
  pub lock_days : ℕ
  pub weight : ℕ
  pub stake_at : ℤ
  pub last_acc : ℕ
  pub unclaimed : ℕ
  pub bump : ℕ

-- The fields fit the machine integers of the structs.
pub record StakingPoolFits {K : Type 0} (p : StakingPool K) : Type 0 where
  pub total_stake_weight : p.total_stake_weight < 2 ^ 128
  pub acc_reward_per_weight : p.acc_reward_per_weight < 2 ^ 128
  pub last_accounted_lamports : p.last_accounted_lamports < 2 ^ 64
  pub fee_vault_floor : p.fee_vault_floor < 2 ^ 64
  pub bump : p.bump < 2 ^ 8
  pub vault_authority_bump : p.vault_authority_bump < 2 ^ 8
  pub fee_vault_bump : p.fee_vault_bump < 2 ^ 8
  pub drain_started_at : IsI64 p.drain_started_at

pub record StakeAccountFits {K : Type 0} (s : StakeAccount K) : Type 0 where
  pub amount : s.amount < 2 ^ 64
  pub lock_days : s.lock_days < 2 ^ 32
  pub weight : s.weight < 2 ^ 128
  pub stake_at : IsI64 s.stake_at
  pub last_acc : s.last_acc < 2 ^ 128
  pub unclaimed : s.unclaimed < 2 ^ 64
  pub bump : s.bump < 2 ^ 8

module _ (w : Web3) where
  open w use {PublicKey, to_bytes}

  read_staking_pool : Reader (StakingPool PublicKey)
  read_staking_pool = do
    authority ← read_key w
    kirite_mint ← read_key w
    kirite_vault ← read_key w
    fee_vault ← read_key w
    total_stake_weight ← read_u128
    acc_reward_per_weight ← read_u128
    last_accounted_lamports ← read_uint_le 8
    fee_vault_floor ← read_uint_le 8
    bump ← read_uint_le 1
    vault_authority_bump ← read_uint_le 1
    fee_vault_bump ← read_uint_le 1
    is_draining ← read_bool
    drain_started_at ← read_i64
    claim_enabled ← read_bool
    pure (record {
      authority = authority;
      kirite_mint = kirite_mint;
      kirite_vault = kirite_vault;
      fee_vault = fee_vault;
      total_stake_weight = total_stake_weight;
      acc_reward_per_weight = acc_reward_per_weight;
      last_accounted_lamports = last_accounted_lamports;
      fee_vault_floor = fee_vault_floor;
      bump = bump;
      vault_authority_bump = vault_authority_bump;
      fee_vault_bump = fee_vault_bump;
      is_draining = is_draining;
      drain_started_at = drain_started_at;
      claim_enabled = claim_enabled;
    })

  unfoldable pub decode_staking_pool : Bytes → Result (StakingPool PublicKey)
  unfolding read_staking_pool
  decode_staking_pool buf = decode_from_8 read_staking_pool buf

  read_stake_account : Reader (StakeAccount PublicKey)
  read_stake_account = do
    owner ← read_key w
    amount ← read_uint_le 8
    lock_days ← read_uint_le 4
    weight ← read_u128
    stake_at ← read_i64
    last_acc ← read_u128
    unclaimed ← read_uint_le 8
    bump ← read_uint_le 1
    pure (record {
      owner = owner;
      amount = amount;
      lock_days = lock_days;
      weight = weight;
      stake_at = stake_at;
      last_acc = last_acc;
      unclaimed = unclaimed;
      bump = bump;
    })

  unfoldable pub decode_stake_account : Bytes → Result (StakeAccount PublicKey)
  unfolding read_stake_account
  decode_stake_account buf = decode_from_8 read_stake_account buf

  -- The fields in the order of `struct StakingPool`.
  unfoldable pub staking_pool_bytes : StakingPool PublicKey → Bytes
  staking_pool_bytes p = concat (
      to_bytes p.authority
      ∷ to_bytes p.kirite_mint
      ∷ to_bytes p.kirite_vault
      ∷ to_bytes p.fee_vault
      ∷ le_bytes 16 p.total_stake_weight
      ∷ le_bytes 16 p.acc_reward_per_weight
      ∷ le_bytes 8 p.last_accounted_lamports
      ∷ le_bytes 8 p.fee_vault_floor
      ∷ le_bytes 1 p.bump
      ∷ le_bytes 1 p.vault_authority_bump
      ∷ le_bytes 1 p.fee_vault_bump
      ∷ bool_bytes p.is_draining
      ∷ i64_bytes p.drain_started_at
      ∷ bool_bytes p.claim_enabled
      ∷ [])

  -- The fields in the order of `struct StakeAccount`.
  unfoldable pub stake_account_bytes : StakeAccount PublicKey → Bytes
  stake_account_bytes s = concat (
      to_bytes s.owner
      ∷ le_bytes 8 s.amount
      ∷ le_bytes 4 s.lock_days
      ∷ le_bytes 16 s.weight
      ∷ i64_bytes s.stake_at
      ∷ le_bytes 16 s.last_acc
      ∷ le_bytes 8 s.unclaimed
      ∷ le_bytes 1 s.bump
      ∷ [])
