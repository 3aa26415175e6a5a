-- ===== src/Tests/Accounts.antt =====
-- The decoders on accounts of the two programs.
use kirite.Prelude.{◌≡◌, refl, pos, negsuc, true, false, [], ◌∷◌, ◌++◌, ok, replicate, arith}
use kirite.Web3.Toy.{Key, toy_web3}
use kirite.Accounts.Staking.{
  StakingPool, StakeAccount, StakingPoolFits, StakeAccountFits, decode_stake_account,
  stake_account_bytes,
}
use kirite.Accounts.ShieldPool.{
  ShieldPool, ShieldPoolFits, decode_shield_pool, shield_pool_bytes, decode_shield_pool-bytes,
}
use kirite.Accounts.RoundTrip.{decode_stake_account-bytes}
use kirite.Tests.Data.{small_bytes}

abbrev stake : StakeAccount Key
stake = record {
  owner = Key.alice;
  amount = 5000000;
  lock_days = 90;
  weight = 12500000;
  stake_at = pos 1700000000;
  last_acc = 18446744073709551616;
  unclaimed = 3;
  bump = 254;
}

stake-Fits : StakeAccountFits stake
stake-Fits = record {
  amount = omega arith;
  lock_days = omega arith;
  weight = omega arith;
  stake_at = omega arith;
  last_acc = omega arith;
  unclaimed = omega arith;
  bump = omega arith;
}

decode_stake_account-bytes_example :
    decode_stake_account toy_web3 (replicate 8 1 ++ stake_account_bytes toy_web3 stake) ≡ ok stake
decode_stake_account-bytes_example =
    decode_stake_account-bytes toy_web3 (replicate 8 1) stake refl stake-Fits

abbrev staking_pool : StakingPool Key
staking_pool = record {
  authority = Key.alice;
  kirite_mint = Key.bob;
  kirite_vault = Key.pool_key;
  fee_vault = Key.program;
  total_stake_weight = 12500000;
  acc_reward_per_weight = 7;
  last_accounted_lamports = 900000;
  fee_vault_floor = 890880;
  bump = 255;
  vault_authority_bump = 254;
  fee_vault_bump = 253;
  is_draining = false;
  drain_started_at = negsuc 0;
  claim_enabled = true;
}

staking_pool-Fits : StakingPoolFits staking_pool
staking_pool-Fits = record {
  total_stake_weight = omega arith;
  acc_reward_per_weight = omega arith;
  last_accounted_lamports = omega arith;
  fee_vault_floor = omega arith;
  bump = omega arith;
  vault_authority_bump = omega arith;
  fee_vault_bump = omega arith;
  drain_started_at = omega arith;
}

abbrev shield_pool : ShieldPool Key
shield_pool = record {
  mint = Key.alice;
  operator = Key.bob;
  protocol_config = Key.program;
  vault = Key.pool_key;
  current_root = small_bytes 1;
  historical_roots = small_bytes 2 ∷ small_bytes 3 ∷ small_bytes 4 ∷ [];
  filled_subtrees = replicate 15 (small_bytes 5);
  denomination = 1000000000;
  total_deposits = 4;
  total_withdrawals = 2;
  fees_collected = 77;
  timelock_seconds = pos 3600;
  created_at = pos 1700000000;
  last_deposit_at = negsuc 5;
  next_leaf_index = 4;
  root_history_index = 2;
  is_frozen = 0;
  bump = 255;
  vault_authority_bump = 254;
}

shield_pool-Fits : ShieldPoolFits shield_pool
shield_pool-Fits = record {
  current_root = refl;
  historical_roots = (refl, (refl, (refl, tt)));
  three_roots = refl;
  filled_subtrees = ground arith;
  fifteen_subtrees = refl;
  denomination = omega arith;
  total_deposits = omega arith;
  total_withdrawals = omega arith;
  fees_collected = omega arith;
  timelock_seconds = omega arith;
  created_at = omega arith;
  last_deposit_at = omega arith;
  next_leaf_index = omega arith;
  root_history_index = omega arith;
  is_frozen = omega arith;
  bump = omega arith;
  vault_authority_bump = omega arith;
}

decode_shield_pool-bytes_example :
    decode_shield_pool toy_web3 (replicate 8 3 ++ shield_pool_bytes toy_web3 shield_pool)
    ≡ ok shield_pool
decode_shield_pool-bytes_example =
    decode_shield_pool-bytes toy_web3 (replicate 8 3) shield_pool refl shield_pool-Fits
