-- ===== src/Accounts/RoundTrip.antt =====
-- The SDK's decoders read back what the programs write.
use kirite.Prelude.{◌≡◌, ok, length, ◌++◌, arith}
use kirite.Bytes.{Bytes}
use kirite.Buffer.Reads.{
  Reads-pure, Reads-bind, Reads-uint_le, Reads-u128, Reads-i64, Reads-bool, Reads-key,
  decode_from_8-eq,
}
use kirite.Web3.{Web3}
use kirite.Accounts.Staking.{
  StakingPool, StakeAccount, StakingPoolFits, StakeAccountFits, decode_staking_pool,
  decode_stake_account, staking_pool_bytes, stake_account_bytes,
}

module _ (w : Web3) where
  -- `decodeStakeAccount` gives the account whose fields the program wrote, in the struct's order.
  pub decode_stake_account-bytes :
      (disc : Bytes) (s : StakeAccount w.PublicKey)
      → length disc ≡ 8
      → StakeAccountFits s
      → decode_stake_account w (disc ++ stake_account_bytes w s) ≡ ok s
  unfolding decode_stake_account stake_account_bytes
  decode_stake_account-bytes disc s len fits = decode_from_8-eq disc len (
      Reads-bind _ (Reads-key w s.owner) (
        Reads-bind _ (Reads-uint_le 8 s.amount (omega arith) fits.amount) (
          Reads-bind _ (Reads-uint_le 4 s.lock_days (omega arith) fits.lock_days) (
            Reads-bind _ (Reads-u128 s.weight fits.weight) (
              Reads-bind _ (Reads-i64 s.stake_at fits.stake_at) (
                Reads-bind _ (Reads-u128 s.last_acc fits.last_acc) (
                  Reads-bind _ (Reads-uint_le 8 s.unclaimed (omega arith) fits.unclaimed) (
                    Reads-bind _ (Reads-uint_le 1 s.bump (omega arith) fits.bump)
                      (Reads-pure s)))))))))

  -- `decodeStakingPool` gives the pool whose fields the program wrote, in the struct's order.
  decode_staking_pool-bytes :
      (disc : Bytes) (p : StakingPool w.PublicKey)
      → length disc ≡ 8
      → StakingPoolFits p
      → decode_staking_pool w (disc ++ staking_pool_bytes w p) ≡ ok p
  unfolding decode_staking_pool staking_pool_bytes
  decode_staking_pool-bytes disc p len fits = decode_from_8-eq disc len (
      Reads-bind _ (Reads-key w p.authority) (
        Reads-bind _ (Reads-key w p.kirite_mint) (
          Reads-bind _ (Reads-key w p.kirite_vault) (
            Reads-bind _ (Reads-key w p.fee_vault) (
              Reads-bind _ (Reads-u128 p.total_stake_weight fits.total_stake_weight) (
                Reads-bind _ (Reads-u128 p.acc_reward_per_weight fits.acc_reward_per_weight) (
                  Reads-bind _
                    (Reads-uint_le 8 p.last_accounted_lamports (omega arith)
                      fits.last_accounted_lamports)
                    (Reads-bind _
                      (Reads-uint_le 8 p.fee_vault_floor (omega arith) fits.fee_vault_floor)
                      (Reads-bind _ (Reads-uint_le 1 p.bump (omega arith) fits.bump) (
                        Reads-bind _
                          (Reads-uint_le 1 p.vault_authority_bump (omega arith)
                            fits.vault_authority_bump)
                          (Reads-bind _
                            (Reads-uint_le 1 p.fee_vault_bump (omega arith) fits.fee_vault_bump)
                            (Reads-bind _ (Reads-bool p.is_draining) (
                              Reads-bind _ (Reads-i64 p.drain_started_at fits.drain_started_at) (
                                Reads-bind _ (Reads-bool p.claim_enabled)
                                  (Reads-pure p)))))))))))))))
