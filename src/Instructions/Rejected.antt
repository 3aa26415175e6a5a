-- ===== src/Instructions/Rejected.antt =====
-- The SDK's `stake` and `unstake` leave out the account `kirite_mint` of the structs `Stake` and
-- `Unstake` of programs/kirite-staking/src/lib.rs.
use kirite.Prelude.{ℕ, and-false, ◌<◌, ◌^◌, ◌≡◌, ap, pos, none, ok, map_ok}
use kirite.Buffer.Writes.{u32_le-fits, u64_le-fits}
use kirite.Instructions.Text
use kirite.Instructions.{Sdk}
use kirite.Instructions.Staking.{Unstake, build_stake_ix, build_unstake_ix}
use kirite.Instructions.OnChain.{handle-rejects}
use kirite.Instructions.Handlers.{handle_stake, handle_unstake}

module _ (sdk : Sdk) where
  open sdk use {web3}
  open web3 use {PublicKey}

  -- The program turns down every `stake` that the SDK builds, though the amount and the days fit
  -- their widths: the accounts do not stand where its struct has them.
  pub build_stake_ix-rejected :
      (token_2022_program_id staker staker_kirite kirite_vault : PublicKey) (amount lock_days : ℕ)
      → amount < 2 ^ 64
      → lock_days < 2 ^ 32
      → map_ok (handle_stake sdk token_2022_program_id staker) (
          build_stake_ix sdk (record {
            staker = staker;
            staker_kirite = staker_kirite;
            kirite_vault = kirite_vault;
            amount = pos amount;
            lock_days = pos lock_days;
          }))
        ≡ ok none
  unfolding handle_stake build_stake_ix
  build_stake_ix-rejected token_2022_program_id staker staker_kirite kirite_vault amount lock_days
        small small' =
      rw (u64_le-fits amount small, u32_le-fits lock_days small')
        (ap ok (handle-rejects sdk Text.stake _ _ _ (λ args. simp (and-false))))

  -- The program turns down every `unstake` that the SDK builds: the accounts do not stand where its
  -- struct has them.
  build_unstake_ix-rejected :
      (token_2022_program_id : PublicKey) (args : Unstake PublicKey)
      → handle_unstake sdk token_2022_program_id args.staker (build_unstake_ix sdk args) ≡ none
  unfolding handle_unstake build_unstake_ix
  build_unstake_ix-rejected token_2022_program_id args =
      handle-rejects sdk Text.unstake _ _ _ (λ u. simp (and-false))
