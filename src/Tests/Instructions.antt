-- ===== src/Tests/Instructions.antt =====
-- The instruction builders at concrete arguments.
use kirite.Prelude.{◌≡◌, refl, pos, none, some, ok, replicate, map_ok, arith}
use kirite.Web3.Toy.{Key}
use kirite.Instructions.Shield.{
  Deposit, Withdraw, build_withdraw_ix, derive_protocol_config, derive_nullifier_record,
  derive_vault_authority,
}
use kirite.Instructions.Staking.{Initialize, Unstake, build_stake_ix}
use kirite.Instructions.Handlers.{handle_withdraw, handle_stake}
use kirite.Instructions.Accepted.{build_withdraw_ix-handled}
use kirite.Instructions.Rejected.{build_stake_ix-rejected}
use kirite.Tests.Data.{toy_sdk, small_bytes}

abbrev deposit : Deposit Key
deposit = record {
  depositor = Key.alice;
  depositor_token_account = Key.bob;
  vault = Key.pool_key;
  shield_pool = Key.program;
  commitment = small_bytes 5;
}

abbrev withdrawal : Withdraw Key
withdrawal = record {
  relayer = Key.alice;
  recipient_token_account = Key.bob;
  treasury_token_account = Key.bob;
  mint = Key.alice;
  shield_pool = Key.program;
  vault = Key.pool_key;
  proof = replicate 256 9;
  nullifier_hash = small_bytes 6;
  proof_root = small_bytes 7;
}

build_withdraw_ix-handled_example :
    handle_withdraw toy_sdk (build_withdraw_ix toy_sdk withdrawal)
    ≡ some (
      (replicate 256 9, small_bytes 6, small_bytes 7),
      record {
        shield_pool = Key.program;
        protocol_config = derive_protocol_config toy_sdk;
        nullifier_record = derive_nullifier_record toy_sdk Key.program (small_bytes 6);
        vault = Key.pool_key;
        vault_authority = derive_vault_authority toy_sdk Key.program;
        recipient_token_account = Key.bob;
        treasury_token_account = Key.bob;
        mint = Key.alice;
        relayer = Key.alice;
      },
    )
build_withdraw_ix-handled_example = build_withdraw_ix-handled toy_sdk withdrawal refl refl refl

abbrev initialization : Initialize Key
initialization = record { authority = Key.alice; kirite_mint = Key.bob; kirite_vault = Key.program }

build_stake_ix-rejected_example :
    map_ok (handle_stake toy_sdk Key.alice Key.bob) (
      build_stake_ix toy_sdk (record {
        staker = Key.bob;
        staker_kirite = Key.alice;
        kirite_vault = Key.program;
        amount = pos 5000000;
        lock_days = pos 90;
      }))
    ≡ ok none
build_stake_ix-rejected_example =
    build_stake_ix-rejected toy_sdk Key.alice Key.bob Key.alice Key.program 5000000 90 (omega arith)
      (omega arith)

abbrev withdrawn_stake : Unstake Key
withdrawn_stake = record { staker = Key.bob; staker_kirite = Key.alice; kirite_vault = Key.program }
