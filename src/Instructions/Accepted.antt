-- ===== src/Instructions/Accepted.antt =====
-- The programs take the instructions that the SDK builds, with the arguments they were built from.
use kirite.Prelude.{ℕ, ap, ◌<◌, ◌^◌, ◌≡◌, ℤ, pos, some, ok, length, map_ok, arith}
use mathlib.Core.Option
use kirite.Buffer.Reads.{Reads-pure, Reads-bind, Reads-uint_le, Reads-i64, IsI64}
use kirite.Buffer.Writes.{u16_le-fits, u64_le-fits, i64_le-fits}
use kirite.Instructions.Text
use kirite.Instructions.{Sdk}
use kirite.Instructions.Shield.{
  Deposit, Withdraw, build_initialize_protocol_ix, build_initialize_shield_pool_ix,
  build_deposit_ix, build_withdraw_ix, derive_shield_pool, derive_protocol_config,
  derive_nullifier_record, derive_vault_authority,
}
use kirite.Instructions.Staking.{Initialize, build_initialize_ix, build_claim_ix}
use kirite.Instructions.OnChain.{Reads-array, handle-eq, handle_bare-eq, equals_refl}
use kirite.Instructions.Handlers.{
  handle_initialize_protocol, handle_initialize_shield_pool, handle_deposit, handle_withdraw,
  withdraw_keys, handle_initialize, handle_claim,
}

module _ (sdk : Sdk) where
  open sdk use {web3}
  open web3 use {PublicKey}

  -- The program takes a deposit that the SDK builds, for the commitment it was built with.
  build_deposit_ix-handled :
      (args : Deposit PublicKey)
      → length args.commitment ≡ 32
      → handle_deposit sdk (build_deposit_ix sdk args) ≡ some args.commitment
  unfolding handle_deposit build_deposit_ix
  build_deposit_ix-handled args len =
      handle-eq sdk Text.deposit _ _ _
        (Reads-bind _ (Reads-array args.commitment 32 (omega arith) len) (Reads-pure _))
        (simp (equals_refl sdk))

  -- The program reads a withdrawal that the SDK builds as it was meant: the discriminator, the proof,
  -- the nullifier hash and the root that it was built with, and each key that it was built with at the
  -- account of struct `Withdraw` that it is for, next to the addresses of the configuration, of the
  -- nullifier's record and of the vault's authority; the flags and the addresses that the struct asks
  -- for hold.
  pub build_withdraw_ix-handled :
      (args : Withdraw PublicKey)
      → length args.proof ≡ 256
      → length args.nullifier_hash ≡ 32
      → length args.proof_root ≡ 32
      → handle_withdraw sdk (build_withdraw_ix sdk args)
        ≡ some (
          (args.proof, args.nullifier_hash, args.proof_root),
          record {
            shield_pool = args.shield_pool;
            protocol_config = derive_protocol_config sdk;
            nullifier_record = derive_nullifier_record sdk args.shield_pool args.nullifier_hash;
            vault = args.vault;
            vault_authority = derive_vault_authority sdk args.shield_pool;
            recipient_token_account = args.recipient_token_account;
            treasury_token_account = args.treasury_token_account;
            mint = args.mint;
            relayer = args.relayer;
          },
        )
  unfolding handle_withdraw build_withdraw_ix withdraw_keys
  build_withdraw_ix-handled args len_proof len_hash len_root = ap (Option.map _) (
      handle-eq sdk Text.withdraw _ _ _
        (Reads-bind _ (Reads-array args.proof 256 (omega arith) len_proof) (
          Reads-bind _ (Reads-array args.nullifier_hash 32 (omega arith) len_hash)
            (Reads-bind _ (Reads-array args.proof_root 32 (omega arith) len_root) (Reads-pure _))))
        (simp (equals_refl sdk)))

  -- With two fees that fit 16 bits, `initialize_protocol` is built and runs with them.
  build_initialize_protocol_ix-handled :
      (authority treasury : PublicKey) (fee_bps burn_ratio_bps : ℕ)
      → fee_bps < 2 ^ 16
      → burn_ratio_bps < 2 ^ 16
      → map_ok (handle_initialize_protocol sdk) (
          build_initialize_protocol_ix sdk (record {
            authority = authority;
            treasury = treasury;
            fee_bps = pos fee_bps;
            burn_ratio_bps = pos burn_ratio_bps;
          }))
        ≡ ok (some (fee_bps, burn_ratio_bps))
  unfolding handle_initialize_protocol build_initialize_protocol_ix
  build_initialize_protocol_ix-handled authority treasury fee_bps burn_ratio_bps small small' =
      rw (u16_le-fits fee_bps small, u16_le-fits burn_ratio_bps small')
        (ap ok (
          handle-eq sdk Text.initialize_protocol _ _ _
            (Reads-bind _ (Reads-uint_le 2 fee_bps (omega arith) (omega arith)) (
              Reads-bind _ (Reads-uint_le 2 burn_ratio_bps (omega arith) (omega arith))
                (Reads-pure _)))
            (simp (equals_refl sdk))))

  -- With a denomination of 64 bits and a signed time of 64 bits, `initialize_shield_pool` is built and
  -- runs with them, its pool at the address that they derive.
  build_initialize_shield_pool_ix-handled :
      (operator mint vault : PublicKey) (denomination : ℕ) (timelock_seconds : ℤ)
      → denomination < 2 ^ 64
      → IsI64 timelock_seconds
      → map_ok (handle_initialize_shield_pool sdk mint) (
          build_initialize_shield_pool_ix sdk (record {
            operator = operator;
            mint = mint;
            vault = vault;
            denomination = pos denomination;
            timelock_seconds = timelock_seconds;
          }))
        ≡ ok (some (denomination, timelock_seconds))
  unfolding handle_initialize_shield_pool build_initialize_shield_pool_ix derive_shield_pool
  build_initialize_shield_pool_ix-handled operator mint vault denomination timelock_seconds small
        fits =
      rw (u64_le-fits denomination small, i64_le-fits timelock_seconds fits)
        (ap ok (
          handle-eq sdk Text.initialize_shield_pool _ _ _
            (Reads-bind _ (Reads-uint_le 8 denomination (omega arith) (omega arith))
              (Reads-bind _ (Reads-i64 timelock_seconds fits) (Reads-pure _)))
            (simp (equals_refl sdk))))

  -- The staking program takes the `initialize` that the SDK builds: its accounts stand in the order of
  -- the struct, with the flags and the addresses that it asks for.
  build_initialize_ix-handled :
      (args : Initialize PublicKey) → handle_initialize sdk (build_initialize_ix sdk args) ≡ some tt
  unfolding handle_initialize build_initialize_ix
  build_initialize_ix-handled args =
      handle_bare-eq sdk Text.initialize _ _ _ (Reads-pure tt) (simp (equals_refl sdk))

  -- The staking program takes the `claim` that the SDK builds for a staker: its accounts stand in the
  -- order of the struct, with the flags and the addresses that it asks for.
  build_claim_ix-handled :
      (staker : PublicKey) → handle_claim sdk staker (build_claim_ix sdk staker) ≡ some tt
  unfolding handle_claim build_claim_ix
  build_claim_ix-handled staker =
      handle_bare-eq sdk Text.claim _ _ _ (Reads-pure tt) (simp (equals_refl sdk))
