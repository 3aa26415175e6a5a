-- ===== src/Instructions/Handlers.antt =====
-- The handlers of programs/kirite/src/lib.rs and programs/kirite-staking/src/lib.rs that the SDK's
-- instructions are for: their arguments, and the accounts of their structs.
use kirite.Prelude.{ℕ, ℤ, List, [], ◌∷◌, Option, none, some}
use mathlib.Core.Option
use kirite.Bytes.{Bytes, le_bytes}
use kirite.Buffer.{◌>>=◌, pure, read_uint_le, read_i64}
use kirite.Instructions.Text
use kirite.Instructions.{AccountMeta, TransactionInstruction, Sdk, kirite_address, staking_address}
use kirite.Instructions.OnChain.{
  some_account, mut_account, account_at, mut_account_at, account_at_one, mut_signer, read_array,
  handle,
}

-- The accounts of struct `Withdraw`, in its order, without the two programs.
pub record WithdrawKeys (K : Type 0) : Type 0 where
  pub shield_pool : K
  pub protocol_config : K
  pub nullifier_record : K
  pub vault : K
  pub vault_authority : K
  pub recipient_token_account : K
  pub treasury_token_account : K
  pub mint : K
  pub relayer : K

unfoldable pub withdraw_keys : {K : Type 0} → List (AccountMeta K) → Option (WithdrawKeys K)
withdraw_keys (a ∷ b ∷ c ∷ d ∷ e ∷ f ∷ g ∷ h ∷ i ∷ rest) = some (record {
  shield_pool = a.pubkey;
  protocol_config = b.pubkey;
  nullifier_record = c.pubkey;
  vault = d.pubkey;
  vault_authority = e.pubkey;
  recipient_token_account = f.pubkey;
  treasury_token_account = g.pubkey;
  mint = h.pubkey;
  relayer = i.pubkey;
})
withdraw_keys _ = none

module _ (sdk : Sdk) where
  open sdk use {web3, token_program_id, system_program_id}
  open web3 use {PublicKey, to_bytes}

  -- `initialize_protocol`, struct `InitializeProtocol`.
  unfoldable pub handle_initialize_protocol : TransactionInstruction PublicKey → Option (ℕ × ℕ)
  unfolding ◌>>=◌ pure
  handle_initialize_protocol =
      handle sdk Text.initialize_protocol
        (do
          fee_bps ← read_uint_le 2
          burn_ratio_bps ← read_uint_le 2
          pure (fee_bps, burn_ratio_bps))
        (λ args.
          let protocol_config = kirite_address sdk (Text.protocol_config ∷ []) in
          mut_account_at protocol_config
          ∷ mut_account_at (kirite_address sdk (Text.governance ∷ to_bytes protocol_config ∷ []))
          ∷ mut_signer
          ∷ some_account
          ∷ account_at system_program_id
          ∷ [])

  -- `initialize_shield_pool`, struct `InitializeShieldPool`, whose address depends on the key of its account
  -- `mint`.
  unfoldable pub handle_initialize_shield_pool :
      PublicKey → TransactionInstruction PublicKey → Option (ℕ × ℤ)
  unfolding ◌>>=◌ pure
  handle_initialize_shield_pool mint =
      handle sdk Text.initialize_shield_pool
        (do
          denomination ← read_uint_le 8
          timelock_seconds ← read_i64
          pure (denomination, timelock_seconds))
        (λ args.
          let pool =
            kirite_address sdk (Text.shield_pool ∷ to_bytes mint ∷ le_bytes 8 args.0 ∷ []) in
          mut_account_at pool
          ∷ mut_account_at (kirite_address sdk (Text.protocol_config ∷ []))
          ∷ account_at (kirite_address sdk (Text.vault_authority ∷ to_bytes pool ∷ []))
          ∷ mut_account
          ∷ some_account
          ∷ mut_signer
          ∷ account_at system_program_id
          ∷ [])

  -- `deposit`, struct `Deposit`.
  unfoldable pub handle_deposit : TransactionInstruction PublicKey → Option (Bytes)
  unfolding ◌>>=◌ pure
  handle_deposit =
      handle sdk Text.deposit (do commitment ← read_array 32; pure commitment)
        (λ args.
          mut_account
          ∷ account_at (kirite_address sdk (Text.protocol_config ∷ []))
          ∷ mut_account
          ∷ mut_account
          ∷ mut_signer
          ∷ account_at token_program_id
          ∷ account_at system_program_id
          ∷ [])

  -- `withdraw`, struct `Withdraw`, two addresses of which depend on the key of its account
  -- `shield_pool`: its arguments, and the keys of its accounts.
  unfoldable pub handle_withdraw :
      TransactionInstruction PublicKey → Option ((Bytes × Bytes × Bytes) × WithdrawKeys PublicKey)
  unfolding ◌>>=◌ pure withdraw_keys
  handle_withdraw ix = elim (withdraw_keys ix.account_keys) [
    | none ↦ none
    | some named ↦
        Option.map (λ args. (args, named))
          (handle sdk Text.withdraw
            (do
              proof ← read_array 256
              nullifier_hash ← read_array 32
              proof_root ← read_array 32
              pure (proof, nullifier_hash, proof_root))
            (λ args.
              mut_account
              ∷ account_at (kirite_address sdk (Text.protocol_config ∷ []))
              ∷ mut_account_at
                  (kirite_address sdk (Text.nullifier ∷ to_bytes named.shield_pool ∷ args.1 ∷ []))
              ∷ mut_account
              ∷ account_at
                  (kirite_address sdk (Text.vault_authority ∷ to_bytes named.shield_pool ∷ []))
              ∷ mut_account
              ∷ mut_account
              ∷ mut_account
              ∷ mut_signer
              ∷ account_at token_program_id
              ∷ account_at system_program_id
              ∷ [])
            ix)
  ]

  -- `initialize`, struct `Initialize`.
  unfoldable pub handle_initialize : TransactionInstruction PublicKey → Option (Unit {0})
  unfolding ◌>>=◌ pure
  handle_initialize = handle sdk Text.initialize (pure tt) (λ args.
      let pool = staking_address sdk (Text.staking_pool ∷ []) in
      mut_account_at pool
      ∷ some_account
      ∷ some_account
      ∷ account_at (staking_address sdk (Text.vault_authority ∷ to_bytes pool ∷ []))
      ∷ mut_account_at (staking_address sdk (Text.fee_vault ∷ to_bytes pool ∷ []))
      ∷ mut_signer
      ∷ account_at system_program_id
      ∷ [])

  -- `stake`, struct `Stake`, whose token program may be either of the two.
  unfoldable pub handle_stake :
      PublicKey → PublicKey → TransactionInstruction PublicKey → Option (ℕ × ℕ)
  unfolding ◌>>=◌ pure
  handle_stake token_2022_program_id staker =
      handle sdk Text.stake
        (do amount ← read_uint_le 8; lock_days ← read_uint_le 4; pure (amount, lock_days))
        (λ args.
          let pool = staking_address sdk (Text.staking_pool ∷ []) in
          mut_account_at pool
          ∷ mut_account_at (staking_address sdk (Text.stake_account ∷ to_bytes staker ∷ []))
          ∷ mut_account
          ∷ mut_account
          ∷ some_account
          ∷ mut_account_at (staking_address sdk (Text.fee_vault ∷ to_bytes pool ∷ []))
          ∷ mut_signer
          ∷ account_at_one (token_program_id ∷ token_2022_program_id ∷ [])
          ∷ account_at system_program_id
          ∷ [])

  -- `claim`, struct `Claim`.
  unfoldable pub handle_claim : PublicKey → TransactionInstruction PublicKey → Option (Unit {0})
  unfolding ◌>>=◌ pure
  handle_claim staker = handle sdk Text.claim (pure tt) (λ args.
      let pool = staking_address sdk (Text.staking_pool ∷ []) in
      mut_account_at pool
      ∷ mut_account_at (staking_address sdk (Text.stake_account ∷ to_bytes staker ∷ []))
      ∷ mut_account_at (staking_address sdk (Text.fee_vault ∷ to_bytes pool ∷ []))
      ∷ mut_signer
      ∷ account_at system_program_id
      ∷ [])

  -- `unstake`, struct `Unstake`, whose token program may be either of the two.
  unfoldable pub handle_unstake :
      PublicKey → PublicKey → TransactionInstruction PublicKey → Option (Unit {0})
  unfolding ◌>>=◌ pure
  handle_unstake token_2022_program_id staker = handle sdk Text.unstake (pure tt) (λ args.
      let pool = staking_address sdk (Text.staking_pool ∷ []) in
      mut_account_at pool
      ∷ mut_account_at (staking_address sdk (Text.stake_account ∷ to_bytes staker ∷ []))
      ∷ mut_account
      ∷ mut_account
      ∷ some_account
      ∷ account_at (staking_address sdk (Text.vault_authority ∷ to_bytes pool ∷ []))
      ∷ mut_account_at (staking_address sdk (Text.fee_vault ∷ to_bytes pool ∷ []))
      ∷ mut_signer
      ∷ account_at_one (token_program_id ∷ token_2022_program_id ∷ [])
      ∷ account_at system_program_id
      ∷ [])
