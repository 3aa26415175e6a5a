-- ===== src/Withdraw.antt =====
-- `handle_withdraw` of programs/kirite/src/instructions/withdraw.rs: its guards in their order, the token
-- calls that it makes, and the accounts behind it. The runtime makes no account of an address that has
-- one, and undoes all of a call that fails.
pub mod Facts
pub mod Spent
pub mod Paid
use kirite.Prelude.{
  ℕ, ◌+◌, ◌-◌, ◌*◌, ◌^◌, ◌<◌, ◌≡◌, Bool, true, false, not, ◌&&◌, ◌||◌, List, [], ◌∷◌, ◌++◌, Result,
  ok, err, Error, ◌>>=◌, ◌>>◌, ltb, ◌==◌, length, take, drop, if◌then◌else◌,
}
use kirite.Bytes.{Bytes, le_bytes}
use kirite.Web3.{Web3}
use kirite.Roots.{is_known_root}
use kirite.Verifier.{
  field_modulus_bytes, lt_be32, negate_g1_y, u64_to_field_be, program_pubkey_to_field,
}
use kirite.Pool.{Pool, require, require_all}
use kirite.Fees.{calculate_net_amount, split_fee}
use kirite.Instructions.Text

pub record WithdrawParams : Type 0 where
  pub proof : Bytes
  pub nullifier_hash : Bytes
  pub proof_root : Bytes

-- The accounts of `Withdraw` that the handler reads, with the fields of theirs that it reads.
pub record WithdrawAccounts (K : Type 0) : Type 0 where
  pub shield_pool : K
  pub is_paused : Bool
  pub fee_bps : ℕ
  pub burn_ratio_bps : ℕ
  pub supported_mints : List K
  pub vault : K
  pub vault_authority : K
  pub recipient_token_account : K
  pub recipient_mint : K
  pub treasury_token_account : K
  pub treasury_mint : K
  pub mint : K

-- `token::transfer` and `token::burn`, from the vault.
pub data TokenCall (K : Type 0) : Type 0 where
  transfer : (from to authority : K) (amount : ℕ) → TokenCall K
  burn : (mint from authority : K) (amount : ℕ) → TokenCall K

-- The pool, the addresses of the nullifier records that exist, and the tokens.
pub record State (K Tokens : Type 0) : Type 0 where
  pub pool : Pool K
  pub total_withdrawals : ℕ
  pub fees_collected : ℕ
  pub records : List K
  pub tokens : Tokens

-- What the handler calls: the token program, `Groth16Verifier::new` and `verify` on the negated point,
-- the other points and the public inputs, and the mint of wrapped SOL.
pub record Calls (K Tokens : Type 0) : Type 0 where
  pub run : TokenCall K → Tokens → Result Tokens
  pub verify : Bytes → Bytes → Bytes → List Bytes → Bool
  pub keccak : Bytes → Bytes
  pub native_mint : K

abbrev pub all_canonical : List Bytes → Bool
all_canonical [] = true
all_canonical (input ∷ rest) = lt_be32 input field_modulus_bytes && all_canonical rest

-- `a.saturating_add(b)` on 64 bits.
abbrev pub saturating_add : ℕ → ℕ → ℕ
saturating_add a b = if ltb (a + b) (2 ^ 64) then a + b else 2 ^ 64 - 1

module _ (w : Web3) (program_id : w.PublicKey) {Tokens : Type 0}
    (calls : Calls w.PublicKey Tokens) where
  open w use {PublicKey, to_bytes, equals, find_program_address}
  open calls use {run, verify, keccak, native_mint}

  unfoldable pub verify_membership_proof : Bytes → List Bytes → Result (Unit {0})
  unfolding lt_be32 negate_g1_y
  verify_membership_proof proof public_inputs =
      require (length proof == 256) Error.invalid_amount_proof
      >> require (all_canonical public_inputs) Error.invalid_amount_proof
      >> require
          (verify (negate_g1_y (take 64 proof)) (take 128 (drop 64 proof))
            (take 64 (drop 192 proof)) public_inputs)
          Error.invalid_amount_proof

  -- The address of the record of a nullifier of a pool.
  unfoldable pub nullifier_record : PublicKey → Bytes → PublicKey
  nullifier_record shield_pool nullifier_hash =
      (find_program_address (Text.nullifier ∷ to_bytes shield_pool ∷ nullifier_hash ∷ [])
        program_id).0

  unfoldable pub exists_in : List PublicKey → PublicKey → Bool
  exists_in [] k = false
  exists_in (r ∷ rest) k = equals r k || exists_in rest k

  -- The conditions on the accounts, then those of the `require!` lines.
  unfoldable pub withdraw_requirements :
      State PublicKey Tokens → WithdrawAccounts PublicKey → WithdrawParams → List (Bool × Error)
  unfolding exists_in is_known_root
  withdraw_requirements s accounts params =
      (not accounts.is_paused, Error.protocol_paused)
      ∷ (
        equals accounts.vault_authority
            (find_program_address (Text.vault_authority ∷ to_bytes accounts.shield_pool ∷ [])
              program_id).0,
        Error.constraint_seeds,
      )
      ∷ (
        equals accounts.shield_pool
            (find_program_address
              (Text.shield_pool ∷ to_bytes s.pool.mint ∷ le_bytes 8 s.pool.denomination ∷ [])
              program_id).0,
        Error.invalid_amount_proof,
      )
      ∷ (s.pool.is_frozen == 0, Error.pool_frozen)
      ∷ (exists_in accounts.supported_mints s.pool.mint, Error.unsupported_mint)
      ∷ (equals accounts.vault s.pool.vault, Error.invalid_amount_proof)
      ∷ (equals accounts.recipient_mint s.pool.mint, Error.invalid_amount_proof)
      ∷ (equals accounts.treasury_mint s.pool.mint, Error.invalid_amount_proof)
      ∷ (equals accounts.mint s.pool.mint, Error.invalid_amount_proof)
      ∷ (is_known_root s.pool.roots params.proof_root, Error.invalid_merkle_proof)
      ∷ []

  unfoldable pub public_inputs :
      State PublicKey Tokens → WithdrawAccounts PublicKey → WithdrawParams → List Bytes
  unfolding u64_to_field_be program_pubkey_to_field
  public_inputs s accounts params =
      params.proof_root
      ∷ params.nullifier_hash
      ∷ u64_to_field_be s.pool.denomination
      ∷ program_pubkey_to_field keccak (to_bytes accounts.recipient_token_account)
      ∷ []

  -- The calls for the net amount, for the treasury's part of the fee, and for the part that is burnt or,
  -- of wrapped SOL, goes to the treasury too.
  unfoldable pub net_calls : WithdrawAccounts PublicKey → ℕ → List (TokenCall PublicKey)
  net_calls accounts net =
      transfer accounts.vault accounts.recipient_token_account accounts.vault_authority net ∷ []

  unfoldable pub treasury_calls : WithdrawAccounts PublicKey → ℕ → List (TokenCall PublicKey)
  treasury_calls accounts amount =
      if ltb 0 amount
      then transfer accounts.vault accounts.treasury_token_account accounts.vault_authority amount
        ∷ []
      else []

  unfoldable pub burn_calls : WithdrawAccounts PublicKey → ℕ → List (TokenCall PublicKey)
  burn_calls accounts amount =
      let is_native_mint = equals accounts.mint native_mint in
      if ltb 0 amount && not is_native_mint
      then burn accounts.mint accounts.vault accounts.vault_authority amount ∷ []
      else if ltb 0 amount
      then transfer accounts.vault accounts.treasury_token_account accounts.vault_authority amount
        ∷ []
      else []

  unfoldable pub withdraw_calls :
      WithdrawAccounts PublicKey → ℕ → ℕ × ℕ → List (TokenCall PublicKey)
  unfolding net_calls treasury_calls burn_calls
  withdraw_calls accounts net parts =
      net_calls accounts net ++ (treasury_calls accounts parts.1 ++ burn_calls accounts parts.0)

  unfoldable pub run_all : List (TokenCall PublicKey) → Tokens → Result Tokens
  run_all [] tokens = ok tokens
  run_all (call ∷ rest) tokens = run call tokens >>= run_all rest

  -- What follows the guards.
  unfoldable pub withdraw_effects :
      State PublicKey Tokens
      → WithdrawAccounts PublicKey
      → WithdrawParams
      → Result (State PublicKey Tokens)
  unfolding withdraw_calls run_all nullifier_record
  withdraw_effects s accounts params = do
    amounts ← calculate_net_amount s.pool.denomination accounts.fee_bps
    parts ← split_fee amounts.1 accounts.burn_ratio_bps
    tokens ← run_all (withdraw_calls accounts amounts.0 parts) s.tokens
    ok (record {
      pool = s.pool;
      total_withdrawals = saturating_add s.total_withdrawals 1;
      fees_collected = saturating_add s.fees_collected amounts.1;
      records = nullifier_record accounts.shield_pool params.nullifier_hash ∷ s.records;
      tokens = tokens;
    })

  -- The record of the nullifier is made first, and the other accounts are checked behind it.
  unfoldable pub withdraw_guards :
      State PublicKey Tokens → WithdrawAccounts PublicKey → WithdrawParams → Result (Unit {0})
  unfolding nullifier_record exists_in withdraw_requirements verify_membership_proof public_inputs
  withdraw_guards s accounts params = do
    made ←
        require
          (not (exists_in s.records (nullifier_record accounts.shield_pool params.nullifier_hash)))
          Error.account_in_use
    met ← require_all (withdraw_requirements s accounts params)
    verify_membership_proof params.proof (public_inputs s accounts params)

  unfoldable pub handle_withdraw :
      State PublicKey Tokens
      → WithdrawAccounts PublicKey
      → WithdrawParams
      → Result (State PublicKey Tokens)
  unfolding withdraw_guards withdraw_effects
  handle_withdraw s accounts params =
      withdraw_guards s accounts params >> withdraw_effects s accounts params
