-- ===== src/Pool.antt =====
-- `handle_deposit` of programs/kirite/src/instructions/deposit.rs: its guards in their order, and what
-- it changes. The token program is a parameter.
pub mod Deposits
pub mod Accepting
use kirite.Prelude.{
  ℕ, ◌+◌, ◌-◌, ◌^◌, ◌<◌, ◌≤◌, ◌≡◌, Bool, true, false, not, ◌||◌, ℤ, List, [], ◌∷◌, Result, ok, err,
  Error, ◌>>=◌, ◌>>◌, ltb, leb, ◌==◌, replicate, if◌then◌else◌,
}
use kirite.Bytes.{Bytes, le_bytes}
use kirite.Web3.{Web3}
use kirite.Merkle.OnChain.{Tree, insert_leaf_light}
use kirite.Roots.{Roots, push_root}
use kirite.Verifier.{is_canonical_field_element}
use kirite.Events.Decode.{Logged}
use kirite.Instructions.Text

-- The fields of a `ShieldPool` that a deposit reads or writes.
pub record Pool (K : Type 0) : Type 0 where
  pub mint : K
  pub vault : K
  pub denomination : ℕ
  pub filled_subtrees : List Bytes
  pub next_leaf_index : ℕ
  pub roots : Roots
  pub total_deposits : ℕ
  pub last_deposit_at : ℤ
  pub is_frozen : ℕ

-- What the handler reads of the accounts of `Deposit`, and the clock. `is_paused` and
-- `supported_mints` are those of the account `protocol_config`; that the accounts are of their types
-- and that one at its address is anchor's to check.
pub record DepositAccounts (K : Type 0) : Type 0 where
  pub shield_pool : K
  pub vault : K
  pub depositor : K
  pub depositor_owner : K
  pub depositor_mint : K
  pub depositor_amount : ℕ
  pub vault_amount : ℕ
  pub is_paused : Bool
  pub supported_mints : List K
  pub unix_timestamp : ℤ

-- The pool and the two token amounts behind a deposit, and the event that it logs.
pub record Deposited (K : Type 0) : Type 0 where
  pub pool : Pool K
  pub depositor_amount : ℕ
  pub vault_amount : ℕ
  pub event : Logged K

-- `token::transfer` from one amount to another.
pub record TokenProgram : Type 0 where
  pub transfer : ℕ → ℕ → ℕ → Result (ℕ × ℕ)
  pub transfer-ok :
      (from to amount : ℕ)
      → amount ≤ from
      → to + amount < 2 ^ 64
      → transfer from to amount ≡ ok (from - amount, to + amount)

abbrev pub require : Bool → Error → Result (Unit {0})
require true e = ok tt
require false e = err e

-- `require!` one after another.
unfoldable pub require_all : List (Bool × Error) → Result (Unit {0})
require_all [] = ok tt
require_all ((holds, e) ∷ rest) = require holds e >> require_all rest

-- `iter().any(|&b| b != 0)`
unfoldable pub any_nonzero : Bytes → Bool
any_nonzero [] = false
any_nonzero (b ∷ bs) = not (b == 0) || any_nonzero bs

module _ (w : Web3) (program_id : w.PublicKey) (token : TokenProgram)
    (hash_pair : Bytes → Bytes → Result Bytes) (empty_leaf : Bytes) where
  open w use {PublicKey, to_bytes, equals, find_program_address}

  unfoldable pub supports : List PublicKey → PublicKey → Bool
  supports [] mint = false
  supports (m ∷ rest) mint = equals m mint || supports rest mint

  -- The conditions of the constraints of `Deposit` and of the `require!` lines, in their order, with
  -- the error of each.
  unfoldable pub deposit_requirements :
      Pool PublicKey → DepositAccounts PublicKey → Bytes → List (Bool × Error)
  unfolding any_nonzero supports
  deposit_requirements pool accounts commitment =
      (not accounts.is_paused, Error.protocol_paused)
      ∷ (equals accounts.depositor_owner accounts.depositor, Error.constraint_raw)
      ∷ (
        equals accounts.shield_pool
            (find_program_address
              (Text.shield_pool ∷ to_bytes pool.mint ∷ le_bytes 8 pool.denomination ∷ [])
              program_id).0,
        Error.invalid_amount_proof,
      )
      ∷ (pool.is_frozen == 0, Error.pool_frozen)
      ∷ (equals accounts.depositor_mint pool.mint, Error.invalid_amount_proof)
      ∷ (equals accounts.vault pool.vault, Error.invalid_amount_proof)
      ∷ (any_nonzero commitment, Error.invalid_amount_proof)
      ∷ (is_canonical_field_element commitment, Error.invalid_amount_proof)
      ∷ (supports accounts.supported_mints pool.mint, Error.unsupported_mint)
      ∷ (leb pool.denomination accounts.depositor_amount, Error.insufficient_encrypted_balance)
      ∷ []

  unfoldable pub deposit_guards :
      Pool PublicKey → DepositAccounts PublicKey → Bytes → Result (Unit {0})
  unfolding deposit_requirements require_all
  deposit_guards pool accounts commitment =
      require_all (deposit_requirements pool accounts commitment)

  -- The accounts and the event behind a deposit.
  pub deposited :
      Pool PublicKey
      → DepositAccounts PublicKey
      → Bytes
      → ℕ × ℕ
      → List Bytes × Bytes
      → Roots
      → Deposited PublicKey
  deposited pool accounts commitment moved inserted roots = record {
    pool = record {
      mint = pool.mint;
      vault = pool.vault;
      denomination = pool.denomination;
      filled_subtrees = inserted.0;
      next_leaf_index = pool.next_leaf_index + 1;
      roots = roots;
      total_deposits =
          if ltb (pool.total_deposits + 1) (2 ^ 64)
          then pool.total_deposits + 1
          else pool.total_deposits;
      last_deposit_at = accounts.unix_timestamp;
      is_frozen = pool.is_frozen;
    };
    depositor_amount = moved.0;
    vault_amount = moved.1;
    event = record {
      pool = accounts.shield_pool;
      depositor = accounts.depositor;
      commitment = commitment;
      encrypted_amount = replicate 64 0;
      leaf_index = pool.next_leaf_index;
      timestamp = accounts.unix_timestamp;
    };
  }

  unfoldable pub deposit_effects :
      Pool PublicKey → DepositAccounts PublicKey → Bytes → Result (Deposited PublicKey)
  unfolding deposited
  deposit_effects pool accounts commitment = do
    moved ← token.transfer accounts.depositor_amount accounts.vault_amount pool.denomination
    inserted ←
        insert_leaf_light hash_pair empty_leaf commitment pool.next_leaf_index pool.filled_subtrees
    roots ← push_root pool.roots inserted.1
    require (ltb (pool.next_leaf_index + 1) (2 ^ 32)) Error.pool_capacity_exceeded
    ok (deposited pool accounts commitment moved inserted roots)

  unfoldable pub handle_deposit :
      Pool PublicKey → DepositAccounts PublicKey → Bytes → Result (Deposited PublicKey)
  unfolding deposit_guards deposit_effects
  handle_deposit pool accounts commitment =
      deposit_guards pool accounts commitment >> deposit_effects pool accounts commitment
