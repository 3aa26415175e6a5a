-- ===== src/Tests/Pool.antt =====
-- A deposit into an empty pool at concrete accounts.
use kirite.Prelude.{
  zero, suc, ◌∙◌, ℕ, ◌*◌, ◌<◌, ◌≤◌, false, List, All, err, Error, length, ◌==◌, ◌+◌, ◌-◌, ◌≡◌, refl,
  true, pos, [], ◌∷◌, ok, replicate, arith,
}
use kirite.Bytes.{Bytes}
use kirite.Poseidon.{hash_nodes}
use kirite.Poseidon.Toy.{toy}
use kirite.Merkle.Syscall.{IsCanonical, hash_nodes-IsCanonical, empty-IsCanonical}
use kirite.Merkle.OnChain.{insert_leaf_light, deposit_leaf}
use kirite.Merkle.OnChain.Total.{grow_levels}
use kirite.Merkle.OnChain.Deposits.{insert_leaf_light-room, insert_levels-ok}
use kirite.Roots.{push_root, set_at}
use kirite.Verifier.{is_canonical_field_element, lt_be32}
use kirite.Web3.Toy.{Key, toy_web3}
use kirite.Pool.{
  Pool, DepositAccounts, Deposited, TokenProgram, deposit_requirements, deposit_guards, deposited,
  deposit_effects, handle_deposit, require_all, any_nonzero, supports,
}
use kirite.Pool.Deposits.{tree_of, handle_deposit-ok}
use kirite.Bytes.{be_bytes}
use kirite.Roots.{is_known_root, any_root}
use kirite.Verifier.{u64_to_field_be, program_pubkey_to_field, clear_top_bits}
use kirite.Fees.{to_u64, calculate_fee, calculate_net_amount, split_fee}
use kirite.Fees.Split.{fee_split}
use kirite.Withdraw.{
  WithdrawParams, WithdrawAccounts, TokenCall, transfer, burn, State, Calls, nullifier_record,
  exists_in, withdraw_requirements, verify_membership_proof, public_inputs, net_calls,
  treasury_calls, burn_calls, withdraw_calls, run_all, withdraw_guards, withdraw_effects,
  handle_withdraw,
}
use kirite.Withdraw.Paid.{taken, IsFrom, handle_withdraw-ok}
use kirite.Withdraw.Spent.{next, here, tokens_changed, nullifier_spent_once}
use kirite.Tests.Data.{toy_syscall, small_bytes, small_bytes-IsCanonical}

abbrev toy_token : TokenProgram
toy_token = record {
  transfer = λ from to amount. ok (from - amount, to + amount);
  transfer-ok = λ from to amount funded room. refl;
}

abbrev empty_pool : Pool Key
empty_pool = record {
  mint = Key.bob;
  vault = Key.program;
  denomination = 100;
  filled_subtrees = replicate 15 toy_syscall.empty;
  next_leaf_index = 0;
  roots = record {
    current_root = small_bytes 0;
    historical_roots = replicate 3 (replicate 32 0);
    root_history_index = 0;
  };
  total_deposits = 0;
  last_deposit_at = pos 0;
  is_frozen = 0;
}

abbrev accounts : DepositAccounts Key
accounts = record {
  shield_pool = Key.pool_key;
  vault = Key.program;
  depositor = Key.alice;
  depositor_owner = Key.alice;
  depositor_mint = Key.bob;
  depositor_amount = 250;
  vault_amount = 300;
  is_paused = false;
  supported_mints = Key.alice ∷ Key.bob ∷ [];
  unix_timestamp = pos 1700000000;
}

abbrev commitment : Bytes
commitment = small_bytes 5

replicate-All : (n : ℕ) (bs : Bytes) → IsCanonical bs → All IsCanonical (replicate n bs)
replicate-All zero bs h = tt
replicate-All (suc n) bs h = (h, replicate-All n bs h)

empty_nodes-IsCanonical : All IsCanonical empty_pool.filled_subtrees
empty_nodes-IsCanonical = replicate-All 15 toy_syscall.empty (empty-IsCanonical toy toy_syscall)

abbrev grown : List Bytes × Bytes
grown = grow_levels (hash_nodes toy) toy_syscall.empty 0 empty_pool.filled_subtrees commitment 0

insert_leaf_light_run :
    insert_leaf_light toy_syscall.hash_pair toy_syscall.empty commitment 0
      empty_pool.filled_subtrees
    ≡ ok grown
insert_leaf_light_run =
    insert_leaf_light-room toy_syscall.hash_pair toy_syscall.empty commitment 0
      empty_pool.filled_subtrees (omega arith)
    ∙ (insert_levels-ok toy_syscall.hash_pair (hash_nodes toy) IsCanonical toy_syscall.hash_pair-eq
        (hash_nodes-IsCanonical toy) toy_syscall.empty (empty-IsCanonical toy toy_syscall) 0
        empty_pool.filled_subtrees commitment 0 empty_nodes-IsCanonical
        (small_bytes-IsCanonical 5 (omega arith))).0

abbrev after_deposit : Deposited Key
after_deposit =
    deposited toy_web3 Key.program toy_token toy_syscall.hash_pair toy_syscall.empty empty_pool
      accounts commitment (150, 400) grown
      (record {
        current_root = grown.1;
        historical_roots = grown.1 ∷ replicate 2 (replicate 32 0);
        root_history_index = 1;
      })

handle_deposit_run :
    handle_deposit toy_web3 Key.program toy_token toy_syscall.hash_pair toy_syscall.empty empty_pool
      accounts commitment
    ≡ ok after_deposit
unfolding handle_deposit deposit_guards deposit_requirements deposit_effects require_all any_nonzero
    supports push_root set_at is_canonical_field_element lt_be32
handle_deposit_run = rw insert_leaf_light_run refl

handle_deposit-ok_example :
    (is_canonical_field_element commitment ≡ true)
    × (empty_pool.is_frozen ≡ 0)
    × (deposit_leaf toy_syscall.hash_pair toy_syscall.empty (tree_of empty_pool) commitment
        ≡ ok (tree_of after_deposit.pool))
    × (after_deposit.event.leaf_index ≡ empty_pool.next_leaf_index)
    × (after_deposit.event.commitment ≡ commitment)
    × (after_deposit.depositor_amount + empty_pool.denomination ≡ accounts.depositor_amount)
    × (after_deposit.vault_amount ≡ accounts.vault_amount + empty_pool.denomination)
handle_deposit-ok_example =
    handle_deposit-ok toy_web3 Key.program toy_token toy_syscall.hash_pair toy_syscall.empty
      empty_pool accounts commitment after_deposit handle_deposit_run (omega arith)

-- A withdrawal, with the vault's amount for the tokens, and a second try.
abbrev toy_calls : Calls Key ℕ
toy_calls = record {
  run = λ call vault. elim call [
    | transfer from to authority amount ↦ ok (vault - amount)
    | burn mint from authority amount ↦ ok (vault - amount)
  ];
  verify = λ a b c inputs. length inputs == 4;
  keccak = λ bs. replicate 32 (length bs);
  native_mint = Key.alice;
}

abbrev before_withdrawal : State Key ℕ
before_withdrawal = record {
  pool = empty_pool;
  total_withdrawals = 0;
  fees_collected = 0;
  records = [];
  tokens = 400;
}

abbrev withdraw_accounts : WithdrawAccounts Key
withdraw_accounts = record {
  shield_pool = Key.pool_key;
  is_paused = false;
  fee_bps = 250;
  burn_ratio_bps = 5000;
  supported_mints = Key.bob ∷ [];
  vault = Key.program;
  vault_authority = Key.pool_key;
  recipient_token_account = Key.alice;
  recipient_mint = Key.bob;
  treasury_token_account = Key.bob;
  treasury_mint = Key.bob;
  mint = Key.bob;
}

abbrev withdraw_params : WithdrawParams
withdraw_params = record {
  proof = replicate 256 1;
  nullifier_hash = small_bytes 6;
  proof_root = small_bytes 0;
}

abbrev after_withdrawal : State Key ℕ
after_withdrawal = record {
  pool = empty_pool;
  total_withdrawals = 1;
  fees_collected = 3;
  records = Key.pool_key ∷ [];
  tokens = 300;
}

handle_withdraw_run :
    handle_withdraw toy_web3 Key.program toy_calls before_withdrawal withdraw_accounts
      withdraw_params
    ≡ ok after_withdrawal
unfolding handle_withdraw withdraw_guards withdraw_effects exists_in nullifier_record
    withdraw_requirements verify_membership_proof public_inputs withdraw_calls net_calls
    treasury_calls burn_calls run_all calculate_net_amount calculate_fee split_fee to_u64
    is_known_root any_root lt_be32 u64_to_field_be program_pubkey_to_field clear_top_bits
    require_all be_bytes
handle_withdraw_run = refl

handle_withdraw-ok_example :
    (net : ℕ) × (fee : ℕ) × (others : List (TokenCall Key)) × let called =
        transfer Key.program Key.alice Key.pool_key net ∷ others in
      (run_all toy_web3 Key.program toy_calls called 400 ≡ ok 300)
      × (taken called ≡ 100)
      × All (IsFrom Key.program Key.pool_key) called
      × (calculate_net_amount 100 250 ≡ ok (net, fee))
      × (empty_pool.is_frozen ≡ 0)
      × (is_known_root empty_pool.roots (small_bytes 0) ≡ true)
      × (exists_in toy_web3 Key.program toy_calls []
            (nullifier_record toy_web3 Key.program toy_calls Key.pool_key (small_bytes 6))
          ≡ false)
      × (verify_membership_proof toy_web3 Key.program toy_calls (replicate 256 1) (
            public_inputs toy_web3 Key.program toy_calls before_withdrawal withdraw_accounts
              withdraw_params)
          ≡ ok tt)
      × (empty_pool ≡ empty_pool)
handle_withdraw-ok_example =
    handle_withdraw-ok toy_web3 Key.program toy_calls before_withdrawal after_withdrawal
      withdraw_accounts withdraw_params handle_withdraw_run

nullifier_spent_once_example :
    handle_withdraw toy_web3 Key.program toy_calls
      (record after_withdrawal { tokens = 900 })
      (record withdraw_accounts { recipient_token_account = Key.bob })
      (record withdraw_params { proof = replicate 256 2 })
    ≡ err Error.account_in_use
nullifier_spent_once_example =
    nullifier_spent_once toy_web3 Key.program toy_calls toy_token toy_syscall.hash_pair
      toy_syscall.empty before_withdrawal after_withdrawal
      (record after_withdrawal { tokens = 900 }) withdraw_accounts
      (record withdraw_accounts { recipient_token_account = Key.bob }) withdraw_params
      (record withdraw_params { proof = replicate 256 2 }) handle_withdraw_run
      (next after_withdrawal _ _ (tokens_changed after_withdrawal 900) (here _)) refl refl

fee_split_example :
    (net : ℕ) × (fee : ℕ) × (burnt : ℕ) × (treasury : ℕ) × (calculate_net_amount 1000000007 30
      ≡ ok (net, fee))
    × (split_fee fee 5000 ≡ ok (burnt, treasury))
    × (net + (burnt + treasury) ≡ 1000000007)
    × (1000000007 * 30 ≤ fee * 10000)
    × (fee * 10000 < 1000000007 * 30 + 10000)
    × (burnt * 10000 ≤ fee * 5000)
    × (fee * 5000 < burnt * 10000 + 10000)
fee_split_example = fee_split 1000000007 30 5000 (omega arith) (omega arith) (omega arith)
