-- ===== src/Withdraw/Spent.antt =====
-- A note is withdrawn once: the record of its nullifier stays.
use kirite.Prelude.{Result, ◌≡◌, refl, true, ◌∷◌, ok, err, Error, arith}
use kirite.Bytes.{Bytes}
use kirite.Web3.{Web3}
use kirite.Pool.{DepositAccounts, Deposited, TokenProgram, handle_deposit}
use kirite.Withdraw.{
  WithdrawParams, WithdrawAccounts, State, Calls, nullifier_record, exists_in, withdraw_guards,
  handle_withdraw,
}
use kirite.Withdraw.Facts.{handle_withdraw-facts}

module _ (w : Web3) (program_id : w.PublicKey) {Tokens : Type 0} (calls : Calls w.PublicKey Tokens)
    (token : TokenProgram) (hash_pair : Bytes → Bytes → Result Bytes) (empty_leaf : Bytes) where
  open w use {PublicKey, equals}

  -- What happens to a pool: a withdrawal, a deposit, or anything that others do to the tokens.
  pub data Step : State PublicKey Tokens → State PublicKey Tokens → Type 0 where
    withdrawn :
        (s t : State PublicKey Tokens) (accounts : WithdrawAccounts PublicKey)
        (params : WithdrawParams)
        → handle_withdraw w program_id calls s accounts params ≡ ok t
        → Step s t
    deposited :
        (s : State PublicKey Tokens) (accounts : DepositAccounts PublicKey) (commitment : Bytes)
        (out : Deposited PublicKey) (tokens : Tokens)
        → handle_deposit w program_id token hash_pair empty_leaf s.pool accounts commitment ≡ ok out
        → Step s (record s { pool = out.pool; tokens = tokens })
    tokens_changed :
        (s : State PublicKey Tokens) (tokens : Tokens) → Step s (record s { tokens = tokens })

  pub data Reaches : State PublicKey Tokens → State PublicKey Tokens → Type 0 where
    here : (s : State PublicKey Tokens) → Reaches s s
    next : (s t u : State PublicKey Tokens) → Step s t → Reaches t u → Reaches s u

  -- The records behind a withdrawal.
  records_of_withdrawal :
      (s t : State PublicKey Tokens) (accounts : WithdrawAccounts PublicKey)
      (params : WithdrawParams)
      → handle_withdraw w program_id calls s accounts params ≡ ok t
      → t.records
        ≡ nullifier_record w program_id calls accounts.shield_pool params.nullifier_hash ∷ s.records
  records_of_withdrawal s t accounts params h =
      (handle_withdraw-facts w program_id calls s t accounts params h).1.recorded

  exists_in_later :
      (k : PublicKey) (s t : State PublicKey Tokens)
      → Step s t
      → exists_in w program_id calls s.records k ≡ true
      → exists_in w program_id calls t.records k ≡ true
  unfolding exists_in
  exists_in_later k s t (withdrawn _ _ accounts params h) there =
      let grown = records_of_withdrawal s t accounts params h in
      rw (grown, exists_in, there) (ground arith)
  exists_in_later k s t (deposited _ accounts commitment out tokens h) there = there
  exists_in_later k s t (tokens_changed _ tokens) there = there

  exists_in_reached :
      (k : PublicKey) (s t : State PublicKey Tokens)
      → Reaches s t
      → exists_in w program_id calls s.records k ≡ true
      → exists_in w program_id calls t.records k ≡ true
  exists_in_reached k s t (here _) there = there
  exists_in_reached k s t (next _ u _ step later) there =
      exists_in_reached k u t later (exists_in_later k s u step there)

  -- After a withdrawal, whatever withdrawals, deposits and moves of tokens follow, each further withdrawal from the pool
  -- with the same nullifier hash fails, whatever its proof, its root and its other accounts, since the
  -- record of the nullifier exists.
  pub nullifier_spent_once :
      (s t u : State PublicKey Tokens) (accounts later : WithdrawAccounts PublicKey)
      (params again : WithdrawParams)
      → handle_withdraw w program_id calls s accounts params ≡ ok t
      → Reaches t u
      → later.shield_pool ≡ accounts.shield_pool
      → again.nullifier_hash ≡ params.nullifier_hash
      → handle_withdraw w program_id calls u later again ≡ err Error.account_in_use
  unfolding handle_withdraw withdraw_guards exists_in
  nullifier_spent_once s t u accounts later params again h reaches pool hash =
      let k = nullifier_record w program_id calls accounts.shield_pool params.nullifier_hash in
      let grown = records_of_withdrawal s t accounts params h in
      let made : exists_in w program_id calls t.records k ≡ true =
        rw (grown, exists_in, (w.equals_iff k k).1 refl) refl in
      let there = exists_in_reached k t u reaches made in rw (pool, hash, there) refl
