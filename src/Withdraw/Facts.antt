-- ===== src/Withdraw/Facts.antt =====
-- What a withdrawal that succeeds has checked and changed.
use kirite.Prelude.{
  ℕ, ◌≡◌, refl, ap, ◌∙◌, sym, Bool, true, false, not, ◌∷◌, ok, Error, All, rest_of_ok, ok-injective,
  arith,
}
use kirite.Web3.{Web3}
use kirite.Pool.{require, require_all}
use kirite.Pool.Deposits.{require_all-All}
use kirite.Fees.{calculate_net_amount, split_fee}
use kirite.Withdraw.{
  WithdrawParams, WithdrawAccounts, State, Calls, saturating_add, nullifier_record, exists_in,
  withdraw_requirements, verify_membership_proof, public_inputs, withdraw_calls, run_all,
  withdraw_guards, withdraw_effects, handle_withdraw,
}

module _ (w : Web3) (program_id : w.PublicKey) {Tokens : Type 0}
    (calls : Calls w.PublicKey Tokens) where
  open w use {PublicKey, equals}

  pub record Guarded (s : State PublicKey Tokens) (accounts : WithdrawAccounts PublicKey)
      (params : WithdrawParams) : Type 0 where
    pub fresh :
        exists_in w program_id calls s.records
          (nullifier_record w program_id calls accounts.shield_pool params.nullifier_hash)
        ≡ false
    pub met : All (λ g. g.0 ≡ true) (withdraw_requirements w program_id calls s accounts params)
    pub verified :
        verify_membership_proof w program_id calls params.proof
          (public_inputs w program_id calls s accounts params)
        ≡ ok tt

  pub record Effected (s t : State PublicKey Tokens) (accounts : WithdrawAccounts PublicKey)
      (params : WithdrawParams) : Type 0 where
    pub amounts : ℕ × ℕ
    pub parts : ℕ × ℕ
    pub charged : calculate_net_amount s.pool.denomination accounts.fee_bps ≡ ok amounts
    pub divided : split_fee amounts.1 accounts.burn_ratio_bps ≡ ok parts
    pub ran :
        run_all w program_id calls
          (withdraw_calls w program_id calls accounts amounts.0 parts)
          s.tokens
        ≡ ok t.tokens
    pub same_pool : t.pool ≡ s.pool
    pub counted : t.total_withdrawals ≡ saturating_add s.total_withdrawals 1
    pub collected : t.fees_collected ≡ saturating_add s.fees_collected amounts.1
    pub recorded :
        t.records
        ≡ nullifier_record w program_id calls accounts.shield_pool params.nullifier_hash ∷ s.records

  require_ok : (b : Bool) (e : Error) {u : Unit {0}} → require b e ≡ ok u → b ≡ true
  require_ok true e h = refl
  require_ok false e h = cc

  not-true : (b : Bool) → not b ≡ true → b ≡ false
  not-true b h = ground arith

  withdraw_guards-Guarded :
      (s : State PublicKey Tokens) (accounts : WithdrawAccounts PublicKey) (params : WithdrawParams)
      {u : Unit {0}}
      → withdraw_guards w program_id calls s accounts params ≡ ok u
      → Guarded s accounts params
  unfolding withdraw_guards
  withdraw_guards-Guarded s accounts params h =
      let k = nullifier_record w program_id calls accounts.shield_pool params.nullifier_hash in
      let free = not (exists_in w program_id calls s.records k) in
      let (made, fresh, checking) = rest_of_ok (require free Error.account_in_use) _ h in
      let (met, guarded, verifying) =
        rest_of_ok (require_all (withdraw_requirements w program_id calls s accounts params)) _
          checking in
      record {
        fresh = not-true _ (require_ok free Error.account_in_use fresh);
        met = require_all-All (withdraw_requirements w program_id calls s accounts params) guarded;
        verified = verifying;
      }

  withdraw_effects-Effected :
      (s t : State PublicKey Tokens) (accounts : WithdrawAccounts PublicKey)
      (params : WithdrawParams)
      → withdraw_effects w program_id calls s accounts params ≡ ok t
      → Effected s t accounts params
  unfolding withdraw_effects
  withdraw_effects-Effected s t accounts params h =
      let (amounts, charged, splitting) =
        rest_of_ok (calculate_net_amount s.pool.denomination accounts.fee_bps) _ h in
      let (parts, split, running) =
        rest_of_ok (split_fee amounts.1 accounts.burn_ratio_bps) _ splitting in
      let (tokens, ran, ending) =
        rest_of_ok
          (run_all w program_id calls (withdraw_calls w program_id calls accounts amounts.0 parts)
            s.tokens)
          _ running in
      let same = sym (ok-injective _ _ ending) in
      record {
        amounts = amounts;
        parts = parts;
        charged = charged;
        divided = split;
        ran = ran ∙ ap (λ (u : State PublicKey Tokens). ok u.tokens) (sym same);
        same_pool = ap (λ (u : State PublicKey Tokens). u.pool) same;
        counted = ap (λ (u : State PublicKey Tokens). u.total_withdrawals) same;
        collected = ap (λ (u : State PublicKey Tokens). u.fees_collected) same;
        recorded = ap (λ (u : State PublicKey Tokens). u.records) same;
      }

  pub handle_withdraw-facts :
      (s t : State PublicKey Tokens) (accounts : WithdrawAccounts PublicKey)
      (params : WithdrawParams)
      → handle_withdraw w program_id calls s accounts params ≡ ok t
      → Guarded s accounts params × Effected s t accounts params
  unfolding handle_withdraw
  handle_withdraw-facts s t accounts params h =
      let (passed, guarded, effects) =
        rest_of_ok (withdraw_guards w program_id calls s accounts params) _ h in
      (
        withdraw_guards-Guarded s accounts params guarded,
        withdraw_effects-Effected s t accounts params effects,
      )
