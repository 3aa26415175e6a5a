-- ===== src/Withdraw/Paid.antt =====
-- What a withdrawal that succeeds pays.
use kirite.Prelude.{
  ℕ, ◌+◌, ◌≡◌, refl, inl, inr, true, false, List, [], ◌∷◌, ◌++◌, ok, All, Bool-cases, ltb, ==_iff,
  arith,
}
use mathlib.Core.Path.{subst}
use kirite.Web3.{Web3}
use kirite.Roots.{is_known_root}
use kirite.Fees.{calculate_net_amount}
use kirite.Withdraw.{
  WithdrawParams, WithdrawAccounts, TokenCall, transfer, burn, State, Calls, nullifier_record,
  exists_in, withdraw_requirements, verify_membership_proof, public_inputs, net_calls,
  treasury_calls, burn_calls, withdraw_calls, run_all, handle_withdraw,
}
use kirite.Fees.Split.{net_and_fee, parts_of_fee}
use kirite.Withdraw.Facts.{handle_withdraw-facts}

-- What the calls take.
abbrev pub taken : {K : Type 0} → List (TokenCall K) → ℕ
taken [] = 0
taken (transfer from to authority amount ∷ rest) = amount + taken rest
taken (burn mint from authority amount ∷ rest) = amount + taken rest

taken-append : {K : Type 0} (xs ys : List (TokenCall K)) → taken (xs ++ ys) ≡ taken xs + taken ys
taken-append [] ys = omega arith
taken-append (transfer from to authority amount ∷ rest) ys = omega (arith, taken-append rest ys)
taken-append (burn mint from authority amount ∷ rest) ys = omega (arith, taken-append rest ys)

-- The call takes from the account, by the authority.
abbrev pub IsFrom : {K : Type 0} → K → K → TokenCall K → Type 0
IsFrom account key (transfer from to authority amount) = (from ≡ account) × (authority ≡ key)
IsFrom account key (burn mint from authority amount) = (from ≡ account) × (authority ≡ key)

All-append : {A : Type 0} (P : A → Type 0) (xs ys : List A) → All P xs → All P ys → All P (xs ++ ys)
All-append P [] ys h h' = h'
All-append P (x ∷ xs) ys (h, hs) h' = (h, All-append P xs ys hs h')

module _ (w : Web3) (program_id : w.PublicKey) {Tokens : Type 0}
    (calls : Calls w.PublicKey Tokens) where
  open w use {PublicKey, equals}

  treasury_calls-taken :
      (accounts : WithdrawAccounts PublicKey) (n : ℕ)
      → (taken (treasury_calls w program_id calls accounts n) ≡ n)
        × All
            (IsFrom accounts.vault accounts.vault_authority)
            (treasury_calls w program_id calls accounts n)
  unfolding treasury_calls
  treasury_calls-taken accounts n = elim (Bool-cases (ltb 0 n)) [
    | inl some_due ↦ rw some_due (omega arith, ((refl, refl), tt))
    | inr none_due ↦ rw none_due (ground arith, tt)
  ]

  burn_calls-taken :
      (accounts : WithdrawAccounts PublicKey) (n : ℕ)
      → (taken (burn_calls w program_id calls accounts n) ≡ n)
        × All
            (IsFrom accounts.vault accounts.vault_authority)
            (burn_calls w program_id calls accounts n)
  unfolding burn_calls
  burn_calls-taken accounts n = elim (Bool-cases (ltb 0 n)) [
    | inr none_due ↦ rw none_due (ground arith, tt)
    | inl some_due ↦ elim (Bool-cases (equals accounts.mint calls.native_mint)) [
      | inl native ↦ rw (some_due, native) (omega arith, ((refl, refl), tt))
      | inr token ↦ rw (some_due, token) (omega arith, ((refl, refl), tt))
    ]
  ]

  -- A withdrawal that succeeds is from a pool that is not frozen, with a root that the pool knows and a
  -- nullifier without a record, and its proof is verified for the root, the nullifier hash, the
  -- denomination and the recipient's account. Its calls take the denomination from the pool's vault, the
  -- first of them for the recipient, of the denomination less the fee, and the pool's tree, roots and
  -- settings stay as they are.
  pub handle_withdraw-ok :
      (s t : State PublicKey Tokens) (accounts : WithdrawAccounts PublicKey)
      (params : WithdrawParams)
      → handle_withdraw w program_id calls s accounts params ≡ ok t
      → (net : ℕ) × (fee : ℕ) × (others : List (TokenCall PublicKey)) × let called =
            transfer accounts.vault accounts.recipient_token_account accounts.vault_authority net
            ∷ others in
          (run_all w program_id calls called s.tokens ≡ ok t.tokens)
          × (taken called ≡ s.pool.denomination)
          × All (IsFrom s.pool.vault accounts.vault_authority) called
          × (calculate_net_amount s.pool.denomination accounts.fee_bps ≡ ok (net, fee))
          × (s.pool.is_frozen ≡ 0)
          × (is_known_root s.pool.roots params.proof_root ≡ true)
          × (exists_in w program_id calls s.records
                (nullifier_record w program_id calls accounts.shield_pool params.nullifier_hash)
              ≡ false)
          × (verify_membership_proof w program_id calls params.proof
                (public_inputs w program_id calls s accounts params)
              ≡ ok tt)
          × (t.pool ≡ s.pool)
  unfolding withdraw_requirements withdraw_calls net_calls
  handle_withdraw-ok s t accounts params h =
      let (guarded, effected) = handle_withdraw-facts w program_id calls s t accounts params h in
      let net = effected.amounts.0 in
      let fee = effected.amounts.1 in
      let parts = effected.parts in
      let treasury = treasury_calls w program_id calls accounts parts.1 in
      let burnt = burn_calls w program_id calls accounts parts.0 in
      let vault : accounts.vault ≡ s.pool.vault =
        (w.equals_iff accounts.vault s.pool.vault).0 guarded.met.1.1.1.1.1.0 in
      (
        net,
        fee,
        treasury ++ burnt,
        (
          effected.ran,
          omega (
            arith,
            taken-append treasury burnt,
            (treasury_calls-taken accounts parts.1).0,
            (burn_calls-taken accounts parts.0).0,
            net_and_fee _ _ _ effected.charged,
            parts_of_fee _ _ _ effected.divided,
          ),
          subst
              (λ (k : PublicKey). All (IsFrom k accounts.vault_authority) (
                transfer accounts.vault accounts.recipient_token_account accounts.vault_authority
                  net
                ∷ (treasury ++ burnt)))
              vault
              (
                (refl, refl),
                All-append _ treasury burnt (treasury_calls-taken accounts parts.1).1
                    (burn_calls-taken accounts parts.0).1,
              ),
          effected.charged,
          (==_iff s.pool.is_frozen 0).0 guarded.met.1.1.1.0,
          guarded.met.1.1.1.1.1.1.1.1.1.0,
          guarded.fresh,
          guarded.verified,
          effected.same_pool,
        ),
      )
