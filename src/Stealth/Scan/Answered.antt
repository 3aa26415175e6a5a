-- ===== src/Stealth/Scan/Answered.antt =====
-- The calls of a scan that succeed, whatever the announcements are.
use kirite.Prelude.{
  ◌<◌, ◌^◌, lt→ltb, ℕ, ◌≤◌, ◌≡◌, inl, inr, refl, Bool, List, [], ◌∷◌, ok, ◌>>=◌, length, take, drop,
  length-take, ltb, ◌==◌, Bool-cases, arith,
}
use kirite.Bytes.{Bytes, le_value}
use kirite.Stealth.{
  Keys, hash256, check_view_tag, derive_stealth_spending_key, compute_shared_secret, shared_hash,
  stealth_seed, first_is,
}
use kirite.Stealth.Scan.{ScanNetwork, first_token, bn_of_number, get_stealth_address_balance}

module _ (keys : Keys) where
  open keys use {web3, public_key}
  open web3 use {PublicKey, of_bytes, equals}

  length-hash256 : (bs : Bytes) → length (hash256 keys bs) ≡ 32
  unfolding hash256
  length-hash256 bs = omega (arith, length-take 32 (keys.hash bs), keys.length-hash bs)

  pub check_view_tag-ok :
      (ephemeral : Bytes) (tag : ℕ) (viewing_secret : Bytes)
      → length ephemeral ≡ 32
      → length viewing_secret ≡ 32
      → (b : Bool) × (check_view_tag keys ephemeral tag viewing_secret ≡ ok b)
  unfolding check_view_tag compute_shared_secret
  check_view_tag-ok ephemeral tag viewing_secret len view =
      let (shared, agreed) = keys.before-sized ephemeral viewing_secret len view in
      (first_is (shared_hash keys shared) tag, rw agreed refl)

  pub derive_stealth_spending_key-ok :
      (ephemeral viewing_secret spending_secret : Bytes)
      → length ephemeral ≡ 32
      → length viewing_secret ≡ 32
      → length spending_secret ≡ 32
      → (kp : keys.Keypair) × (derive_stealth_spending_key keys ephemeral viewing_secret
            spending_secret
          ≡ ok kp)
  unfolding derive_stealth_spending_key compute_shared_secret stealth_seed
  derive_stealth_spending_key-ok ephemeral viewing_secret spending_secret len view spend =
      let (shared, agreed) = keys.before-sized ephemeral viewing_secret len view in
      let (p, pair, _) = keys.box_public_key-sized spending_secret spend in
      let (kp, made) =
        keys.from_seed-sized (stealth_seed keys p (shared_hash keys shared)) (length-hash256 _) in
      (kp, rw (agreed, pair, made) refl)

  module _ (net : ScanNetwork PublicKey) where
    -- Every call about an address is answered, the balances are below 2 ^ 53, and 32 bytes or fewer are a
    -- key.
    pub record Answers : Type 0 where
      pub balance : (k : PublicKey) → (b : ℕ) × (net.get_balance k ≡ ok b) × (b < 2 ^ 53)
      pub tokens :
          (k : PublicKey)
          → (accounts : List Bytes) × (net.get_token_accounts_by_owner k ≡ ok accounts)
      pub slice_key : (bs : Bytes) → length bs ≤ 32 → (k : PublicKey) × (of_bytes bs ≡ ok k)

    first_token-ok :
        Answers
        → (accounts : List Bytes) → (r : ℕ × PublicKey) × (first_token keys net accounts ≡ ok r)
    unfolding first_token
    first_token-ok answers [] = (_, refl)
    first_token-ok answers (account ∷ rest) =
        let (mint, made) =
          answers.slice_key (take 32 account) (omega (arith, length-take 32 account)) in
        let (r, later) = first_token-ok answers rest in
        elim (Bool-cases (le_value (take 8 (drop 64 account)) == 0)) [
          | inl none_here ↦ (r, rw (made, none_here) later)
          | inr some_here ↦ ((le_value (take 8 (drop 64 account)), mint), rw (made, some_here) refl)
        ]

    pub balance-ok :
        Answers
        → (k : PublicKey) → (r : ℕ × PublicKey) × (get_stealth_address_balance keys net k ≡ ok r)
    unfolding get_stealth_address_balance bn_of_number
    balance-ok answers k =
        let (sol, answered, exact) = answers.balance k in
        let (accounts, listed) = answers.tokens k in
        let (r, first) = first_token-ok answers accounts in
        elim (Bool-cases (ltb 0 sol)) [
          | inl some_sol ↦ (
            (sol, net.default_key),
            rw (answered, ◌>>=◌, some_sol, lt→ltb sol (2 ^ 53) exact) refl,
          )
          | inr no_sol ↦ (r, rw (answered, ◌>>=◌, no_sol, listed) first)
        ]
