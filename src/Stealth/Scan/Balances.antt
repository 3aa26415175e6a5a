-- ===== src/Stealth/Scan/Balances.antt =====
-- `calculateStealthBalances` of sdk/src/stealth/scan.ts adds up the payments of each mint.
use kirite.Prelude.{
  ℕ, ◌+◌, ◌≡◌, ◌↔◌, ap, sym, ◌∙◌, refl, Bool, true, false, List, [], ◌∷◌, Option, none, some,
  Bool-cases, inl, inr, if◌then◌else◌, arith,
}
use kirite.Stealth.Scan.{StealthPayment}

-- The text of a mint's key, where `none` is the text "SOL" of a payment with no mint: the base58 text of a
-- key is as good as the key, and no key has that text.
abbrev pub MintKey : Type 0 → Type 0
MintKey K = Option K

-- A `Map` from the texts to amounts, its entries in the order of insertion, and the equality of texts.
module _ {K : Type 0} (equals : MintKey K → MintKey K → Bool) where
  pub get : List (MintKey K × ℕ) → MintKey K → Option ℕ
  get [] k = none
  get ((j, n) ∷ rest) k = if equals j k then some n else get rest k

  pub set : List (MintKey K × ℕ) → MintKey K → ℕ → List (MintKey K × ℕ)
  set [] k n = (k, n) ∷ []
  set ((j, m) ∷ rest) k n = if equals j k then (j, n) ∷ rest else (j, m) ∷ set rest k n

  -- `balances.get(key) || new BN(0)`
  abbrev pub or_zero : Option ℕ → ℕ
  or_zero none = 0
  or_zero (some n) = n

  pub add_payments : List (MintKey K × ℕ) → List (StealthPayment K) → List (MintKey K × ℕ)
  unfolding get set
  add_payments balances [] = balances
  add_payments balances (p ∷ rest) =
      add_payments (set balances p.mint (or_zero (get balances p.mint) + p.amount)) rest

  pub calculate_stealth_balances : List (StealthPayment K) → List (MintKey K × ℕ)
  unfolding add_payments
  calculate_stealth_balances payments = add_payments [] payments

  -- The amounts of the payments of one mint.
  pub total_of : MintKey K → List (StealthPayment K) → ℕ
  total_of k [] = 0
  total_of k (p ∷ rest) = (if equals p.mint k then p.amount else 0) + total_of k rest

  module _ (equals_iff : (a b : MintKey K) → (equals a b ≡ true) ↔ (a ≡ b)) where
    get-set :
        (m : List (MintKey K × ℕ)) (k j : MintKey K) (n : ℕ)
        → get (set m k n) j ≡ (if equals k j then some n else get m j)
    unfolding get set
    get-set [] k j n = refl
    get-set ((i, v) ∷ rest) k j n = elim (Bool-cases (equals i k)) [
      | inl same ↦
          let eq = (equals_iff i k).0 same in
          rw (same, eq)
            (elim (Bool-cases (equals k j)) [ inl hit ↦ rw hit refl | inr miss ↦ rw miss refl ])
      | inr other ↦ rw other (elim (Bool-cases (equals i j)) [
        | inr miss ↦ rw miss (get-set rest k j n)
        | inl hit ↦
            let apart : equals k j ≡ false = elim (Bool-cases (equals k j)) [
              | inr no_match ↦ no_match
              | inl match ↦
                  let same : equals i k ≡ true =
                    (equals_iff i k).1 ((equals_iff i j).0 hit ∙ sym ((equals_iff k j).0 match)) in
                  cc (same, other)
            ] in
            rw (hit, apart) refl
      ])
    ]

    or_zero-set :
        (m : List (MintKey K × ℕ)) (k j : MintKey K) (n : ℕ)
        → or_zero (get (set m k (or_zero (get m k) + n)) j)
          ≡ or_zero (get m j) + (if equals k j then n else 0)
    or_zero-set m k j n =
        ap or_zero (get-set m k j (or_zero (get m k) + n)) ∙ elim (Bool-cases (equals k j)) [
          | inl match ↦ rw (match, (equals_iff k j).0 match) refl
          | inr miss ↦ rw miss (omega arith)
        ]

    add_payments-total :
        (m : List (MintKey K × ℕ)) (payments : List (StealthPayment K)) (k : MintKey K)
        → or_zero (get (add_payments m payments) k) ≡ or_zero (get m k) + total_of k payments
    unfolding add_payments total_of
    add_payments-total m [] k = omega arith
    add_payments-total m (p ∷ rest) k = omega (
      arith,
      add_payments-total (set m p.mint (or_zero (get m p.mint) + p.amount)) rest k,
      or_zero-set m p.mint k p.amount,
    )

    -- `calculateStealthBalances` gives every mint the sum of the amounts of its payments, which is 0
    -- for a mint that the map does not have.
    pub calculate_stealth_balances-total :
        (payments : List (StealthPayment K)) (k : MintKey K)
        → or_zero (get (calculate_stealth_balances payments) k) ≡ total_of k payments
    unfolding calculate_stealth_balances get
    calculate_stealth_balances-total payments k = omega (arith, add_payments-total [] payments k)
