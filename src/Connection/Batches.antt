-- ===== src/Connection/Batches.antt =====
-- Fetching accounts in batches gives what asking for each address gives.
use kirite.Prelude.{
  ℕ, zero, suc, ◌≤◌, ◌≡◌, refl, ap, sym, ◌∙◌, List, [], ◌∷◌, ◌++◌, append_assoc, append-nil, map,
  length, take, drop, length-take, length-drop, arith,
}
use kirite.Connection.{batch_size, fetch_batches, fetch_multiple_accounts}
use kirite.Transactions.{Outcome, returns, ◌>>=◌}

map-take-drop :
    {K A : Type 0} (n : ℕ) (f : K → A) (xs : List K)
    → map f (take n xs) ++ map f (drop n xs) ≡ map f xs
map-take-drop zero f xs = refl
map-take-drop (suc n) f [] = refl
map-take-drop (suc n) f (x ∷ xs) = ap (f x ∷◌) (map-take-drop n f xs)

module _ {K A : Type 0} (get : List K → Outcome (List A)) (account_of : K → A)
    (answers : (batch : List K)
      → length batch ≤ batch_size
      → get batch ≡ returns (map account_of batch)) where
  fetch_batches-eq :
      (fuel : ℕ) (addresses : List K) (results : List A)
      → length addresses ≤ fuel
      → fetch_batches get fuel addresses results ≡ returns (results ++ map account_of addresses)
  unfolding fetch_batches
  fetch_batches-eq zero [] results h = ap returns (sym (append-nil results))
  fetch_batches-eq (suc fuel) [] results h = ap returns (sym (append-nil results))
  fetch_batches-eq zero (a ∷ addresses) results h = absurd (omega arith)
  fetch_batches-eq (suc fuel) (a ∷ addresses) results h =
      let first = take batch_size (a ∷ addresses) in
      let rest = drop batch_size (a ∷ addresses) in
      let asked = answers first (omega (arith, length-take batch_size (a ∷ addresses))) in
      let later =
        fetch_batches-eq fuel rest (results ++ map account_of first)
          (omega (arith, length-drop batch_size (a ∷ addresses))) in
      let whole : (results ++ map account_of first) ++ map account_of rest
          ≡ results ++ map account_of (a ∷ addresses) =
        append_assoc results (map account_of first) (map account_of rest)
        ∙ ap (results ++◌) (map-take-drop batch_size account_of (a ∷ addresses)) in
      rw (asked, ◌>>=◌) (later ∙ ap returns whole)

  -- Where the connection gives the account of each address of a batch of at most 100, in their order,
  -- `fetchMultipleAccounts` gives the account of each address, in their order: no batch is larger, and
  -- there is fuel for all of them.
  fetch_multiple_accounts-eq :
      (addresses : List K)
      → fetch_multiple_accounts get addresses ≡ returns (map account_of addresses)
  unfolding fetch_multiple_accounts
  fetch_multiple_accounts-eq addresses =
      fetch_batches-eq (length addresses) addresses [] (omega arith)
