-- ===== src/Connection.antt =====
-- sdk/src/utils/connection.ts: the endpoints, the batches of accounts and the checks of answers. Calls
-- that pass their arguments on to @solana/web3.js are left out.
pub mod Batches
use kirite.Prelude.{
  ℕ, zero, suc, ◌+◌, ◌≡◌, Bool, true, false, ◌||◌, not, List, [], ◌∷◌, ◌++◌, Option, none, some,
  take, drop, length, ltb, bytes_eq, if◌then◌else◌, codes,
}
use kirite.Bytes.{Bytes}
use kirite.Errors.{KiriteError, message, to_lower_case}
use kirite.Events.{Line, strip_prefix}
use kirite.Transactions.{
  Thrown, sdk_error, plain_error, Outcome, throws, returns, ◌>>=◌, message_of,
}

-- `text.startsWith(prefix)`
pub starts_with : Line → Line → Bool
starts_with prefix text = elim (strip_prefix prefix text) [ none ↦ false | some rest ↦ true ]

abbrev pub unknown_network : Line
unknown_network = codes "Unknown network. Use mainnet, devnet, testnet, localnet, or a URL."

pub resolve_endpoint : Line → Outcome Line
unfolding starts_with
resolve_endpoint network =
    let name = to_lower_case network in
    if bytes_eq name (codes "mainnet") || bytes_eq name (codes "mainnet-beta")
    then returns (codes "https://api.mainnet-beta.solana.com")
    else if bytes_eq name (codes "devnet")
    then returns (codes "https://api.devnet.solana.com")
    else if bytes_eq name (codes "testnet")
    then returns (codes "https://api.testnet.solana.com")
    else if bytes_eq name (codes "localnet") || bytes_eq name (codes "localhost")
    then returns (codes "http://localhost:8899")
    else if starts_with (codes "http://") network || starts_with (codes "https://") network
    then returns network
    else throws (sdk_error (KiriteError.connection_error network (some unknown_network)))

-- `validateConnection`, on the answer to `getSlot` and the endpoint's text.
pub validate_connection : Outcome ℕ → Line → Outcome (Unit {0})
validate_connection (throws e) endpoint =
    throws (sdk_error (KiriteError.connection_error endpoint (some (message_of e))))
validate_connection (returns zero) endpoint =
    throws
      (sdk_error (KiriteError.connection_error endpoint (some (codes "Invalid slot returned"))))
validate_connection (returns (suc slot)) endpoint = returns tt

-- `fetchAccountOrThrow`, on the answer to `getAccountInfo` and the texts of the type and the address.
pub fetch_account_or_throw : {A : Type 0} → Outcome (Option A) → Line → Line → Outcome A
fetch_account_or_throw (throws e) account_type address = throws e
fetch_account_or_throw (returns none) account_type address =
    throws (sdk_error (KiriteError.account_not_found (account_type ++ (codes ":" ++ address))))
fetch_account_or_throw (returns (some account)) account_type address = returns account

abbrev pub batch_size : ℕ
batch_size = 100

module _ {K A : Type 0} (get_multiple_accounts_info : List K → Outcome (List A)) where
  -- The loop of `fetchMultipleAccounts` over the addresses that are left, with the results so far; there
  -- is fuel for each address.
  pub fetch_batches : ℕ → List K → List A → Outcome (List A)
  fetch_batches fuel [] results = returns results
  fetch_batches zero (a ∷ addresses) results = returns results
  fetch_batches (suc fuel) (a ∷ addresses) results =
      get_multiple_accounts_info (take batch_size (a ∷ addresses)) >>= λ infos.
      fetch_batches fuel (drop batch_size (a ∷ addresses)) (results ++ infos)

  pub fetch_multiple_accounts : List K → Outcome (List A)
  unfolding fetch_batches
  fetch_multiple_accounts addresses = fetch_batches (length addresses) addresses []
