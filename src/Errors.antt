-- ===== src/Errors.antt =====
-- The error classes of sdk/src/errors.ts, each with the arguments of its constructor, and
-- `parseTransactionError`.
pub mod Parsed
use kirite.Prelude.{
  ℕ, zero, suc, ◌+◌, Bool, true, false, ◌&&◌, ◌||◌, List, [], ◌∷◌, ◌++◌, Option, none, some, length,
  leb, ltb, ◌==◌, if◌then◌else◌, codes, concat, map,
}
use kirite.Events.{Line, strip_prefix}

-- `ConfirmationTimeoutError` and `SimulationError` are subclasses of `TransactionError`. The context of
-- an error holds the same arguments and is left out.
pub data KiriteError : Type 0 where
  wallet_not_connected : KiriteError
  connection_error : Line → Option Line → KiriteError
  transaction_error : Line → Option Line → Option (List Line) → KiriteError
  confirmation_timeout : Line → Line → KiriteError
  simulation_error : List Line → KiriteError
  proof_error : Line → KiriteError
  invalid_amount : Line → Line → KiriteError
  pool_not_found pool_is_frozen : Line → KiriteError
  invalid_denomination : Line → List Line → KiriteError
  nullifier_spent : Line → KiriteError
  tree_full : Line → Line → KiriteError
  stealth_address_error registry_not_found account_not_found : Line → KiriteError
  insufficient_balance : Line → Line → KiriteError
  relayer_error : Line → KiriteError

-- The field `code`.
pub code : KiriteError → ℕ
code wallet_not_connected = 1000
code (connection_error endpoint cause) = 1001
code (transaction_error message signature logs) = 2000
code (confirmation_timeout signature timeout) = 2000
code (simulation_error logs) = 2000
code (proof_error reason) = 4000
code (invalid_amount amount reason) = 5000
code (pool_not_found pool) = 5001
code (pool_is_frozen pool) = 5002
code (invalid_denomination denomination allowed) = 5003
code (nullifier_spent hash) = 5004
code (tree_full pool capacity) = 5005
code (stealth_address_error reason) = 6000
code (registry_not_found owner) = 6001
code (account_not_found account) = 7000
code (insufficient_balance required available) = 7001
code (relayer_error reason) = 8000

-- `allowed.join(separator)`
pub join : Line → List Line → Line
join separator [] = []
join separator (x ∷ []) = x
join separator (x ∷ y ∷ rest) = x ++ (separator ++ join separator (y ∷ rest))

abbrev cause_text : Option Line → Line
cause_text none = []
cause_text (some []) = []
cause_text (some (c ∷ cs)) = codes " (" ++ ((c ∷ cs) ++ codes ")")

-- The field `message`; a number among the arguments stands for its decimal text.
pub message : KiriteError → Line
unfolding join
message wallet_not_connected = codes "Wallet not connected. Provide a keypair in client config."
message (connection_error endpoint cause) =
    codes "Failed to connect to RPC endpoint: " ++ (endpoint ++ cause_text cause)
message (transaction_error text signature logs) = text
message (confirmation_timeout signature timeout) =
    codes "Transaction confirmation timed out after " ++ (timeout ++ codes "ms")
message (simulation_error logs) = codes "Transaction simulation failed"
message (proof_error reason) = codes "Proof error: " ++ reason
message (invalid_amount amount reason) =
    codes "Invalid amount " ++ (amount ++ (codes ": " ++ reason))
message (pool_not_found pool) = codes "Pool not found: " ++ pool
message (pool_is_frozen pool) = codes "Pool is frozen by authority: " ++ pool
message (invalid_denomination denomination allowed) =
    codes "Invalid denomination "
    ++ (denomination ++ (codes ". Allowed: " ++ join (codes ", ") allowed))
message (nullifier_spent hash) = codes "Nullifier already spent: " ++ hash
message (tree_full pool capacity) =
    codes "Merkle tree is full for pool "
    ++ (pool ++ (codes " (capacity " ++ (capacity ++ codes ")")))
message (stealth_address_error reason) = codes "Stealth address error: " ++ reason
message (registry_not_found owner) = codes "Stealth registry entry not found for owner: " ++ owner
message (account_not_found account) = codes "Account not found: " ++ account
message (insufficient_balance required available) =
    codes "Insufficient balance. Required: " ++ (required ++ (codes ", available: " ++ available))
message (relayer_error reason) = codes "Relayer error: " ++ reason

-- `err instanceof TransactionError`
unfoldable pub is_transaction_error : KiriteError → Bool
is_transaction_error (transaction_error text signature logs) = true
is_transaction_error (confirmation_timeout signature timeout) = true
is_transaction_error (simulation_error logs) = true
is_transaction_error _ = false

-- The lower case of a character. The letters beyond ASCII of which the lower case has one of ASCII
-- are U+0130 and the Kelvin sign; the others are left as they are, since no text that is searched for
-- has one beyond ASCII.
unfoldable pub to_lower : ℕ → Line
to_lower c =
    if leb 65 c && leb c 90
    then (c + 32) ∷ []
    else if c == 0x212a
    then 107 ∷ []
    else if c == 0x130
    then 105 ∷ 0x307 ∷ []
    else c ∷ []

-- `text.toLowerCase()`
unfoldable pub to_lower_case : Line → Line
unfolding to_lower
to_lower_case text = concat (map to_lower text)

-- `text.includes(pattern)`
unfoldable pub includes : Line → Line → Bool
unfolding strip_prefix
includes pattern [] = elim (strip_prefix pattern []) [ none ↦ false | some rest ↦ true ]
includes pattern (c ∷ cs) = elim (strip_prefix pattern (c ∷ cs)) [
  | none ↦ includes pattern cs
  | some rest ↦ true
]

-- The four tests of `parseTransactionError` on the lines in lower case.
pub classify : Line → Option KiriteError
unfolding includes
classify joined =
    if includes (codes "nullifier") joined
      && (includes (codes "already") joined || includes (codes "spent") joined)
    then some (nullifier_spent (codes "(see logs)"))
    else if includes (codes "tree") joined && includes (codes "full") joined
    then some (tree_full (codes "(unknown)") (codes "0"))
    else if includes (codes "pool") joined
        && (includes (codes "frozen") joined || includes (codes "paused") joined)
    then some (pool_is_frozen (codes "(unknown)"))
    else if includes (codes "invalid") joined && includes (codes "proof") joined
    then some (proof_error (codes "on-chain verifier rejected proof"))
    else none

pub parse_transaction_error : Option (List Line) → Option KiriteError
unfolding classify to_lower_case join
parse_transaction_error none = none
parse_transaction_error (some []) = none
parse_transaction_error (some (line ∷ lines)) =
    classify (to_lower_case (join (10 ∷ []) (line ∷ lines)))
