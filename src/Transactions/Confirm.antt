-- ===== src/Transactions/Confirm.antt =====
-- `sendAndConfirmTransaction`, `simulateTransaction` and `getTransactionLogs` of
-- sdk/src/utils/transaction.ts.
use kirite.Prelude.{
  ℕ, ◌≡◌, ◌⊎◌, inl, inr, refl, Bool-cases, Bool, true, false, List, [], ◌++◌, Option, none, some,
  codes,
}
use kirite.Errors.{KiriteError, is_transaction_error}
use kirite.Events.{Line}
use kirite.Transactions.{
  Thrown, sdk_error, plain_error, Outcome, throws, returns, Outcome-cases, message_of,
}

-- How the race of `confirmTransaction` with the timer ends; `failed` holds the JSON of `value.err`.
pub data Confirmation : Type 0 where
  confirmed timed_out : Confirmation
  failed : Line → Confirmation
  unanswered : Thrown → Confirmation

-- `tx?.meta?.logMessages || []`, and `[]` where the call throws.
pub get_transaction_logs : Outcome (Option (List Line)) → List Line
get_transaction_logs (throws e) = []
get_transaction_logs (returns none) = []
get_transaction_logs (returns (some logs)) = logs

-- The `catch` of `sendAndConfirmTransaction`.
pub confirm_error : Line → Thrown → KiriteError
unfolding message_of
confirm_error signature (sdk_error e) = elim (is_transaction_error e) [
  | true ↦ e
  | false ↦
      KiriteError.transaction_error
        (codes "Failed to confirm transaction: " ++ message_of (sdk_error e)) (some signature) none
]
confirm_error signature (plain_error text) =
    KiriteError.transaction_error (codes "Failed to confirm transaction: " ++ text) (some signature)
      none

-- The answers of the connection behind a signature: the blockhash, the race, the logs; and the text of
-- the timeout.
pub record Answers : Type 0 where
  pub latest_blockhash : Outcome (Line × ℕ)
  pub race : Line × ℕ → Confirmation
  pub transaction_logs : Outcome (Option (List Line))
  pub timeout : Line

module _ (answers : Answers) where
  pub settle : Line → Confirmation → Outcome Line
  unfolding confirm_error get_transaction_logs
  settle signature confirmed = returns signature
  settle signature timed_out =
      throws (sdk_error (KiriteError.confirmation_timeout signature answers.timeout))
  settle signature (failed json) = throws (
      sdk_error (
        KiriteError.transaction_error (codes "Transaction confirmed but failed: " ++ json)
          (some signature) (some (get_transaction_logs answers.transaction_logs))))
  settle signature (unanswered e) = throws (sdk_error (confirm_error signature e))

  -- What `signAndSendTransaction` gave, and what becomes of it.
  pub send_and_confirm_transaction : Outcome Line → Outcome Line
  unfolding settle confirm_error
  send_and_confirm_transaction (throws e) = throws e
  send_and_confirm_transaction (returns signature) = elim answers.latest_blockhash [
    | throws e ↦ throws (sdk_error (confirm_error signature e))
    | returns latest ↦ settle signature (answers.race latest)
  ]

-- `simulateTransaction`, on whether the simulation failed and its logs.
pub simulate_transaction : Bool × Option (List Line) → Outcome (List Line)
simulate_transaction (true, none) = throws (sdk_error (KiriteError.simulation_error []))
simulate_transaction (true, some logs) = throws (sdk_error (KiriteError.simulation_error logs))
simulate_transaction (false, none) = returns []
simulate_transaction (false, some logs) = returns logs

confirm_error-IsTransaction :
    (signature : Line) (e : Thrown) → is_transaction_error (confirm_error signature e) ≡ true
unfolding confirm_error is_transaction_error
confirm_error-IsTransaction signature (sdk_error e) = elim (Bool-cases (is_transaction_error e)) [
  | inl already ↦ rw (already, confirm_error) already
  | inr not_yet ↦ rw (not_yet, confirm_error) refl
]
confirm_error-IsTransaction signature (plain_error text) = refl

settle-ends :
    (answers : Answers) (signature : Line) (c : Confirmation)
    → ((c ≡ confirmed) × (settle answers signature c ≡ returns signature))
      ⊎ ((e : KiriteError) × (settle answers signature c ≡ throws (sdk_error e))
          × (is_transaction_error e ≡ true)
          × (¬ (c ≡ confirmed)))
unfolding settle is_transaction_error
settle-ends answers signature confirmed = inl (refl, refl)
settle-ends answers signature timed_out = inr (_, refl, refl, λ same. cc)
settle-ends answers signature (failed json) = inr (_, refl, refl, λ same. cc)
settle-ends answers signature (unanswered e) =
    inr (_, refl, confirm_error-IsTransaction signature e, λ same. cc)

-- The connection gives a blockhash, and the race that starts from it ends in a confirmation without an
-- error.
pub record IsConfirmed (answers : Answers) : Type 0 where
  pub latest : Line × ℕ
  pub given : answers.latest_blockhash ≡ returns latest
  pub won : answers.race latest ≡ confirmed

-- What a confirmation ends in: the signature, and then the blockhash was given and the race ended in a
-- confirmation without an error, or a `TransactionError`, and then that is not so.
pub send_and_confirm_transaction_ends :
    (answers : Answers) (signature : Line)
    → ((send_and_confirm_transaction answers (returns signature) ≡ returns signature)
        × IsConfirmed answers)
      ⊎ ((e : KiriteError) × (send_and_confirm_transaction answers (returns signature)
            ≡ throws (sdk_error e))
          × (is_transaction_error e ≡ true)
          × (¬ IsConfirmed answers))
unfolding send_and_confirm_transaction
send_and_confirm_transaction_ends answers signature =
    elim (Outcome-cases answers.latest_blockhash) [
      | inr (e, lost) ↦ inr (
        confirm_error signature e,
        rw (lost, send_and_confirm_transaction) refl,
        confirm_error-IsTransaction signature e,
        λ (h : IsConfirmed answers). let given = h.given in cc,
      )
      | inl (latest, given) ↦ elim (settle-ends answers signature (answers.race latest)) [
        | inl (won, same) ↦ inl (
          rw (given, send_and_confirm_transaction) same,
          record { latest = latest; given = given; won = won },
        )
        | inr (e, same, is, lost) ↦ inr (
          e,
          rw (given, send_and_confirm_transaction) same,
          is,
          λ (h : IsConfirmed answers). let given' = h.given in let won = h.won in lost cc,
        )
      ]
    ]
