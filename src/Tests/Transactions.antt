-- ===== src/Tests/Transactions.antt =====
-- The sending of transactions, the errors and the batches at concrete answers.
use kirite.Prelude.{
  ℕ, ◌+◌, ◌*◌, ◌≤◌, ◌<◌, ◌≡◌, ◌⊎◌, refl, true, false, none, some, All, List, [], ◌∷◌, ◌++◌, length,
  ltb, if◌then◌else◌, codes, arith,
}
use kirite.Errors.{
  KiriteError, is_transaction_error, parse_transaction_error, includes, to_lower, to_lower_case,
}
use kirite.Errors.Parsed.{parse_transaction_error-consumed}
use kirite.Events.{strip_prefix}
use kirite.Transactions.{
  sdk_error, plain_error, throws, returns, message_of, Transaction, default_retry_config,
  wrap_send_error, Network, sign_and_send_transaction,
}
use kirite.Transactions.Messages.{is_non_retryable, some_includes}
use kirite.Transactions.Retry.{
  sends, SleepFits, FailsRetryably, Refreshes, sign_and_send_transaction_bounds,
  sign_and_send_transaction-succeeds, sign_and_send_transaction-exhausts,
}
use kirite.Transactions.Fee.{
  get_median_priority_fee, positive, count_le, get_median_priority_fee_bounds,
}
use kirite.Transactions.Confirm.{
  IsConfirmed, timed_out, Answers, send_and_confirm_transaction, send_and_confirm_transaction_ends,
}

abbrev sent_tx : Transaction ℕ ℕ
sent_tx = record {
  steps = [];
  recent_blockhash = codes "old";
  last_valid_block_height = 0;
  fee_payer = 1;
}

-- A connection on which all attempts before the `n`-th fail.
abbrev flaky : ℕ → Network ℕ ℕ
flaky n = record {
  send_raw_transaction = λ attempt tx.
      if ltb attempt n then throws (plain_error (codes "429")) else returns (codes "sig");
  get_latest_blockhash = λ attempt. returns (codes "new", attempt);
  jitter = λ attempt delay. 0;
  jitter-le = λ attempt delay. omega arith;
}

sign_and_send_transaction_bounds_example :
    (sends (sign_and_send_transaction (flaky 2) default_retry_config sent_tx).1 ≤ 4)
    × All
        (SleepFits default_retry_config)
        (sign_and_send_transaction (flaky 2) default_retry_config sent_tx).1
sign_and_send_transaction_bounds_example =
    sign_and_send_transaction_bounds (flaky 2) default_retry_config sent_tx

rate_limited : is_non_retryable (message_of (plain_error (codes "429"))) ≡ false
unfolding is_non_retryable some_includes includes to_lower_case to_lower strip_prefix message_of
rate_limited = refl

flaky_throws :
    (n i : ℕ) (tx : Transaction ℕ ℕ)
    → i < n
    → (flaky n).send_raw_transaction i tx ≡ throws (plain_error (codes "429"))
flaky_throws n i tx h = ground arith

abbrev flaky-FailsRetryably : (n i : ℕ) → i < n → FailsRetryably (flaky n) default_retry_config i
flaky-FailsRetryably n i h = record {
  error = plain_error (codes "429");
  fails = λ tx. flaky_throws n i tx h;
  retryable = rate_limited;
}

flaky-Refreshes : (n i : ℕ) → Refreshes (flaky n) default_retry_config i
flaky-Refreshes n i = record { latest = (codes "new", i); answered = refl }

sign_and_send_transaction-succeeds_example :
    ((sign_and_send_transaction (flaky 2) default_retry_config sent_tx).0 ≡ returns (codes "sig"))
    × (sends (sign_and_send_transaction (flaky 2) default_retry_config sent_tx).1 ≡ 3)
sign_and_send_transaction-succeeds_example =
    sign_and_send_transaction-succeeds (flaky 2) default_retry_config 2 sent_tx (codes "sig")
      (omega arith) (λ i h. flaky-FailsRetryably 2 i h) (λ i h. flaky-Refreshes 2 (i + 1))
      (λ t. refl)

sign_and_send_transaction-exhausts_example :
    ((sign_and_send_transaction (flaky 9) default_retry_config sent_tx).0
      ≡ throws (sdk_error (wrap_send_error (plain_error (codes "429")))))
    × (sends (sign_and_send_transaction (flaky 9) default_retry_config sent_tx).1 ≡ 4)
    × (is_transaction_error (wrap_send_error (plain_error (codes "429"))) ≡ true)
sign_and_send_transaction-exhausts_example =
    sign_and_send_transaction-exhausts (flaky 9) default_retry_config sent_tx
      (flaky-FailsRetryably 9 3 (omega arith)) (λ i h. flaky-FailsRetryably 9 i (omega (arith, h)))
      (λ i h. flaky-Refreshes 9 (i + 1))

abbrev fees : List ℕ
fees = 9 ∷ 0 ∷ 4 ∷ 30 ∷ 7 ∷ []

get_median_priority_fee_bounds_example :
    (5 ≤ get_median_priority_fee (returns (some fees)) 5)
    × (3 * length (positive fees)
        ≤ 4 * count_le (get_median_priority_fee (returns (some fees)) 5) (positive fees))
get_median_priority_fee_bounds_example = get_median_priority_fee_bounds fees 5

abbrev answers : Answers
answers = record {
  latest_blockhash = returns (codes "new", 7);
  race = λ latest. timed_out;
  transaction_logs = returns none;
  timeout = codes "60000";
}

send_and_confirm_transaction_ends_example :
    ((send_and_confirm_transaction answers (returns (codes "sig")) ≡ returns (codes "sig"))
      × IsConfirmed answers)
    ⊎ ((e : KiriteError) × (send_and_confirm_transaction answers (returns (codes "sig"))
          ≡ throws (sdk_error e))
        × (is_transaction_error e ≡ true)
        × (¬ IsConfirmed answers))
send_and_confirm_transaction_ends_example = send_and_confirm_transaction_ends answers (codes "sig")

parse_transaction_error-consumed_example :
    parse_transaction_error (
      some (
        (codes "Program log: Instruction: Withdraw" ∷ [])
        ++ (codes "Program log: " ++ (codes "Nullifier has already been consumed" ++ codes "."))
          ∷ []))
    ≡ some (KiriteError.nullifier_spent (codes "(see logs)"))
parse_transaction_error-consumed_example =
    parse_transaction_error-consumed (codes "Program log: Instruction: Withdraw" ∷ []) []
      (codes "Program log: ") (codes ".")
