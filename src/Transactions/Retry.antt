-- ===== src/Transactions/Retry.antt =====
-- The retries of `signAndSendTransaction`: how many, how long they wait, and how a run ends.
use kirite.Prelude.{
  ℕ, zero, suc, ◌+◌, ◌*◌, ◌≤◌, ◌<◌, ◌≡◌, refl, true, false, List, [], ◌∷◌, All, Bool-cases, inl,
  inr, arith,
}
use kirite.Errors.{is_transaction_error}
use kirite.Events.{Line}
use kirite.Transactions.Messages.{is_non_retryable}
use kirite.Transactions.{
  Thrown, sdk_error, plain_error, throws, returns, Outcome-cases, message_of, Transaction,
  RetryConfig, or_else, capped_delay, wrap_send_error, Event, sent, slept, Network,
  calculate_backoff, send_loop, sign_and_send_transaction,
}

-- The transactions sent in a run.
abbrev pub sends : List Event → ℕ
sends [] = 0
sends (sent blockhash ∷ events) = sends events + 1
sends (slept ms ∷ events) = sends events

-- `maxDelayMs` or what stands for it.
abbrev pub greatest_delay : RetryConfig → ℕ
greatest_delay config = or_else config.max_delay_ms config.max_delay 5000

-- A sleep is of at most one and a half times the greatest delay.
abbrev pub SleepFits : RetryConfig → Event → Type 0
SleepFits config (sent blockhash) = Unit {0}
SleepFits config (slept ms) = ms * 2 ≤ greatest_delay config * 3

wrap_send_error-IsTransaction : (e : Thrown) → is_transaction_error (wrap_send_error e) ≡ true
unfolding wrap_send_error is_transaction_error
wrap_send_error-IsTransaction (sdk_error e) = elim (Bool-cases (is_transaction_error e)) [
  | inl already ↦ rw (already, wrap_send_error) already
  | inr not_yet ↦ rw (not_yet, wrap_send_error) refl
]
wrap_send_error-IsTransaction (plain_error text) = refl

module _ {K I : Type 0} (net : Network K I) (config : RetryConfig) where
  open net use {send_raw_transaction, get_latest_blockhash, jitter}

  calculate_backoff-fits :
      (attempt : ℕ) → calculate_backoff net config attempt * 2 ≤ greatest_delay config * 3
  unfolding calculate_backoff capped_delay
  calculate_backoff-fits attempt =
      ground (arith, net.jitter-le attempt (capped_delay attempt config))

  send_loop-bounds :
      (left attempt : ℕ) (tx : Transaction K I)
      → (sends (send_loop net config left attempt tx).1 ≤ left + 1)
        × All (SleepFits config) (send_loop net config left attempt tx).1
  unfolding send_loop
  send_loop-bounds zero attempt tx = elim (Outcome-cases (send_raw_transaction attempt tx)) [
    | inl (signature, same) ↦ rw (same, send_loop) (omega arith, (tt, tt))
    | inr (e, same) ↦ rw (same, send_loop) (omega arith, (tt, tt))
  ]
  send_loop-bounds (suc left) attempt tx = elim (Outcome-cases (send_raw_transaction attempt tx)) [
    | inl (signature, same) ↦ rw (same, send_loop) (omega arith, (tt, tt))
    | inr (e, same) ↦ elim (Bool-cases (is_non_retryable (message_of e))) [
      | inl final ↦ rw (same, send_loop, final) (omega arith, (tt, tt))
      | inr again ↦ elim (Outcome-cases (get_latest_blockhash (attempt + 1))) [
        | inr (e', lost) ↦
            rw (same, send_loop, again, lost)
              (omega arith, (tt, (calculate_backoff-fits (attempt + 1), tt)))
        | inl ((blockhash, height), fresh) ↦
            let (count, fits) =
              send_loop-bounds left (attempt + 1)
                (record tx { recent_blockhash = blockhash; last_valid_block_height = height }) in
            rw (same, send_loop, again, fresh)
              (omega (arith, count), (tt, (calculate_backoff-fits (attempt + 1), fits)))
      ]
    ]
  ]

  -- A run sends the transaction at most once more than it may retry, and none of its sleeps is longer
  -- than one and a half times the greatest delay.
  pub sign_and_send_transaction_bounds :
      (tx : Transaction K I)
      → (sends (sign_and_send_transaction net config tx).1 ≤ config.max_retries + 1)
        × All (SleepFits config) (sign_and_send_transaction net config tx).1
  unfolding sign_and_send_transaction
  sign_and_send_transaction_bounds tx = send_loop-bounds config.max_retries 0 tx

  -- The attempt fails with an error that is retried, whatever transaction it sends.
  pub record FailsRetryably (attempt : ℕ) : Type 0 where
    pub error : Thrown
    pub fails : (tx : Transaction K I) → send_raw_transaction attempt tx ≡ throws error
    pub retryable : is_non_retryable (message_of error) ≡ false

  -- The blockhash that is asked for after so many failed attempts is given.
  pub record Refreshes (attempt : ℕ) : Type 0 where
    pub latest : Line × ℕ
    pub answered : get_latest_blockhash attempt ≡ returns latest

  -- An attempt that fails and is retried goes over into the next.
  send_loop-next :
      (left attempt : ℕ) (tx : Transaction K I) (failure : FailsRetryably attempt)
      (refresh : Refreshes (attempt + 1))
      → let later = send_loop net config left (attempt + 1) (record tx {
        recent_blockhash = refresh.latest.0;
        last_valid_block_height = refresh.latest.1;
      }) in
        send_loop net config (suc left) attempt tx ≡ (
          later.0,
          sent tx.recent_blockhash ∷ slept (calculate_backoff net config (attempt + 1)) ∷ later.1,
        )
  unfolding send_loop
  send_loop-next left attempt tx failure refresh =
      rw (failure.fails tx, send_loop, failure.retryable, refresh.answered) refl

  send_loop-succeeds :
      (k left attempt n : ℕ) (tx : Transaction K I) (signature : Line)
      → attempt + k ≡ n
      → k ≤ left
      → ((i : ℕ) → i < n → FailsRetryably i)
      → ((i : ℕ) → i < n → Refreshes (i + 1))
      → ((t : Transaction K I) → send_raw_transaction n t ≡ returns signature)
      → ((send_loop net config left attempt tx).0 ≡ returns signature)
        × (sends (send_loop net config left attempt tx).1 ≡ k + 1)
  unfolding send_loop
  send_loop-succeeds zero zero attempt n tx signature at_n fits fail fresh succeed =
      let here : attempt ≡ n = omega arith in rw (here, succeed tx, send_loop) (refl, omega arith)
  send_loop-succeeds zero (suc left) attempt n tx signature at_n fits fail fresh succeed =
      let here : attempt ≡ n = omega arith in rw (here, succeed tx, send_loop) (refl, omega arith)
  send_loop-succeeds (suc k) zero attempt n tx signature at_n fits fail fresh succeed =
      absurd (omega arith)
  send_loop-succeeds (suc k) (suc left) attempt n tx signature at_n fits fail fresh succeed =
      let failure = fail attempt (omega arith) in
      let refresh = fresh attempt (omega arith) in
      let (result, count) =
        send_loop-succeeds k left (attempt + 1) n
          (record tx {
            recent_blockhash = refresh.latest.0;
            last_valid_block_height = refresh.latest.1;
          })
          signature (omega arith) (omega arith) fail fresh succeed in
      rw (send_loop-next left attempt tx failure refresh) (result, omega (arith, count))

  send_loop-exhausts :
      (left attempt n : ℕ) (tx : Transaction K I) (last : FailsRetryably n)
      → attempt + left ≡ n
      → ((i : ℕ) → i < n → FailsRetryably i)
      → ((i : ℕ) → i < n → Refreshes (i + 1))
      → ((send_loop net config left attempt tx).0 ≡ throws (sdk_error (wrap_send_error last.error)))
        × (sends (send_loop net config left attempt tx).1 ≡ left + 1)
  unfolding send_loop
  send_loop-exhausts zero attempt n tx last at_n fail fresh =
      let here : attempt ≡ n = omega arith in
      rw (here, last.fails tx, send_loop) (refl, omega arith)
  send_loop-exhausts (suc left) attempt n tx last at_n fail fresh =
      let failure = fail attempt (omega arith) in
      let refresh = fresh attempt (omega arith) in
      let (result, count) =
        send_loop-exhausts left (attempt + 1) n
          (record tx {
            recent_blockhash = refresh.latest.0;
            last_valid_block_height = refresh.latest.1;
          })
          last (omega arith) fail fresh in
      rw (send_loop-next left attempt tx failure refresh) (result, omega (arith, count))

  -- Where the first attempts fail with errors that are retried, each blockhash asked for is given, and
  -- an attempt that may still be made succeeds, the run gives its signature, and has sent the
  -- transaction once for each attempt up to it.
  pub sign_and_send_transaction-succeeds :
      (n : ℕ) (tx : Transaction K I) (signature : Line)
      → n ≤ config.max_retries
      → ((i : ℕ) → i < n → FailsRetryably i)
      → ((i : ℕ) → i < n → Refreshes (i + 1))
      → ((t : Transaction K I) → send_raw_transaction n t ≡ returns signature)
      → ((sign_and_send_transaction net config tx).0 ≡ returns signature)
        × (sends (sign_and_send_transaction net config tx).1 ≡ n + 1)
  unfolding sign_and_send_transaction
  sign_and_send_transaction-succeeds n tx signature fits fail fresh succeed =
      send_loop-succeeds n config.max_retries 0 n tx signature (omega arith) fits fail fresh succeed

  -- Where every attempt fails with an error that is retried and each blockhash asked for is given, the
  -- run throws the last error as a `TransactionError`, and has made every attempt that it may make.
  pub sign_and_send_transaction-exhausts :
      (tx : Transaction K I) (last : FailsRetryably config.max_retries)
      → ((i : ℕ) → i < config.max_retries → FailsRetryably i)
      → ((i : ℕ) → i < config.max_retries → Refreshes (i + 1))
      → ((sign_and_send_transaction net config tx).0
          ≡ throws (sdk_error (wrap_send_error last.error)))
        × (sends (sign_and_send_transaction net config tx).1 ≡ config.max_retries + 1)
        × (is_transaction_error (wrap_send_error last.error) ≡ true)
  unfolding sign_and_send_transaction
  sign_and_send_transaction-exhausts tx last fail fresh =
      let (result, count) =
        send_loop-exhausts config.max_retries 0 config.max_retries tx last (omega arith) fail
          fresh in
      (result, count, wrap_send_error-IsTransaction last.error)
