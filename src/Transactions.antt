-- ===== src/Transactions.antt =====
-- sdk/src/utils/transaction.ts: building, sending with retries, confirming, and the priority fee. The
-- calls of the connection are parameters, one answer for each time they are made; what is random or
-- waits is in a trace.
pub mod Messages
pub mod Fee
pub mod Retry
pub mod Confirm
use kirite.Prelude.{
  ℕ, zero, suc, ◌+◌, ◌-◌, ◌*◌, ◌/◌, ◌^◌, ◌≤◌, ◌≡◌, ◌⊎◌, inl, inr, refl, Bool, true, false, List, [],
  ◌∷◌, ◌++◌, map, Option, none, some, ltb, if◌then◌else◌, codes,
}
use kirite.Bytes.{Bytes}
use kirite.Errors.{KiriteError, message, is_transaction_error}
use kirite.Events.{Line}
use kirite.Instructions.{TransactionInstruction, AccountMeta}
use kirite.Transactions.Messages.{is_non_retryable, logs_of}

-- What a call throws: an error of the SDK, or another with its message.
pub data Thrown : Type 0 where
  sdk_error : KiriteError → Thrown
  plain_error : Line → Thrown

pub data Outcome {ℓ} (A : Type ℓ) : Type ℓ where
  throws : Thrown → Outcome A
  returns : A → Outcome A

infixl 5 ◌>>=◌
abbrev pub ◌>>=◌ {ℓ κ} : {A : Type ℓ} {B : Type κ} → Outcome A → (A → Outcome B) → Outcome B
throws e >>= next = throws e
returns a >>= next = next a

pub Outcome-cases :
    {A : Type 0} (o : Outcome A) → ((a : A) × (o ≡ returns a)) ⊎ ((e : Thrown) × (o ≡ throws e))
Outcome-cases (returns a) = inl (a, refl)
Outcome-cases (throws e) = inr (e, refl)

unfoldable pub message_of : Thrown → Line
message_of (sdk_error e) = message e
message_of (plain_error text) = text

-- `ComputeBudgetProgram.setComputeUnitLimit`, `setComputeUnitPrice`, and the instructions given.
pub data Step (I : Type 0) : Type 0 where
  compute_unit_limit : ℕ → Step I
  compute_unit_price : ℕ → Step I
  given : I → Step I

pub record Transaction (K I : Type 0) : Type 0 where
  pub steps : List (Step I)
  pub recent_blockhash : Line
  pub last_valid_block_height : ℕ
  pub fee_payer : K

-- `if (computeUnits)`, `if (priorityFee && priorityFee > 0)`: neither of 0.
pub limit_steps : {I : Type 0} → Option ℕ → List (Step I)
limit_steps none = []
limit_steps (some zero) = []
limit_steps (some (suc n)) = compute_unit_limit (suc n) ∷ []

pub price_steps : {I : Type 0} → Option ℕ → List (Step I)
price_steps none = []
price_steps (some zero) = []
price_steps (some (suc n)) = compute_unit_price (suc n) ∷ []

-- The instructions of `buildTransaction` and of `buildVersionedTransaction`.
pub all_steps : {I : Type 0} → List I → Option ℕ → Option ℕ → List (Step I)
unfolding limit_steps price_steps
all_steps instructions compute_units priority_fee =
    limit_steps compute_units ++ (price_steps priority_fee ++ map given instructions)

pub build_transaction :
    {K I : Type 0}
    → Outcome (Line × ℕ)
    → K
    → List I
    → Option ℕ
    → Option ℕ
    → Outcome (Transaction K I)
unfolding all_steps
build_transaction latest_blockhash payer instructions compute_units priority_fee =
    latest_blockhash >>= λ latest. returns (record {
      steps = all_steps instructions compute_units priority_fee;
      recent_blockhash = latest.0;
      last_valid_block_height = latest.1;
      fee_payer = payer;
    })

-- `RetryConfig`, its two aliases among it.
pub record RetryConfig : Type 0 where
  pub max_retries : ℕ
  pub initial_delay_ms : Option ℕ
  pub max_delay_ms : Option ℕ
  pub backoff_multiplier : ℕ
  pub base_delay : Option ℕ
  pub max_delay : Option ℕ

-- `DEFAULT_RETRY_CONFIG`
abbrev pub default_retry_config : RetryConfig
default_retry_config = record {
  max_retries = 3;
  initial_delay_ms = some 500;
  max_delay_ms = some 5000;
  backoff_multiplier = 2;
  base_delay = none;
  max_delay = none;
}

-- `a ?? b ?? n`
abbrev pub or_else : Option ℕ → Option ℕ → ℕ → ℕ
or_else (some a) b n = a
or_else none (some b) n = b
or_else none none n = n

-- `Math.min`
abbrev pub min_of : ℕ → ℕ → ℕ
min_of a b = if ltb a b then a else b

-- `cappedDelay` of the `attempt`-th retry.
pub capped_delay : ℕ → RetryConfig → ℕ
capped_delay attempt config =
    min_of
      (or_else config.initial_delay_ms config.base_delay 500
        * config.backoff_multiplier ^ (attempt - 1))
      (or_else config.max_delay_ms config.max_delay 5000)

-- `wrapSendError`
pub wrap_send_error : Thrown → KiriteError
unfolding message_of
wrap_send_error (sdk_error e) =
    if is_transaction_error e
    then e
    else KiriteError.transaction_error (message e) none (logs_of (message e))
wrap_send_error (plain_error text) = KiriteError.transaction_error text none (logs_of text)

-- What a run does on its way: a transaction is sent with its blockhash, or the run sleeps.
pub data Event : Type 0 where
  sent : Line → Event
  slept : ℕ → Event

-- The connection's answers to the calls of a run, by the number of failed attempts before each, and
-- what jitter adds to a delay: a whole number of at most half of it.
pub record Network (K I : Type 0) : Type 0 where
  pub send_raw_transaction : ℕ → Transaction K I → Outcome Line
  pub get_latest_blockhash : ℕ → Outcome (Line × ℕ)
  pub jitter : ℕ → ℕ → ℕ
  pub jitter-le : (attempt delay : ℕ) → jitter attempt delay * 2 ≤ delay

module _ {K I : Type 0} (net : Network K I) (config : RetryConfig) where
  open net use {send_raw_transaction, get_latest_blockhash, jitter}

  pub calculate_backoff : ℕ → ℕ
  unfolding capped_delay
  calculate_backoff attempt =
      capped_delay attempt config + jitter attempt (capped_delay attempt config)

  -- The loop of `signAndSendTransaction` with so many retries left, after `attempt` failed attempts.
  pub send_loop : ℕ → ℕ → Transaction K I → Outcome Line × List Event
  unfolding wrap_send_error calculate_backoff
  send_loop zero attempt tx = elim (send_raw_transaction attempt tx) [
    | returns signature ↦ (returns signature, sent tx.recent_blockhash ∷ [])
    | throws e ↦ (throws (sdk_error (wrap_send_error e)), sent tx.recent_blockhash ∷ [])
  ]
  send_loop (suc left) attempt tx = elim (send_raw_transaction attempt tx) [
    | returns signature ↦ (returns signature, sent tx.recent_blockhash ∷ [])
    | throws e ↦ elim (is_non_retryable (message_of e)) [
      | true ↦ (throws (sdk_error (wrap_send_error e)), sent tx.recent_blockhash ∷ [])
      | false ↦ elim (get_latest_blockhash (attempt + 1)) [
        | throws e' ↦
            (throws e', sent tx.recent_blockhash ∷ slept (calculate_backoff (attempt + 1)) ∷ [])
        | returns (blockhash, height) ↦
            let later =
              send_loop left (attempt + 1)
                (record tx { recent_blockhash = blockhash; last_valid_block_height = height }) in
            (later.0, sent tx.recent_blockhash ∷ slept (calculate_backoff (attempt + 1)) ∷ later.1)
      ]
    ]
  ]

  pub sign_and_send_transaction : Transaction K I → Outcome Line × List Event
  unfolding send_loop
  sign_and_send_transaction tx = send_loop config.max_retries 0 tx
