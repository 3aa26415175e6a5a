-- ===== src/Tests/Data.antt =====
-- Concrete parameters and values: a hash of two bytes strings, a chain with two deposits, an SDK.
use kirite.Prelude.{
  Bool, ◌&&◌, ltb, lt→ltb, err, Error, ℕ, ◌+◌, ◌-◌, ◌<◌, ◌≡◌, refl, true, false, pos, Option, none,
  some, List, [], ◌∷◌, ◌++◌, map, ok, length, length-map, replicate, take, arith, ◌==◌,
  if◌then◌else◌,
}
use kirite.Bytes.{Bytes, be_value, be_value_from}
use kirite.Poseidon.{hash_nodes, fe_to_be32, bn254_field_modulus}
use kirite.Poseidon.Toy.{toy}
use kirite.Merkle.Syscall.{IsCanonical, Syscall}
use kirite.Field.{be32_to_bigint}
use kirite.Field.RoundTrip.{be32_to_bigint-eq-be_value}
use kirite.Prelude.{◌∙◌}
use kirite.Web3.Toy.{Key, toy_web3}
use kirite.Events.{
  Line, program_data_prefix, has_line_terminator, is_line_terminator, deposit_event_name,
  Transaction, SignatureInfo, Chain,
}
use kirite.Events.Decode.{Logged, LoggedFits, logged_bytes}
use kirite.Instructions.{Sdk}

abbrev is_canonical : Bytes → Bool
is_canonical bs = (length bs == 32) && ltb (be_value bs) bn254_field_modulus

pub is_canonical-true : (bs : Bytes) → IsCanonical bs → is_canonical bs ≡ true
is_canonical-true bs h = rw (h.len, lt→ltb _ _ h.small) refl

abbrev pub toy_syscall : Syscall toy
toy_syscall = record {
  hash_pair = λ a b.
      if is_canonical a && is_canonical b
      then ok (hash_nodes toy a b)
      else err Error.poseidon_syscall;
  empty = fe_to_be32 toy (toy.hash (toy.e 0 ∷ []));
  hash_pair-eq = λ a b ha hb. rw (is_canonical-true a ha, is_canonical-true b hb) refl;
  empty-eq = refl;
}

-- 32 bytes that spell a small number.
abbrev pub small_bytes : ℕ → Bytes
small_bytes n = replicate 31 0 ++ n ∷ []

abbrev pub commitments : List Bytes
commitments = small_bytes 5 ∷ small_bytes 9 ∷ []

abbrev pub deposit_of : ℕ → Bytes → Logged Key
deposit_of index commitment = record {
  pool = Key.pool_key;
  depositor = Key.alice;
  commitment = commitment;
  encrypted_amount = replicate 64 0;
  leaf_index = index;
  timestamp = pos 1700000000;
}

abbrev pub first_deposit : Logged Key
first_deposit = deposit_of 0 (small_bytes 5)

abbrev pub second_deposit : Logged Key
second_deposit = deposit_of 1 (small_bytes 9)

pub deposit_of-Fits : (i : ℕ) (c : Bytes) → i < 10 → length c ≡ 32 → LoggedFits (deposit_of i c)
deposit_of-Fits i c small len = record {
  commitment = len;
  encrypted_amount = refl;
  leaf_index = omega arith;
  timestamp = omega arith;
}

abbrev pub toy_sha256 : Bytes → Bytes
toy_sha256 bs = replicate 32 (length bs)

abbrev pub toy_to_base64 : Bytes → Line
toy_to_base64 bs = map (λ b. b + 20000) bs

abbrev pub toy_of_base64 : Line → Bytes
toy_of_base64 line = map (λ c. c - 20000) line

pub toy_base64-back : (bs : Bytes) → toy_of_base64 (toy_to_base64 bs) ≡ bs
toy_base64-back [] = refl
toy_base64-back (b ∷ bs) =
    let here : b + 20000 - 20000 ≡ b = omega arith in rw (here, toy_base64-back bs) refl

pub toy_base64-line : (bs : Bytes) → has_line_terminator (toy_to_base64 bs) ≡ false
unfolding has_line_terminator is_line_terminator
toy_base64-line [] = refl
toy_base64-line (b ∷ bs) = ground (arith, toy_base64-line bs)

abbrev pub log_of : Logged Key → Line
log_of l =
    program_data_prefix
    ++ toy_to_base64 (take 8 (toy_sha256 deposit_event_name) ++ logged_bytes toy_web3 l)

abbrev pub transaction_of : ℕ → Option Transaction
transaction_of n =
    if n == 0
    then some (record { meta = some (record { log_messages = some (log_of second_deposit ∷ []) }) })
    else if n == 1
    then none
    else some (record {
      meta =
          some (record { log_messages = some (log_of first_deposit ∷ log_of second_deposit ∷ []) });
    })

abbrev pub signatures : List (SignatureInfo ℕ)
signatures =
    record { signature = 0; failed = false }
    ∷ record { signature = 1; failed = false }
    ∷ record { signature = 7; failed = true }
    ∷ record { signature = 2; failed = false }
    ∷ []

-- The newest transaction first; the last one logged the second deposit too.
abbrev pub toy_chain : Chain
toy_chain = record {
  Signature = ℕ;
  get_signatures = λ limit. ok signatures;
  get_transaction = λ n. ok (transaction_of n);
  sha256 = toy_sha256;
  of_base64 = toy_of_base64;
  to_base64 = toy_to_base64;
  length-sha256 = λ bs. refl;
  of_base64-to_base64 = toy_base64-back;
  to_base64-line = toy_base64-line;
  to_base64-some = λ bs h. rw (length-map bs) h;
}

abbrev pub toy_sdk : Sdk
toy_sdk = record {
  web3 = toy_web3;
  sha256 = toy_sha256;
  length-sha256 = λ bs. refl;
  kirite_program_id = Key.program;
  staking_program_id = Key.program;
  token_program_id = Key.bob;
  system_program_id = Key.alice;
}

pub small_bytes-IsCanonical : (n : ℕ) → n < 256 → IsCanonical (small_bytes n)
unfolding be_value be_value_from
small_bytes-IsCanonical n small = record {
  are_bytes = ground arith;
  len = refl;
  small = omega arith;
}

pub small_bytes-value : (n : ℕ) → n < 256 → be32_to_bigint (small_bytes n) ≡ n
unfolding be_value be_value_from
small_bytes-value n small =
    be32_to_bigint-eq-be_value (small_bytes n) (small_bytes-IsCanonical n small).are_bytes
    ∙ omega arith
