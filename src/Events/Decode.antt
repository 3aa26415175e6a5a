-- ===== src/Events/Decode.antt =====
-- The log line of a deposit gives back its index and its commitment: the events that
-- programs/kirite/src/lib.rs declares, their fields in the order of `struct DepositCommitted`.
use kirite.Prelude.{
  ℕ, ◌≤◌, ◌<◌, ◌^◌, ◌≡◌, refl, false, ℤ, [], ◌∷◌, ◌++◌, concat, none, some, ok, length,
  length-append, length-take, take-append_of_length, bytes_eq_refl, le→ltb, if◌then◌else◌, arith,
}
use kirite.Bytes.{Bytes, le_bytes}
use kirite.Buffer.Reads.{
  i64_bytes, IsI64, Reads, Reads-pure, Reads-bind, Reads-slice, Reads-uint_le, Reads-i64, Reads-key,
  decode_from_8-eq,
}
use kirite.Web3.{Web3}
use kirite.Events.{
  number, skip, Line, program_data_prefix, strip_prefix, has_line_terminator, program_data, Chain,
  decode_deposit_event, deposit_event_disc, event_of_data, event_of_line, deposit_event_name,
}

pub record Logged (K : Type 0) : Type 0 where
  pub pool : K
  pub depositor : K
  pub commitment : Bytes
  pub encrypted_amount : Bytes
  pub leaf_index : ℕ
  pub timestamp : ℤ

pub record LoggedFits {K : Type 0} (l : Logged K) : Type 0 where
  pub commitment : length l.commitment ≡ 32
  pub encrypted_amount : length l.encrypted_amount ≡ 64
  pub leaf_index : l.leaf_index < 2 ^ 32
  pub timestamp : IsI64 l.timestamp

Reads-skip : (bs : Bytes) (n : ℕ) → length bs ≡ n → Reads (skip n) bs tt
unfolding skip
Reads-skip bs n len = record { run = λ buf o rest h. rw (← len) refl }

strip_prefix-append : (p rest : Line) → strip_prefix p (p ++ rest) ≡ some rest
unfolding strip_prefix
strip_prefix-append [] rest = refl
strip_prefix-append (c ∷ cs) rest = ground (arith, strip_prefix-append cs rest)

program_data-eq :
    (text : Line)
    → has_line_terminator text ≡ false
    → 0 < length text
    → program_data (program_data_prefix ++ text) ≡ some text
unfolding program_data
program_data-eq [] clean some_text = absurd (omega arith)
program_data-eq (c ∷ cs) clean some_text =
    rw (strip_prefix-append program_data_prefix (c ∷ cs), clean) refl

module _ (w : Web3) where
  open w use {PublicKey, to_bytes, equals}

  -- The fields in the order of `struct DepositCommitted`.
  pub logged_bytes : Logged PublicKey → Bytes
  logged_bytes l = concat (
      to_bytes l.pool
      ∷ to_bytes l.depositor
      ∷ l.commitment
      ∷ l.encrypted_amount
      ∷ le_bytes 4 l.leaf_index
      ∷ i64_bytes l.timestamp
      ∷ [])

  -- `decodeDepositEvent` gives the fields that the program logged, the time as a double.
  decode_deposit_event-bytes :
      (disc : Bytes) (l : Logged PublicKey)
      → length disc ≡ 8
      → LoggedFits l
      → decode_deposit_event w (disc ++ logged_bytes l)
        ≡ ok (record {
          pool = l.pool;
          depositor = l.depositor;
          commitment = l.commitment;
          leaf_index = l.leaf_index;
          timestamp = number l.timestamp;
        })
  unfolding decode_deposit_event logged_bytes
  decode_deposit_event-bytes disc l len fits = decode_from_8-eq disc len (
      Reads-bind _ (Reads-key w l.pool) (
        Reads-bind _ (Reads-key w l.depositor) (
          Reads-bind _ (Reads-slice l.commitment 32 fits.commitment) (
            Reads-bind _ (Reads-skip l.encrypted_amount 64 fits.encrypted_amount) (
              Reads-bind _ (Reads-uint_le 4 l.leaf_index (omega arith) fits.leaf_index)
                (Reads-bind _ (Reads-i64 l.timestamp fits.timestamp) (Reads-pure _)))))))

  module _ (chain : Chain) (pool_key : PublicKey) where
    open chain use {sha256, to_base64}

    -- What the program logs: the event's discriminator and its fields, as base64.
    unfoldable pub event_line : Logged PublicKey → Line
    unfolding logged_bytes
    event_line l =
        program_data_prefix ++ to_base64 (deposit_event_disc w chain pool_key ++ logged_bytes l)

    disc-length : length (deposit_event_disc w chain pool_key) ≡ 8
    disc-length =
        omega
          (arith, length-take 8 (sha256 deposit_event_name), chain.length-sha256 deposit_event_name)

    event_of_data-eq :
        (l : Logged PublicKey)
        → LoggedFits l
        → event_of_data w chain pool_key (deposit_event_disc w chain pool_key ++ logged_bytes l)
          ≡ (if equals l.pool pool_key then some (l.leaf_index, l.commitment) else none)
    unfolding event_of_data
    event_of_data-eq l fits =
        let disc = deposit_event_disc w chain pool_key in
        let long : 8 ≤ length (disc ++ logged_bytes l) =
          omega (arith, disc-length, length-append disc (logged_bytes l)) in
        rw
          (
            event_of_data,
            le→ltb (length (disc ++ logged_bytes l)) 8 long,
            take-append_of_length 8 disc (logged_bytes l) disc-length,
            bytes_eq_refl disc,
            decode_deposit_event-bytes disc l disc-length fits,
          )
          refl

    -- A deposit's log line is read as its index and its commitment where its pool is the given one,
    -- and is passed over where it is another.
    pub event_of_line-event_line :
        (l : Logged PublicKey)
        → LoggedFits l
        → event_of_line w chain pool_key (event_line l)
          ≡ (if equals l.pool pool_key then some (l.leaf_index, l.commitment) else none)
    unfolding event_of_line event_line
    event_of_line-event_line l fits =
        let disc = deposit_event_disc w chain pool_key in
        let written = disc ++ logged_bytes l in
        let long : 0 < length written =
          omega (arith, disc-length, length-append disc (logged_bytes l)) in
        let text = to_base64 written in
        let group : program_data (program_data_prefix ++ text) ≡ some text =
          program_data-eq text (chain.to_base64-line written) (chain.to_base64-some written long) in
        rw (group, event_of_line, chain.of_base64-to_base64 written) (event_of_data-eq l fits)
