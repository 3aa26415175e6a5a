-- ===== src/Stealth/Scan/Logs.antt =====
-- `scanStealthPaymentsFromLogs` of sdk/src/stealth/scan.ts: the announcements in the logs of the
-- transactions of an address. The base58 text of a key is a parameter.
pub mod Matched
use kirite.Prelude.{
  ◌^◌, ℕ, zero, suc, Bool, true, false, ◌&&◌, ◌||◌, ℤ, pos, negsuc, List, [], ◌∷◌, ◌++◌, Option,
  none, some, Result, ok, err, Error, ◌>>=◌, leb, ◌==◌, if◌then◌else◌, codes,
}
use kirite.Bytes.{Bytes}
use kirite.Decimal.{Number, nan, infinity, minus_infinity, integer, is_digit, parse_int}
use kirite.Events.{Line, strip_prefix}
use kirite.Stealth.{Keys, check_view_tag, derive_stealth_spending_key}
use kirite.Stealth.MetaAddress.{of_hex_text}
use kirite.Stealth.Scan.{ScanNetwork, StealthPayment, get_stealth_address_balance}

-- `[a-f0-9]` and `[a-zA-Z0-9]`
abbrev pub is_hex : ℕ → Bool
is_hex c = (leb 97 c && leb c 102) || is_digit c

abbrev pub is_alphanumeric : ℕ → Bool
is_alphanumeric c = (leb 97 c && leb c 122) || ((leb 65 c && leb c 90) || is_digit c)

-- The longest start of a text of characters of a class, and what follows it.
pub span : (ℕ → Bool) → Line → Line × Line
span class [] = ([], [])
span class (c ∷ cs) =
    let rest = span class cs in if class c then (c ∷ rest.0, rest.1) else ([], c ∷ cs)

-- `(class+)` and the text that follows it, which starts with no character of the class.
pub behind_group : Line → Line × Line → Option (Line × Line)
unfolding strip_prefix
behind_group behind ([], rest) = none
behind_group behind (c ∷ cs, rest) = elim (strip_prefix behind rest) [
  | none ↦ none
  | some rest' ↦ some (c ∷ cs, rest')
]

pub group : (ℕ → Bool) → Line → Line → Option (Line × Line)
unfolding span
group class behind text = behind_group behind (span class text)

-- The three groups of an expression of four texts and, between them, characters of the classes, of a
-- match at the start of a text.
pub match_parts : Line → Line → Line → Line → Line → Option (Line × Line × Line)
unfolding group strip_prefix
match_parts before_ephemeral before_address before_tag closing text =
    elim (strip_prefix before_ephemeral text) [
      | none ↦ none
      | some rest ↦ elim (group is_hex before_address rest) [
        | none ↦ none
        | some (ephemeral, rest') ↦ elim (group is_alphanumeric before_tag rest') [
          | none ↦ none
          | some (address, rest'') ↦ elim (group is_digit closing rest'') [
            | none ↦ none
            | some (tag, end) ↦ some (ephemeral, address, tag)
          ]
        ]
      ]
    ]

pub match_here : Line → Option (Line × Line × Line)
unfolding match_parts
match_here text =
    match_parts (codes "Program log: StealthAnnouncement{ephemeral:") (codes ",address:")
      (codes ",tag:") (codes "}") text

-- `log.match(...)`, the first match in the text.
pub match_announcement : Line → Option (Line × Line × Line)
unfolding match_here
match_announcement [] = none
match_announcement (c ∷ cs) = elim (match_here (c ∷ cs)) [
  | none ↦ match_announcement cs
  | some found ↦ some found
]

-- A transaction with its logs, where it has any, and its time.
pub record LoggedTransaction : Type 0 where
  pub log_messages : Option (List Line)
  pub block_time : Option ℤ

-- A signature of an address with its slot, and what `getTransaction` gives of it.
pub record SignatureEntry : Type 0 where
  pub signature : Line
  pub slot : ℤ
  pub transaction : Result (Option LoggedTransaction)

-- `parseInt` of digits gives no number below 0. No byte is Infinity, and none is the number that stands
-- for it here.
abbrev pub tag_of : Number → Result ℕ
tag_of (integer (pos n)) = ok n
tag_of (integer (negsuc n)) = err Error.type_error
tag_of nan = err Error.type_error
tag_of infinity = ok (2 ^ 1024)
tag_of minus_infinity = err Error.type_error

-- `tx.blockTime || 0`
abbrev pub time_or_zero : Option ℤ → ℤ
time_or_zero none = pos 0
time_or_zero (some t) = t

module _ (keys : Keys) where
  open keys use {web3, public_key}
  open web3 use {PublicKey, equals}

  module _ (net : ScanNetwork PublicKey) (key_of_text : Line → Result PublicKey)
      (viewing_key spending_key : Bytes) where
    -- The body of the loop behind the match.
    pub announced_payment :
        SignatureEntry → ℤ → Line × Line × Line → Result (Option (StealthPayment PublicKey))
    unfolding parse_int get_stealth_address_balance
    announced_payment entry time (ephemeral, address, tag) = do
      let ephemeral_pubkey = of_hex_text ephemeral
      stealth_address ← key_of_text address
      view_tag ← tag_of (parse_int tag)
      matches ← check_view_tag keys ephemeral_pubkey view_tag viewing_key
      elim matches [
        | false ↦ ok none
        | true ↦
            derive_stealth_spending_key keys ephemeral_pubkey viewing_key spending_key
            >>= λ stealth_keypair. elim (equals (public_key stealth_keypair) stealth_address) [
              | false ↦ ok none
              | true ↦ get_stealth_address_balance keys net stealth_address >>= λ balance. ok (
                  some (record {
                    address = stealth_address;
                    ephemeral_pubkey = ephemeral_pubkey;
                    amount = balance.0;
                    mint = some balance.1;
                    timestamp = time;
                    slot = entry.slot;
                    tx_signature = entry.signature;
                  }))
            ]
      ]

    pub log_payment : SignatureEntry → ℤ → Line → Result (Option (StealthPayment PublicKey))
    unfolding announced_payment match_announcement
    log_payment entry time log = elim (match_announcement log) [
      | none ↦ ok none
      | some found ↦ announced_payment entry time found
    ]

    -- The loop over the logs of a transaction; an exception ends it, and what it has pushed stays.
    pub logs_payments : SignatureEntry → ℤ → List Line → List (StealthPayment PublicKey)
    unfolding log_payment
    logs_payments entry time [] = []
    logs_payments entry time (log ∷ rest) =
        let later = logs_payments entry time rest in
        elim (log_payment entry time log) [
          | err e ↦ []
          | ok none ↦ later
          | ok (some payment) ↦ payment ∷ later
        ]

    pub entry_payments : SignatureEntry → List (StealthPayment PublicKey)
    unfolding logs_payments
    entry_payments entry = elim entry.transaction [
      | err e ↦ []
      | ok none ↦ []
      | ok (some tx) ↦ elim tx.log_messages [
        | none ↦ []
        | some logs ↦ logs_payments entry (time_or_zero tx.block_time) logs
      ]
    ]

    -- The loop over the signatures.
    pub entries_payments : List SignatureEntry → List (StealthPayment PublicKey)
    unfolding entry_payments
    entries_payments [] = []
    entries_payments (entry ∷ rest) = entry_payments entry ++ entries_payments rest

    pub scan_stealth_payments_from_logs :
        Result (List SignatureEntry) → Result (List (StealthPayment PublicKey))
    unfolding entries_payments
    scan_stealth_payments_from_logs signatures = do
      entries ← signatures
      ok (entries_payments entries)
