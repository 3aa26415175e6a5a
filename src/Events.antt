-- ===== src/Events.antt =====
-- `decodeDepositEvent` and `fetchPoolLeaves` of sdk/src/kirite-zk.mjs: the leaves of a pool, from the
-- events that its deposits logged. Text is a list of UTF-16 units, and a call of the connection gives
-- a value or throws.
pub mod Decode
pub mod Replay
pub mod Doubles
use kirite.Prelude.{
  ℕ, zero, suc, ◌+◌, ◌-◌, ◌*◌, ◌/◌, ◌%◌, ◌^◌, ◌<◌, ◌≡◌, Bool, true, false, not, ◌||◌, ℤ, pos,
  negsuc, List, [], ◌∷◌, Option, none, some, Result, ok, err, length, take, drop, ltb, ◌==◌,
  bytes_eq, if◌then◌else◌,
}
use kirite.Bytes.{Bytes}
use kirite.Buffer.{Reader, ◌>>=◌, pure, read_slice, read_uint_le, read_i64, read_key, decode_from_8}
use kirite.Web3.{Web3}

-- The quotient `n / d` rounded to the nearest number, to the even one of two.
unfoldable pub round_half_even : ℕ → ℕ → ℕ
round_half_even n d =
    if ltb (2 * (n % d)) d
    then n / d
    else if ltb d (2 * (n % d))
    then n / d + 1
    else n / d + (n / d) % 2

-- The double next to `n`, whose last place is worth `d` or more.
unfoldable pub round_to_53_bits : ℕ → ℕ → ℕ → ℕ
unfolding round_half_even
round_to_53_bits zero d n = round_half_even n d * d
round_to_53_bits (suc fuel) d n =
    let wider = round_to_53_bits fuel (2 * d) n in
    if ltb n (2 ^ 53 * d) then round_half_even n d * d else wider

-- `Number(n)` of a signed 64-bit number: the last place of a double below `2 ^ 64` is at most
-- `2 ^ 11`.
unfoldable pub number : ℤ → ℤ
unfolding round_to_53_bits
number (pos n) = pos (round_to_53_bits 11 1 n)
number (negsuc n) = negsuc (round_to_53_bits 11 1 (n + 1) - 1)

pub record DepositEvent (K : Type 0) : Type 0 where
  pub pool : K
  pub depositor : K
  pub commitment : Bytes
  pub leaf_index : ℕ
  pub timestamp : ℤ

-- `o += n`
pub skip : ℕ → Reader Unit
skip n buf o = ok (tt, o + n)

-- A `Map` from leaf indices to commitments, its entries in the order of insertion.
abbrev pub Map : Type 0
Map = List (ℕ × Bytes)

pub map_set : Map → ℕ → Bytes → Map
map_set [] k v = (k, v) ∷ []
map_set ((j, u) ∷ rest) k v =
    let changed = map_set rest k v in if j == k then (k, v) ∷ rest else (j, u) ∷ changed

pub map_get : Map → ℕ → Option Bytes
map_get [] k = none
map_get ((j, u) ∷ rest) k = if j == k then some u else map_get rest k

-- `Math.max(-1, ...leaves.keys()) + 1`
pub key_bound : Map → ℕ
key_bound [] = 0
key_bound ((k, v) ∷ rest) = let b = key_bound rest in if ltb b (k + 1) then k + 1 else b

-- The map that an event changes.
pub set_event : Map → Option (ℕ × Bytes) → Map
unfolding map_set
set_event m none = m
set_event m (some (i, c)) = map_set m i c

-- `leaves.get(i)` for the `n` indices from `i` on.
pub entries : Map → ℕ → ℕ → List (Option Bytes)
unfolding map_get
entries m i zero = []
entries m i (suc n) = map_get m i ∷ entries m (i + 1) n

abbrev pub Line : Type 0
Line = List ℕ

-- "Program data: "
abbrev pub program_data_prefix : Line
program_data_prefix =
    80 ∷ 114 ∷ 111 ∷ 103 ∷ 114 ∷ 97 ∷ 109 ∷ 32 ∷ 100 ∷ 97 ∷ 116 ∷ 97 ∷ 58 ∷ 32 ∷ []

unfoldable pub strip_prefix : Line → Line → Option Line
strip_prefix [] line = some line
strip_prefix (c ∷ cs) [] = none
strip_prefix (c ∷ cs) (x ∷ xs) = let rest = strip_prefix cs xs in if c == x then rest else none

-- A line feed, a carriage return, a line or a paragraph separator, which `.` does not match.
unfoldable pub is_line_terminator : ℕ → Bool
is_line_terminator c = (c == 10) || (c == 13) || (c == 8232) || (c == 8233)

unfoldable pub has_line_terminator : Line → Bool
unfolding is_line_terminator
has_line_terminator [] = false
has_line_terminator (c ∷ cs) = is_line_terminator c || has_line_terminator cs

-- The group of `/^Program data: (.+)$/`.
pub program_data : Line → Option Line
unfolding strip_prefix has_line_terminator
program_data line = elim (strip_prefix program_data_prefix line) [
  | none ↦ none
  | some [] ↦ none
  | some (c ∷ cs) ↦ if has_line_terminator (c ∷ cs) then none else some (c ∷ cs)
]

-- "event:DepositCommitted"
abbrev pub deposit_event_name : Bytes
deposit_event_name =
    101 ∷ 118 ∷ 101 ∷ 110 ∷ 116 ∷ 58 ∷ 68 ∷ 101 ∷ 112 ∷ 111 ∷ 115 ∷ 105 ∷ 116 ∷ 67 ∷ 111 ∷ 109 ∷ 109
    ∷ 105 ∷ 116 ∷ 116 ∷ 101 ∷ 100 ∷ []

pub record Meta : Type 0 where
  pub log_messages : Option (List Line)

pub record Transaction : Type 0 where
  pub meta : Option Meta

pub record SignatureInfo (S : Type 0) : Type 0 where
  pub signature : S
  pub failed : Bool

-- What the function calls: the connection, SHA-256, and the decoding of base64.
pub record Chain : Type 1 where
  pub Signature : Type 0
  pub get_signatures : ℕ → Result (List (SignatureInfo Signature))
  pub get_transaction : Signature → Result (Option Transaction)
  pub sha256 : Bytes → Bytes
  pub of_base64 : Line → Bytes
  pub to_base64 : Bytes → Line
  pub length-sha256 : (bs : Bytes) → length (sha256 bs) ≡ 32
  pub of_base64-to_base64 : (bs : Bytes) → of_base64 (to_base64 bs) ≡ bs
  pub to_base64-line : (bs : Bytes) → has_line_terminator (to_base64 bs) ≡ false
  pub to_base64-some : (bs : Bytes) → 0 < length bs → 0 < length (to_base64 bs)

module _ (w : Web3) where
  open w use {PublicKey, equals}

  read_deposit_event : Reader (DepositEvent PublicKey)
  unfolding skip number
  read_deposit_event = do
    pool ← read_key w
    depositor ← read_key w
    commitment ← read_slice 32
    _ ← skip 64
    leaf_index ← read_uint_le 4
    timestamp ← read_i64
    pure (record {
      pool = pool;
      depositor = depositor;
      commitment = commitment;
      leaf_index = leaf_index;
      timestamp = number timestamp;
    })

  pub decode_deposit_event : Bytes → Result (DepositEvent PublicKey)
  unfolding read_deposit_event
  decode_deposit_event buf = decode_from_8 read_deposit_event buf

  module _ (chain : Chain) (pool_key : PublicKey) where
    open chain use {Signature, get_signatures, get_transaction, sha256, of_base64}

    abbrev pub deposit_event_disc : Bytes
    deposit_event_disc = take 8 (sha256 deposit_event_name)

    -- The index and the commitment that a buffer sets, where it holds an event of the pool.
    pub event_of_data : Bytes → Option (ℕ × Bytes)
    unfolding decode_deposit_event
    event_of_data buf =
        if ltb (length buf) 8
        then none
        else if not (bytes_eq (take 8 buf) deposit_event_disc)
        then none
        else elim (decode_deposit_event buf) [
          | err e ↦ none
          | ok evt ↦
              if equals evt.pool pool_key then some (evt.leaf_index, evt.commitment) else none
        ]

    pub event_of_line : Line → Option (ℕ × Bytes)
    unfolding program_data event_of_data
    event_of_line line = elim (program_data line) [
      | none ↦ none
      | some text ↦ event_of_data (of_base64 text)
    ]

    pub scan_line : Map → Line → Map
    unfolding event_of_line set_event
    scan_line m line = set_event m (event_of_line line)

    pub scan_lines : Map → List Line → Map
    unfolding scan_line
    scan_lines m [] = m
    scan_lines m (line ∷ rest) = scan_lines (scan_line m line) rest

    -- The lines of `tx?.meta?.logMessages`, none of them where a part is missing.
    unfoldable pub lines_of : Option Transaction → List Line
    lines_of none = []
    lines_of (some tx) = elim tx.meta [
      | none ↦ []
      | some meta ↦ elim meta.log_messages [ none ↦ [] | some lines ↦ lines ]
    ]

    pub scan_signatures : Map → List (SignatureInfo Signature) → Result Map
    unfolding scan_lines lines_of
    scan_signatures m [] = ok m
    scan_signatures m (info ∷ rest) = elim info.failed [
      | true ↦ scan_signatures m rest
      | false ↦ elim (get_transaction info.signature) [
        | err e ↦ err e
        | ok tx ↦ scan_signatures (scan_lines m (lines_of tx)) rest
      ]
    ]

    pub fetch_pool_leaves : ℕ → Result (List (Option Bytes))
    unfolding scan_signatures entries key_bound
    fetch_pool_leaves limit = elim (get_signatures limit) [
      | err e ↦ err e
      | ok sigs ↦ elim (scan_signatures [] sigs) [
        | err e ↦ err e
        | ok leaves ↦ ok (entries leaves 0 (key_bound leaves))
      ]
    ]
