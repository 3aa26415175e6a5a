-- ===== src/Stealth/MetaAddress.antt =====
-- The text form of a meta-address in sdk/src/stealth/address.ts: `serializeStealthMetaAddress`,
-- `deserializeStealthMetaAddress` and `validateStealthMetaAddress`.
pub mod RoundTrip
use kirite.Prelude.{
  ℕ, zero, suc, ◌+◌, ◌-◌, ◌*◌, ◌/◌, ◌%◌, Bool, true, false, not, ◌&&◌, ◌||◌, List, [], ◌∷◌, ◌++◌,
  Option, none, some, Result, ok, err, Error, length, take, drop, get_elem?, ltb, leb, ◌==◌,
  if◌then◌else◌,
}
use kirite.Bytes.{Bytes}
use kirite.Events.{Line}
use kirite.Stealth.{StealthMetaAddress}

pub hex_digit : ℕ → ℕ
hex_digit n = if ltb n 10 then n + 48 else n + 87

-- `Buffer.from(bytes).toString("hex")`
unfoldable pub to_hex_text : Bytes → Line
to_hex_text [] = []
to_hex_text (b ∷ bs) = hex_digit (b / 16) ∷ hex_digit (b % 16) ∷ to_hex_text bs

-- The value of a digit, of either case.
pub hex_value : ℕ → Option ℕ
hex_value c =
    if leb 48 c && leb c 57
    then some (c - 48)
    else if leb 97 c && leb c 102
    then some (c - 87)
    else if leb 65 c && leb c 70
    then some (c - 55)
    else none

pub hex_pair : ℕ → ℕ → Option ℕ
unfolding hex_value
hex_pair a b = elim (hex_value a) [
  | none ↦ none
  | some high ↦ elim (hex_value b) [ none ↦ none | some low ↦ some (high * 16 + low) ]
]

-- `Buffer.from(text, "hex")`, which stops at the first pair that is not of two digits.
pub of_hex_text : Line → Bytes
unfolding hex_pair
of_hex_text [] = []
of_hex_text (a ∷ []) = []
of_hex_text (a ∷ b ∷ rest) = elim (hex_pair a b) [ none ↦ [] | some n ↦ n ∷ of_hex_text rest ]

pub serialize_stealth_meta_address : StealthMetaAddress → Line
unfolding to_hex_text
serialize_stealth_meta_address meta = to_hex_text meta.spending_key ++ to_hex_text meta.viewing_key

pub deserialize_stealth_meta_address : Line → Result StealthMetaAddress
unfolding of_hex_text
deserialize_stealth_meta_address hex =
    if length hex == 128
    then ok (record {
      spending_key = of_hex_text (take 64 hex);
      viewing_key = of_hex_text (take 64 (drop 64 hex));
    })
    else err Error.stealth_address_error

-- `array[i] !== 0`, also of a place beyond the end.
abbrev pub is_nonzero_at : Bytes → ℕ → Bool
is_nonzero_at bs i = elim (get_elem? bs i) [ none ↦ true | some b ↦ not (b == 0) ]

-- The loop over the 32 places, with its two variables.
pub nonzero_loop : ℕ → ℕ → StealthMetaAddress → Bool → Bool → Bool
nonzero_loop zero i meta spending_nonzero viewing_nonzero = spending_nonzero && viewing_nonzero
nonzero_loop (suc rounds) i meta spending_nonzero viewing_nonzero =
    nonzero_loop rounds (i + 1) meta
      (if is_nonzero_at meta.spending_key i then true else spending_nonzero)
      (if is_nonzero_at meta.viewing_key i then true else viewing_nonzero)

pub validate_stealth_meta_address : StealthMetaAddress → Bool
unfolding nonzero_loop
validate_stealth_meta_address meta =
    if not (length meta.spending_key == 32) || not (length meta.viewing_key == 32)
    then false
    else nonzero_loop 32 0 meta false false
