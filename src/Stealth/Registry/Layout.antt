-- ===== src/Stealth/Registry/Layout.antt =====
-- The layouts that the comments on `parseRegistryEntry` and `parseAnnouncementAccount` name are the
-- ones that the two decoders read.
use kirite.Prelude.{
  ℕ, ◌+◌, ◌-◌, ◌*◌, ◌/◌, ◌%◌, ◌^◌, ◌<◌, ◌≡◌, refl, ap, ℤ, pos, negsuc, [], ◌∷◌, ◌++◌, concat,
  append-nil, ok, length, lt→ltb, le→ltb, arith,
}
use kirite.Bytes.{Bytes, le_bytes, le_bytes-eight}
use kirite.Buffer.Reads.{
  i64_bytes, IsI64, Reads, Reads-pure, Reads-bind, Reads-slice, Reads-uint_le, Reads-key,
  decode_from_8-eq,
}
use kirite.Events.{Line, number}
use kirite.Stealth.{StealthMetaAddress}
use kirite.Stealth.Parsers.{
  join_words, read_timestamp, read_slot, parse_registry_entry, parse_announcement_account,
}
use kirite.Web3.{Web3}

join_words-pos : (n : ℕ) → n < 2 ^ 63 → join_words (n % 2 ^ 32) (n / 2 ^ 32) ≡ number (pos n)
unfolding join_words
join_words-pos n small =
    rw (lt→ltb (n / 2 ^ 32) (2 ^ 31) (omega arith)) (ap (λ (t : ℕ). number (pos t)) (omega arith))

join_words-negsuc :
    (n : ℕ)
    → n < 2 ^ 63
    → join_words ((2 ^ 64 - (n + 1)) % 2 ^ 32) ((2 ^ 64 - (n + 1)) / 2 ^ 32) ≡ number (negsuc n)
unfolding join_words
join_words-negsuc n small =
    rw (le→ltb ((2 ^ 64 - (n + 1)) / 2 ^ 32) (2 ^ 31) (omega arith))
      (ap (λ (t : ℕ). number (negsuc t)) (omega arith))

-- Two words are read one after another.
pub Reads-two_words :
    (low high : ℕ)
    → low < 2 ^ 32
    → high < 2 ^ 32
    → Reads read_timestamp (le_bytes 4 low ++ le_bytes 4 high) (join_words low high)
unfolding read_timestamp
Reads-two_words low high small small' = rw (← append-nil (le_bytes 4 high)) (
    Reads-bind _ (Reads-uint_le 4 low (omega arith) small)
      (Reads-bind _ (Reads-uint_le 4 high (omega arith) small') (Reads-pure _)))

Reads-words :
    (n : ℕ) (z : ℤ)
    → n < 2 ^ 64
    → join_words (n % 2 ^ 32) (n / 2 ^ 32) ≡ z
    → Reads read_timestamp (le_bytes 8 n) z
Reads-words n z small same =
    rw (le_bytes-eight n, ← same)
      (Reads-two_words (n % 2 ^ 32) (n / 2 ^ 32) (omega arith) (omega arith))

Reads-timestamp : (z : ℤ) → IsI64 z → Reads read_timestamp (i64_bytes z) (number z)
unfolding i64_bytes
Reads-timestamp (pos n) small =
    Reads-words n (number (pos n)) (omega arith) (join_words-pos n small)
Reads-timestamp (negsuc n) small =
    Reads-words (2 ^ 64 - (n + 1)) (number (negsuc n)) (omega arith) (join_words-negsuc n small)

Reads-slot : (n : ℕ) → n < 2 ^ 64 → Reads read_slot (le_bytes 8 n) (number (pos n))
unfolding read_slot
Reads-slot n small =
    let whole : n / 2 ^ 32 * 2 ^ 32 + n % 2 ^ 32 ≡ n = omega arith in
    rw (le_bytes-eight n, ← append-nil (le_bytes 4 (n / 2 ^ 32)))
      (Reads-bind _ (Reads-uint_le 4 (n % 2 ^ 32) (omega arith) (omega arith)) (
        Reads-bind _ (Reads-uint_le 4 (n / 2 ^ 32) (omega arith) (omega arith))
          (rw whole (Reads-pure _))))

module _ (w : Web3) where
  open w use {PublicKey, to_bytes}

  -- `parseRegistryEntry` gives the entry that is laid out as its comment says: behind the
  -- discriminator the owner, the two keys, the length of the label and the label, and the time, which
  -- comes as a double.
  pub parse_registry_entry-bytes :
      (utf8_decode : Bytes → Line) (disc : Bytes) (owner : PublicKey) (meta : StealthMetaAddress)
      (label : Bytes) (created_at : ℤ)
      → length disc ≡ 8
      → length meta.spending_key ≡ 32
      → length meta.viewing_key ≡ 32
      → length label < 2 ^ 32
      → IsI64 created_at
      → parse_registry_entry w utf8_decode (
          disc
          ++ concat (
              to_bytes owner
              ∷ meta.spending_key
              ∷ meta.viewing_key
              ∷ le_bytes 4 (length label)
              ∷ label
              ∷ i64_bytes created_at
              ∷ []))
        ≡ ok (record {
          owner = owner;
          meta_address = meta;
          label = utf8_decode label;
          created_at = number created_at;
        })
  unfolding parse_registry_entry
  parse_registry_entry-bytes utf8_decode disc owner meta label created_at len s v small fits =
      decode_from_8-eq disc len (
        Reads-bind _ (Reads-key w owner) (
          Reads-bind _ (Reads-slice meta.spending_key 32 s) (
            Reads-bind _ (Reads-slice meta.viewing_key 32 v) (
              Reads-bind _ (Reads-uint_le 4 (length label) (omega arith) small) (
                Reads-bind _ (Reads-slice label (length label) refl)
                  (Reads-bind _ (Reads-timestamp created_at fits) (Reads-pure _)))))))

  -- `parseAnnouncementAccount` gives the announcement that is laid out as its comment says: behind the
  -- discriminator the ephemeral key, the address, the view tag, the slot, the time and the signature,
  -- where the slot and the time come as doubles.
  pub parse_announcement_account-bytes :
      (to_base64 : Bytes → Line) (disc ephemeral signature : Bytes) (address : PublicKey)
      (tag slot : ℕ) (timestamp : ℤ)
      → length disc ≡ 8
      → length ephemeral ≡ 32
      → length signature ≡ 64
      → tag < 256
      → slot < 2 ^ 64
      → IsI64 timestamp
      → parse_announcement_account w to_base64 (
          disc
          ++ concat (
              ephemeral
              ∷ to_bytes address
              ∷ le_bytes 1 tag
              ∷ le_bytes 8 slot
              ∷ i64_bytes timestamp
              ∷ signature
              ∷ []))
        ≡ ok (record {
          ephemeral_pubkey = ephemeral;
          stealth_address = address;
          view_tag = tag;
          slot = number (pos slot);
          timestamp = number timestamp;
          signature = to_base64 signature;
        })
  unfolding parse_announcement_account
  parse_announcement_account-bytes to_base64 disc ephemeral signature address tag slot timestamp len
        e s t small fits =
      decode_from_8-eq disc len (
        Reads-bind _ (Reads-slice ephemeral 32 e) (
          Reads-bind _ (Reads-key w address) (
            Reads-bind _ (Reads-uint_le 1 tag (omega arith) t) (
              Reads-bind _ (Reads-slot slot small) (
                Reads-bind _ (Reads-timestamp timestamp fits)
                  (Reads-bind _ (Reads-slice signature 64 s) (Reads-pure _)))))))
