-- ===== src/Stealth/Parsers.antt =====
-- The decoders of sdk/src/stealth/registry.ts and sdk/src/stealth/scan.ts. Node's UTF-8 decoder and the
-- base64 text of a signature are parameters.
use kirite.Prelude.{ℕ, ◌+◌, ◌-◌, ◌*◌, ◌^◌, ℤ, pos, negsuc, Result, ltb, if◌then◌else◌}
use kirite.Bytes.{Bytes}
use kirite.Buffer.{Reader, ◌>>=◌, pure, read_slice, read_uint_le, read_key, decode_from_8}
use kirite.Events.{Line, number}
use kirite.Stealth.{StealthMetaAddress}
use kirite.Web3.{Web3}

pub record StealthRegistryEntry (K : Type 0) : Type 0 where
  pub owner : K
  pub meta_address : StealthMetaAddress
  pub label : Line
  pub created_at : ℤ

pub record StealthAnnouncement (K : Type 0) : Type 0 where
  pub ephemeral_pubkey : Bytes
  pub stealth_address : K
  pub view_tag : ℕ
  pub slot : ℤ
  pub timestamp : ℤ
  pub signature : Line

-- `low + high * 0x100000000`, as a double, where `high` is read as a signed 32-bit number.
unfoldable pub join_words : ℕ → ℕ → ℤ
join_words low high =
    if ltb high (2 ^ 31)
    then number (pos (high * 2 ^ 32 + low))
    else number (negsuc ((2 ^ 32 - high) * 2 ^ 32 - low - 1))

-- `readUInt32LE(offset)` and `readInt32LE(offset + 4)`.
unfoldable pub read_timestamp : Reader ℤ
unfolding ◌>>=◌ pure join_words
read_timestamp = do low ← read_uint_le 4; high ← read_uint_le 4; pure (join_words low high)

-- `readUInt32LE(offset)` and `readUInt32LE(offset + 4)`.
unfoldable pub read_slot : Reader ℤ
unfolding ◌>>=◌ pure
read_slot = do
  low ← read_uint_le 4
  high ← read_uint_le 4
  pure (number (pos (high * 2 ^ 32 + low)))

module _ (w : Web3) where
  open w use {PublicKey}

  unfoldable pub read_registry_entry : (Bytes → Line) → Reader (StealthRegistryEntry PublicKey)
  unfolding ◌>>=◌ pure
  read_registry_entry utf8_decode = do
    owner ← read_key w
    spending_key ← read_slice 32
    viewing_key ← read_slice 32
    label_len ← read_uint_le 4
    label ← read_slice label_len
    created_at ← read_timestamp
    pure (record {
      owner = owner;
      meta_address = record { spending_key = spending_key; viewing_key = viewing_key };
      label = utf8_decode label;
      created_at = created_at;
    })

  unfoldable pub parse_registry_entry :
      (Bytes → Line) → Bytes → Result (StealthRegistryEntry PublicKey)
  unfolding read_registry_entry
  parse_registry_entry utf8_decode account = decode_from_8 (read_registry_entry utf8_decode) account

  unfoldable pub read_announcement : (Bytes → Line) → Reader (StealthAnnouncement PublicKey)
  read_announcement to_base64 = do
    ephemeral_pubkey ← read_slice 32
    stealth_address ← read_key w
    view_tag ← read_uint_le 1
    slot ← read_slot
    timestamp ← read_timestamp
    signature ← read_slice 64
    pure (record {
      ephemeral_pubkey = ephemeral_pubkey;
      stealth_address = stealth_address;
      view_tag = view_tag;
      slot = slot;
      timestamp = timestamp;
      signature = to_base64 signature;
    })

  unfoldable pub parse_announcement_account :
      (Bytes → Line) → Bytes → Result (StealthAnnouncement PublicKey)
  unfolding read_announcement
  parse_announcement_account to_base64 account = decode_from_8 (read_announcement to_base64) account
