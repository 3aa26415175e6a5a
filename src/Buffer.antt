-- ===== src/Buffer.antt =====
-- The `Buffer` methods that the SDK's codecs call, with what they do out of range. A decoder keeps
-- an offset `o` into its buffer: it is a function of the two that gives a value and the new offset.
pub mod Reads
pub mod Writes
use kirite.Prelude.{
  ℕ, ◌+◌, ◌-◌, ◌*◌, ◌^◌, Bool, ℤ, pos, negsuc, Result, ok, err, Error, length, take, drop, ltb, leb,
  ◌==◌, if◌then◌else◌, bit_or,
}
use kirite.Bytes.{Bytes, le_bytes, le_value}
use kirite.Web3.{Web3}

-- `writeUInt16LE`, `writeUInt32LE` and `writeBigUInt64LE` into a new buffer of `k` bytes.
pub write_uint_le : ℕ → ℤ → Result Bytes
write_uint_le k (pos n) = if ltb n (256 ^ k) then ok (le_bytes k n) else err Error.range_error
write_uint_le k (negsuc n) = err Error.range_error

pub u16_le : ℤ → Result Bytes
unfolding write_uint_le
u16_le n = write_uint_le 2 n

pub u32_le : ℤ → Result Bytes
unfolding write_uint_le
u32_le n = write_uint_le 4 n

pub u64_le : ℤ → Result Bytes
unfolding write_uint_le
u64_le n = write_uint_le 8 n

-- `writeBigInt64LE`: two's complement.
pub i64_le : ℤ → Result Bytes
i64_le (pos n) = if ltb n (2 ^ 63) then ok (le_bytes 8 n) else err Error.range_error
i64_le (negsuc n) =
    if ltb n (2 ^ 63) then ok (le_bytes 8 (2 ^ 64 - (n + 1))) else err Error.range_error

abbrev pub Reader : Type 0 → Type 0
Reader A = Bytes → ℕ → Result (A × ℕ)

infixl 5 ◌>>=◌
unfoldable pub ◌>>=◌ : {A B : Type 0} → Reader A → (A → Reader B) → Reader B
◌>>=◌ r f buf o = elim (r buf o) [ ok (a, o') ↦ f a buf o' | err e ↦ err e ]

unfoldable pub pure : {A : Type 0} → A → Reader A
pure a buf o = ok (a, o)

-- `buf.subarray(o, o + n)`, which stops at the end of the buffer.
unfoldable pub read_slice : ℕ → Reader Bytes
read_slice n buf o = ok (take n (drop o buf), o + n)

-- The value of `readUInt8`, `readUInt32LE` and `readBigUInt64LE` at an offset.
unfoldable pub uint_le_at : ℕ → Bytes → ℕ → Result ℕ
uint_le_at k buf o =
    if leb (o + k) (length buf) then ok (le_value (take k (drop o buf))) else err Error.range_error

unfoldable pub read_uint_le : ℕ → Reader ℕ
unfolding uint_le_at
read_uint_le k buf o = elim (uint_le_at k buf o) [ ok v ↦ ok (v, o + k) | err e ↦ err e ]

-- The integer that a 64-bit pattern stands for.
pub signed64 : ℕ → ℤ
signed64 w = if ltb w (2 ^ 63) then pos w else negsuc (2 ^ 64 - w - 1)

pub read_i64 : Reader ℤ
unfolding signed64 ◌>>=◌ pure
read_i64 = do w ← read_uint_le 8; pure (signed64 w)

-- `buf.readBigUInt64LE(o) | (buf.readBigUInt64LE(o + 8) << 64n)`
pub read_u128 : Reader ℕ
unfolding uint_le_at
read_u128 buf o = elim (uint_le_at 8 buf o) [
  | err e ↦ err e
  | ok low ↦ elim (uint_le_at 8 buf (o + 8)) [
    | err e ↦ err e
    | ok high ↦ ok (bit_or low (high * 2 ^ 64), o + 16)
  ]
]

-- `readU8() === 1`
pub read_bool : Reader Bool
unfolding ◌>>=◌ pure
read_bool = do b ← read_uint_le 1; pure (b == 1)

-- `new PublicKey(buf.subarray(o, o + 32))`
unfoldable pub read_key : (w : Web3) → Reader w.PublicKey
unfolding ◌>>=◌
read_key w = do
  slice ← read_slice 32
  λ buf o. elim (w.of_bytes slice) [ ok k ↦ ok (k, o) | err e ↦ err e ]

-- The value that a decoder returns when it starts behind the discriminator, at offset 8.
unfoldable pub decode_from_8 : {A : Type 0} → Reader A → Bytes → Result A
decode_from_8 r buf = elim (r buf 8) [ ok (a, o) ↦ ok a | err e ↦ err e ]
