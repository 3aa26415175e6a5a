-- ===== src/Buffer/Writes.antt =====
-- What each write gives: the bytes of a number that fits the width, or the exception.
use kirite.Prelude.{
  ℕ, ◌≤◌, ◌<◌, ◌^◌, ◌≡◌, refl, ℤ, pos, negsuc, ok, err, Error, lt→ltb, le→ltb, arith,
}
use kirite.Bytes.{le_bytes}
use kirite.Buffer.{write_uint_le, u16_le, u32_le, u64_le, i64_le}
use kirite.Buffer.Reads.{i64_bytes, IsI64}

write_uint_le-fits : (k n : ℕ) → n < 256 ^ k → write_uint_le k (pos n) ≡ ok (le_bytes k n)
unfolding write_uint_le
write_uint_le-fits k n small = rw (lt→ltb n (256 ^ k) small) refl

pub u16_le-fits : (n : ℕ) → n < 2 ^ 16 → u16_le (pos n) ≡ ok (le_bytes 2 n)
unfolding u16_le
u16_le-fits n small = write_uint_le-fits 2 n (omega arith)

pub u32_le-fits : (n : ℕ) → n < 2 ^ 32 → u32_le (pos n) ≡ ok (le_bytes 4 n)
unfolding u32_le
u32_le-fits n small = write_uint_le-fits 4 n (omega arith)

pub u64_le-fits : (n : ℕ) → n < 2 ^ 64 → u64_le (pos n) ≡ ok (le_bytes 8 n)
unfolding u64_le
u64_le-fits n small = write_uint_le-fits 8 n (omega arith)

pub i64_le-fits : (z : ℤ) → IsI64 z → i64_le z ≡ ok (i64_bytes z)
unfolding i64_le i64_bytes
i64_le-fits (pos n) small = rw (lt→ltb n (2 ^ 63) small) refl
i64_le-fits (negsuc n) small = rw (lt→ltb n (2 ^ 63) small) refl

pub u64_le-beyond : (n : ℕ) → 2 ^ 64 ≤ n → u64_le (pos n) ≡ err Error.range_error
unfolding u64_le write_uint_le
u64_le-beyond n large =
    let beyond : 256 ^ 8 ≤ n = omega arith in rw (le→ltb n (256 ^ 8) beyond) refl
