-- ===== src/Bytes/LittleEndian.antt =====
-- Numbers in little-endian bytes.
use kirite.Prelude.{
  ℕ, zero, suc, ◌+◌, ◌*◌, ◌/◌, ◌%◌, ◌^◌, ◌<◌, ◌≡◌, refl, [], ◌∷◌, ◌++◌, arith, length,
}
use kirite.Bytes.BigEndian.{Bytes}
use native.Mathlib.Nat.{pow-suc}

unfoldable pub le_bytes : ℕ → ℕ → Bytes
le_bytes zero n = []
le_bytes (suc k) n = (n % 256) ∷ le_bytes k (n / 256)

unfoldable pub le_value : Bytes → ℕ
le_value [] = 0
le_value (b ∷ bs) = b + 256 * le_value bs

pub length-le_bytes : (k n : ℕ) → length (le_bytes k n) ≡ k
unfolding le_bytes
length-le_bytes zero n = refl
length-le_bytes (suc k) n = omega (arith, length-le_bytes k (n / 256))

pub le_value-le_bytes : (k n : ℕ) → n < 256 ^ k → le_value (le_bytes k n) ≡ n
unfolding le_bytes le_value
le_value-le_bytes zero n h = omega arith
le_value-le_bytes (suc k) n h =
    omega (arith, pow-suc 256 k, le_value-le_bytes k (n / 256) (omega (arith, pow-suc 256 k)))

-- 16 bytes are two words of 8.
pub le_bytes-sixteen : (n : ℕ) → le_bytes 16 n ≡ le_bytes 8 n ++ le_bytes 8 (n / 2 ^ 64)
unfolding le_bytes
le_bytes-sixteen n =
    let high : n / 256 / 256 / 256 / 256 / 256 / 256 / 256 / 256 ≡ n / 2 ^ 64 = omega arith in
    rw high

pub le_value-le_bytes_eight : (n : ℕ) → le_value (le_bytes 8 n) ≡ n % 2 ^ 64
unfolding le_bytes le_value
le_value-le_bytes_eight n = omega arith

le_bytes_four-mod : (n : ℕ) → le_bytes 4 (n % 2 ^ 32) ≡ le_bytes 4 n
unfolding le_bytes
le_bytes_four-mod n =
    let a : n % 2 ^ 32 % 256 ≡ n % 256 = omega arith in
    let b : n % 2 ^ 32 / 256 % 256 ≡ n / 256 % 256 = omega arith in
    let c : n % 2 ^ 32 / 256 / 256 % 256 ≡ n / 256 / 256 % 256 = omega arith in
    let d : n % 2 ^ 32 / 256 / 256 / 256 % 256 ≡ n / 256 / 256 / 256 % 256 = omega arith in
    rw (a, b, c, d) refl

le_bytes_eight-high : (n : ℕ) → le_bytes 8 n ≡ le_bytes 4 n ++ le_bytes 4 (n / 2 ^ 32)
unfolding le_bytes
le_bytes_eight-high n = let high : n / 256 / 256 / 256 / 256 ≡ n / 2 ^ 32 = omega arith in rw high

-- 8 bytes are two words of 4.
pub le_bytes-eight : (n : ℕ) → le_bytes 8 n ≡ le_bytes 4 (n % 2 ^ 32) ++ le_bytes 4 (n / 2 ^ 32)
le_bytes-eight n = rw (le_bytes_four-mod n) (le_bytes_eight-high n)
