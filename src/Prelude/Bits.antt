-- ===== src/Prelude/Bits.antt =====
-- The bit operations of the sources as arithmetic: `x & 1`, `x & 0xff`, `(x << k) | b`, `i ^ 1`.
-- The native operations stand for a recursion over binary digits on fuel.
use Prim.Native.Nat.{
  ℕ, zero, suc, ◌+◌, ◌-◌, ◌*◌, ◌/◌, ◌%◌, ◌^◌, ◌≤◌, ◌<◌, min, max, bit_and, bit_or, bit_xor, digits,
  bitwise, differ, bit_and-bitwise, bit_or-bitwise, bit_xor-bitwise,
}
use mathlib.Core.Path.{◌≡◌, refl, ap}
use native.Mathlib.Nat.{pow-suc, le_refl}
use native.Mathlib.Omega.{arith}

module _ (rest : ℕ → ℕ) (bit : ℕ → ℕ → ℕ) where
  -- Any fuel that is at least the first number serves.
  digits_enough : (n m a b : ℕ) → a ≤ n → a ≤ m → digits rest bit n a b ≡ digits rest bit m a b
  digits_enough zero zero a b p q = refl
  digits_enough zero (suc m) zero b p q = refl
  digits_enough zero (suc m) (suc a) b p q = absurd (omega arith)
  digits_enough (suc n) zero zero b p q = refl
  digits_enough (suc n) zero (suc a) b p q = absurd (omega arith)
  digits_enough (suc n) (suc m) zero b p q = refl
  digits_enough (suc n) (suc m) (suc a) b p q =
      rw (digits_enough n m (suc a / 2) (b / 2) (omega arith) (omega arith))

  lowest_digit :
      (a b : ℕ)
      → bitwise rest bit (suc a) b
        ≡ bitwise rest bit (suc a / 2) (b / 2) * 2 + bit (suc a % 2) (b % 2)
  lowest_digit a b =
      omega (arith, digits_enough a (suc a / 2) (suc a / 2) (b / 2) (omega arith) (le_refl _))

and_digit : (a b : ℕ) → bit_and a b ≡ bit_and (a / 2) (b / 2) * 2 + min (a % 2) (b % 2)
and_digit zero b = simp bit_and-bitwise (omega arith)
and_digit (suc a) b = simp bit_and-bitwise (lowest_digit (λ y. 0) min a b)

or_digit : (a b : ℕ) → bit_or a b ≡ bit_or (a / 2) (b / 2) * 2 + max (a % 2) (b % 2)
or_digit zero b = simp bit_or-bitwise (omega arith)
or_digit (suc a) b = simp bit_or-bitwise (lowest_digit (λ y. y) max a b)

xor_digit : (a b : ℕ) → bit_xor a b ≡ bit_xor (a / 2) (b / 2) * 2 + differ (a % 2) (b % 2)
xor_digit zero b = simp bit_xor-bitwise (omega arith)
xor_digit (suc a) b = simp bit_xor-bitwise (lowest_digit (λ y. y) differ a b)

-- Both go from half the number to the number, by induction on a bound.
and_zero : (n a : ℕ) → a ≤ n → bit_and a 0 ≡ 0
and_zero n zero h = refl
and_zero zero (suc a) h = absurd (omega arith)
and_zero (suc n) (suc a) h =
    omega (arith, and_digit (suc a) 0, and_zero n (suc a / 2) (omega arith))

or_zero : (n a : ℕ) → a ≤ n → bit_or a 0 ≡ a
or_zero n zero h = refl
or_zero zero (suc a) h = absurd (omega arith)
or_zero (suc n) (suc a) h = omega (arith, or_digit (suc a) 0, or_zero n (suc a / 2) (omega arith))

differ_zero : (a : ℕ) → differ a 0 ≡ a
differ_zero zero = refl
differ_zero (suc a) = refl

differ_one : (a : ℕ) → a < 2 → differ a 1 ≡ 1 - a
differ_one zero h = refl
differ_one (suc zero) h = refl
differ_one (suc (suc a)) h = absurd (omega arith)

xor_zero : (n a : ℕ) → a ≤ n → bit_xor a 0 ≡ a
xor_zero n zero h = refl
xor_zero zero (suc a) h = absurd (omega arith)
xor_zero (suc n) (suc a) h =
    omega
      (arith, xor_digit (suc a) 0, xor_zero n (suc a / 2) (omega arith), differ_zero (suc a % 2))

mul-pow-suc : (q k : ℕ) → q * 2 ^ suc k ≡ 2 * (q * 2 ^ k)
mul-pow-suc q k = omega (arith, ap (λ (t : ℕ). q * t) (pow-suc 2 k))

-- `(q << k) | r` is a sum when `r` has at most `k` bits.
pub bit_or-shift : (k q r : ℕ) → r < 2 ^ k → bit_or (q * 2 ^ k) r ≡ q * 2 ^ k + r
bit_or-shift zero q r h = ground (arith, or_zero q q (le_refl q))
bit_or-shift (suc k) q r h =
    ground (arith, or_digit (q * 2 ^ suc k) r, mul-pow-suc q k, bit_or-shift k q (r / 2))

zero-bit_or : (a : ℕ) → bit_or 0 a ≡ a
zero-bit_or a = simp bit_or-bitwise

-- The same with the low part on the left.
pub bit_or-shift_right : (k q r : ℕ) → r < 2 ^ k → bit_or r (q * 2 ^ k) ≡ q * 2 ^ k + r
bit_or-shift_right zero q zero h = omega (arith, zero-bit_or (q * 2 ^ 0))
bit_or-shift_right zero q (suc r) h = absurd (omega arith)
bit_or-shift_right (suc k) q r h =
    ground (arith, or_digit r (q * 2 ^ suc k), mul-pow-suc q k, bit_or-shift_right k q (r / 2))

pub bit_and-one : (a : ℕ) → bit_and a 1 ≡ a % 2
bit_and-one a = omega (arith, and_digit a 1, and_zero (a / 2) (a / 2) (le_refl _))

-- `i ^ 1` is the other one of the pair that `i` lies in.
pub bit_xor-one : (a : ℕ) → bit_xor a 1 ≡ a / 2 * 2 + (1 - a % 2)
bit_xor-one a =
    omega
      (arith, xor_digit a 1, xor_zero (a / 2) (a / 2) (le_refl _), differ_one (a % 2) (omega arith))

-- A mask of ones takes one step for each of its bits.
and_ones : (a m : ℕ) → bit_and a (m * 2 + 1) ≡ bit_and (a / 2) m * 2 + a % 2
and_ones a m =
    let half : (m * 2 + 1) / 2 ≡ m = omega arith in
    omega (arith, and_digit a (m * 2 + 1), ap (λ (t : ℕ). bit_and (a / 2) t) half)

bit_and-fifteen : (a : ℕ) → bit_and a 15 ≡ a % 16
bit_and-fifteen a =
    omega
      (arith, and_ones a 7, and_ones (a / 2) 3, and_ones (a / 2 / 2) 1, bit_and-one (a / 2 / 2 / 2))

-- `b & 0x1f`
pub bit_and-five_ones : (a : ℕ) → bit_and a 0x1f ≡ a % 32
bit_and-five_ones a = omega (arith, and_ones a 15, bit_and-fifteen (a / 2))

-- `n & 0xffn`
pub bit_and-byte : (a : ℕ) → bit_and a 0xff ≡ a % 256
bit_and-byte a = omega (
  arith,
  and_ones a 127,
  and_ones (a / 2) 63,
  and_ones (a / 2 / 2) 31,
  bit_and-five_ones (a / 2 / 2 / 2),
)
