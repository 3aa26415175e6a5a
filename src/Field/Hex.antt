-- ===== src/Field/Hex.antt =====
-- The way of `fieldToBE32` through a padded hexadecimal string gives the bytes of the number.
use kirite.Prelude.{
  ℕ, zero, suc, ◌+◌, ◌-◌, ◌*◌, ◌/◌, ◌%◌, ◌^◌, ◌≤◌, ◌<◌, ◌≡◌, refl, ap, ◌∙◌, List, [], ◌∷◌, ◌++◌,
  arith, length, replicate, Bool-cases, ltb, ltb→lt, lt→ltb, inl, inr,
}
use kirite.Bytes.{be_bytes_onto, be_bytes}
use kirite.Field.{to_hex_onto, to_hex, pad_start, parse_pairs, field_to_be32}
use native.Mathlib.Nat.{pow-succ'}

-- The `w` lowest hexadecimal digits of `n`, in front of `acc`.
digits_onto : ℕ → ℕ → List ℕ → List ℕ
digits_onto zero n acc = acc
digits_onto (suc w) n acc = digits_onto w (n / 16) ((n % 16) ∷ acc)

replicate-append : (w : ℕ) (acc : List ℕ) → replicate w 0 ++ 0 ∷ acc ≡ 0 ∷ (replicate w 0 ++ acc)
replicate-append zero acc = refl
replicate-append (suc w) acc = ap (0 ∷◌) (replicate-append w acc)

digits_onto-zero : (w : ℕ) (acc : List ℕ) → digits_onto w 0 acc ≡ replicate w 0 ++ acc
unfolding digits_onto
digits_onto-zero zero acc = refl
digits_onto-zero (suc w) acc = digits_onto-zero w (0 ∷ acc) ∙ replicate-append w acc

length-to_hex_onto : (f n : ℕ) (acc : List ℕ) → length acc ≤ length (to_hex_onto f n acc)
unfolding to_hex_onto
length-to_hex_onto zero n acc = omega arith
length-to_hex_onto (suc f) n acc = ground (arith, length-to_hex_onto f (n / 16) (n % 16 ∷ acc))

-- A number of one digit is written at once.
pad-to_hex_onto_last :
    (f w n : ℕ) (acc : List ℕ)
    → n < 16
    → replicate (suc w + length acc - length (to_hex_onto (suc f) n acc)) 0
        ++ to_hex_onto (suc f) n acc
      ≡ digits_onto (suc w) n acc
unfolding to_hex_onto digits_onto
pad-to_hex_onto_last f w n acc h =
    let width : suc w + length acc - suc (length acc) ≡ w = omega arith in
    let high : n / 16 ≡ 0 = omega arith in
    let low : n % 16 ≡ n = omega arith in rw (lt→ltb n 16 h, width, high, low, digits_onto-zero)

-- Padding on the left supplies the digits that are zero.
pad-to_hex_onto :
    (f w n : ℕ) (acc : List ℕ)
    → n < f
    → n < 16 ^ suc w
    → replicate (suc w + length acc - length (to_hex_onto f n acc)) 0 ++ to_hex_onto f n acc
      ≡ digits_onto (suc w) n acc
unfolding to_hex_onto digits_onto
pad-to_hex_onto zero w n acc h small = elim h [ ]
pad-to_hex_onto (suc f) zero n acc h small = pad-to_hex_onto_last f zero n acc (omega arith)
pad-to_hex_onto (suc f) (suc w) n acc h small = elim (Bool-cases (ltb n 16)) [
  | inl last ↦ pad-to_hex_onto_last f (suc w) n acc (ltb→lt n 16 last)
  | inr more ↦
      let shift : suc (suc w) + length acc ≡ suc w + length (n % 16 ∷ acc) = omega arith in
      rw (more, shift)
        (pad-to_hex_onto f w (n / 16) (n % 16 ∷ acc) (ground arith)
          (omega (arith, pow-succ' 16 (suc w))))
]

pad-to_hex : (w n : ℕ) → n < 16 ^ suc w → pad_start (suc w) (to_hex n) ≡ digits_onto (suc w) n []
unfolding pad_start to_hex
pad-to_hex w n h =
    let width : suc w ≡ suc w + 0 = omega arith in
    ap (λ (t : ℕ). replicate (t - length (to_hex n)) 0 ++ to_hex n) width
    ∙ pad-to_hex_onto (suc n) w n [] (omega arith) h

-- Two digits make a byte.
parse_pairs-digits_onto :
    (k j n : ℕ) (acc : List ℕ)
    → parse_pairs (k + j) (digits_onto (k * 2) n acc) ≡ be_bytes_onto k n (parse_pairs j acc)
unfolding digits_onto be_bytes_onto parse_pairs
parse_pairs-digits_onto zero j n acc = let sum : 0 + j ≡ j = omega arith in rw sum
parse_pairs-digits_onto (suc k) j n acc =
    let twice : suc k * 2 ≡ suc (suc (k * 2)) = omega arith in
    let sum : suc k + j ≡ k + suc j = omega arith in
    let low : n / 16 % 16 * 16 + n % 16 ≡ n % 256 = omega arith in
    let high : n / 16 / 16 ≡ n / 256 = omega arith in
    rw (twice, sum)
      (parse_pairs-digits_onto k (suc j) (n / 16 / 16) (n / 16 % 16 ∷ n % 16 ∷ acc)
        ∙ rw (high, low))

-- `fieldToBE32` gives the 32 bytes of every number that fits them.
pub field_to_be32-eq-be_bytes : (n : ℕ) → n < 256 ^ 32 → field_to_be32 n ≡ be_bytes 32 n
unfolding field_to_be32 be_bytes
field_to_be32-eq-be_bytes n h =
    ap (parse_pairs 32) (pad-to_hex 63 n h) ∙ parse_pairs-digits_onto 32 0 n []
