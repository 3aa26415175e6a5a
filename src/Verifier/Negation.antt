-- ===== src/Verifier/Negation.antt =====
-- The loop of `negate_g1_y` subtracts.
use kirite.Prelude.{
  ℕ, ◌+◌, ◌-◌, ◌*◌, ◌^◌, ◌≤◌, ◌<◌, ◌≡◌, refl, ap, [], ◌∷◌, length, length-append, length-take,
  length-drop, take, drop, take-append_of_length, drop-append_of_length, ltb, false, Bool-cases,
  inl, inr, ltb→lt, suc, arith,
}
use native.Mathlib.Nat.{pow-suc}
use kirite.Bytes.{Bytes, IsBytes, be_value, be_value-cons, be_value_from, be_value-lt}
use kirite.Field.{bn254_p}
use kirite.Verifier.{field_modulus_bytes, subtract_bytes, negate_g1_y}
use kirite.Verifier.Canonical.{modulus-value, modulus-IsBytes}

ltb_false→le : (a b : ℕ) → ltb a b ≡ false → b ≤ a
ltb_false→le a b h = ground arith

-- Of two arrays of the same length: the difference in bytes, short of the borrow.
record Subtracts (ps ys : Bytes) (out : Bytes) (borrow : ℕ) : Type 0 where
  are_bytes : IsBytes out
  len : length out ≡ length ps
  single : borrow < 2
  value : be_value out + be_value ys ≡ be_value ps + borrow * 256 ^ length ps

nothing : Subtracts [] [] [] 0
unfolding be_value be_value_from
nothing = record { are_bytes = tt; len = refl; single = omega arith; value = omega arith }

-- One more byte in front: its difference, with the borrow that it passes on.
digit_step :
    (p y d c : ℕ) (ps ys out : Bytes) (b : ℕ)
    → Subtracts ps ys out b
    → length ps ≡ length ys
    → d < 256
    → c < 2
    → d + (y + b) ≡ p + c * 256
    → Subtracts (p ∷ ps) (y ∷ ys) (d ∷ out) c
digit_step p y d c ps ys out b below same small single digit =
    let scaled : (d + (y + b)) * 256 ^ length ps ≡ (p + c * 256) * 256 ^ length ps =
      ap (λ (t : ℕ). t * 256 ^ length ps) digit in
    let left : (d + (y + b)) * 256 ^ length ps
        ≡ d * 256 ^ length ps + y * 256 ^ length ps + b * 256 ^ length ps =
      grind arith in
    let right : (p + c * 256) * 256 ^ length ps
        ≡ p * 256 ^ length ps + c * (256 * 256 ^ length ps) =
      grind arith in
    let first : be_value (d ∷ out) ≡ d * 256 ^ length ps + be_value out =
      rw below.len at (be_value-cons d out) in
    let second : be_value (y ∷ ys) ≡ y * 256 ^ length ps + be_value ys =
      rw same (be_value-cons y ys) in
    record {
      are_bytes = (small, below.are_bytes);
      len = ap suc below.len;
      single = single;
      value = omega (
        arith,
        first,
        second,
        be_value-cons p ps,
        scaled,
        left,
        right,
        below.value,
        ap (λ (t : ℕ). c * t) (pow-suc 256 (length ps)),
      );
    }

subtract_bytes-Subtracts :
    (ps ys : Bytes)
    → IsBytes ps
    → IsBytes ys
    → length ps ≡ length ys
    → Subtracts ps ys (subtract_bytes ps ys).0 (subtract_bytes ps ys).1
unfolding subtract_bytes
subtract_bytes-Subtracts [] [] hp hy len = nothing
subtract_bytes-Subtracts [] (y ∷ ys) hp hy len = absurd (omega arith)
subtract_bytes-Subtracts (p ∷ ps) [] hp hy len = absurd (omega arith)
subtract_bytes-Subtracts (p ∷ ps) (y ∷ ys) (small, hp) (small', hy) len =
    let below = subtract_bytes-Subtracts ps ys hp hy (omega arith) in
    elim (Bool-cases (ltb p (y + (subtract_bytes ps ys).1))) [
      | inl less ↦
          let under : p < y + (subtract_bytes ps ys).1 =
            ltb→lt p (y + (subtract_bytes ps ys).1) less in
          rw less (
            digit_step p y (p + 256 - (y + (subtract_bytes ps ys).1)) 1 ps ys
              (subtract_bytes ps ys).0 (subtract_bytes ps ys).1 below (omega arith)
              (omega (arith, below.single)) (omega arith) (omega (arith, below.single)))
      | inr enough ↦
          let over : y + (subtract_bytes ps ys).1 ≤ p =
            ltb_false→le p (y + (subtract_bytes ps ys).1) enough in
          rw enough (
            digit_step p y (p - (y + (subtract_bytes ps ys).1)) 0 ps ys (subtract_bytes ps ys).0
              (subtract_bytes ps ys).1 below (omega arith) (omega arith) (omega arith)
              (omega arith))
    ]

-- Of the 64 bytes of a point whose second coordinate is at most `BN254_P`, `negate_g1_y` keeps the
-- first coordinate, and spells `BN254_P` less the second one in 32 bytes.
pub negate_g1_y-value :
    (g1 : Bytes)
    → IsBytes (drop 32 g1)
    → length g1 ≡ 64
    → be_value (drop 32 g1) ≤ bn254_p
    → (length (negate_g1_y g1) ≡ 64)
      × (take 32 (negate_g1_y g1) ≡ take 32 g1)
      × (be_value (drop 32 (negate_g1_y g1)) ≡ bn254_p - be_value (drop 32 g1))
unfolding negate_g1_y
negate_g1_y-value g1 h len small =
    let y = drop 32 g1 in
    let d = subtract_bytes field_modulus_bytes y in
    let first : length (take 32 g1) ≡ 32 = omega (arith, length-take 32 g1) in
    let s =
      subtract_bytes-Subtracts field_modulus_bytes y modulus-IsBytes h
        (omega (arith, length-drop 32 g1)) in
    let room : be_value d.0 < 256 ^ 32 = rw s.len at (be_value-lt d.0 s.are_bytes) in
    (
      omega (arith, length-append (take 32 g1) d.0, first, s.len),
      take-append_of_length 32 (take 32 g1) d.0 first,
      rw (drop-append_of_length 32 (take 32 g1) d.0 first)
          (omega (arith, s.value, s.single, room, modulus-value)),
    )
