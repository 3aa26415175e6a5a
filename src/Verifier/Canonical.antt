-- ===== src/Verifier/Canonical.antt =====
-- What `is_canonical_field_element` accepts.
use kirite.Prelude.{
  ℕ, ◌+◌, ◌*◌, ◌^◌, ◌≤◌, ◌<◌, ◌≡◌, ◌↔◌, refl, ap, Bool, true, false, [], ◌∷◌, length, inl, inr,
  lt→ltb, le→ltb, ◌⊎◌, arith,
}
use kirite.Bytes.{
  Bytes, IsBytes, be_value, be_value_from, be_bytes, be_value-be_bytes, be_bytes-IsBytes,
  length-be_bytes, be_value-cons, be_value-lt,
}
use kirite.Field.{bn254_p, field_to_be32, be32_to_field}
use kirite.Field.Hex.{field_to_be32-eq-be_bytes}
use kirite.Field.RoundTrip.{be32_to_field-field_to_be32}
use kirite.Poseidon.{bn254_field_modulus}
use kirite.Verifier.{field_modulus_bytes, lt_be32, is_canonical_field_element}

-- A greater first digit decides.
first_digit : (x y e low : ℕ) → x < y → low < e → x * e + low < y * e
first_digit x y e low less small =
    let next : (x + 1) * e ≤ y * e = grind arith in
    let spread : (x + 1) * e ≡ x * e + e = grind arith in omega arith

order_cases : (x y : ℕ) → (x < y) ⊎ ((y < x) ⊎ (x ≡ y))
order_cases x y = omega arith

less_eq : (a : Bool) {n m : ℕ} → a ≡ true → n < m → (a ≡ true) ↔ (n < m)
less_eq a holds less = (λ same. less, λ other. holds)

not_less_eq : (a : Bool) {n m : ℕ} → a ≡ false → m ≤ n → (a ≡ true) ↔ (n < m)
not_less_eq a fails more = (λ holds. absurd (cc), λ less. absurd (omega arith))

lt_be32-lt :
    (xs ys : Bytes)
    → IsBytes xs
    → IsBytes ys
    → length xs ≡ length ys
    → (lt_be32 xs ys ≡ true) ↔ (be_value xs < be_value ys)
unfolding lt_be32
lt_be32-lt [] [] hx hy len = not_less_eq false refl (omega arith)
lt_be32-lt [] (y ∷ ys) hx hy len = absurd (omega arith)
lt_be32-lt (x ∷ xs) [] hx hy len = absurd (omega arith)
lt_be32-lt (x ∷ xs) (y ∷ ys) (small, hx) (small', hy) len =
    let same_length : length xs ≡ length ys = omega arith in
    let left = be_value-cons x xs in
    let right : be_value (y ∷ ys) ≡ y * 256 ^ length xs + be_value ys =
      rw same_length (be_value-cons y ys) in
    let low : be_value xs < 256 ^ length xs = be_value-lt xs hx in
    let low' : be_value ys < 256 ^ length xs = rw same_length (be_value-lt ys hy) in
    elim (order_cases x y) [
      | inl less ↦ rw (lt→ltb x y less) (
          less_eq true refl
            (omega (arith, left, right, first_digit x y (256 ^ length xs) (be_value xs) less low)))
      | inr (inl more) ↦
          rw (le→ltb x y (omega arith), lt→ltb y x more)
            (not_less_eq false refl (
              omega
                (arith, left, right, first_digit y x (256 ^ length xs) (be_value ys) more low')))
      | inr (inr same) ↦
          let rest = lt_be32-lt xs ys hx hy same_length in
          let shared : x * 256 ^ length xs ≡ y * 256 ^ length xs =
            ap (λ (t : ℕ). t * 256 ^ length xs) same in
          rw (le→ltb x y (omega arith), le→ltb y x (omega arith))
            (
              λ holds. omega (arith, left, right, shared, rest.0 holds),
              λ less. rest.1 (omega (arith, left, right, shared)),
            )
    ]

pub modulus-value : be_value field_modulus_bytes ≡ bn254_p
unfolding be_value be_value_from
modulus-value = refl

pub modulus-IsBytes : IsBytes field_modulus_bytes
modulus-IsBytes = ground arith

-- `is_canonical_field_element` accepts 32 bytes exactly where they spell a number below `BN254_P` of
-- sdk/src/zk.mjs.
pub is_canonical_field_element_iff :
    (bs : Bytes)
    → IsBytes bs
    → length bs ≡ 32
    → (is_canonical_field_element bs ≡ true) ↔ (be_value bs < bn254_p)
unfolding is_canonical_field_element
is_canonical_field_element_iff bs h len =
    rw modulus-value at (lt_be32-lt bs field_modulus_bytes h modulus-IsBytes len)

-- The bytes of a number between the order of the circuit's field and `BN254_P` are accepted as
-- canonical, though they are no canonical element of that field.
is_canonical_field_element-beyond_field :
    (n : ℕ)
    → bn254_field_modulus ≤ n
    → n < bn254_p
    → (is_canonical_field_element (field_to_be32 n) ≡ true)
      × (bn254_field_modulus ≤ be32_to_field (field_to_be32 n))
is_canonical_field_element-beyond_field n beyond small =
    let fits : n < 256 ^ 32 = omega arith in
    let plain = field_to_be32-eq-be_bytes n fits in
    let read = be32_to_field-field_to_be32 n small in
    let value : be_value (be_bytes 32 n) < bn254_p = rw (be_value-be_bytes 32 n fits) small in
    (
      rw plain (
          (is_canonical_field_element_iff (be_bytes 32 n) (be_bytes-IsBytes 32 n)
              (length-be_bytes 32 n)).1
            value),
      rw read beyond,
    )
