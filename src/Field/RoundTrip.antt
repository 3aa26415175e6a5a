-- ===== src/Field/RoundTrip.antt =====
-- The byte loops of sdk/src/zk.mjs against the plain big-endian spelling, and their round trips.
use kirite.Prelude.{
  ℕ, zero, suc, ◌+◌, ◌*◌, ◌/◌, ◌%◌, ◌^◌, ◌<◌, ◌≡◌, refl, ap, ◌∙◌, sym, [], ◌∷◌, ◌++◌, arith, length,
  replicate, ◌==◌, ==_iff, Bool-cases, inl, inr, bit_or-shift, bit_and-byte,
}
use kirite.Bytes.{
  Bytes, IsBytes, be_bytes, be_bytes_onto, be_value, be_value_from, be_value-be_bytes,
  be_bytes-be_value, be_bytes-IsBytes, length-be_bytes,
}
use kirite.Field.{
  bn254_p, field_to_be32, be_accumulate, be32_to_field, be32_to_bigint, fill_bytes, dec_to_be32,
  fill_while_positive, u64_to_be32,
}
use kirite.Field.Hex.{field_to_be32-eq-be_bytes}
use native.Mathlib.Nat.{mod-eq_of_lt}

be_accumulate-eq : (v : ℕ) (bs : Bytes) → IsBytes bs → be_accumulate v bs ≡ be_value_from v bs
unfolding be_accumulate be_value_from
be_accumulate-eq v [] h = refl
be_accumulate-eq v (b ∷ bs) (small, h) =
    rw (bit_or-shift 8 v b small) (be_accumulate-eq (v * 256 + b) bs h)

-- On bytes the shifting loop gives the number that they spell.
pub be32_to_bigint-eq-be_value : (bs : Bytes) → IsBytes bs → be32_to_bigint bs ≡ be_value bs
unfolding be32_to_bigint be_value
be32_to_bigint-eq-be_value bs h = be_accumulate-eq 0 bs h

pub be32_to_field-eq-mod : (bs : Bytes) → IsBytes bs → be32_to_field bs ≡ be_value bs % bn254_p
unfolding be32_to_field be_value
be32_to_field-eq-mod bs h = rw (be_accumulate-eq 0 bs h)

fill_bytes-eq : (k n : ℕ) (acc : Bytes) → fill_bytes k n acc ≡ be_bytes_onto k n acc
unfolding fill_bytes be_bytes_onto
fill_bytes-eq zero n acc = refl
fill_bytes-eq (suc k) n acc = rw (bit_and-byte n) (fill_bytes-eq k (n / 256) (n % 256 ∷ acc))

pub dec_to_be32-eq-be_bytes : (n : ℕ) → dec_to_be32 n ≡ be_bytes 32 n
unfolding dec_to_be32 be_bytes
dec_to_be32-eq-be_bytes n = fill_bytes-eq 32 n []

zeros-append : (k : ℕ) (acc : Bytes) → replicate k 0 ++ 0 ∷ acc ≡ 0 ∷ (replicate k 0 ++ acc)
zeros-append zero acc = refl
zeros-append (suc k) acc = ap (0 ∷◌) (zeros-append k acc)

be_bytes_onto-zero : (k : ℕ) (acc : Bytes) → be_bytes_onto k 0 acc ≡ replicate k 0 ++ acc
unfolding be_bytes_onto
be_bytes_onto-zero zero acc = refl
be_bytes_onto-zero (suc k) acc = be_bytes_onto-zero k (0 ∷ acc) ∙ zeros-append k acc

fill_while_positive-eq :
    (k n : ℕ) (acc : Bytes) → fill_while_positive k n acc ≡ be_bytes_onto k n acc
unfolding fill_while_positive be_bytes_onto
fill_while_positive-eq zero n acc = refl
fill_while_positive-eq (suc k) n acc = elim (Bool-cases (n == 0)) [
  | inl done ↦
      let none_left : n ≡ 0 = (==_iff n 0).0 done in
      rw none_left (sym (be_bytes_onto-zero (suc k) acc))
  | inr more ↦ rw (more, bit_and-byte n) (fill_while_positive-eq k (n / 256) (n % 256 ∷ acc))
]

-- The early exit of the loop leaves the zeros that the array began with.
pub u64_to_be32-eq-be_bytes : (n : ℕ) → u64_to_be32 n ≡ be_bytes 32 n
unfolding u64_to_be32 be_bytes
u64_to_be32-eq-be_bytes n = fill_while_positive-eq 32 n []

pub be32_to_field-u64_to_be32 : (n : ℕ) → n < bn254_p → be32_to_field (u64_to_be32 n) ≡ n
be32_to_field-u64_to_be32 n h =
    let fits : n < 256 ^ 32 = omega arith in
    rw
      (
        u64_to_be32-eq-be_bytes n,
        be32_to_field-eq-mod (be_bytes 32 n) (be_bytes-IsBytes 32 n),
        be_value-be_bytes 32 n fits,
      )
      (mod-eq_of_lt h)

-- A number below the modulus survives the way to bytes and back, with no reduction.
pub be32_to_field-field_to_be32 : (n : ℕ) → n < bn254_p → be32_to_field (field_to_be32 n) ≡ n
be32_to_field-field_to_be32 n h =
    let fits : n < 256 ^ 32 = omega arith in
    rw
      (
        field_to_be32-eq-be_bytes n fits,
        be32_to_field-eq-mod (be_bytes 32 n) (be_bytes-IsBytes 32 n),
        be_value-be_bytes 32 n fits,
      )
      (mod-eq_of_lt h)

-- Three routines that spell a number in 32 bytes agree.
pub encoders_agree :
    (n : ℕ)
    → n < 256 ^ 32
    → (field_to_be32 n ≡ dec_to_be32 n)
      × (u64_to_be32 n ≡ dec_to_be32 n)
      × (length (dec_to_be32 n) ≡ 32)
      × (be32_to_bigint (dec_to_be32 n) ≡ n)
encoders_agree n h =
    let plain = dec_to_be32-eq-be_bytes n in
    (
      field_to_be32-eq-be_bytes n h ∙ sym plain,
      u64_to_be32-eq-be_bytes n ∙ sym plain,
      ap length plain ∙ length-be_bytes 32 n,
      ap be32_to_bigint plain
          ∙ be32_to_bigint-eq-be_value (be_bytes 32 n) (be_bytes-IsBytes 32 n)
          ∙ be_value-be_bytes 32 n h,
    )

-- A canonical string of 32 bytes survives the way to a field element and back.
field_to_be32-be32_to_field :
    (bs : Bytes)
    → IsBytes bs
    → length bs ≡ 32
    → be32_to_bigint bs < bn254_p
    → field_to_be32 (be32_to_field bs) ≡ bs
field_to_be32-be32_to_field bs h len canonical =
    let value = be32_to_bigint-eq-be_value bs h in
    let small : be_value bs < bn254_p = rw value at canonical in
    let fits : be_value bs < 256 ^ 32 = omega arith in
    rw (be32_to_field-eq-mod bs h, mod-eq_of_lt small, field_to_be32-eq-be_bytes (be_value bs) fits)
      (rw len at (be_bytes-be_value bs h))
