-- ===== src/Membership/Recipient.antt =====
-- `pubkeyToField`: clearing three bits makes any hash a number of the circuit's field.
use kirite.Prelude.{
  ℕ, ◌+◌, ◌*◌, ◌%◌, ◌^◌, ◌<◌, ◌≡◌, sym, ◌∙◌, [], ◌∷◌, length, arith, bit_and-five_ones,
}
use kirite.Bytes.{Bytes, IsBytes, be_value, be_value_from, be_value_from-lt}
use kirite.Field.{be32_to_field, be32_to_bigint}
use kirite.Field.RoundTrip.{be32_to_bigint-eq-be_value, be32_to_field-eq-mod}
use kirite.Poseidon.{bn254_field_modulus}
use kirite.Membership.{clamp_first, pubkey_to_field}
use native.Mathlib.Nat.{mod-eq_of_lt}

clamped-small :
    (first : ℕ) (rest : Bytes)
    → IsBytes rest
    → length rest ≡ 31
    → be_value (first % 32 ∷ rest) < 2 ^ 253
unfolding be_value be_value_from
clamped-small first rest h len =
    let bound : be_value_from (first % 32) rest < (first % 32 + 1) * 256 ^ 31 =
      rw len at (be_value_from-lt (first % 32) rest h) in
    let plain : 0 * 256 + first % 32 ≡ first % 32 = omega arith in rw plain (omega (arith, bound))

-- 32 bytes that spell a number below 2 ^ 253.
record IsClamped (bs : Bytes) : Type 0 where
  len : length bs ≡ 32
  are_bytes : IsBytes bs
  small : be_value bs < 2 ^ 253

clamp_first-IsClamped : (h : Bytes) → IsBytes h → length h ≡ 32 → IsClamped (clamp_first h)
unfolding clamp_first
clamp_first-IsClamped [] are_bytes len = absurd (omega arith)
clamp_first-IsClamped (first ∷ rest) (_, are_bytes) len = rw (bit_and-five_ones first) (record {
  len = len;
  are_bytes = (omega arith, are_bytes);
  small = clamped-small first rest are_bytes (omega arith);
})

module _ (keccak_256 : Bytes → Bytes) (pk : Bytes) where
  -- Of a 32-byte hash the recipient's field element is 32 bytes that spell a number below 2 ^ 253,
  -- hence below both moduli of the sources: `be32ToField` does not reduce it.
  pub pubkey_to_field_bounds :
      IsBytes (keccak_256 pk)
      → length (keccak_256 pk) ≡ 32
      → (length (pubkey_to_field keccak_256 pk) ≡ 32)
        × IsBytes (pubkey_to_field keccak_256 pk)
        × (be32_to_bigint (pubkey_to_field keccak_256 pk) < 2 ^ 253)
        × (be32_to_bigint (pubkey_to_field keccak_256 pk) < bn254_field_modulus)
        × (be32_to_field (pubkey_to_field keccak_256 pk)
            ≡ be32_to_bigint (pubkey_to_field keccak_256 pk))
  unfolding pubkey_to_field
  pubkey_to_field_bounds are_bytes len =
      let c = clamp_first-IsClamped (keccak_256 pk) are_bytes len in
      let value = be32_to_bigint-eq-be_value (clamp_first (keccak_256 pk)) c.are_bytes in
      (
        c.len,
        c.are_bytes,
        rw value c.small,
        rw value (omega (arith, c.small)),
        be32_to_field-eq-mod (clamp_first (keccak_256 pk)) c.are_bytes
            ∙ mod-eq_of_lt (omega (arith, c.small))
            ∙ sym value,
      )
