-- ===== src/Verifier/Mirror.antt =====
-- The encodings of public inputs: the program's against the SDK's.
use kirite.Prelude.{ℕ, ◌/◌, ◌<◌, ◌^◌, ◌≡◌, refl, true, arith, [], ◌∷◌, length}
use kirite.Bytes.{Bytes, IsBytes, be_bytes, be_bytes_onto}
use kirite.Field.{u64_to_be32}
use kirite.Field.RoundTrip.{u64_to_be32-eq-be_bytes, be32_to_bigint-eq-be_value}
use kirite.Membership.{clamp_first, pubkey_to_field}
use kirite.Membership.Recipient.{pubkey_to_field_bounds}
use kirite.Verifier.{
  u64_to_field_be, clear_top_bits, program_pubkey_to_field, is_canonical_field_element,
}
use kirite.Verifier.Canonical.{is_canonical_field_element_iff}

-- The program and the SDK spell an amount of 64 bits in the same 32 bytes.
pub u64_to_field_be-eq : (n : ℕ) → n < 2 ^ 64 → u64_to_field_be n ≡ u64_to_be32 n
unfolding u64_to_field_be be_bytes be_bytes_onto
u64_to_field_be-eq n small =
    let none_left : n / 256 / 256 / 256 / 256 / 256 / 256 / 256 / 256 ≡ 0 = omega arith in
    rw (u64_to_be32-eq-be_bytes n, none_left) refl

clear_top_bits-eq : (h : Bytes) → clear_top_bits h ≡ clamp_first h
unfolding clear_top_bits clamp_first
clear_top_bits-eq [] = refl
clear_top_bits-eq (first ∷ rest) = refl

pub program_pubkey_to_field_eq :
    (keccak : Bytes → Bytes) (pk : Bytes)
    → program_pubkey_to_field keccak pk ≡ pubkey_to_field keccak pk
unfolding program_pubkey_to_field pubkey_to_field
program_pubkey_to_field_eq keccak pk = clear_top_bits-eq (keccak pk)

-- The program and the SDK make the same bytes of a recipient's key, and those pass the program's
-- check of public inputs.
program_pubkey_to_field-eq :
    (keccak : Bytes → Bytes) (pk : Bytes)
    → IsBytes (keccak pk)
    → length (keccak pk) ≡ 32
    → (program_pubkey_to_field keccak pk ≡ pubkey_to_field keccak pk)
      × (is_canonical_field_element (program_pubkey_to_field keccak pk) ≡ true)
unfolding program_pubkey_to_field pubkey_to_field
program_pubkey_to_field-eq keccak pk h len =
    let same = clear_top_bits-eq (keccak pk) in
    let bounds = pubkey_to_field_bounds keccak pk h len in
    let value = be32_to_bigint-eq-be_value (pubkey_to_field keccak pk) bounds.1 in
    (
      same,
      rw same (
          (is_canonical_field_element_iff (pubkey_to_field keccak pk) bounds.1 bounds.0).1
            (omega (arith, value, bounds.2))),
    )
