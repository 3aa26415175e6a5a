-- ===== src/Verifier.antt =====
-- The part of programs/kirite/src/utils/zk.rs that is not the pairing: the checks on public inputs,
-- the negation of a point, and the encodings that the SDK mirrors.
pub mod Canonical
pub mod Negation
pub mod Mirror
use kirite.Prelude.{
  ℕ, ◌+◌, ◌-◌, ◌<◌, Bool, true, false, [], ◌∷◌, ◌++◌, length, take, drop, replicate, ltb, bit_and,
  if◌then◌else◌,
}
use kirite.Bytes.{Bytes, be_bytes}

-- `BN254_FIELD_MODULUS`, which is `BN254_P` too.
abbrev pub field_modulus_bytes : Bytes
field_modulus_bytes =
    0x30 ∷ 0x64 ∷ 0x4e ∷ 0x72 ∷ 0xe1 ∷ 0x31 ∷ 0xa0 ∷ 0x29 ∷ 0xb8 ∷ 0x50 ∷ 0x45 ∷ 0xb6 ∷ 0x81 ∷ 0x81
    ∷ 0x58 ∷ 0x5d ∷ 0x97 ∷ 0x81 ∷ 0x6a ∷ 0x91 ∷ 0x68 ∷ 0x71 ∷ 0xca ∷ 0x8d ∷ 0x3c ∷ 0x20 ∷ 0x8c
    ∷ 0x16 ∷ 0xd8 ∷ 0x7c ∷ 0xfd ∷ 0x47 ∷ []

-- The loop of `lt_be32` over two arrays of the same length.
unfoldable pub lt_be32 : Bytes → Bytes → Bool
lt_be32 [] rhs = false
lt_be32 (x ∷ lhs) [] = false
lt_be32 (x ∷ lhs) (y ∷ rhs) =
    let rest = lt_be32 lhs rhs in if ltb x y then true else if ltb y x then false else rest

unfoldable pub is_canonical_field_element : Bytes → Bool
unfolding lt_be32
is_canonical_field_element bs = lt_be32 bs field_modulus_bytes

-- The loop of `negate_g1_y`, which goes from the last byte to the first: the difference of two arrays
-- of the same length, and the borrow that is left.
unfoldable pub subtract_bytes : Bytes → Bytes → Bytes × ℕ
subtract_bytes [] ys = ([], 0)
subtract_bytes (p ∷ ps) [] = ([], 0)
subtract_bytes (p ∷ ps) (y ∷ ys) =
    let below = subtract_bytes ps ys in
    if ltb p (y + below.1)
    then ((p + 256 - (y + below.1)) ∷ below.0, 1)
    else ((p - (y + below.1)) ∷ below.0, 0)

unfoldable pub negate_g1_y : Bytes → Bytes
unfolding subtract_bytes
negate_g1_y g1 = take 32 g1 ++ (subtract_bytes field_modulus_bytes (drop 32 g1)).0

-- `out[24..].copy_from_slice(&value.to_be_bytes())` into zeros.
unfoldable pub u64_to_field_be : ℕ → Bytes
u64_to_field_be value = replicate 24 0 ++ be_bytes 8 value

unfoldable pub clear_top_bits : Bytes → Bytes
clear_top_bits [] = []
clear_top_bits (first ∷ rest) = bit_and first 0x1f ∷ rest

-- `pubkey_to_field` of the program, on the bytes of the key.
unfoldable pub program_pubkey_to_field : (Bytes → Bytes) → Bytes → Bytes
unfolding clear_top_bits
program_pubkey_to_field keccak pubkey = clear_top_bits (keccak pubkey)
