-- ===== src/Tests/Field.antt =====
-- The conversions at concrete numbers and draws.
use kirite.Prelude.{◌≤◌, ◌≡◌, some, [], ◌∷◌, arith}
use kirite.Bytes.{Bytes}
use kirite.Field.{be32_to_field, be32_to_bigint, dec_to_be32, random_field_bytes}
use kirite.Field.RoundTrip.{encoders_agree}
use kirite.Field.Draw.{random_field_bytes-beyond_field}
use kirite.Poseidon.{bn254_field_modulus}

-- A draw between the two moduli, which have their first 16 bytes in common.
abbrev between : Bytes
between = dec_to_be32 bn254_field_modulus

between-value : be32_to_bigint between ≡ bn254_field_modulus
between-value = (encoders_agree bn254_field_modulus (omega arith)).3

random_field_bytes-beyond_field_example :
    (random_field_bytes (between ∷ []) ≡ some between)
    × (bn254_field_modulus ≤ be32_to_field between)
random_field_bytes-beyond_field_example =
    random_field_bytes-beyond_field between [] (omega (arith, between-value))
      (omega (arith, between-value))
