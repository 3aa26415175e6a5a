-- ===== src/Field/Draw.antt =====
-- Which byte strings `randomFieldBytes` gives, and the two moduli of the sources.
use kirite.Prelude.{
  ◌≤◌, ◌<◌, ◌≡◌, some, List, [], ◌∷◌, ◌++◌, arith, All, true, false, lt→ltb, le→ltb, ◌⊎◌, inl, inr,
}
use kirite.Bytes.{Bytes}
use kirite.Field.{bn254_p, be32_to_field, be32_to_bigint, accepts, random_field_bytes}
use kirite.Poseidon.{bn254_field_modulus}
use native.Mathlib.Nat.{mod-eq_of_lt}

abbrev pub IsRejected : Bytes → Type 0
IsRejected d = (be32_to_bigint d ≡ 0) ⊎ (bn254_p ≤ be32_to_bigint d)

IsRejected-accepts : (d : Bytes) → IsRejected d → accepts d ≡ false
unfolding accepts
IsRejected-accepts d (inl zero_value) = rw zero_value
IsRejected-accepts d (inr large) = rw (le→ltb _ _ large)

taken-accepts : (c : Bytes) → 0 < be32_to_bigint c → be32_to_bigint c < bn254_p → accepts c ≡ true
unfolding accepts
taken-accepts c positive small = rw (lt→ltb _ _ positive, lt→ltb _ _ small)

-- The draws that spell 0 or a number from `BN254_P` on are passed over; the first draw that does
-- not is the result, and `be32ToField` does not reduce it.
random_field_bytes-first :
    (before : List Bytes) (c : Bytes) (after : List Bytes)
    → All IsRejected before
    → 0 < be32_to_bigint c
    → be32_to_bigint c < bn254_p
    → (random_field_bytes (before ++ c ∷ after) ≡ some c) × (be32_to_field c ≡ be32_to_bigint c)
unfolding random_field_bytes be32_to_field be32_to_bigint
random_field_bytes-first [] c after h positive small =
    (rw (taken-accepts c positive small), mod-eq_of_lt small)
random_field_bytes-first (d ∷ before) c after (passed, h) positive small =
    let (found, plain) = random_field_bytes-first before c after h positive small in
    (rw (IsRejected-accepts d passed) found, plain)

-- `BN254_P` of sdk/src/zk.mjs is not the modulus of the field that circuits compute in, which
-- sdk/src/constants.ts holds: every draw between the two is taken by `randomFieldBytes`, and the
-- number that `be32ToField` makes of it is beyond the field.
pub random_field_bytes-beyond_field :
    (c : Bytes) (after : List Bytes)
    → bn254_field_modulus ≤ be32_to_bigint c
    → be32_to_bigint c < bn254_p
    → (random_field_bytes (c ∷ after) ≡ some c) × (bn254_field_modulus ≤ be32_to_field c)
random_field_bytes-beyond_field c after beyond small =
    let (found, plain) = random_field_bytes-first [] c after tt (omega arith) small in
    (found, rw plain beyond)
