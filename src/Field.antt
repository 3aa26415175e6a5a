-- ===== src/Field.antt =====
-- Field elements and byte strings: the conversions of sdk/src/zk.mjs (`fieldToBE32`, `be32ToField`,
-- `be32ToBigint`, `u64ToBE32`, `decToBE32`, `randomFieldBytes`). A string of hexadecimal or decimal
-- digits stands for its digits or for its number.
pub mod Hex
pub mod RoundTrip
pub mod Draw
use kirite.Prelude.{
  ℕ, zero, suc, ◌+◌, ◌*◌, ◌/◌, ◌%◌, ◌^◌, Bool, true, false, ◌&&◌, Option, none, some, List, [], ◌∷◌,
  ◌++◌, ltb, leb, ◌==◌, if◌then◌else◌, replicate, length, ◌-◌, bit_and, bit_or,
}
use kirite.Bytes.{Bytes}

-- `BN254_P`
abbrev pub bn254_p : ℕ
bn254_p = 21888242871839275222246405745257275088696311157297823662689037894645226208583

-- `x.toString(16)`, its digits in front of those already written; the fuel is the rounds left.
to_hex_onto : ℕ → ℕ → List ℕ → List ℕ
to_hex_onto zero n acc = acc
to_hex_onto (suc f) n acc =
    let rest = to_hex_onto f (n / 16) ((n % 16) ∷ acc) in if ltb n 16 then n ∷ acc else rest

to_hex : ℕ → List ℕ
unfolding to_hex_onto
to_hex n = to_hex_onto (suc n) n []

-- `s.padStart(width, "0")`
pad_start : ℕ → List ℕ → List ℕ
pad_start width s = replicate (width - length s) 0 ++ s

-- The loop of `fieldToBE32`: `parseInt(bytes.slice(i * 2, i * 2 + 2), 16)` for the next `k` bytes.
-- Of a string that has run out `parseInt` gives NaN, and the array stores 0.
parse_pairs : ℕ → List ℕ → Bytes
parse_pairs zero s = []
parse_pairs (suc k) [] = 0 ∷ parse_pairs k []
parse_pairs (suc k) (a ∷ []) = a ∷ parse_pairs k []
parse_pairs (suc k) (a ∷ b ∷ s) = (a * 16 + b) ∷ parse_pairs k s

-- `fieldToBE32`, on the number that `_F.toObject` gives.
pub field_to_be32 : ℕ → Bytes
unfolding to_hex pad_start parse_pairs
field_to_be32 n = parse_pairs 32 (pad_start 64 (to_hex n))

-- `for (const b of bytes) v = (v << 8n) | BigInt(b)`
be_accumulate : ℕ → Bytes → ℕ
be_accumulate v [] = v
be_accumulate v (b ∷ bs) = be_accumulate (bit_or (v * 2 ^ 8) b) bs

pub be32_to_field : Bytes → ℕ
unfolding be_accumulate
be32_to_field bs = be_accumulate 0 bs % bn254_p

pub be32_to_bigint : Bytes → ℕ
unfolding be_accumulate
be32_to_bigint bs = be_accumulate 0 bs

-- The loop of `decToBE32` and of `toBE32` in circuits/vk-to-rust*.js, from the last byte down.
fill_bytes : ℕ → ℕ → Bytes → Bytes
fill_bytes zero n acc = acc
fill_bytes (suc i) n acc = fill_bytes i (n / 2 ^ 8) (bit_and n 0xff ∷ acc)

pub dec_to_be32 : ℕ → Bytes
unfolding fill_bytes
dec_to_be32 n = fill_bytes 32 n []

-- The loop of `u64ToBE32` stops when nothing is left of the number; the array was all zeros.
fill_while_positive : ℕ → ℕ → Bytes → Bytes
fill_while_positive zero n acc = acc
fill_while_positive (suc i) n acc =
    let rest = fill_while_positive i (n / 2 ^ 8) (bit_and n 0xff ∷ acc) in
    if n == 0 then replicate (suc i) 0 ++ acc else rest

pub u64_to_be32 : ℕ → Bytes
unfolding fill_while_positive
u64_to_be32 n = fill_while_positive 32 n []

-- `randomFieldBytes` on the candidates that `randomBytes` gives; `none` when none of them serves.
accepts : Bytes → Bool
unfolding be32_to_bigint
accepts c = ltb (be32_to_bigint c) bn254_p && ltb 0 (be32_to_bigint c)

pub random_field_bytes : List Bytes → Option Bytes
unfolding accepts
random_field_bytes [] = none
random_field_bytes (c ∷ cs) = let next = random_field_bytes cs in if accepts c then some c else next
