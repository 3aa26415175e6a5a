-- ===== src/Web3/Toy.antt =====
-- Four keys with the laws of the parameter, on which the definitions can be run.
use kirite.Prelude.{
  ℕ, ◌≡◌, ◌↔◌, refl, Bool, true, [], ◌∷◌, Result, ok, replicate, ◌==◌, if◌then◌else◌, arith,
}
use kirite.Bytes.{Bytes, IsBytes}
use kirite.Web3.{Web3}

pub data Key : Type 0 where
  alice bob pool_key program : Key

abbrev pub tag : Key → ℕ
tag Key.alice = 1
tag Key.bob = 2
tag Key.pool_key = 3
tag Key.program = 4

abbrev pub key_bytes : Key → Bytes
key_bytes k = tag k ∷ replicate 31 0

abbrev pub key_at : Bytes → Key
key_at [] = Key.program
key_at (x ∷ xs) =
    if x == 1
    then Key.alice
    else if x == 2
    then Key.bob
    else if x == 3
    then Key.pool_key
    else Key.program

abbrev pub key_of : Bytes → Result Key
key_of bs = ok (key_at bs)

abbrev pub key_equals : Key → Key → Bool
key_equals a b = tag a == tag b

pub key_of-key_bytes : (k : Key) → key_of (key_bytes k) ≡ ok k
key_of-key_bytes Key.alice = refl
key_of-key_bytes Key.bob = refl
key_of-key_bytes Key.pool_key = refl
key_of-key_bytes Key.program = refl

pub key_equals_iff : (a b : Key) → (key_equals a b ≡ true) ↔ (a ≡ b)
key_equals_iff a b = ground arith

pub key_bytes-IsBytes : (k : Key) → IsBytes (key_bytes k)
key_bytes-IsBytes k = ground arith

abbrev pub toy_web3 : Web3
toy_web3 = record {
  PublicKey = Key;
  of_bytes = key_of;
  to_bytes = key_bytes;
  equals = key_equals;
  find_program_address = λ seeds program. (Key.pool_key, 255);
  length-to_bytes = λ k. refl;
  to_bytes-IsBytes = key_bytes-IsBytes;
  of_bytes-to_bytes = key_of-key_bytes;
  equals_iff = key_equals_iff;
}
