-- ===== src/Membership.antt =====
-- Proving membership of a note: `generateMembershipProof` of sdk/src/zk.mjs with the functions that
-- it calls, up to the prover of snarkjs.
pub mod Packing
pub mod Inputs
pub mod Circuit
pub mod Recipient
pub mod Completeness
use kirite.Prelude.{
  ℕ, ◌+◌, ◌≤◌, Bool, true, false, Option, none, some, List, [], ◌∷◌, ◌++◌, Result, ok, err, Error,
  ◌>>=◌, ◌>>◌, defined, map_result, length, get_elem?, replicate, take, drop, leb, bit_and,
  bytes_eq, if◌then◌else◌,
}
use kirite.Bytes.{Bytes}
use kirite.Field.{be32_to_field, dec_to_be32, u64_to_be32}
use kirite.Poseidon.{Poseidon, compute_commitment, compute_nullifier_hash}
use kirite.Merkle.OffChain.{MerkleProof, build_merkle_proof}

-- A point of the proof, by the numbers that its decimal strings spell. A coordinate over the
-- quadratic extension is the pair of the two strings, in the order in which snarkjs stores them.
pub record Groth16Proof : Type 0 where
  pub pi_a : ℕ × ℕ
  pub pi_b : (ℕ × ℕ) × (ℕ × ℕ)
  pub pi_c : ℕ × ℕ

-- `target.set(source, offset)` where the source fits.
pub write_at : Bytes → Bytes → ℕ → Bytes
write_at target source offset =
    take offset target ++ (source ++ drop (offset + length source) target)

pub pack_groth16_proof : Groth16Proof → Bytes
unfolding write_at
pack_groth16_proof proof =
    let a0 = write_at (replicate 64 0) (dec_to_be32 proof.pi_a.0) 0 in
    let a = write_at a0 (dec_to_be32 proof.pi_a.1) 32 in
    let b0 = write_at (replicate 128 0) (dec_to_be32 proof.pi_b.0.1) 0 in
    let b1 = write_at b0 (dec_to_be32 proof.pi_b.0.0) 32 in
    let b2 = write_at b1 (dec_to_be32 proof.pi_b.1.1) 64 in
    let b = write_at b2 (dec_to_be32 proof.pi_b.1.0) 96 in
    let c0 = write_at (replicate 64 0) (dec_to_be32 proof.pi_c.0) 0 in
    let c = write_at c0 (dec_to_be32 proof.pi_c.1) 32 in
    let out0 = write_at (replicate 256 0) a 0 in
    let out1 = write_at out0 b 64 in write_at out1 c 192

-- `out[0] &= 0x1f`; an empty array has no place to write.
unfoldable pub clamp_first : Bytes → Bytes
clamp_first [] = []
clamp_first (first ∷ rest) = bit_and first 0x1f ∷ rest

-- `pubkeyToField`, on the bytes of the key.
unfoldable pub pubkey_to_field : (Bytes → Bytes) → Bytes → Bytes
unfolding clamp_first
pubkey_to_field keccak_256 pk = clamp_first (keccak_256 pk)

-- The argument of `groth16.fullProve`, by the numbers that its decimal strings spell.
pub record CircuitInput : Type 0 where
  pub root : ℕ
  pub nullifier_hash : ℕ
  pub amount : ℕ
  pub recipient_hash : ℕ
  pub nullifier_secret : ℕ
  pub blinding_factor : ℕ
  pub leaf_index : ℕ
  pub path_elements : List ℕ
  pub path_indices : List ℕ

pub record PublicInputs : Type 0 where
  pub root : Bytes
  pub nullifier_hash : Bytes
  pub amount : Bytes
  pub recipient_hash : Bytes

pub record MembershipProof : Type 0 where
  pub proof : Bytes
  pub public_inputs : PublicInputs
  pub raw_public_signals : List ℕ

-- The arguments of `generateMembershipProof`; the paths of the circuit's files go to the prover.
pub record Note : Type 0 where
  pub nullifier_secret : Bytes
  pub blinding_factor : Bytes
  pub amount : ℕ
  pub leaf_index : ℕ
  pub all_leaves : List (Option Bytes)
  pub recipient : Bytes

-- What the library gives for a circuit input: a proof and the public signals, or an exception.
abbrev pub Prover : Type 0
Prover = CircuitInput → Result (Groth16Proof × List ℕ)

-- `be32ToField(b)`, which throws where a path element is `undefined`.
abbrev pub element_to_field : Option Bytes → Result ℕ
element_to_field b = do bytes ← defined b; ok (be32_to_field bytes)

-- The sanity checks before anything is proved, on `allLeaves[leafIndex]`.
check_leaf : Bytes → ℕ → Option (Option Bytes) → Result (Unit {0})
check_leaf commitment leaf_index none = err (Error.leaf_out_of_bounds leaf_index)
check_leaf commitment leaf_index (some none) = err (Error.leaf_out_of_bounds leaf_index)
check_leaf commitment leaf_index (some (some leaf)) =
    if bytes_eq commitment leaf then ok tt else err Error.wrong_note

module _ (p : Poseidon) where
  unfoldable pub note_commitment : Note → Bytes
  note_commitment n =
      compute_commitment p n.nullifier_secret n.amount n.blinding_factor n.leaf_index

  check_note : Note → Result (Unit {0})
  unfolding check_leaf note_commitment
  check_note n = check_leaf (note_commitment n) n.leaf_index (get_elem? n.all_leaves n.leaf_index)

  module _ (keccak_256 : Bytes → Bytes) where
    -- `input`, from the root and the path.
    pub circuit_input : Note → Bytes → List ℕ → List ℕ → CircuitInput
    circuit_input n root elements indices = record {
      root = be32_to_field root;
      nullifier_hash = be32_to_field (compute_nullifier_hash p n.nullifier_secret n.leaf_index);
      amount = n.amount;
      recipient_hash = be32_to_field (pubkey_to_field keccak_256 n.recipient);
      nullifier_secret = be32_to_field n.nullifier_secret;
      blinding_factor = be32_to_field n.blinding_factor;
      leaf_index = n.leaf_index;
      path_elements = elements;
      path_indices = indices;
    }

    -- What is returned for a proof that the library has made.
    pub membership_output : Note → Bytes → Groth16Proof × List ℕ → MembershipProof
    membership_output n root (proof, signals) = record {
      proof = pack_groth16_proof proof;
      public_inputs = record {
        root = root;
        nullifier_hash = compute_nullifier_hash p n.nullifier_secret n.leaf_index;
        amount = u64_to_be32 n.amount;
        recipient_hash = pubkey_to_field keccak_256 n.recipient;
      };
      raw_public_signals = signals;
    }

    pub generate_membership_proof : Prover → Note → Result MembershipProof
    unfolding check_note circuit_input membership_output
    generate_membership_proof full_prove n = do
      check_note n
      path ← build_merkle_proof p n.all_leaves n.leaf_index
      root ← defined path.root
      elements ← map_result element_to_field path.path_elements
      proved ← full_prove (circuit_input n root elements path.path_indices)
      ok (membership_output n root proved)
