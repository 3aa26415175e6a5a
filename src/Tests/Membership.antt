-- ===== src/Tests/Membership.antt =====
-- The theorems on membership proofs at a note that is the only leaf.
use kirite.Prelude.{
  ℕ, map, true, false, pos, ◌≡◌, refl, Option, some, List, [], ◌∷◌, ok, ◌>>=◌, replicate, get_elem?,
  arith,
}
use kirite.Bytes.{Bytes}
use kirite.Field.{be32_to_field}
use kirite.Poseidon.{compute_commitment, compute_nullifier_hash}
use kirite.Poseidon.Toy.{toy}
use kirite.Merkle.OffChain.{merkle_height}
use kirite.Membership.{
  Groth16Proof, pack_groth16_proof, pubkey_to_field, CircuitInput, MembershipProof, Note, Prover,
  note_commitment, membership_output, generate_membership_proof,
}
use kirite.Membership.Circuit.{Satisfies}
use kirite.Membership.Completeness.{generate_membership_proof-Satisfies}
use kirite.Membership.Inputs.{public_inputs-generated}
use kirite.Withdraw.{WithdrawAccounts, State, Calls, public_inputs}
use kirite.Web3.Toy.{Key, toy_web3, key_bytes}
use kirite.Tests.Data.{small_bytes}

abbrev points : Groth16Proof
points = record { pi_a = (1, 2); pi_b = ((3, 4), (5, 6)); pi_c = (7, 8) }

abbrev keccak : Bytes → Bytes
keccak bs = replicate 32 255

abbrev prover : Prover
prover w = ok (points, w.root ∷ w.nullifier_hash ∷ w.amount ∷ w.recipient_hash ∷ [])

abbrev note_over : List (Option Bytes) → Note
note_over leaves = record {
  nullifier_secret = small_bytes 11;
  blinding_factor = small_bytes 12;
  amount = 1000;
  leaf_index = 0;
  all_leaves = leaves;
  recipient = key_bytes Key.alice;
}

abbrev note : Note
note = note_over (some (compute_commitment toy (small_bytes 11) 1000 (small_bytes 12) 0) ∷ [])

note-found : get_elem? note.all_leaves note.leaf_index ≡ some (some (note_commitment toy note))
unfolding note_commitment
note-found = refl

generate_membership_proof-Satisfies_example :
    (w : CircuitInput) × (root : Bytes) × Satisfies toy merkle_height w
    × (generate_membership_proof toy keccak prover note
        ≡ (prover w >>= λ proved. ok (membership_output toy keccak note root proved)))
    × (w.root ≡ be32_to_field root)
    × (w.nullifier_hash ≡ be32_to_field (compute_nullifier_hash toy (small_bytes 11) 0))
    × (w.recipient_hash ≡ be32_to_field (pubkey_to_field keccak (key_bytes Key.alice)))
    × (w.amount ≡ 1000)
generate_membership_proof-Satisfies_example =
    generate_membership_proof-Satisfies toy keccak note prover note-found (omega arith)

proved :
    (w : CircuitInput) × (root : Bytes) × (generate_membership_proof toy keccak prover note
      ≡ (prover w >>= λ proof. ok (membership_output toy keccak note root proof)))
proved =
    let held =
      generate_membership_proof-Satisfies toy keccak note prover note-found (omega arith) in
    (held.0, held.1, held.3)

-- What is returned for the note.
abbrev returned : MembershipProof
returned = membership_output toy keccak note proved.1 (
  points,
  proved.0.root ∷ proved.0.nullifier_hash ∷ proved.0.amount ∷ proved.0.recipient_hash ∷ [],
)

abbrev pool_of_note : State Key (Unit {0})
pool_of_note = record {
  pool = record {
    mint = Key.bob;
    vault = Key.program;
    denomination = 1000;
    filled_subtrees = [];
    next_leaf_index = 1;
    roots = record { current_root = []; historical_roots = []; root_history_index = 0 };
    total_deposits = 1;
    last_deposit_at = pos 0;
    is_frozen = 0;
  };
  total_withdrawals = 0;
  fees_collected = 0;
  records = [];
  tokens = tt;
}

abbrev calls : Calls Key (Unit {0})
calls = record {
  run = λ call tokens. ok tokens;
  verify = λ a b c inputs. true;
  keccak = keccak;
  native_mint = Key.alice;
}

abbrev to_alice : WithdrawAccounts Key
to_alice = record {
  shield_pool = Key.pool_key;
  is_paused = false;
  fee_bps = 30;
  burn_ratio_bps = 5000;
  supported_mints = Key.bob ∷ [];
  vault = Key.program;
  vault_authority = Key.pool_key;
  recipient_token_account = Key.alice;
  recipient_mint = Key.bob;
  treasury_token_account = Key.bob;
  treasury_mint = Key.bob;
  mint = Key.bob;
}

public_inputs-generated_example :
    (i : CircuitInput) × (proved : Groth16Proof × List ℕ) × let inputs =
        public_inputs toy_web3 Key.program calls pool_of_note to_alice (record {
          proof = returned.proof;
          nullifier_hash = returned.public_inputs.nullifier_hash;
          proof_root = returned.public_inputs.root;
        }) in
      (prover i ≡ ok proved)
      × (returned.proof ≡ pack_groth16_proof proved.0)
      × (inputs
          ≡ returned.public_inputs.root ∷ returned.public_inputs.nullifier_hash
            ∷ returned.public_inputs.amount ∷ returned.public_inputs.recipient_hash ∷ [])
      × (map be32_to_field inputs ≡ i.root ∷ i.nullifier_hash ∷ i.amount ∷ i.recipient_hash ∷ [])
public_inputs-generated_example =
    public_inputs-generated toy_web3 Key.program calls toy prover note returned pool_of_note
      to_alice proved.2 refl (omega arith) refl
