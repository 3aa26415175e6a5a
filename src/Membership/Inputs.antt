-- ===== src/Membership/Inputs.antt =====
-- The public inputs of a proof of the SDK are those that a withdrawal hands to the verifier.
use kirite.Prelude.{
  ◌∙◌, List, ℕ, map, arith, ◌<◌, ◌^◌, ◌≡◌, refl, ap, sym, [], ◌∷◌, ok, defined, map_result,
  rest_of_ok, ok-injective,
}
use kirite.Bytes.{Bytes}
use kirite.Poseidon.{Poseidon}
use kirite.Field.{be32_to_field, u64_to_be32}
use kirite.Field.RoundTrip.{be32_to_field-u64_to_be32}
use kirite.Merkle.OffChain.{build_merkle_proof}
use kirite.Membership.{
  CircuitInput, Groth16Proof, pack_groth16_proof, Note, Prover, MembershipProof, element_to_field,
  check_note, circuit_input, membership_output, generate_membership_proof, pubkey_to_field,
}
use kirite.Verifier.Mirror.{u64_to_field_be-eq, program_pubkey_to_field_eq}
use kirite.Web3.{Web3}
use kirite.Withdraw.{WithdrawAccounts, State, Calls, public_inputs}

module _ (p : Poseidon) (keccak : Bytes → Bytes) (full_prove : Prover) where
  -- What the prover was asked for, with the proof it gave and what was made of them.
  record Asked (n : Note) (m : MembershipProof) : Type 0 where
    pub input : CircuitInput
    pub proved : Groth16Proof × List ℕ
    pub answer : full_prove input ≡ ok proved
    pub packed : m.proof ≡ pack_groth16_proof proved.0
    pub root : be32_to_field m.public_inputs.root ≡ input.root
    pub nullifier : be32_to_field m.public_inputs.nullifier_hash ≡ input.nullifier_hash
    pub amount : m.public_inputs.amount ≡ u64_to_be32 n.amount
    pub paid : input.amount ≡ n.amount
    pub recipient : m.public_inputs.recipient_hash ≡ pubkey_to_field keccak n.recipient
    pub recipient_field : be32_to_field m.public_inputs.recipient_hash ≡ input.recipient_hash

  generate_membership_proof-Asked :
      (n : Note) (m : MembershipProof)
      → generate_membership_proof p keccak full_prove n ≡ ok m
      → Asked n m
  unfolding generate_membership_proof membership_output circuit_input
  generate_membership_proof-Asked n m h =
      let (checked, _, proving) = rest_of_ok (check_note p n) _ h in
      let (path, _, rooted) =
        rest_of_ok (build_merkle_proof p n.all_leaves n.leaf_index) _ proving in
      let (root, _, read) = rest_of_ok (defined path.root) _ rooted in
      let (elements, _, asked) =
        rest_of_ok (map_result element_to_field path.path_elements) _ read in
      let (proved, answer, ending) =
        rest_of_ok (full_prove (circuit_input p keccak n root elements path.path_indices)) _
          asked in
      let same = sym (ok-injective _ _ ending) in
      record {
        input = circuit_input p keccak n root elements path.path_indices;
        proved = proved;
        answer = answer;
        packed = ap (λ (m : MembershipProof). m.proof) same;
        root = ap (λ (m : MembershipProof). be32_to_field m.public_inputs.root) same;
        nullifier = ap (λ (m : MembershipProof). be32_to_field m.public_inputs.nullifier_hash) same;
        amount = ap (λ (m : MembershipProof). m.public_inputs.amount) same;
        paid = refl;
        recipient = ap (λ (m : MembershipProof). m.public_inputs.recipient_hash) same;
        recipient_field =
            ap (λ (m : MembershipProof). be32_to_field m.public_inputs.recipient_hash) same;
      }

-- Where `generateMembershipProof` returns, the prover was asked with some circuit input and gave the
-- proof that is returned; a withdrawal with it has the verifier check that proof on the public inputs
-- that are returned with it, and the numbers that these spell are the root, the nullifier hash, the
-- amount and the recipient hash of that circuit input. The note is of the pool's denomination, which
-- fits in 64 bits, and the recipient is the recipient's token account.
pub public_inputs-generated :
    (w : Web3) (program_id : w.PublicKey) {Tokens : Type 0} (calls : Calls w.PublicKey Tokens)
    (p : Poseidon) (full_prove : Prover) (n : Note) (m : MembershipProof)
    (s : State w.PublicKey Tokens) (accounts : WithdrawAccounts w.PublicKey)
    → generate_membership_proof p calls.keccak full_prove n ≡ ok m
    → n.amount ≡ s.pool.denomination
    → n.amount < 2 ^ 64
    → n.recipient ≡ w.to_bytes accounts.recipient_token_account
    → (i : CircuitInput) × (proved : Groth16Proof × List ℕ) × let inputs =
          public_inputs w program_id calls s accounts (record {
            proof = m.proof;
            nullifier_hash = m.public_inputs.nullifier_hash;
            proof_root = m.public_inputs.root;
          }) in
        (full_prove i ≡ ok proved)
        × (m.proof ≡ pack_groth16_proof proved.0)
        × (inputs
            ≡ m.public_inputs.root ∷ m.public_inputs.nullifier_hash ∷ m.public_inputs.amount
              ∷ m.public_inputs.recipient_hash ∷ [])
        × (map be32_to_field inputs ≡ i.root ∷ i.nullifier_hash ∷ i.amount ∷ i.recipient_hash ∷ [])
unfolding public_inputs
public_inputs-generated w program_id calls p full_prove n m s accounts made paid small sent =
    let asked = generate_membership_proof-Asked p calls.keccak full_prove n m made in
    let program_amount = u64_to_field_be-eq n.amount small in
    let program_recipient = program_pubkey_to_field_eq calls.keccak n.recipient in
    let field_recipient = sym (ap be32_to_field asked.recipient) ∙ asked.recipient_field in
    (
      asked.input,
      asked.proved,
      (
        asked.answer,
        asked.packed,
        rw (asked.amount, asked.recipient, ← paid, ← sent, program_amount, program_recipient) refl,
        rw
            (
              asked.root,
              asked.nullifier,
              ← paid,
              ← sent,
              program_amount,
              program_recipient,
              be32_to_field-u64_to_be32 n.amount (omega (arith, small)),
              field_recipient,
              asked.paid,
            )
            refl,
      ),
    )
