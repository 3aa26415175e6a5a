-- ===== src/Lib.antt =====
-- KIRITE: a shielded pool and a staking pool on Solana, with the SDK that talks to them.
--
-- The parts and how they meet. A depositor hashes a note to a commitment (`computeCommitment`) and
-- sends it with `buildDepositIx`; the program grows its tree by the commitment (`insert_leaf_light`),
-- keeps the root and logs an event. A client replays the events (`fetchPoolLeaves`), rebuilds the
-- tree (`buildMerkleProof`), and has a Groth16 proof made that its note is in it
-- (`generateMembershipProof`, for the circuit of circuits/membership.circom), which
-- `buildWithdrawIx` sends. The program checks the proof, pays out and keeps a record of the nullifier
-- (`handle_withdraw`). The staking SDK builds the instructions of the staking program, and both SDK
-- files decode the programs' accounts. A wallet publishes a meta-address, a sender derives an address
-- from it, and the wallet's scan of the announcements finds the payment. The TypeScript SDK sends
-- transactions with retries, and the command line holds a configuration and a wallet for it.
--
-- The files, with the code that each is about:
-- + Field, Field/*: the byte conversions of sdk/src/zk.mjs (`fieldToBE32`, `be32ToField`,
--   `be32ToBigint`, `u64ToBE32`, `decToBE32`, `randomFieldBytes`). A definition has the function's
--   name in snake case, and the helpers in front of it are its loops.
-- + Poseidon: `computeCommitment`, `computeNullifierHash`, `poseidonHashPair`; the hash and the field
--   of circomlibjs are the record `Poseidon`, with two laws: an element is the element of its number,
--   and its number is below the order of the circuit's field. Poseidon/Toy is an instance.
-- + Merkle/OnChain: programs/kirite/src/utils/crypto.rs (`zero_hash_at_level`, `compute_zero_hashes`,
--   `insert_leaf_light`, `verify_merkle_proof`) and what `handle_deposit` and
--   `handle_initialize_shield_pool` do to the tree. The program hashes with a syscall, which is a
--   parameter and may fail: an error stands for the panic of `poseidon_hash`. Merkle/Syscall says what
--   is known of it: on canonical bytes, 32 that spell a number of the circuit's field, it succeeds and
--   agrees with the prover's hash. Merkle/OnChain/Total is the same tree for a hash that cannot fail,
--   for the proofs. Merkle/OffChain: `poseidonZeroHashes` and `buildMerkleProof`. Merkle/Tree is the
--   binary tree that both are compared to, and Merkle/Agree compares them with each other.
-- + Membership: `generateMembershipProof`, `pubkeyToField`, `packGroth16Proof`; the prover of snarkjs
--   and keccak are parameters. Membership/Circuit states the constraints of
--   circuits/membership.circom, Membership/Packing compares the packing with circuits/vk-to-rust.js
--   and circuits/vk-to-rust-v2.js.
-- + Buffer: the reads and writes of Node's `Buffer` that the codecs call, as readers on a buffer and
--   an offset. Accounts: `decodeStakingPool`, `decodeStakeAccount` (sdk/src/staking.mjs) and
--   `decodeShieldPool` (sdk/src/kirite-zk.mjs), against the structs of the programs.
-- + Events: `decodeDepositEvent` and `fetchPoolLeaves` of sdk/src/kirite-zk.mjs; the connection,
--   SHA-256 and base64 are the record `Chain`.
-- + Instructions: the derivations and builders of sdk/src/kirite-zk.mjs and sdk/src/staking.mjs.
--   Instructions/OnChain and Instructions/Handlers hold what the programs ask of an instruction: its
--   discriminator, its arguments, and the order, flags and addresses of its accounts. What the handlers
--   check of the accounts' contents is in Pool and Withdraw.
-- + Roots: `push_root` and `is_known_root` of programs/kirite/src/state/shield_pool.rs.
-- + Pool: `handle_deposit` of programs/kirite/src/instructions/deposit.rs with the constraints of struct
--   `Deposit`, the token program and the syscall parameters.
-- + Withdraw: `handle_withdraw` of programs/kirite/src/instructions/withdraw.rs, the token program and
--   the Groth16 library parameters; Withdraw/Spent has the steps of a pool. The addresses of the
--   nullifier records that exist are a list, since `init` makes no account of an address that has one.
--   Fees: programs/kirite/src/utils/math.rs as far as a withdrawal uses it.
-- + Verifier: programs/kirite/src/utils/zk.rs but for the pairing (`lt_be32`,
--   `is_canonical_field_element`, `negate_g1_y`, `u64_to_field_be`, `pubkey_to_field`).
-- + Ceremony: `verifyOne` and `main` of scripts/ceremony-verify.mjs.
-- + Stealth: sdk/src/utils/keypair.ts and sdk/src/stealth/address.ts, tweetnacl as the record `Keys`;
--   Stealth/MetaAddress is the text of a meta-address, Stealth/Parsers and Stealth/Registry
--   sdk/src/stealth/registry.ts, Stealth/Scan sdk/src/stealth/scan.ts. Stealth/Registry/Mismatch holds
--   the registry of programs/kirite/src/state/stealth.rs and instructions/create_stealth.rs.
-- + Errors: sdk/src/errors.ts, its classes as one data type. Transactions: sdk/src/utils/transaction.ts,
--   where the connection is a record of its answers, by the number of failed attempts before each call,
--   and a run gives a trace of what it sends and how long it sleeps. Connection:
--   sdk/src/utils/connection.ts.
-- + Cli/Display, Cli/Config, Cli/Wallet: display.ts, config.ts and wallet.ts of cli/src/utils; JSON,
--   base58 and the file system are parameters.
--   Decimal: numbers and their decimal texts.
-- + Client: replaying and rebuilding together. Web3: the parameter for @solana/web3.js. Tests: each
--   theorem at a concrete input. Prelude, Bytes: shared types and lemmas.
--
-- Bounds and fuel. Numbers are natural numbers; a Buffer write outside its width throws, as in Node.
-- The tree has height 15 and 2 ^ 15 leaves, and the loops over its levels are recursion on the
-- levels left. `to_hex` has as much fuel as the number plus one, and each round divides it by 16.
-- Rounding a 64-bit number to a double doubles the weight of the last place at most 11 times, since
-- 2 ^ 64 = 2 ^ 53 * 2 ^ 11. `random_field_bytes` is a function of the draws: without a draw that
-- serves it gives `none`, where the code goes on drawing. `decimal` has as much
-- fuel as the number plus one, and each round divides it by 10; `fetch_batches` has fuel for each
-- address, and each round takes up to 100 of them. `send_loop` is recursion on the retries left.
-- A text is the list of its UTF-16 units. Delays, multipliers and the jitter are whole numbers, where
-- the code has doubles. `parseInt` rounds to doubles: below 2 ^ 1024 the weight of the last place doubles
-- at most 971 times, and what would be rounded to more is Infinity. A configuration file has fields of
-- the right types, or `null` for a number, where the code takes over whatever JSON holds.
--
-- Not modelled: the checks of Anchor on accounts' types and owners, the rent of accounts and the pairing of the
-- programs; governance, the claiming of stealth payments and the arithmetic of the staking program; the
-- commands of the command line and the other scripts; `registerStealthMetaAddress` and
-- `publishStealthAnnouncement`. They are outside the files above, or calls of libraries and of the
-- network.
pub mod Prelude
pub mod Bytes
pub mod Field
pub mod Poseidon
pub mod Merkle
pub mod Membership
pub mod Web3
pub mod Buffer
pub mod Accounts
pub mod Events
pub mod Instructions
pub mod Client
pub mod Tests
pub mod Verifier
pub mod Roots
pub mod Ceremony
pub mod Pool
pub mod Fees
pub mod Withdraw
pub mod Stealth
pub mod Errors
pub mod Transactions
pub mod Connection
pub mod Decimal
pub mod Cli
