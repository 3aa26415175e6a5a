-- ===== src/Client.antt =====
-- A client that replays the history of a pool and rebuilds its tree: `fetchPoolLeaves` of
-- sdk/src/kirite-zk.mjs, then `buildMerkleProof` of sdk/src/zk.mjs, against the deposits of
-- programs/kirite/src/instructions/deposit.rs.
use kirite.Prelude.{ℕ, ◌≤◌, ◌<◌, ◌≡◌, Option, some, List, map, ok, length, All}
use kirite.Bytes.{Bytes}
use kirite.Web3.{Web3}
use kirite.Poseidon.{Poseidon}
use kirite.Merkle.OnChain.{Tree, merkle_tree_capacity, deposits_from_start}
use kirite.Merkle.OffChain.{MerkleProof, build_merkle_proof}
use kirite.Merkle.Syscall.{IsCanonical, Syscall}
use kirite.Merkle.Agree.{roots_agree}
use kirite.Events.{Line, SignatureInfo, Chain, fetch_pool_leaves}
use kirite.Events.Replay.{IsLogged, AllLeaves, logged_lines, fetch_pool_leaves-replay}

module _ (w : Web3) (chain : Chain) (pool_key : w.PublicKey) (p : Poseidon) (s : Syscall p) where
  open chain use {Signature, get_signatures}

  -- Where the pool's deposits are of canonical commitments, and the history has logged an event with
  -- the index and the commitment of each, in any order, and none with another, a client that replays
  -- the history gets a list of leaves from which `buildMerkleProof` makes the root that the program
  -- stores.
  pub replayed_root :
      (cs : List Bytes) (target limit : ℕ) (sigs : List (SignatureInfo Signature))
      (lines : List Line)
      → All IsCanonical cs
      → length cs ≤ merkle_tree_capacity
      → target < merkle_tree_capacity
      → get_signatures limit ≡ ok sigs
      → logged_lines cs w chain pool_key sigs ≡ ok lines
      → AllLeaves cs w chain pool_key lines
      → ((i : ℕ) → i < length cs → IsLogged cs w chain pool_key i lines)
      → (t : Tree Bytes) × (leaves : List (Option Bytes)) × (r : MerkleProof) × (deposits_from_start
            s.hash_pair s.empty cs
          ≡ ok t)
        × (fetch_pool_leaves w chain pool_key limit ≡ ok leaves)
        × (build_merkle_proof p leaves target ≡ ok r)
        × (r.root ≡ some t.current_root)
  replayed_root cs target limit sigs lines canonical room below answer logged all each =
      let (t, r, run, built, root) = roots_agree p s cs target canonical room below in
      let fetched =
        fetch_pool_leaves-replay cs w chain pool_key limit sigs lines answer logged all each in
      (t, map some cs, r, run, fetched, built, root)
