-- ===== src/Tests/Events.antt =====
-- The theorems on the history at a chain with two deposits.
use kirite.Prelude.{
  ℕ, zero, suc, ◌<◌, ◌≡◌, refl, inl, inr, Option, some, List, [], ◌∷◌, ok, length, arith,
}
use kirite.Bytes.{Bytes}
use kirite.Poseidon.Toy.{toy}
use kirite.Merkle.OnChain.{Tree, deposits_from_start}
use kirite.Merkle.OffChain.{MerkleProof, build_merkle_proof}
use kirite.Web3.Toy.{Key, toy_web3}
use kirite.Events.{Line, event_of_line, lines_of, fetch_pool_leaves}
use kirite.Events.Decode.{event_line, event_of_line-event_line}
use kirite.Events.Replay.{IsLogged, AllLeaves, logged_lines, fetch_pool_leaves-replay}
use kirite.Client.{replayed_root}
use kirite.Tests.Data.{
  toy_syscall, small_bytes, commitments, small_bytes-IsCanonical, first_deposit, second_deposit,
  deposit_of-Fits, toy_chain, signatures,
}

event_of_line-event_line_example :
    event_of_line toy_web3 toy_chain Key.pool_key
      (event_line toy_web3 toy_chain Key.pool_key second_deposit)
    ≡ some (1, small_bytes 9)
event_of_line-event_line_example =
    event_of_line-event_line toy_web3 toy_chain Key.pool_key second_deposit
      (deposit_of-Fits 1 (small_bytes 9) (omega arith) refl)

first_line :
    event_of_line toy_web3 toy_chain Key.pool_key
      (event_line toy_web3 toy_chain Key.pool_key first_deposit)
    ≡ some (0, small_bytes 5)
first_line =
    event_of_line-event_line toy_web3 toy_chain Key.pool_key first_deposit
      (deposit_of-Fits 0 (small_bytes 5) (omega arith) refl)

second_line :
    event_of_line toy_web3 toy_chain Key.pool_key
      (event_line toy_web3 toy_chain Key.pool_key second_deposit)
    ≡ some (1, small_bytes 9)
second_line =
    event_of_line-event_line toy_web3 toy_chain Key.pool_key second_deposit
      (deposit_of-Fits 1 (small_bytes 9) (omega arith) refl)

abbrev history : List Line
history =
    event_line toy_web3 toy_chain Key.pool_key second_deposit
    ∷ event_line toy_web3 toy_chain Key.pool_key first_deposit
    ∷ event_line toy_web3 toy_chain Key.pool_key second_deposit
    ∷ []

history-logged : logged_lines commitments toy_web3 toy_chain Key.pool_key signatures ≡ ok history
unfolding logged_lines lines_of event_line
history-logged = refl

history-AllLeaves : AllLeaves commitments toy_web3 toy_chain Key.pool_key history
history-AllLeaves = (rw second_line refl, (rw first_line refl, (rw second_line refl, tt)))

history-IsLogged :
    (i : ℕ)
    → i < length commitments
    → IsLogged commitments toy_web3 toy_chain Key.pool_key i history
history-IsLogged zero h = inr (inl first_line)
history-IsLogged (suc zero) h = inl second_line
history-IsLogged (suc (suc i)) h = absurd (omega arith)

fetch_pool_leaves-replay_example :
    fetch_pool_leaves toy_web3 toy_chain Key.pool_key 1000
    ≡ ok (some (small_bytes 5) ∷ some (small_bytes 9) ∷ [])
fetch_pool_leaves-replay_example =
    fetch_pool_leaves-replay commitments toy_web3 toy_chain Key.pool_key 1000 signatures history
      refl history-logged history-AllLeaves history-IsLogged

replayed_root_example :
    (t : Tree Bytes) × (leaves : List (Option Bytes)) × (r : MerkleProof) × (deposits_from_start
        toy_syscall.hash_pair toy_syscall.empty commitments
      ≡ ok t)
    × (fetch_pool_leaves toy_web3 toy_chain Key.pool_key 1000 ≡ ok leaves)
    × (build_merkle_proof toy leaves 0 ≡ ok r)
    × (r.root ≡ some t.current_root)
replayed_root_example =
    replayed_root toy_web3 toy_chain Key.pool_key toy toy_syscall commitments 0 1000 signatures
      history
      (small_bytes-IsCanonical 5 (omega arith), (small_bytes-IsCanonical 9 (omega arith), tt))
      (omega arith) (omega arith) refl history-logged history-AllLeaves history-IsLogged
