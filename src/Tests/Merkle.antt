-- ===== src/Tests/Merkle.antt =====
-- The tree's theorems on two commitments, at the hash of the concrete field.
use kirite.Prelude.{◌≡◌, some, true, List, map, ok, length, arith}
use kirite.Bytes.{Bytes}
use kirite.Poseidon.{hash_nodes}
use kirite.Poseidon.Toy.{toy}
use kirite.Merkle.OnChain.{Tree, deposits_from_start, verify_merkle_proof}
use kirite.Merkle.OnChain.Grown.{merkle_root}
use kirite.Merkle.OnChain.Deposits.{deposits_into_new_pool}
use kirite.Merkle.OffChain.{MerkleProof, build_merkle_proof}
use kirite.Merkle.OffChain.Path.{prover_leaf}
use kirite.Merkle.OffChain.Verify.{build_merkle_proof-verifies}
use kirite.Merkle.Agree.{roots_agree}
use kirite.Tests.Data.{toy_syscall, commitments, small_bytes-IsCanonical}

roots_agree_example :
    (t : Tree Bytes) × (r : MerkleProof) × (deposits_from_start toy_syscall.hash_pair
        toy_syscall.empty commitments
      ≡ ok t)
    × (build_merkle_proof toy (map some commitments) 1 ≡ ok r)
    × (r.root ≡ some t.current_root)
roots_agree_example =
    roots_agree toy toy_syscall commitments 1
      (small_bytes-IsCanonical 5 (omega arith), (small_bytes-IsCanonical 9 (omega arith), tt))
      (omega arith) (omega arith)

deposits_into_new_pool_example :
    (t : Tree Bytes) × (deposits_from_start toy_syscall.hash_pair toy_syscall.empty commitments
      ≡ ok t)
    × (t.next_leaf_index ≡ 2)
    × (t.current_root ≡ merkle_root (hash_nodes toy) toy_syscall.empty commitments)
deposits_into_new_pool_example =
    deposits_into_new_pool toy toy_syscall commitments
      (small_bytes-IsCanonical 5 (omega arith), (small_bytes-IsCanonical 9 (omega arith), tt))
      (omega arith)

build_merkle_proof-verifies_example :
    (r : MerkleProof) × (root : Bytes) × (siblings : List Bytes) × (build_merkle_proof toy
        (map some commitments)
        1
      ≡ ok r)
    × (r.root ≡ some root)
    × (r.path_elements ≡ map some siblings)
    × (length siblings ≡ 15)
    × (verify_merkle_proof toy_syscall.hash_pair
          (prover_leaf toy (map some commitments) 1)
          siblings
          1
          root
        ≡ ok true)
build_merkle_proof-verifies_example =
    build_merkle_proof-verifies toy toy_syscall (map some commitments) 1
      (small_bytes-IsCanonical 5 (omega arith), (small_bytes-IsCanonical 9 (omega arith), tt))
      (omega arith)
