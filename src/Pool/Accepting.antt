-- ===== src/Pool/Accepting.antt =====
-- When a deposit goes through.
use kirite.Bytes.{Bytes}
use kirite.Web3.{Web3}
use kirite.Poseidon.{Poseidon}
use kirite.Merkle.Syscall.{Syscall}
use kirite.Pool.{Pool}
