-- ===== src/Merkle.antt =====
-- The commitment tree, off chain and on chain.
pub mod Tree
pub mod OffChain
pub mod OnChain
pub mod Syscall
pub mod Agree
