-- ===== src/Accounts.antt =====
-- The accounts of the two programs: the decoders of sdk/src/staking.mjs and sdk/src/kirite-zk.mjs,
-- and the layouts that the programs' structs give them.
pub mod Staking
pub mod ShieldPool
pub mod RoundTrip
