-- ===== src/Tests.antt =====
-- The theorems at concrete inputs, one file for each component, and the data that they share.
mod Data
mod Merkle
mod Membership
mod Field
mod Accounts
mod Events
mod Instructions
mod Verifier
mod Ceremony
mod Pool
mod Stealth
mod Registry
mod Transactions
mod Cli
