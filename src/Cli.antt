-- ===== src/Cli.antt =====
-- The command line: its configuration, its display of values, and the wallet that it loads.
pub mod Display
pub mod Config
pub mod Wallet
