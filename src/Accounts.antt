-- ===== src/Accounts.antt =====
-- The crate accounts: the accounts of all addresses, and what a block does to them.
pub mod Tree
pub mod Ledger
pub mod Block
pub mod Lookup
pub mod Senders
pub mod Named
pub mod Frame
mod Tests
