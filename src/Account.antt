-- ===== src/Account.antt =====
-- The crate primitives/account: the accounts, and the staking contract.
pub mod Outcome
pub mod Balance
pub mod Staking
pub mod Basic
pub mod Vesting
pub mod Htlc
pub mod Dispatch
mod Tests
