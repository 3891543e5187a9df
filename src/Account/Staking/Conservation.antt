-- ===== src/Account/Staking/Conservation.antt =====
-- Every operation of the staking contract against the invariant, and the coins that it moves.
pub mod Entry
pub mod Active
pub mod InactiveEntry
pub mod Inactive
pub mod Lifecycle
pub mod Validators
pub mod Update
pub mod Bind
pub mod Drop
pub mod Handover
pub mod Transactions
pub mod Guards
pub mod Outgoing
