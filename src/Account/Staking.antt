-- ===== src/Account/Staking.antt =====
-- primitives/account/src/staking_contract: the contract's state and its operations.
pub mod State
pub mod Entry
pub mod Contract
pub mod Staker
pub mod Lifecycle
pub mod Wire
pub mod Transactions
pub mod Inherents
pub mod Results
pub mod Invariant
pub mod Conservation
pub mod Sorted
pub mod Reversal
pub mod Tests
