-- ===== src/Account/Staking/Transactions.antt =====
-- primitives/account/src/staking_contract/actions/mod.rs, `AccountTransactionInteraction for
-- StakingContract`: what a transaction to, from and within the contract does.
mod Incoming
mod Outgoing
unfoldable pub use Incoming.*
unfoldable pub use Outgoing.*
