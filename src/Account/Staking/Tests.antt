-- ===== src/Account/Staking/Tests.antt =====
-- A sample of the staking contract and of its byte strings, for the tests and examples.
pub mod Sample
mod Stakes
mod Validators
mod Transactions
mod Reversals
