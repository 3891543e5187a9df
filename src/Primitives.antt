-- ===== src/Primitives.antt =====
-- The crate primitives: machine words, coins and the block schedule.
pub mod Word
pub mod Coin
pub mod Float
pub mod Policy
pub mod Slot
mod Tests
