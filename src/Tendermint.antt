-- ===== src/Tendermint.antt =====
-- The crate tendermint: the state machine by which a validator agrees on a block.
pub mod Utils
pub mod Deps
pub mod Network
pub mod Protocol
pub mod Stream
pub mod Trace
pub mod Rules
pub mod Votes
pub mod Justify
pub mod Turns
pub mod Start
pub mod Safety
pub mod Sim
pub mod Recorded
pub mod Items
pub mod Order
pub mod Rounds
pub mod Liveness
pub mod Casts
pub mod Agreement
pub mod Consensus
mod Tests
