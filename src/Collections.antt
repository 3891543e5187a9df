-- ===== src/Collections.antt =====
-- The containers that the components store their state in.
pub mod Map
pub mod SegmentTree
mod Tests
