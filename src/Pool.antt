-- ===== src/Pool.antt =====
-- The team synchronization of src/bfs_pthread.cc.
pub mod Barrier
pub mod Tally
pub mod Modes
pub mod Moves
pub mod Flip
pub mod Steps
pub mod Rounds
pub mod Sleepers
pub mod Progress
