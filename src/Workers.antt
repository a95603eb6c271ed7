-- ===== src/Workers.antt =====
-- The regions of bfs.cc, which deals the iterations of the loops of src/bfs.cc to workers.
pub mod Ranges
pub mod Regions
pub mod Orders
pub mod Entries
pub mod TopDown
pub mod Frontier
pub mod BottomUp
