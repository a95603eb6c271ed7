-- ===== src/Bfs.antt =====
-- The breadth-first search kernel, src/bfs.cc.
pub mod Parent
pub mod Level
pub mod Tree
pub mod BottomUp
pub mod TopDown
pub mod Convert
pub mod Search
pub mod Verifier
pub mod Accepted
