-- ===== src/Tests.antt =====
-- Small inputs on which the definitions run, and the theorems at those inputs.
pub mod Kernels
pub mod Regions
pub mod Graphs
pub mod Team
pub mod Vectors
pub mod Commands
pub mod Files
pub mod Labels
pub mod Generated
pub mod Triangles
pub mod Ranking
