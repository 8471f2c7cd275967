-- ===== src/Query.antt =====
-- The query path: src/query/.
pub mod Filter
pub mod Ranker
pub mod Fusion
pub mod Sorted
pub mod Fused
pub mod Ranked
pub mod Context
pub mod Retrieval
pub mod Router
pub mod Window
pub mod Chunks
pub mod Answer
mod Tests
