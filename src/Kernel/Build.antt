-- ===== src/Kernel/Build.antt =====
-- The graph builder (src/kernel/graph/build.js).
pub mod Names
pub mod Sources
pub mod Election
pub mod Tests
