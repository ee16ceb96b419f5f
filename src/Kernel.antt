-- ===== src/Kernel.antt =====
-- The kernel: the graph of specification documents (src/kernel).
pub mod Types
pub mod Identity
pub mod Edges
pub mod Invariants
pub mod Limits
pub mod Normalize
pub mod Roadmap
pub mod Build
pub mod Gherkin
pub mod Documents
pub mod Remediations
pub mod Cursor
pub mod Diagnostics
pub mod Tests
pub mod SourceTests
