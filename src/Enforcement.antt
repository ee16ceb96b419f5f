-- ===== src/Enforcement.antt =====
-- The guard of the host's tool calls (src/enforcement).
pub mod Values
pub mod Paths
pub mod Selectors
pub mod Authority
pub mod Reasons
pub mod Features
pub mod Classify
pub mod Handler
pub mod Tests
