-- ===== src/Service.antt =====
-- The multi-tenant service: request scope, store, claims, authority, branches and publishing.
pub mod Scope
pub mod Dispatch
pub mod Store
pub mod Claims
pub mod Auth
pub mod Branches
pub mod Authored
pub mod Projects
pub mod Tenants
pub mod Drift
pub mod Ports
pub mod Publish
pub mod Tests
pub mod ConfigTests
