-- ===== src/License/Registry.antt =====
-- pkg/license/cloudwatch_registry.go
pub mod Types
pub mod Heartbeats
pub mod Fetch
pub mod Leases
pub mod Count
pub mod Invariant
pub mod Known
