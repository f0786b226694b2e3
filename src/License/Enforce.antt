-- ===== src/License/Enforce.antt =====
-- Enforce of pkg/license/enforcer.go
pub mod Options
pub mod Context
pub mod NonProd
pub mod Checks
pub mod Commercial
pub mod Run
pub mod Ends
pub mod Licensed
pub mod Laws
pub mod Tests
pub mod Preflight
