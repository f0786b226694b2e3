-- ===== src/Version.antt =====
-- pkg/version
pub mod Host
pub mod Provenance
pub mod Info
pub mod Tests
