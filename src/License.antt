-- ===== src/License.antt =====
-- pkg/license
pub mod Error
pub mod Quota
pub mod Claims
pub mod Features
pub mod Host
pub mod Status
pub mod Production
pub mod Token
pub mod Days
pub mod Crl
pub mod Validator
pub mod Verify
pub mod Resources
pub mod Registry
pub mod Enforce
pub mod Extract
pub mod Attributes
mod Tests
