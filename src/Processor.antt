-- ===== src/Processor.antt =====
-- pkg/processor
pub mod Host
pub mod Adapter
pub mod Alb
pub mod Nlb
pub mod CloudFront
pub mod Waf
pub mod Registry
pub mod Base
pub mod Attributes
mod Tests
