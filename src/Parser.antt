-- ===== src/Parser.antt =====
-- pkg/parser
pub mod Line
pub mod Nlb
pub mod CloudFront
pub mod Alb
pub mod Waf
