-- ===== src/Lambda.antt =====
-- cmd/lambda
pub mod Messages
pub mod Requests
pub mod Handler
