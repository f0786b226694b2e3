-- ===== src/Utils.antt =====
-- pkg/utils
pub mod Conversion
pub mod Env
pub mod Arn
pub mod TraceId
pub mod UserAgent
pub mod S3Key
mod Tests
