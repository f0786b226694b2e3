-- ===== src/Sender.antt =====
-- pkg/sender
pub mod Headers
pub mod Batches
pub mod Dispatch
pub mod Retry
pub mod Tests
