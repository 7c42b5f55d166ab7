-- ===== src/Common.antt =====
-- The shared library of the services (libs/common/src).
pub mod Outbox
pub mod Idempotency
mod Tests
mod IdempotencyTests
