-- ===== src/Order.antt =====
-- The order service (apps/order-service): statuses, the money of a sale, proofs, the sale itself
-- and the settlement of its money.
pub mod Status
pub mod Settlement
pub mod Money
pub mod Proof
pub mod Sale
pub mod Rollback
pub mod Cancel
pub mod Transfers
pub mod Examples
mod Tests
