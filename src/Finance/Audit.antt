-- ===== src/Finance/Audit.antt =====
-- The two invariants of scripts/check-cashbox-invariant.ts, and that every call on the cashboxes
-- keeps them: I1, the balance of a cashbox is the signed sum of its history; I2, it is the sum of
-- its cash and card parts.
pub mod Invariant
pub mod Legs
pub mod Updates
pub mod Replays
pub mod Creations
pub mod Transfers
pub mod Payments
