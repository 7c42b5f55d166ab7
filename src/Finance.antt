-- ===== src/Finance.antt =====
-- The finance service (apps/finance-service/src/finance-service.service.ts).
pub mod Cashbox
pub mod Balance
pub mod Payments
pub mod Audit
pub mod Ledger
pub mod Operators
pub mod Shifts
mod Tests
mod LedgerTests
mod ShiftTests
