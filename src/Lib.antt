-- ===== src/Lib.antt =====
-- The Elchi delivery backend: the money core of its services.
--
-- A sold order is cash on delivery. The order service (apps/order-service) decides who owes whom,
-- sends the movements to the finance service (apps/finance-service) through a transactional outbox
-- (libs/common/src/outbox), and keeps a settlement ledger with one row for each sold order. The
-- finance service keeps the cashboxes with their history; its three lump-sum payments (courier to
-- branch or main, branch to main, main to market) enqueue an advance of the settlement ledger.
--
-- Files and the code they model:
--   Enums, Inputs: libs/common/enums/index.ts, and the validation of requests in
--     apps/finance-service/src/finance-service.service.ts.
--   Store: a database table as an interface, with the behaviour of TypeORM and of the database that
--     the services rely on; Store/Memory is a table held in memory that has that behaviour.
--   Common/Idempotency: libs/common/src/idempotency/idempotency.service.ts and
--     idempotent-execute.helper.ts. Idempotency/Leases is about who acquires a key, and
--     Idempotency/Executions about handlers that have completed.
--   Common/Outbox: libs/common/src/outbox/outbox.service.ts and outbox.publisher.ts (enqueue,
--     getDuePending, markPublished, markFailed, tick). Common/Outbox/Polls is about tick.
--   Finance/Cashbox, Finance/Balance, Finance/Payments: finance-service.service.ts
--     (updateBalancesByMethod, getCashboxBySelectorWithManager, createCashbox, updateBalance, spendMoney,
--     fillTheCashbox, paymentsFromCourier, paymentFromBranchToMain, paymentsToMarket).
--   Finance/Audit: the invariants of scripts/check-cashbox-invariant.ts, for each of these calls.
--   Finance/Ledger, Finance/Operators, Finance/Shifts: finance-service.service.ts
--     (recordFinancialBalance and the current balance; operator earnings, payments and commissions;
--     openShift, closeShift). Ledger/Running, Ledger/Once, Ledger/Recorded, Ledger/Counted, Operators/Earned and
--     Shifts/Totals are about them.
--   Order/Status: apps/order-service/src/domain/order-status.machine.ts; Order/Status/Graph is
--     about histories of status writes.
--   Order/Money: apps/order-service/src/domain/order-money.ts, and the arithmetic of sellOrder.
--   Order/Proof, Order/Sale: apps/order-service/src/lifecycle/order-lifecycle.service.ts
--     (enforceOperationProof, sellOrder with what it calls). Sale/Plans is what happens before the
--     transaction and Sale/Commit is the transaction; Sale/Measures, Sale/Borne, Sale/Conserves and Sale/Once are
--     about them.
--   Order/Rollback: order-lifecycle.service.ts (rollbackOrderToWaiting, mergePartialChildrenBack).
--     Rollback/Plans is what happens before the transaction, and Rollback/Commit the transaction.
--     Rollback/Moves, Rollback/Extras and Rollback/Cancels compare its corrections with the postings
--     of a sale, Rollback/Guards is about plans, Rollback/Once and Rollback/Again about repeated
--     calls, Rollback/Merges about the price of a partial sale, Rollback/Misses about roles and
--     Rollback/Profit about the company ledger.
--   Order/Cancel: order-lifecycle.service.ts (cancelOrder). Cancel/Undo is about its rollback, and
--     Cancel/Exclusive about sales and cancellations of one order.
--   Order/Settlement: apps/order-service/src/settlement/order-settlement.service.ts
--     (advanceSettlement) and recordSaleSettlement, isSettledToHq, resetSettlementOnRollback.
--     Settlement/Hops describes the chain; Settlement/Fifo, Settlement/Progress and
--     Settlement/Openings are about the calls.
--   Order/Transfers: apps/order-service/src/transfer-batch/branch-transfer-batch.service.ts
--     (sendBranchTransferBatch in Transfers/Sending; receiveBranchTransferBatch and the two
--     cancellations in Transfers/Receiving; receiveBranchTransferBatchOrders in Transfers/Partial).
--     Transfers/Arrivals, Transfers/Rests and Transfers/Parted are about what arrives, Transfers/Kept
--     and Transfers/Closing about sequences of calls.
--   Branch: apps/branch-service/src/branch-service.service.ts (createBranch in Branch/Creation;
--     updateBranch and deleteBranch in Branch/Changes; their loops in Branch). Branch/Forest says what
--     a tree is; Branch/Levels, Branch/Rebalance, Branch/Cycles and Branch/Descents are about the loops,
--     Branch/Created, Branch/Deleted, Branch/Moves, Branch/Placed and Branch/Updated about the calls, and Branch/Spellings about a
--     request that is not as the calls expect it.
--
-- Conventions. Amounts are whole tiyin, as integers, unless a file says otherwise (the requests of the
-- finance service admit fractions of a tiyin, which the database rounds; they are not modelled); ids and points in
-- time are natural numbers, and a raw id or date of a request may also be missing or malformed. A
-- call that throws is an error, and its transaction is rolled back, so that it has no next state. A
-- database is an argument, one table for each entity, and so are the answers of other services. Loops
-- run over lists and need no fuel, except the three of the branches: a run of those is an Option of a
-- result, none when the fuel is used up, and the theorems say how much is enough. The texts of comments, activity logs, proof files
-- in histories, pushes after a commit and unique indexes that back a check up are not modelled.
--
-- Not modelled: the gateway, the identity, logistics, integration, investor, catalog, c2c,
-- search, file, notification and analytics services; in the finance service
-- the salaries; in the order service the rest of the life
-- cycle, custody, and the creation of transfer batches.
pub mod Prelude
pub mod Enums
pub mod Inputs
pub mod Store
pub mod Common
pub mod Finance
pub mod Order
pub mod Branch
