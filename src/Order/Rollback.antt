-- ===== src/Order/Rollback.antt =====
-- The rollback of a sold, cancelled or closed order: rollbackOrderToWaiting of OrderLifecycleService
-- (apps/order-service/src/lifecycle), with isNearInTime and the orders that mergePartialChildrenBack
-- touches. `plan_rollback` is what the call does before its transaction, and Rollback/Commit is the
-- transaction. Comments, the items of orders and the messages after the commit are not modelled.
pub mod Plans
pub mod Commit
pub mod Guards
pub mod Once
pub mod Again
pub mod Merges
pub mod Moves
pub mod Extras
pub mod Cancels
pub mod Misses
pub mod Profit
mod Tests
use elchi_backend.Prelude.{ℕ, Bool, Option, none, some, List}
use elchi_backend.Prelude.Int.{ℤ}
use elchi_backend.Enums.{CashboxType, OperationType}
use elchi_backend.Order.Status.{OrderStatus}
use elchi_backend.Order.Settlement.{SettlementStatus}
use elchi_backend.Order.Sale.{Order, Lookups}

-- `target_status`; another text is refused before anything else.
pub data RollbackTarget : Type 0 where
  to_waiting to_cancelled to_cancelled_sent : RollbackTarget

-- The latest history row of an extra cost, as the finance service answers.
pub record ExtraCost : Type 0 where
  pub amount : ℤ
  pub created_at : Option ℕ

-- What the other services answer while a rollback is prepared. The extra cost of the actor is that
-- of the user who would have borne it.
pub record RollbackLookups : Type 0 where
  pub sale : Lookups
  pub market_extra : Option ExtraCost
  pub actor_extra : ℕ → Option ExtraCost
  pub updated_at : Option ℕ

-- All that the transaction needs. The extra costs are zero when they are not to be rolled back.
pub record Reversal : Type 0 where
  pub order : Order
  pub requester : ℕ
  pub is_super_admin : Bool
  pub target : RollbackTarget
  pub market_tariff : ℤ
  pub courier_tariff : ℤ
  pub courier : Option ℕ
  pub branch_cashbox : Option ℕ
  pub expense_cashbox : Option (ℕ × CashboxType)
  pub market_extra : ℤ
  pub actor_extra : ℤ

-- One step of the reversal: a correction of a cashbox, or an entry of the ledger.
pub data Step : Type 0 where
  correct : ℕ → CashboxType → ℤ → OperationType → Step
  enter : ℤ → Step
