-- ===== src/Order/Sale.antt =====
-- The sale of an order: sellOrder of OrderLifecycleService (apps/order-service/src/lifecycle), with
-- resolveActorCourierId, updateCashboxBalance, enqueueFinanceOnStatusChange and the part of
-- updateFull that it goes through. `plan_sale` is what the call does before its transaction, and
-- `commit_sale` is the transaction, which may find the database changed in between. Comments,
-- tracking rows and custody events are not modelled.
pub mod Plans
pub mod Commit
pub mod Once
pub mod Measures
pub mod Borne
pub mod Conserves
use elchi_backend.Prelude.{
  ℕ, Bool, true, false, not, ◌&&◌, ◌||◌, Option, none, some, List, [], ◌∷◌, ◌++◌, ◌==◌,
  if◌then◌else◌, opt_eq, is_some, or_else, Text, codes,
}
use elchi_backend.Prelude.Int.{ℤ, pos, ◌+ℤ◌, ◌-ℤ◌, neg, max_zero, ltb_ℤ, leb_ℤ, eqb_ℤ}
use elchi_backend.Prelude.Results.{
  Result, ok, err, ◌>>=◌, ◌>>◌, guard, or_throw, bad_request, not_found,
}
use elchi_backend.Enums.{
  OperationType, income, expense, cash, CashboxType, for_market, for_courier, branch, SourceType,
  sell, extra_cost,
}
use elchi_backend.Inputs.{id, missing, absent}
use elchi_backend.Store.{Table}
use elchi_backend.Common.Outbox.{OutboxEvent, enqueue}
use elchi_backend.Finance.Balance.{UpdateBalanceDto}
use elchi_backend.Order.Status.{
  OrderStatus, waiting, same_status, is_valid_status_transition, is_sold_state,
}
use elchi_backend.Order.Money.{
  CompensationMode, resolve_sale_actor_share, compute_sell_profit, SaleAmounts, sale_amounts,
  SalePayment, sale_payment,
}
use elchi_backend.Order.Proof.{ProofCondition, enforce_operation_proof}
use elchi_backend.Order.Proof as Proof
use elchi_backend.Order.Settlement.{OrderSettlement, record_sale_settlement}

-- The columns of `Order` that a sale reads or writes. `is_center` is `where_deliver === CENTER`.
pub record Order : Type 0 where
  pub key : ℕ  -- id
  pub status : OrderStatus
  pub market_id : ℕ
  pub branch_id : Option ℕ
  pub holder_branch_id : Option ℕ
  pub courier_id : Option ℕ
  pub holder_courier_id : Option ℕ
  pub operator_id : Option ℕ
  pub post_id : Option ℕ
  pub is_center : Bool
  pub total_price : ℤ
  pub to_be_paid : ℤ
  pub paid_amount : ℤ
  pub market_tariff : Option ℤ
  pub courier_tariff : Option ℤ
  pub courier_share : Option ℤ
  pub branch_share : Option ℤ
  pub branch_cashbox_amount : Option ℤ
  pub sold_at : Option ℕ
  pub proof_files : List Text
  pub parent_order_id : Option ℕ
  pub return_requested : Bool
  pub canceled_post_id : Option ℕ
  pub is_deleted : Bool

-- The caller, with the roles that the sale asks for.
pub record Requester : Type 0 where
  pub key : ℕ  -- id
  pub is_super_admin : Bool
  pub is_courier : Bool
  pub is_manager : Bool
  pub branch_id : Option ℕ

-- A user of the identity service: the tariffs, and how a courier is paid.
pub record Actor : Type 0 where
  pub tariff_center : ℤ
  pub tariff_home : ℤ
  pub compensation_mode : Option CompensationMode
  pub expense_proof_conditions : List ProofCondition

-- What the other services answer while a sale is prepared.
pub record Lookups : Type 0 where
  pub post_courier : ℕ → Option ℕ
  pub market_of : ℕ → Option Actor
  pub courier_of : ℕ → Option Actor
  pub user_of : ℕ → Option Actor
  pub market_balance : ℕ → Option ℤ
  pub has_courier_cashbox : ℕ → Bool
  pub settlement_branch : Option ℕ
  pub has_branch_cashbox : ℕ → Bool
  pub branch_share : ℕ → ℤ
  pub file_exists : Text → Bool

-- `paid_amount` is `none` when it is left out, and `some none` when it is not finite.
pub record SellDto : Type 0 where
  pub extra_cost : ℤ
  pub paid_amount : Option (Option ℤ)
  pub proof_file_keys : List Text
  pub proof_file_keys_verified : Bool

-- What the order service asks of the finance service.
pub data FinanceEvent : Type 0 where
  cashbox_update : UpdateBalanceDto → FinanceEvent
  sell_extra_cost : ℕ → ℤ → FinanceEvent
  sell_profit : ℕ → ℤ → FinanceEvent
  cancel_extra_cost : ℕ → ℤ → FinanceEvent
  ledger_correction : ℕ → ℤ → FinanceEvent
  earning_record : ℕ → ℕ → ℤ → FinanceEvent
  earning_remove : ℕ → FinanceEvent

-- A sale whose participants and amounts are known.
pub record Quote : Type 0 where
  pub order : Order
  pub requester : ℕ
  pub requested : Option ℤ  -- requestedPaidAmount
  pub market_balance : ℤ
  pub extra_cost : ℤ
  pub market_tariff : ℤ
  pub courier_tariff : ℤ
  pub courier_share : ℤ
  pub branch_share : ℤ
  -- The courier with a cashbox, and the branch that the money passes through.
  pub courier : Option ℕ
  pub settlement_branch : Option ℕ
  pub branch_cashbox : Option ℕ
  -- The cashbox that bears the extra cost beside the market's.
  pub expense_cashbox : Option (ℕ × CashboxType)
  pub proof_files : List Text

-- The amounts of the sale.
abbrev pub amounts_of : Quote → SaleAmounts
amounts_of c = sale_amounts c.order.total_price c.market_tariff c.courier_share c.branch_share

-- All that the transaction needs.
pub record Plan : Type 0 where
  pub quote : Quote
  pub payment : SalePayment
