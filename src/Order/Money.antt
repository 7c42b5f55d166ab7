-- ===== src/Order/Money.antt =====
-- The money of one sold order: apps/order-service/src/domain/order-money.ts, and the amounts and
-- the payment state that sellOrder (apps/order-service/src/lifecycle) derives from it. Amounts are
-- whole tiyin; in `SaleShareInputs` they are ten-thousandths of a som, so that `round2` has an
-- effect.
pub mod Legs
pub mod Payment
use elchi_backend.Prelude.{ℕ, ◌+◌, ◌*◌, ◌/◌, Bool, Option, none, some, ◌&&◌, if◌then◌else◌}
use elchi_backend.Prelude.Int.{
  ℤ, pos, negsuc, ◌+ℤ◌, ◌-ℤ◌, neg, max_zero, min_ℤ, ltb_ℤ, leb_ℤ, eqb_ℤ,
}
use elchi_backend.Prelude.Results.{Result, ok, err, bad_request}
use elchi_backend.Order.Status.{OrderStatus, sold, paid, partly_paid}

-- `CourierCompensationMode`
pub data CompensationMode : Type 0 where
  salary_only per_order salary_plus_per_order : CompensationMode

-- `round2`, to a whole number of hundreds: `Math.round` takes a half upwards.
unfoldable pub round2 : ℤ → ℤ
round2 (pos n) = pos ((n + 50) / 100 * 100)
round2 (negsuc n) = neg (pos ((n + 50) / 100 * 100))

-- `computeSellProfit`
unfoldable pub compute_sell_profit : ℤ → ℤ → ℤ → ℤ
compute_sell_profit market_tariff courier_share branch_share =
    market_tariff -ℤ courier_share -ℤ branch_share

-- `resolveCourierShare`
unfoldable pub resolve_courier_share : Option CompensationMode → ℤ → ℤ
resolve_courier_share (some salary_only) courier_tariff = pos 0
resolve_courier_share _ courier_tariff = courier_tariff

-- `resolveSaleActorShare`
unfoldable pub resolve_sale_actor_share : Bool → Option CompensationMode → ℤ → ℤ
unfolding resolve_courier_share
resolve_sale_actor_share is_manager_sale mode tariff =
    if is_manager_sale then tariff else resolve_courier_share mode tariff

pub record SaleShareInputs : Type 0 where
  pub total : ℤ
  pub market_tariff : ℤ
  pub courier_share : ℤ
  pub branch_share : ℤ

pub record SaleLegs : Type 0 where
  pub market_receivable : ℤ
  pub courier_kept : ℤ
  pub branch_kept : ℤ
  pub hq_profit : ℤ
  pub courier_amount : ℤ
  pub branch_amount : ℤ
  pub market_amount : ℤ

-- `computeSaleLegs`
unfoldable pub compute_sale_legs : SaleShareInputs → SaleLegs
unfolding round2
compute_sale_legs i = record {
  market_receivable = round2 (i.total -ℤ i.market_tariff);
  courier_kept = round2 i.courier_share;
  branch_kept = round2 i.branch_share;
  hq_profit = round2 (i.market_tariff -ℤ i.courier_share -ℤ i.branch_share);
  courier_amount = round2 (i.total -ℤ i.courier_share);
  branch_amount = round2 (i.total -ℤ i.courier_share -ℤ i.branch_share);
  market_amount = round2 (i.total -ℤ i.market_tariff);
}

-- The amounts that `sellOrder` posts. `branch_net` is also `branchCashboxAmount`, which
-- `resolveBranchCashboxSaleAmount` leaves as it is.
pub record SaleAmounts : Type 0 where
  pub market_income : ℤ
  pub market_expense : ℤ
  pub courier_income : ℤ
  pub courier_expense : ℤ
  pub branch_net : ℤ

unfoldable pub sale_amounts : ℤ → ℤ → ℤ → ℤ → SaleAmounts
sale_amounts total market_tariff courier_share branch_share = record {
  market_income = max_zero (total -ℤ market_tariff);
  market_expense = max_zero (market_tariff -ℤ total);
  courier_income = max_zero (total -ℤ courier_share);
  courier_expense = max_zero (courier_share -ℤ total);
  branch_net = total -ℤ courier_share -ℤ branch_share;
}

-- How much of what the market is owed counts as paid when the order is sold.
pub record SalePayment : Type 0 where
  pub paid_after : ℤ
  pub remaining : ℤ
  pub next_status : OrderStatus

-- `requested` is `none` when it is not finite. What the market owes already, a negative balance of
-- its cashbox, is set off against the rest.
unfoldable pub sale_payment : ℤ → Option ℤ → ℤ → Result SalePayment
sale_payment net_to_be_paid none market_balance = err bad_request
sale_payment net_to_be_paid (some requested) market_balance =
    let current_paid = min_ℤ (max_zero requested) net_to_be_paid in
    let remaining_before_debt = net_to_be_paid -ℤ current_paid in
    let debt = if ltb_ℤ market_balance (pos 0) then neg market_balance else pos 0 in
    let auto_pay = min_ℤ remaining_before_debt debt in
    let paid_after = min_ℤ net_to_be_paid (current_paid +ℤ auto_pay) in
    let remaining = max_zero (net_to_be_paid -ℤ paid_after) in
    let next_status =
      if eqb_ℤ remaining (pos 0) && ltb_ℤ (pos 0) paid_after
      then paid
      else if ltb_ℤ (pos 0) paid_after
      then partly_paid
      else sold in
    if ltb_ℤ requested (pos 0)
    then err bad_request
    else if ltb_ℤ net_to_be_paid requested
    then err bad_request
    else ok (record { paid_after = paid_after; remaining = remaining; next_status = next_status })
