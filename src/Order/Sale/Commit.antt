-- ===== src/Order/Sale/Commit.antt =====
-- The transaction of `sellOrder`: the finance events, the order and its settlement row.
use elchi_backend.Prelude.{
  ℕ, not, ◌&&◌, Option, none, some, List, [], ◌∷◌, ◌++◌, ◌==◌, if◌then◌else◌, is_some, or_else,
  Text, codes,
}
use elchi_backend.Prelude.Int.{ℤ, pos, neg, max_zero, ltb_ℤ, leb_ℤ, eqb_ℤ}
use elchi_backend.Prelude.Results.{
  Result, ok, err, ◌>>=◌, ◌>>◌, guard, or_throw, bad_request, not_found,
}
use elchi_backend.Enums.{
  OperationType, income, expense, cash, CashboxType, for_market, for_courier, branch, SourceType,
  sell, extra_cost,
}
use elchi_backend.Inputs.{id, missing, absent}
use elchi_backend.Store.{Table}
use elchi_backend.Common.Outbox.{OutboxEvent, enqueue}
use elchi_backend.Finance.Balance.{UpdateBalanceDto}
use elchi_backend.Order.Status.{
  OrderStatus, waiting, same_status, is_valid_status_transition, is_sold_state,
}
use elchi_backend.Order.Money.{compute_sell_profit}
use elchi_backend.Order.Settlement.{OrderSettlement, SaleSettlement, record_sale_settlement}
use elchi_backend.Order.Sale.Plans.{plan_sale}
use elchi_backend.Order.Sale.{
  Order, Requester, Lookups, SellDto, FinanceEvent, cashbox_update, sell_extra_cost, sell_profit,
  cancel_extra_cost, ledger_correction, earning_record, earning_remove, Quote, Plan, amounts_of,
}

-- The payload of `finance.cashbox.update_balance`, for a cashbox that its owner names.
abbrev pub cash_event :
    Quote → Text → ℕ → CashboxType → ℤ → OperationType → SourceType → UpdateBalanceDto
cash_event p epoch user cashbox amount operation source = record {
  selector = record { cashbox_id = missing; user_id = id user; cashbox_type = some cashbox };
  amount = some amount;
  operation_type = operation;
  source_type = source;
  source_id = some p.order.key;
  source_user_id = none;
  payment_method = some cash;
  comment = none;
  created_by = some p.requester;
  payment_date = absent;
  dedup_epoch = some epoch;
}

-- `updateCashboxBalance`: an amount that is not positive is no event.
unfoldable pub update_cashbox_balance :
    Quote → Text → ℕ → CashboxType → ℤ → OperationType → SourceType → List FinanceEvent
update_cashbox_balance p epoch user cashbox amount operation source =
    if leb_ℤ amount (pos 0)
    then []
    else cashbox_update (cash_event p epoch user cashbox amount operation source) ∷ []

-- The two sides of a leg: the income when it is positive, else the expense.
unfoldable pub post_leg : Quote → Text → Option ℕ → CashboxType → ℤ → ℤ → List FinanceEvent
unfolding update_cashbox_balance
post_leg p epoch none cashbox in_amount out_amount = []
post_leg p epoch (some user) cashbox in_amount out_amount =
    if ltb_ℤ (pos 0) in_amount
    then update_cashbox_balance p epoch user cashbox in_amount income sell
    else update_cashbox_balance p epoch user cashbox out_amount expense sell

-- The actor is relieved of the extra cost.
unfoldable pub relief_events : Quote → Text → Option (ℕ × CashboxType) → List FinanceEvent
unfolding update_cashbox_balance
relief_events p epoch none = []
relief_events p epoch (some (user, cashbox)) =
    update_cashbox_balance p epoch user cashbox p.extra_cost expense extra_cost

-- The extra cost: the market bears it, and the ledger is told of it.
unfoldable pub post_extra_cost : Quote → Text → List FinanceEvent
unfolding relief_events
post_extra_cost p epoch =
    if ltb_ℤ (pos 0) p.extra_cost
    then update_cashbox_balance p epoch p.order.market_id for_market p.extra_cost expense extra_cost
      ++ relief_events p epoch p.expense_cashbox
      ++ sell_extra_cost p.order.key (neg p.extra_cost) ∷ []
    else []

-- The events of the sale, in the order in which they are enqueued.
unfoldable pub sale_events : Quote → Text → List FinanceEvent
unfolding post_leg post_extra_cost
sale_events p epoch =
    post_leg p epoch (some p.order.market_id) for_market (amounts_of p).market_income
      (amounts_of p).market_expense
    ++ post_leg p epoch p.courier for_courier (amounts_of p).courier_income
        (amounts_of p).courier_expense
    ++ post_leg p epoch p.branch_cashbox branch (amounts_of p).branch_net
        (neg (amounts_of p).branch_net)
    ++ post_extra_cost p epoch

abbrev pub earning_events : Order → List FinanceEvent
earning_events o = elim o.operator_id [
  | none ↦ []
  | some u ↦ earning_record o.key u o.total_price ∷ []
]

abbrev pub removal_events : Order → List FinanceEvent
removal_events o = elim o.operator_id [ none ↦ [] | some u ↦ earning_remove o.key ∷ [] ]

-- `courier_share ?? courier_tariff ?? 0`
abbrev pub share_snapshot : Order → ℤ
share_snapshot o = or_else o.courier_share (or_else o.courier_tariff (pos 0))

-- What the recorded tariff and shares leave to the company.
unfoldable pub profit_snapshot : Order → ℤ
unfolding compute_sell_profit
profit_snapshot o =
    compute_sell_profit (or_else o.market_tariff (pos 0)) (share_snapshot o)
      (or_else o.branch_share (pos 0))

unfoldable pub profit_events : Order → List FinanceEvent
unfolding profit_snapshot
profit_events o =
    if eqb_ℤ (profit_snapshot o) (pos 0) then [] else sell_profit o.key (profit_snapshot o) ∷ []

-- `enqueueFinanceOnStatusChange`, for an order whose new status is written
unfoldable pub status_events : Order → OrderStatus → List FinanceEvent
unfolding profit_events
status_events o old_status =
    if is_sold_state o.status && not (is_sold_state old_status)
    then earning_events o ++ profit_events o
    else if same_status o.status waiting && is_sold_state old_status
    then removal_events o
    else []

-- What the `updateFull` of a sale writes into the order: a tariff that an earlier sale has recorded
-- is kept.
unfoldable pub sold_order : Plan → ℕ → Order → Order
sold_order p now o = record o {
  status = p.payment.next_status;
  to_be_paid = (amounts_of p.quote).market_income;
  paid_amount = p.payment.paid_after;
  sold_at = some now;
  market_tariff = some (or_else p.quote.order.market_tariff p.quote.market_tariff);
  courier_tariff = some (or_else p.quote.order.courier_tariff p.quote.courier_tariff);
  courier_share = some p.quote.courier_share;
  branch_share = some p.quote.branch_share;
  branch_cashbox_amount = some (amounts_of p.quote).branch_net;
  proof_files = elim p.quote.proof_files [ [] ↦ o.proof_files | k ∷ ks ↦ k ∷ ks ];
}

abbrev pub finance_target : Text
finance_target = codes "FINANCE"

-- The patterns that the finance service listens to.
abbrev pub pattern_of : FinanceEvent → Text
pattern_of (cashbox_update d) = codes "finance.cashbox.update_balance"
pattern_of (sell_extra_cost o a) = codes "finance.financial_balance.record"
pattern_of (sell_profit o a) = codes "finance.financial_balance.record"
pattern_of (cancel_extra_cost o a) = codes "finance.financial_balance.record"
pattern_of (ledger_correction o a) = codes "finance.financial_balance.record"
pattern_of (earning_record o u t) = codes "finance.operator.earning.record"
pattern_of (earning_remove o) = codes "finance.operator.earning.remove"

-- `findById`
unfoldable pub find_by_id : (R : Table Order Order.key) → ℕ → R.State → Result Order
find_by_id R k s = or_throw (R.find_one s (λ r. (r.key == k) && not r.is_deleted)) not_found

module _ (R : Table Order Order.key) (T : Table OrderSettlement OrderSettlement.key)
    (O : Table (OutboxEvent FinanceEvent) OutboxEvent.key) where
  -- The tables of the order schema that a sale touches.
  pub record Desk : Type 0 where
    pub orders : R.State
    pub settlements : T.State
    pub outbox : O.State

  -- Events are enqueued one after the other, each with a request id of its own.
  unfoldable pub enqueue_all : List FinanceEvent → List Text → ℕ → O.State → O.State
  enqueue_all [] uuids now s = s
  enqueue_all (e ∷ es) uuids now s = elim uuids [
    | [] ↦ enqueue_all es [] now (enqueue O finance_target (pattern_of e) e none none none [] now s)
    | u ∷ us ↦
        enqueue_all es us now (enqueue O finance_target (pattern_of e) e none none none u now s)
  ]

  -- `lockWaitingOrder`
  unfoldable pub lock_waiting_order : ℕ → R.State → Result Order
  lock_waiting_order k s = elim (R.find_one s (λ o. o.key == k)) [
    | none ↦ err bad_request
    | some o ↦ if same_status o.status waiting then ok o else err bad_request
  ]

  -- What `recordSaleSettlement` is told.
  abbrev pub sale_settlement : Quote → SaleSettlement
  sale_settlement p = record {
    order_id = p.order.key;
    courier_id = p.courier;
    branch_id = p.settlement_branch;
    market_id = some p.order.market_id;
    courier_amount = (amounts_of p).courier_income;
    branch_amount = max_zero (amounts_of p).branch_net;
    market_amount = (amounts_of p).market_income;
    has_courier = is_some p.courier;
  }

  -- What the transaction of `sellOrder` writes, with the order that `updateFull` has read
  unfoldable pub committed : Plan → Text → List Text → ℕ → Order → Desk → Desk
  unfolding sale_events sold_order status_events enqueue_all
  committed p epoch uuids now read s =
      let o = sold_order p now read in
      record {
        orders = R.update s.orders (λ r. r.key == p.quote.order.key) (λ r. o);
        settlements = record_sale_settlement T (sale_settlement p.quote) now s.settlements;
        outbox =
            enqueue_all (sale_events p.quote epoch ++ status_events o read.status) uuids now
              s.outbox;
      }

  -- The transaction of `sellOrder`; `updateFull` reads the order again, and not a deleted one.
  unfoldable pub commit_sale : Plan → Text → List Text → ℕ → Desk → Result Desk
  unfolding lock_waiting_order find_by_id committed
  commit_sale p epoch uuids now s = do
    locked ← lock_waiting_order p.quote.order.key s.orders
    o ← find_by_id R p.quote.order.key s.orders
    guard (is_valid_status_transition o.status (sold_order p now o).status) bad_request
    ok (committed p epoch uuids now o s)

  -- `sellOrder`, when nothing else happens between its two parts
  unfoldable pub sell_order :
      Lookups → Requester → ℕ → SellDto → Text → List Text → ℕ → Desk → Result Desk
  unfolding plan_sale commit_sale find_by_id
  sell_order l q k dto epoch uuids now s = do
    o ← find_by_id R k s.orders
    p ← plan_sale l q o dto
    commit_sale p epoch uuids now s
