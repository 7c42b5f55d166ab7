-- ===== src/Order/Rollback/Commit.antt =====
-- The transaction of `rollbackOrderToWaiting`: the corrections, the settlement row, the children of a
-- partial sale and the final status.
use elchi_backend.Prelude.{
  ℕ, suc, ◌+◌, ◌%◌, Bool, true, false, not, ◌&&◌, ◌||◌, Option, none, some, List, [], ◌∷◌, ◌++◌,
  ◌==◌, if◌then◌else◌, opt_eq, or_else, Text,
}
use elchi_backend.Prelude.Int.{ℤ, pos, ◌+ℤ◌, neg, ltb_ℤ, leb_ℤ}
use elchi_backend.Prelude.Results.{Result, ok, err, ◌>>=◌, ◌>>◌, guard, bad_request}
use elchi_backend.Enums.{
  income, expense, cash, CashboxType, for_market, for_courier, branch, correction,
}
use elchi_backend.Inputs.{id, missing, absent}
use elchi_backend.Store.{Table}
use elchi_backend.Common.Outbox.{OutboxEvent}
use elchi_backend.Order.Status.{
  OrderStatus, waiting, cancelled, sold, paid, partly_paid, same_status, is_valid_status_transition,
}
use elchi_backend.Order.Money.{SaleAmounts, sale_amounts}
use elchi_backend.Order.Settlement.{OrderSettlement, reset_settlement_on_rollback}
use elchi_backend.Order.Sale.{Order, FinanceEvent, cashbox_update, ledger_correction}
use elchi_backend.Order.Sale.Commit.{Desk, enqueue_all, status_events, find_by_id}
use elchi_backend.Order.Rollback.{RollbackTarget, to_waiting, Reversal, Step, correct, enter}
use elchi_backend.Order.Rollback.Plans.{among, sold_states, cancelled_states}

-- The reverse of a leg that was an income of `in_amount` or an expense of `out_amount`.
abbrev pub reverse_leg : Option ℕ → CashboxType → ℤ → ℤ → List Step
reverse_leg none cashbox in_amount out_amount = []
reverse_leg (some user) cashbox in_amount out_amount =
    if ltb_ℤ (pos 0) in_amount
    then correct user cashbox in_amount expense ∷ []
    else if ltb_ℤ (pos 0) out_amount
    then correct user cashbox out_amount income ∷ []
    else []

-- The extra costs go back to the two cashboxes that bore them.
abbrev pub market_extra_steps : Reversal → List Step
market_extra_steps r =
    if ltb_ℤ (pos 0) r.market_extra
    then correct r.order.market_id for_market r.market_extra income ∷ []
    else []

abbrev pub actor_extra_steps : Reversal → Option (ℕ × CashboxType) → List Step
actor_extra_steps r none = []
actor_extra_steps r (some (user, cashbox)) =
    if ltb_ℤ (pos 0) r.actor_extra then correct user cashbox r.actor_extra income ∷ [] else []

abbrev pub extra_steps : Reversal → List Step
extra_steps r = market_extra_steps r ++ actor_extra_steps r r.expense_cashbox

-- `Math.max(a, b)`
abbrev pub max_ℤ : ℤ → ℤ → ℤ
max_ℤ a b = if leb_ℤ a b then b else a

abbrev pub ledger_steps : Reversal → List Step
ledger_steps r =
    let extra = max_ℤ r.market_extra r.actor_extra in
    if ltb_ℤ (pos 0) extra then enter extra ∷ [] else []

-- The amounts of the sale, from what it has recorded on the order.
unfoldable pub recorded_amounts : Reversal → SaleAmounts
unfolding sale_amounts
recorded_amounts r =
    sale_amounts r.order.total_price r.market_tariff
      (or_else r.order.courier_share r.courier_tariff) (or_else r.order.branch_share (pos 0))

-- The legs of a sale of these amounts, each reversed.
abbrev pub reversed_legs : Reversal → SaleAmounts → ℤ → List Step
reversed_legs r a net =
    reverse_leg (some r.order.market_id) for_market a.market_income a.market_expense
    ++ reverse_leg r.courier for_courier a.courier_income a.courier_expense
    ++ reverse_leg r.branch_cashbox branch net (neg net)

unfoldable pub leg_steps : Reversal → List Step
unfolding recorded_amounts
leg_steps r =
    reversed_legs r (recorded_amounts r)
      (or_else r.order.branch_cashbox_amount (recorded_amounts r).branch_net)

-- `doSaleReversal`
abbrev pub does_sale_reversal : Reversal → Bool
does_sale_reversal r =
    among (sold ∷ paid ∷ []) r.order.status
    || (same_status r.order.status partly_paid && r.is_super_admin)

-- All steps, in the order of the source.
unfoldable pub rollback_steps : Reversal → List Step
unfolding leg_steps
rollback_steps r =
    (if among sold_states r.order.status then extra_steps r ++ ledger_steps r else [])
    ++ (if does_sale_reversal r then leg_steps r else [])
    ++ (if among cancelled_states r.order.status then extra_steps r else [])

-- The suffix `:seq` of a token. There are at most seven steps, so that one digit is enough.
abbrev pub seq_suffix : ℕ → Text
seq_suffix n = 58 ∷ (48 + n % 10) ∷ []

-- The events of the steps; each correction has a number of its own in its token.
unfoldable pub number_steps : Reversal → Text → ℕ → List Step → List FinanceEvent
number_steps r epoch n [] = []
number_steps r epoch n (enter a ∷ steps) =
    ledger_correction r.order.key a ∷ number_steps r epoch n steps
number_steps r epoch n (correct user cashbox amount operation ∷ steps) =
    cashbox_update (record {
      selector = record { cashbox_id = missing; user_id = id user; cashbox_type = some cashbox };
      amount = some amount;
      operation_type = operation;
      source_type = correction;
      source_id = some r.order.key;
      source_user_id = none;
      payment_method = some cash;
      comment = none;
      created_by = some r.requester;
      payment_date = absent;
      dedup_epoch = some (epoch ++ seq_suffix n);
    })
    ∷ number_steps r epoch (suc n) steps

unfoldable pub rollback_events : Reversal → Text → List FinanceEvent
unfolding rollback_steps number_steps
rollback_events r epoch = number_steps r epoch 0 (rollback_steps r)

-- `finalStatus`
abbrev pub final_status : RollbackTarget → OrderStatus
final_status to_waiting = waiting
final_status _ = cancelled

-- The final write of the order; `of_paid` holds of a superadmin's rollback of a paid order.
abbrev pub write_back : RollbackTarget → Bool → Order → Order
write_back to_waiting true o = record o { status = waiting; paid_amount = pos 0; sold_at = none }
write_back to_waiting false o = record o { status = waiting; to_be_paid = pos 0; sold_at = none }
write_back _ of_paid o = record o {
  status = cancelled;
  canceled_post_id = none;
  return_requested = false;
  sold_at = none;
}

unfoldable pub rolled_back : Reversal → Order → Order
rolled_back r o =
    write_back r.target (r.is_super_admin && among (paid ∷ partly_paid ∷ []) r.order.status) o

-- The children of a partial sale that are merged into their parent.
abbrev pub is_merged_child : ℕ → Order → Bool
is_merged_child k c =
    opt_eq c.parent_order_id (some k)
    && among (cancelled ∷ waiting ∷ []) c.status
    && not c.is_deleted

abbrev pub prices : List Order → ℤ
prices [] = pos 0
prices (c ∷ cs) = c.total_price +ℤ prices cs

abbrev pub is_nil : {A : Type 0} → List A → Bool
is_nil [] = true
is_nil (x ∷ xs) = false

module _ (R : Table Order Order.key) (T : Table OrderSettlement OrderSettlement.key)
    (O : Table (OutboxEvent FinanceEvent) OutboxEvent.key) where
  -- `mergePartialChildrenBack`, on the orders: the children are deleted, and the order that the
  -- call has read is saved with their prices added.
  unfoldable pub merge_partial_children_back : Order → R.State → R.State
  merge_partial_children_back o s =
      let children = R.find_by s (is_merged_child o.key) (λ c. c.key) in
      if is_nil children
      then s
      else R.update (R.update s (is_merged_child o.key) (λ c. record c { is_deleted = true }))
          (λ c. c.key == o.key) (λ c. record o { total_price = o.total_price +ℤ prices children })

  -- The lock on the order: it must be in the status that the plan was made for.
  unfoldable pub lock_order_in : ℕ → OrderStatus → R.State → Result Order
  lock_order_in k status s = elim (R.find_one s (λ o. o.key == k)) [
    | none ↦ err bad_request
    | some o ↦ if same_status o.status status then ok o else err bad_request
  ]

  -- The transaction. The final write goes through `updateFull`, which reads the order on another
  -- connection: what it writes back is the order as it was committed before, whatever the merge has
  -- written.
  unfoldable pub commit_rollback :
      Reversal → Text → List Text → ℕ → Desk R T O → Result (Desk R T O)
  unfolding lock_order_in rollback_events merge_partial_children_back rolled_back enqueue_all
      status_events find_by_id
  commit_rollback r epoch uuids now s = do
    locked ← lock_order_in r.order.key r.order.status s.orders
    o ← find_by_id R r.order.key s.orders
    guard (is_valid_status_transition o.status (rolled_back r o).status) bad_request
    ok (record {
      orders =
          R.update (merge_partial_children_back r.order s.orders) (λ c. c.key == r.order.key)
            (λ c. rolled_back r o);
      settlements = reset_settlement_on_rollback T r.order.key s.settlements;
      outbox =
          enqueue_all R T O (rollback_events r epoch ++ status_events (rolled_back r o) o.status)
            uuids now s.outbox;
    })
