-- ===== src/Order/Cancel.antt =====
-- The cancellation of an order: cancelOrder of OrderLifecycleService
-- (apps/order-service/src/lifecycle). `plan_cancel` is what the call does before its transaction,
-- and `commit_cancel` is the transaction. Comments, tracking rows, activity logs and the external
-- sync after the commit are not modelled.
pub mod Undo
pub mod Exclusive
mod Tests
use elchi_backend.Prelude.{
  ℕ, Bool, true, false, not, ◌&&◌, ◌||◌, Option, none, some, List, [], ◌∷◌, ◌++◌, ◌==◌,
  if◌then◌else◌, is_some, or_else, Text,
}
use elchi_backend.Prelude.Int.{ℤ, pos, neg, max_zero, ltb_ℤ}
use elchi_backend.Prelude.Results.{
  Result, ok, err, ◌>>=◌, ◌>>◌, guard, or_throw, bad_request, not_found,
}
use elchi_backend.Enums.{CashboxType, for_market, for_courier, branch, expense, extra_cost, cash}
use elchi_backend.Inputs.{id, missing, absent}
use elchi_backend.Store.{Table}
use elchi_backend.Common.Outbox.{OutboxEvent}
use elchi_backend.Order.Status.{waiting, cancelled, same_status, is_valid_status_transition}
use elchi_backend.Order.Proof.{ProofCondition, enforce_operation_proof}
use elchi_backend.Order.Proof as Proof
use elchi_backend.Order.Settlement.{OrderSettlement}
use elchi_backend.Order.Sale.{
  Order, Requester, Actor, Lookups, FinanceEvent, cashbox_update, cancel_extra_cost,
}
use elchi_backend.Order.Sale.Plans.{resolve_actor_courier_id}
use elchi_backend.Order.Sale.Commit.{
  Desk, enqueue_all, status_events, find_by_id, lock_waiting_order,
}

pub record CancelDto : Type 0 where
  pub extra_cost : ℤ
  pub proof_file_keys : List Text
  pub proof_file_keys_verified : Bool

-- All that the transaction needs. `bearer` is the cashbox that bears the extra cost beside the
-- market's.
pub record CancelPlan : Type 0 where
  pub order : Order
  pub requester : ℕ
  pub extra_cost : ℤ
  pub bearer : ℕ × CashboxType
  pub proof_files : List Text

-- The proofs that a market asks for; a market that is not found asks for none.
abbrev pub conditions_of : Option Actor → List ProofCondition
conditions_of none = []
conditions_of (some market) = market.expense_proof_conditions

abbrev pub cancels_for_branch : Requester → Bool
cancels_for_branch q = q.is_manager && not q.is_courier

-- The owner and the type of the bearer's cashbox.
abbrev pub bearer_for : Requester → ℕ → ℕ × CashboxType
bearer_for q courier =
    if cancels_for_branch q then (or_else q.branch_id 0, branch) else (courier, for_courier)

abbrev pub has_bearer : Lookups → Requester → ℕ → Bool
has_bearer l q courier =
    if cancels_for_branch q
    then l.has_branch_cashbox (or_else q.branch_id 0)
    else l.has_courier_cashbox courier

-- What `cancelOrder` does before its transaction, with the order that it has read
unfoldable pub plan_cancel : Lookups → Requester → Order → CancelDto → Result CancelPlan
unfolding resolve_actor_courier_id enforce_operation_proof
plan_cancel l q o dto = do
  guard (same_status o.status waiting) bad_request
  post ← or_throw o.post_id bad_request
  courier ← resolve_actor_courier_id q o (l.post_courier post)
  let extra = max_zero dto.extra_cost
  proof_files ←
      enforce_operation_proof l.file_exists (conditions_of (l.market_of o.market_id)) Proof.cancel
        extra o.total_price dto.proof_file_keys false dto.proof_file_keys_verified
  guard (not (cancels_for_branch q && not (is_some q.branch_id))) bad_request
  guard (not (ltb_ℤ (pos 0) extra) || is_some (l.market_balance o.market_id)) not_found
  guard (not (ltb_ℤ (pos 0) extra) || has_bearer l q courier) not_found
  ok (record {
    order = o;
    requester = q.key;
    extra_cost = extra;
    bearer = bearer_for q courier;
    proof_files = proof_files;
  })

-- An expense of the extra cost.
abbrev pub bears : CancelPlan → Text → ℕ → CashboxType → FinanceEvent
bears p epoch user cashbox = cashbox_update (record {
  selector = record { cashbox_id = missing; user_id = id user; cashbox_type = some cashbox };
  amount = some p.extra_cost;
  operation_type = expense;
  source_type = extra_cost;
  source_id = some p.order.key;
  source_user_id = none;
  payment_method = some cash;
  comment = none;
  created_by = some p.requester;
  payment_date = absent;
  dedup_epoch = some epoch;
})

unfoldable pub cancel_events : CancelPlan → Text → List FinanceEvent
cancel_events p epoch =
    if ltb_ℤ (pos 0) p.extra_cost
    then bears p epoch p.order.market_id for_market
      ∷ bears p epoch p.bearer.0 p.bearer.1
      ∷ cancel_extra_cost p.order.key (neg p.extra_cost)
      ∷ []
    else []

-- The order as the `updateFull` of a cancellation writes it
unfoldable pub cancelled_order : CancelPlan → Order → Order
cancelled_order p o = record o {
  status = cancelled;
  sold_at = none;
  proof_files = elim p.proof_files [ [] ↦ o.proof_files | k ∷ ks ↦ k ∷ ks ];
}

module _ (R : Table Order Order.key) (T : Table OrderSettlement OrderSettlement.key)
    (O : Table (OutboxEvent FinanceEvent) OutboxEvent.key) where
  -- The transaction of `cancelOrder`
  unfoldable pub commit_cancel :
      CancelPlan → Text → List Text → ℕ → Desk R T O → Result (Desk R T O)
  unfolding lock_waiting_order find_by_id cancelled_order cancel_events enqueue_all status_events
  commit_cancel p epoch uuids now s = do
    locked ← lock_waiting_order R T O p.order.key s.orders
    o ← find_by_id R p.order.key s.orders
    guard (is_valid_status_transition o.status (cancelled_order p o).status) bad_request
    ok (record s {
      orders = R.update s.orders (λ r. r.key == p.order.key) (λ r. cancelled_order p o);
      outbox =
          enqueue_all R T O (cancel_events p epoch ++ status_events (cancelled_order p o) o.status)
            uuids now s.outbox;
    })
