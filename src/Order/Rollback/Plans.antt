-- ===== src/Order/Rollback/Plans.antt =====
-- What `rollbackOrderToWaiting` does before its transaction: who may roll back what, the guard on
-- settled orders, and the extra costs that belong to the sale.
use elchi_backend.Prelude.{
  ℕ, ◌+◌, ◌-◌, Bool, true, false, not, ◌&&◌, ◌||◌, Option, none, some, List, [], ◌∷◌, any, leb,
  if◌then◌else◌, opt_eq, is_some, or_else,
}
use elchi_backend.Prelude.Int.{ℤ, pos, ltb_ℤ}
use elchi_backend.Prelude.Results.{Result, ok, ◌>>=◌, ◌>>◌, guard, or_throw, bad_request, not_found}
use elchi_backend.Enums.{CashboxType, for_courier, branch}
use elchi_backend.Order.Status.{
  OrderStatus, sold, paid, partly_paid, cancelled, closed, same_status,
}
use elchi_backend.Order.Settlement.{SettlementStatus, is_settled_to_hq}
use elchi_backend.Order.Sale.{Order, Requester, Actor, Lookups}
use elchi_backend.Order.Sale.Plans.{
  resolve_actor_courier_id, tariff_of, only_if, branch_with_cashbox,
}
use elchi_backend.Order.Rollback.{
  RollbackTarget, to_cancelled_sent, ExtraCost, RollbackLookups, Reversal,
}

-- `[...].includes(status)`
abbrev pub among : List OrderStatus → OrderStatus → Bool
among statuses status = any (λ s. same_status s status) statuses

abbrev pub sold_states : List OrderStatus
sold_states = sold ∷ paid ∷ partly_paid ∷ []

abbrev pub cancelled_states : List OrderStatus
cancelled_states = cancelled ∷ closed ∷ []

abbrev pub is_to_cancelled_sent : RollbackTarget → Bool
is_to_cancelled_sent to_cancelled_sent = true
is_to_cancelled_sent _ = false

-- The manager of the branch that holds the order, or that it belongs to.
abbrev pub manages : Requester → Order → Bool
manages q o =
    is_some q.branch_id && (opt_eq q.branch_id o.holder_branch_id || opt_eq q.branch_id o.branch_id)

-- Who may roll back an order in which status, and to which.
unfoldable pub may_roll_back : Requester → Order → RollbackTarget → Bool
may_roll_back q o target =
    not (is_to_cancelled_sent target && not q.is_courier)
    && not (q.is_courier && not (among (sold ∷ cancelled ∷ []) o.status))
    && not (
        q.is_super_admin
        && not (among (sold ∷ cancelled ∷ closed ∷ paid ∷ partly_paid ∷ []) o.status))
    && (q.is_courier || q.is_super_admin || q.is_manager)
    && not (same_status o.status partly_paid && not q.is_super_admin)
    && not (q.is_manager && not q.is_super_admin && not (manages q o))

-- `isNearInTime`; a missing time is near to none.
unfoldable pub is_near_in_time : Option ℕ → Option ℕ → Bool
is_near_in_time (some a) (some b) = leb ((a - b) + (b - a)) 5000
is_near_in_time _ _ = false

-- An extra cost that the rollback reverses: one that was entered close to the sale, or close to the
-- last write of a cancelled order.
unfoldable pub extra_to_reverse : Order → Option ℕ → Option ExtraCost → ℤ
unfolding is_near_in_time
extra_to_reverse o updated_at none = pos 0
extra_to_reverse o updated_at (some e) =
    if ltb_ℤ (pos 0) e.amount
      && (if among sold_states o.status
          then is_near_in_time o.sold_at e.created_at
          else among cancelled_states o.status && is_near_in_time updated_at e.created_at)
    then e.amount
    else pos 0

-- The cashbox that bore the extra cost beside the market's.
abbrev pub bearer_of : Bool → Requester → ℕ → Lookups → Bool → Option (ℕ × CashboxType)
bearer_of true q courier l has_courier = elim q.branch_id [
  | none ↦ none
  | some b ↦ only_if (l.has_branch_cashbox b) (some (b, branch))
]
bearer_of false q courier l has_courier = only_if has_courier (some (courier, for_courier))

-- A manager who is no courier rolls back for the branch.
abbrev pub rolls_back_for_branch : Requester → Bool
rolls_back_for_branch q = q.is_manager && not q.is_courier

abbrev pub has_courier_cashbox : Lookups → Requester → ℕ → Bool
has_courier_cashbox l q courier = not (rolls_back_for_branch q) && l.has_courier_cashbox courier

-- What the transaction is told, once the participants are known.
unfoldable pub reversal_of :
    RollbackLookups → Requester → Order → RollbackTarget → ℕ → Actor → Actor → Reversal
unfolding extra_to_reverse
reversal_of x q o target courier market actor =
    let is_manager = rolls_back_for_branch q in
    let has_courier = has_courier_cashbox x.sale q courier in
    let bearer = if is_manager then or_else q.branch_id 0 else courier in
    record {
      order = o;
      requester = q.key;
      is_super_admin = q.is_super_admin;
      target = target;
      market_tariff = or_else o.market_tariff (tariff_of o.is_center market);
      courier_tariff = or_else o.courier_tariff (tariff_of o.is_center actor);
      courier = only_if has_courier (some courier);
      branch_cashbox = branch_with_cashbox x.sale;
      expense_cashbox = bearer_of is_manager q courier x.sale has_courier;
      market_extra = extra_to_reverse o x.updated_at x.market_extra;
      actor_extra = extra_to_reverse o x.updated_at (x.actor_extra bearer);
    }

-- The courier of the post of an order, which may have none.
abbrev pub post_courier_of : Lookups → Option ℕ → Option ℕ
post_courier_of l none = none
post_courier_of l (some p) = l.post_courier p

-- What `rollbackOrderToWaiting` does before its transaction, with the order and the settlement row
-- (not deleted) that it has read. That a manager has a branch is seen by `may_roll_back`, and again
-- by the last guard.
unfoldable pub plan_rollback :
    RollbackLookups → Requester → Order → Option SettlementStatus → RollbackTarget → Result Reversal
unfolding may_roll_back is_settled_to_hq resolve_actor_courier_id reversal_of
plan_rollback x q o settlement target = do
  guard (may_roll_back q o target) bad_request
  guard (not (is_settled_to_hq settlement)) bad_request
  let l = x.sale
  courier ← resolve_actor_courier_id q o (post_courier_of l o.post_id)
  market ← or_throw (l.market_of o.market_id) not_found
  actor ←
      or_throw (if rolls_back_for_branch q then l.user_of q.key else l.courier_of courier) not_found
  guard (is_some (l.market_balance o.market_id)) not_found
  guard (has_courier_cashbox l q courier || rolls_back_for_branch q) not_found
  guard (not (rolls_back_for_branch q && not (is_some q.branch_id))) bad_request
  ok (reversal_of x q o target courier market actor)
