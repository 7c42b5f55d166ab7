-- ===== src/Order/Rollback/Guards.antt =====
-- Which rollbacks are planned, and what every plan has.
use elchi_backend.Prelude.{
  ℕ, ◌≡◌, refl, sym, ap, ◌∙◌, Bool, true, false, not, ◌&&◌, ◌||◌, Option, [], ◌∷◌, if◌then◌else◌,
  is_some, arith,
}
use elchi_backend.Prelude.Results.{
  ok, guard, or_throw, bad_request, not_found, >>=-eq-ok, ok-injective,
}
use elchi_backend.Order.Status.{OrderStatus, sold, paid, partly_paid, same_status}
use elchi_backend.Order.Settlement.{SettlementStatus, is_settled_to_hq}
use elchi_backend.Order.Sale.{Order, Requester, Actor}
use elchi_backend.Order.Sale.Plans.{resolve_actor_courier_id}
use elchi_backend.Order.Rollback.{RollbackTarget, RollbackLookups, Reversal}
use elchi_backend.Order.Rollback.Plans.{
  among, sold_states, may_roll_back, plan_rollback, reversal_of, has_courier_cashbox,
  rolls_back_for_branch, post_courier_of,
}
use elchi_backend.Order.Rollback.Commit.{does_sale_reversal}

guard-true : (b : Bool) {u : Unit {0}} → guard b bad_request ≡ ok u → b ≡ true
guard-true true h = refl
guard-true false h = cc

-- What a planned rollback has passed.
pub plan_rollback-eq-ok :
    (x : RollbackLookups) (q : Requester) (o : Order) (settlement : Option SettlementStatus)
    (target : RollbackTarget) (r : Reversal)
    → plan_rollback x q o settlement target ≡ ok r
    → (may_roll_back q o target ≡ true)
      × (is_settled_to_hq settlement ≡ false)
      × (courier : ℕ) × (market : Actor) × (actor : Actor) × (r
          ≡ reversal_of x q o target courier market actor)
unfolding plan_rollback
plan_rollback-eq-ok x q o settlement target r h =
    let l = x.sale in
    let (_, allowed, h1) = >>=-eq-ok (guard (may_roll_back q o target) bad_request) _ h in
    let (_, unsettled, h2) =
      >>=-eq-ok (guard (not (is_settled_to_hq settlement)) bad_request) _ h1 in
    let (courier, _, h3) =
      >>=-eq-ok (resolve_actor_courier_id q o (post_courier_of l o.post_id)) _ h2 in
    let (market, _, h4) = >>=-eq-ok (or_throw (l.market_of o.market_id) not_found) _ h3 in
    let (actor, _, h5) =
      >>=-eq-ok
        (or_throw (if rolls_back_for_branch q then l.user_of q.key else l.courier_of courier)
          not_found)
        _ h4 in
    let (_, _, h6) = >>=-eq-ok (guard (is_some (l.market_balance o.market_id)) not_found) _ h5 in
    let (_, _, h7) =
      >>=-eq-ok (guard (has_courier_cashbox l q courier || rolls_back_for_branch q) not_found) _
        h6 in
    let (_, _, h8) =
      >>=-eq-ok (guard (not (rolls_back_for_branch q && not (is_some q.branch_id))) bad_request) _
        h7 in
    (
      guard-true (may_roll_back q o target) allowed,
      not-true _ (guard-true (not (is_settled_to_hq settlement)) unsettled),
      courier,
      market,
      actor,
      sym (ok-injective h8),
    )
  where
    not-true : (b : Bool) → not b ≡ true → b ≡ false
    not-true false h = refl
    not-true true h = cc

-- A rollback is planned with the reversal of a sale if and only if the order is in a status in which
-- the money of a sale has been posted; which legs are reversed depends on who rolls back. None is
-- planned when the money of the order has reached the head office.
pub plan_rollback-reverses :
    (x : RollbackLookups) (q : Requester) (o : Order) (settlement : Option SettlementStatus)
    (target : RollbackTarget) (r : Reversal)
    → plan_rollback x q o settlement target ≡ ok r
    → (does_sale_reversal r ≡ among sold_states o.status) × (is_settled_to_hq settlement ≡ false)
unfolding reversal_of may_roll_back
plan_rollback-reverses x q o settlement target r h =
    let (allowed, unsettled, courier, market, actor, e) =
      plan_rollback-eq-ok x q o settlement target r h in
    (
      ap does_sale_reversal e
          ∙ reversed q.is_super_admin o.status (and-right _ _ (and-left _ _ allowed)),
      unsettled,
    )
  where
    and-left : (a b : Bool) → a && b ≡ true → a ≡ true
    and-left a b h = ground arith

    and-right : (a b : Bool) → a && b ≡ true → b ≡ true
    and-right a b h = ground arith

    reversed :
        (b : Bool) (s : OrderStatus)
        → not (same_status s partly_paid && not b) ≡ true
        → among (sold ∷ paid ∷ []) s || (same_status s partly_paid && b) ≡ among sold_states s
    reversed b s h = ground arith
