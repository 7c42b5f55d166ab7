-- ===== src/Order/Cancel/Exclusive.antt =====
-- An order is sold or cancelled, not both.
use elchi_backend.Prelude.{
  ℕ, ◌≡◌, refl, sym, ap, ◌∙◌, inl, inr, true, false, List, ◌==◌, Occurs, Occurs-map_if, Text,
}
use elchi_backend.Prelude.Results.{ok, err, guard, bad_request, >>=-eq-ok, ok-injective}
use elchi_backend.Store.{Table}
use elchi_backend.Common.Outbox.{OutboxEvent}
use elchi_backend.Order.Status.{waiting, same_status, is_valid_status_transition}
use elchi_backend.Order.Settlement.{OrderSettlement}
use elchi_backend.Order.Sale.{Order, Requester, Lookups, SellDto, FinanceEvent, Plan, amounts_of}
use elchi_backend.Order.Sale.Plans.{plan_sale}
use elchi_backend.Order.Sale.Commit.{Desk, commit_sale, lock_waiting_order, find_by_id, sold_order}
use elchi_backend.Order.Sale.Once.{
  lock_waiting_order-refused, commit_sale-orders, not_waiting, sale_payment-is_sold_state,
  plan_sale-payment,
}
use elchi_backend.Order.Cancel.{CancelPlan, cancelled_order, commit_cancel}

module _ (R : Table Order Order.key) (T : Table OrderSettlement OrderSettlement.key)
    (O : Table (OutboxEvent FinanceEvent) OutboxEvent.key) where
  -- What a committed cancellation has done to the orders.
  commit_cancel-orders :
      (p : CancelPlan) (epoch : Text) (uuids : List Text) (now : ℕ) (s s' : Desk R T O)
      → commit_cancel R T O p epoch uuids now s ≡ ok s'
      → (o : Order) × (s'.orders
          ≡ R.update s.orders (λ r. r.key == p.order.key) (λ r. cancelled_order p o))
  unfolding commit_cancel
  commit_cancel-orders p epoch uuids now s s' done =
      let (locked, _, h1) = >>=-eq-ok (lock_waiting_order R T O p.order.key s.orders) _ done in
      let (o, _, h2) = >>=-eq-ok (find_by_id R p.order.key s.orders) _ h1 in
      let (_, _, h3) =
        >>=-eq-ok
          (guard (is_valid_status_transition o.status (cancelled_order p o).status) bad_request) _
          h2 in
      (o, sym (ap (λ d. d.orders) (ok-injective h3)))

  -- After an update that leaves every row of a key with a status that is not waiting, no row of the
  -- key waits.
  update-not-waiting :
      (k : ℕ) (c : Order) (s : R.State) (o : Order)
      → same_status c.status waiting ≡ false
      → Occurs o (R.rows (R.update s (λ r. r.key == k) (λ r. c)))
      → (o.key == k) ≡ true
      → same_status o.status waiting ≡ false
  update-not-waiting k c s o closed oc same =
      elim (Occurs-map_if (λ r. r.key == k) (λ r. c) (R.rows s) o
        (rw (R.rows-update s (λ r. r.key == k) (λ r. c)) at oc)) [
          | inl (x, _, _, e) ↦ ap (λ z. same_status z.status waiting) e ∙ closed
          | inr (_, other) ↦ (cc (other, same))
        ]

  cancelled-refused :
      (p : CancelPlan) (epoch : Text) (uuids : List Text) (now : ℕ) (s s' : Desk R T O)
      → commit_cancel R T O p epoch uuids now s ≡ ok s'
      → lock_waiting_order R T O p.order.key s'.orders ≡ err bad_request
  unfolding cancelled_order
  cancelled-refused p epoch uuids now s s' done =
      let (o, e) = commit_cancel-orders p epoch uuids now s s' done in
      lock_waiting_order-refused R T O p.order.key s'.orders (
        rw e
          (λ x ox kx. update-not-waiting p.order.key (cancelled_order p o) s.orders x refl ox kx))

  -- Once a cancellation of an order is committed, every plan for the same order, of a sale or of a
  -- cancellation, is refused as a bad request.
  pub commit_cancel-final :
      (p : CancelPlan) (epoch : Text) (uuids : List Text) (now : ℕ) (s s' : Desk R T O)
      → commit_cancel R T O p epoch uuids now s ≡ ok s'
      → (sale : Plan) (p' : CancelPlan) (epoch' : Text) (uuids' : List Text) (now' : ℕ)
      → sale.quote.order.key ≡ p.order.key
      → p'.order.key ≡ p.order.key
      → (commit_sale R T O sale epoch' uuids' now' s' ≡ err bad_request)
        × (commit_cancel R T O p' epoch' uuids' now' s' ≡ err bad_request)
  unfolding commit_cancel commit_sale
  commit_cancel-final p epoch uuids now s s' done sale p' epoch' uuids' now' same same' =
      let refused = cancelled-refused p epoch uuids now s s' done in
      (rw (commit_sale, same, refused) refl, rw (commit_cancel, same', refused) refl)

  -- Once a planned sale is committed, every cancellation of the same order is refused as a bad
  -- request.
  pub commit_sale-excludes-commit_cancel :
      (l : Lookups) (q : Requester) (o : Order) (dto : SellDto) (p : Plan) (epoch : Text)
      (uuids : List Text) (now : ℕ) (s s' : Desk R T O)
      → plan_sale l q o dto ≡ ok p
      → commit_sale R T O p epoch uuids now s ≡ ok s'
      → (p' : CancelPlan) (epoch' : Text) (uuids' : List Text) (now' : ℕ)
      → p'.order.key ≡ p.quote.order.key
      → commit_cancel R T O p' epoch' uuids' now' s' ≡ err bad_request
  unfolding commit_cancel sold_order
  commit_sale-excludes-commit_cancel l q o dto p epoch uuids now s s' planned done p' epoch' uuids'
        now' same =
      let (locked, e) = commit_sale-orders R T O p epoch uuids now s s' done in
      let sold_p =
        sale_payment-is_sold_state (amounts_of p.quote).market_income p.quote.requested
          p.quote.market_balance p.payment (plan_sale-payment l q o dto p planned).1 in
      let refused = lock_waiting_order-refused R T O p.quote.order.key s'.orders (
        rw e (λ x ox kx.
          update-not-waiting p.quote.order.key (sold_order p now locked) s.orders x
            (not_waiting p.payment.next_status sold_p) ox kx)) in
      rw (commit_cancel, same, refused) refl
