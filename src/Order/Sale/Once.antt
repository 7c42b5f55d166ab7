-- ===== src/Order/Sale/Once.antt =====
-- An order is sold once, however calls interleave.
use elchi_backend.Prelude.{
  ℕ, ◌≡◌, refl, sym, ap, inl, inr, true, false, Option, none, some, List, ◌==◌, Option-cases,
  Occurs, Occurs-map_if, Text, arith,
}
use elchi_backend.Prelude.Int.{ℤ}
use elchi_backend.Prelude.Results.{ok, err, ◌>>=◌, guard, bad_request, >>=-eq-ok, ok-injective}
use elchi_backend.Store.{Table}
use elchi_backend.Common.Outbox.{OutboxEvent}
use elchi_backend.Order.Status.{
  OrderStatus, waiting, is_sold_state, same_status, is_valid_status_transition,
}
use elchi_backend.Order.Money.{SalePayment, sale_payment}
use elchi_backend.Order.Settlement.{OrderSettlement}
use elchi_backend.Order.Sale.{Order, Requester, Lookups, SellDto, FinanceEvent, Plan, amounts_of}
use elchi_backend.Order.Sale.Plans.{plan_sale, quote_sale}
use elchi_backend.Order.Sale.Commit.{
  find_by_id, Desk, lock_waiting_order, sold_order, committed, commit_sale,
}

pub sale_payment-is_sold_state :
    (net : ℤ) (requested : Option ℤ) (balance : ℤ) (p : SalePayment)
    → sale_payment net requested balance ≡ ok p
    → is_sold_state p.next_status ≡ true
unfolding sale_payment is_sold_state
sale_payment-is_sold_state net none balance p h = cc
sale_payment-is_sold_state net (some r) balance p h = ground arith

pub not_waiting : (a : OrderStatus) → is_sold_state a ≡ true → same_status a waiting ≡ false
unfolding is_sold_state
not_waiting a h = ground arith

-- The plan of a sale carries the payment that `sale_payment` has accepted.
pub plan_sale-payment :
    (l : Lookups) (q : Requester) (o : Order) (dto : SellDto) (p : Plan)
    → plan_sale l q o dto ≡ ok p
    → (quote_sale l q o dto ≡ ok p.quote)
      × (sale_payment (amounts_of p.quote).market_income p.quote.requested p.quote.market_balance
          ≡ ok p.payment)
unfolding plan_sale
plan_sale-payment l q o dto p h =
    let (quote, quoted, h1) =
      >>=-eq-ok (quote_sale l q o dto)
        (λ c. sale_payment (amounts_of c).market_income c.requested c.market_balance >>= λ x.
          ok (record { quote = c; payment = x }))
        h in
    let (payment, accepted, h2) =
      >>=-eq-ok (sale_payment (amounts_of quote).market_income quote.requested quote.market_balance)
        (λ x. ok (record { quote = quote; payment = x })) h1 in
    rw (← ok-injective h2) (quoted, accepted)

module _ (R : Table Order Order.key) (T : Table OrderSettlement OrderSettlement.key)
    (O : Table (OutboxEvent FinanceEvent) OutboxEvent.key) where
  pub lock_waiting_order-refused :
      (k : ℕ) (s : R.State)
      → ((o : Order)
          → Occurs o (R.rows s)
          → (o.key == k) ≡ true
          → same_status o.status waiting ≡ false)
      → lock_waiting_order R T O k s ≡ err bad_request
  unfolding lock_waiting_order
  lock_waiting_order-refused k s h = elim (Option-cases (R.find_one s (λ o. o.key == k))) [
    | inl gone ↦ rw (lock_waiting_order, gone) refl
    | inr (o, e) ↦
        rw
          (
            lock_waiting_order,
            e,
            h o (R.find_one-Occurs s (λ x. x.key == k) o e)
                (R.find_one-meets s (λ x. x.key == k) o e),
          )
          refl
  ]

  -- After the update of a sale every row with the key of the order is the sold order.
  pub update-is_sold_state :
      (k : ℕ) (c : Order) (s : R.State) (o : Order)
      → is_sold_state c.status ≡ true
      → Occurs o (R.rows (R.update s (λ r. r.key == k) (λ r. c)))
      → (o.key == k) ≡ true
      → is_sold_state o.status ≡ true
  update-is_sold_state k c s o sold_c oc same =
      elim (Occurs-map_if (λ r. r.key == k) (λ r. c) (R.rows s) o
        (rw (R.rows-update s (λ r. r.key == k) (λ r. c)) at oc)) [
          | inl (x, _, _, e) ↦ rw e sold_c
          | inr (_, other) ↦ (cc (other, same))
        ]

  -- What a committed sale has done to the orders.
  pub commit_sale-orders :
      (p : Plan) (epoch : Text) (uuids : List Text) (now : ℕ) (s s' : Desk R T O)
      → commit_sale R T O p epoch uuids now s ≡ ok s'
      → (o : Order) × (s'.orders
          ≡ R.update s.orders (λ r. r.key == p.quote.order.key) (λ r. sold_order p now o))
  unfolding commit_sale committed
  commit_sale-orders p epoch uuids now s s' done =
      let (locked, _, h1) =
        >>=-eq-ok (lock_waiting_order R T O p.quote.order.key s.orders) _ done in
      let (o, _, h2) = >>=-eq-ok (find_by_id R p.quote.order.key s.orders) _ h1 in
      let (_, _, h3) =
        >>=-eq-ok
          (guard (is_valid_status_transition o.status (sold_order p now o).status) bad_request) _
          h2 in
      (o, sym (ap (λ d. d.orders) (ok-injective h3)))

  -- Once a planned sale is committed, every plan for the same order is refused as a bad request,
  -- whatever it was read from.
  pub commit_sale-once :
      (l : Lookups) (q : Requester) (o : Order) (dto : SellDto) (p : Plan) (epoch : Text)
      (uuids : List Text) (now : ℕ) (s s' : Desk R T O)
      → plan_sale l q o dto ≡ ok p
      → commit_sale R T O p epoch uuids now s ≡ ok s'
      → (p' : Plan) (epoch' : Text) (uuids' : List Text) (now' : ℕ)
      → p'.quote.order.key ≡ p.quote.order.key
      → commit_sale R T O p' epoch' uuids' now' s' ≡ err bad_request
  unfolding commit_sale sold_order
  commit_sale-once l q o dto p epoch uuids now s s' planned done p' epoch' uuids' now' same =
      let (locked, e) = commit_sale-orders p epoch uuids now s s' done in
      let sold_p =
        sale_payment-is_sold_state (amounts_of p.quote).market_income p.quote.requested
          p.quote.market_balance p.payment (plan_sale-payment l q o dto p planned).1 in
      rw
        (
          commit_sale,
          same,
          lock_waiting_order-refused p.quote.order.key s'.orders (
              rw e (λ x ox kx. not_waiting x.status (
                update-is_sold_state p.quote.order.key (sold_order p now locked) s.orders x sold_p
                  ox kx))),
        )
        refl
