-- ===== src/Order/Status/Graph.antt =====
-- What the transition table allows over whole histories of an order.
use elchi_backend.Prelude.{
  ◌≡◌, refl, ◌≢◌, inl, inr, true, false, List, [], ◌∷◌, arith, Occurs, sym, Bool-cases,
}
use elchi_backend.Order.Status.{
  OrderStatus, created, new, received, on_the_road, waiting, waiting_customer, sold, cancelled,
  returned_to_market, paid, partly_paid, cancelled_sent, closed, is_valid_status_transition,
  is_sold_state,
}

-- One legal status write.
abbrev pub Moves : OrderStatus → OrderStatus → Type 0
Moves a b = is_valid_status_transition a b ≡ true

-- A history of legal writes from one status to another, with the statuses that it goes through.
pub data History (a : OrderStatus) : OrderStatus → List OrderStatus → Type 0 where
  begin : History a a []
  write :
      {b c : OrderStatus} {trail : List OrderStatus}
      → History a b trail
      → Moves b c
      → History a c (b ∷ trail)

enters_sold_from :
    (b c : OrderStatus) → is_sold_state b ≡ false → is_sold_state c ≡ true → Moves b c → b ≡ waiting
unfolding is_valid_status_transition is_sold_state
enters_sold_from b c unsold is_sold move = ground arith

-- An order that starts unsold is in a sold state only after it has been waiting.
sold_needs_waiting :
    {a b : OrderStatus} {trail : List OrderStatus}
    → History a b trail
    → is_sold_state a ≡ false
    → is_sold_state b ≡ true
    → Occurs waiting trail
sold_needs_waiting begin start end = cc
sold_needs_waiting (write {b = b} {c = c} {trail = t} h move) start end =
    elim (Bool-cases (is_sold_state b)) [
      | inl was_sold ↦ inr (sold_needs_waiting h start was_sold)
      | inr unsold ↦ inl (sym (enters_sold_from b c unsold end move))
    ]

stays_returned : (c : OrderStatus) → Moves returned_to_market c → c ≡ returned_to_market
unfolding is_valid_status_transition
stays_returned c move = ground arith

-- No history leaves `returned_to_market`.
returned_is_final :
    {b : OrderStatus} {trail : List OrderStatus}
    → History returned_to_market b trail
    → b ≡ returned_to_market
returned_is_final begin = refl
returned_is_final (write {b = b} {c = c} h move) =
    let e = returned_is_final h in stays_returned c (rw e at move)

back_to_created : (b : OrderStatus) → Moves b created → b ≡ created
unfolding is_valid_status_transition
back_to_created b move = ground arith

-- No history enters `created` from another status.
created_is_initial :
    {a b : OrderStatus} {trail : List OrderStatus} → History a b trail → b ≡ created → a ≡ created
created_is_initial begin e = e
created_is_initial (write {b = b} h move) e =
    created_is_initial h (back_to_created b (rw e at move))

-- From every status but `returned_to_market` some history leads to `closed`.
closed_is_reachable :
    (a : OrderStatus) → a ≢ returned_to_market → (trail : List OrderStatus) × History a closed trail
unfolding is_valid_status_transition
closed_is_reachable created n = (cancelled ∷ created ∷ [], write (write begin refl) refl)
closed_is_reachable new n = (cancelled ∷ new ∷ [], write (write begin refl) refl)
closed_is_reachable received n = (cancelled ∷ received ∷ [], write (write begin refl) refl)
closed_is_reachable on_the_road n = (cancelled ∷ on_the_road ∷ [], write (write begin refl) refl)
closed_is_reachable waiting_customer n =
    (cancelled ∷ waiting_customer ∷ [], write (write begin refl) refl)
closed_is_reachable waiting n = (waiting ∷ [], write begin refl)
closed_is_reachable sold n = (sold ∷ [], write begin refl)
closed_is_reachable partly_paid n = (partly_paid ∷ [], write begin refl)
closed_is_reachable paid n = (paid ∷ [], write begin refl)
closed_is_reachable cancelled n = (cancelled ∷ [], write begin refl)
closed_is_reachable returned_to_market n = absurd (n refl)
closed_is_reachable cancelled_sent n = (cancelled_sent ∷ [], write begin refl)
closed_is_reachable closed n = ([], begin)
