-- ===== src/Order/Status.antt =====
-- The life cycle of an order (apps/order-service/src/domain/order-status.machine.ts): which status
-- may follow which.
pub mod Graph
use elchi_backend.Prelude.{ℕ, Bool, true, false, List, [], ◌∷◌, ◌==◌, if◌then◌else◌, any}

-- `Order_status` of libs/common/enums/index.ts
pub data OrderStatus : Type 0 where
  created new received on_the_road waiting waiting_customer sold cancelled returned_to_market paid
        partly_paid cancelled_sent closed :
      OrderStatus

abbrev pub OrderStatus_code : OrderStatus → ℕ
OrderStatus_code created = 0
OrderStatus_code new = 1
OrderStatus_code received = 2
OrderStatus_code on_the_road = 3
OrderStatus_code waiting = 4
OrderStatus_code waiting_customer = 5
OrderStatus_code sold = 6
OrderStatus_code cancelled = 7
OrderStatus_code returned_to_market = 8
OrderStatus_code paid = 9
OrderStatus_code partly_paid = 10
OrderStatus_code cancelled_sent = 11
OrderStatus_code closed = 12

-- `a === b`
abbrev pub same_status : OrderStatus → OrderStatus → Bool
same_status a b = OrderStatus_code a == OrderStatus_code b

-- `ORDER_STATUS_TRANSITIONS`
unfoldable pub order_status_transitions : OrderStatus → List OrderStatus
order_status_transitions created = new ∷ received ∷ cancelled ∷ []
order_status_transitions new = received ∷ cancelled ∷ []
order_status_transitions received = on_the_road ∷ waiting ∷ cancelled ∷ []
order_status_transitions on_the_road = waiting ∷ waiting_customer ∷ cancelled ∷ []
order_status_transitions waiting_customer =
    on_the_road ∷ waiting ∷ returned_to_market ∷ cancelled ∷ []
order_status_transitions waiting =
    on_the_road ∷ sold ∷ partly_paid ∷ paid ∷ cancelled ∷ returned_to_market ∷ closed ∷ []
order_status_transitions sold = paid ∷ waiting ∷ closed ∷ []
order_status_transitions partly_paid = paid ∷ waiting ∷ closed ∷ []
order_status_transitions paid = waiting ∷ closed ∷ []
order_status_transitions cancelled = waiting ∷ cancelled_sent ∷ closed ∷ []
order_status_transitions returned_to_market = []
order_status_transitions cancelled_sent = cancelled ∷ closed ∷ []
order_status_transitions closed = waiting ∷ []

-- `isValidStatusTransition`
unfoldable pub is_valid_status_transition : OrderStatus → OrderStatus → Bool
unfolding order_status_transitions
is_valid_status_transition from to =
    if same_status from to
    then true
    else any (λ s. same_status s to) (order_status_transitions from)

-- `mapInitialStatusForTracking`
unfoldable pub map_initial_status_for_tracking : OrderStatus → OrderStatus
map_initial_status_for_tracking status = if same_status status new then created else status

-- The statuses in which the money of a sale has been posted: `soldStates` of
-- `enqueueFinanceOnStatusChange`.
unfoldable pub is_sold_state : OrderStatus → Bool
is_sold_state status = any (λ s. same_status s status) (sold ∷ paid ∷ partly_paid ∷ [])
