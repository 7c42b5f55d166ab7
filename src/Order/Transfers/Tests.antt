-- ===== src/Order/Transfers/Tests.antt =====
-- The theorems about the batches of branches at a batch of two orders that leaves branch 1 for
-- branch 2, of which one is for the region of the batch and the other travels on.
use elchi_backend.Prelude.{
  ◌↔◌, ℕ, ◌≡◌, refl, inl, true, false, Option, none, some, [], ◌∷◌, map, ◌++◌, Occurs,
  IsDistinct-keyed, arith, codes, or_else,
}
use elchi_backend.Prelude.Int.{pos}
use elchi_backend.Prelude.Results.{ok, ok_or}
use elchi_backend.Prelude.Texts.{trim, is_space}
use elchi_backend.Inputs.{id}
use elchi_backend.Store.{Table}
use elchi_backend.Store.Memory.{memory, first}
use elchi_backend.Order.Status.{
  OrderStatus, new, on_the_road, received as order_received, cancelled as order_cancelled,
}
use elchi_backend.Order.Transfers.{
  is_in, forward, return, pending, sent, cancelled, branch, Vehicle, Batch, BatchItem, Parcel,
  SendDto, Depot, items_of,
}
use elchi_backend.Order.Transfers.Partial.{take_named, release_rest, receive_batch_orders}
use elchi_backend.Order.Transfers.Rests.{AreApart, IsLeft}
use elchi_backend.Order.Transfers.Parted.{parted, receive_batch_orders-parts}
use elchi_backend.Order.Transfers.Sending.{send_batch}
use elchi_backend.Order.Transfers.Receiving.{receive_batch, cancel_batch, cancel_batches}
use elchi_backend.Order.Transfers.Arrivals.{ended, HasOrderKeys, arrived, receive_batch-arrives}
use elchi_backend.Order.Transfers.Closing.{sends, done, step, Steps-keeps_closed}

abbrev batches : Table Batch Batch.key
batches = memory Batch Batch.key

abbrev items : Table BatchItem BatchItem.key
items = memory BatchItem BatchItem.key

abbrev orders : Table Parcel Parcel.key
orders = memory Parcel Parcel.key

abbrev car : Vehicle
car = record { plate = codes "01A"; driver = codes "Ali"; phone = codes "99" }

abbrev letter : Batch
letter = record {
  key = 7;
  source_branch_id = 1;
  destination_branch_id = 2;
  direction = forward;
  target_region_id = 5;
  status = pending;
  order_count = 2;
  total_price = pos 300;
  vehicle = none;
  sent_at = none;
  received_at = none;
  received_by_user_id = none;
  cancelled_at = none;
  is_deleted = false;
}

abbrev item : ℕ → ℕ → BatchItem
item k o = record {
  key = k;
  batch_id = 7;
  order_id = o;
  snapshot_price = pos 150;
  sent_at = none;
  is_deleted = false;
}

abbrev parcel : ℕ → ℕ → Parcel
parcel k region = record {
  key = k;
  status = new;
  region_id = some region;
  branch_id = some 1;
  current_batch_id = some 7;
  holder_type = some branch;
  holder_branch_id = some 1;
  holder_courier_id = none;
  last_handover_at = none;
  last_handover_by = none;
  is_deleted = false;
}

abbrev depot : Depot batches items orders
depot = record {
  batches = letter ∷ [];
  items = item 1 11 ∷ item 2 12 ∷ [];
  orders = parcel 11 5 ∷ parcel 12 6 ∷ [];
  tracked = [];
  handovers = [];
}

abbrev both : SendDto
both = record { batch_id = id 7; order_ids = 11 ∷ 12 ∷ []; vehicle = car; requester_id = 3 }

abbrev on_way : Depot batches items orders
on_way = ok_or depot (send_batch batches items orders both 100 depot)

abbrev sent_letter : Batch
sent_letter = record letter { status = sent; vehicle = some car; sent_at = some 100 }

statuses : map (λ o. o.status) on_way.orders ≡ on_the_road ∷ on_the_road ∷ []
unfolding send_batch trim is_space
statuses = refl

sent_batch : on_way.batches ≡ sent_letter ∷ []
unfolding send_batch trim is_space
sent_batch = refl

orders-HasOrderKeys : HasOrderKeys batches items orders on_way.orders
unfolding send_batch trim is_space
orders-HasOrderKeys =
    IsDistinct-keyed (λ o. o.key) on_way.orders ((λ e. omega (arith, e), tt), (tt, tt))

receive_batch-arrives_example :
    (t : Depot batches items orders) × (receive_batch batches items orders (id 7) 4 200 on_way
      ≡ ok t)
    × (t.batches ≡ map (ended 7 4 200) on_way.batches)
    × (t.orders
        ≡ map
            (arrived sent_letter
              (map (λ i. i.order_id) (items_of batches items orders 7 on_way.items))
              4
              200)
            on_way.orders)
unfolding send_batch trim is_space
receive_batch-arrives_example =
    receive_batch-arrives batches items orders 7 4 200 sent_letter on_way orders-HasOrderKeys refl
      refl

abbrev received_at_branch : Depot batches items orders
received_at_branch = ok_or depot (receive_batch batches items orders (id 7) 4 200 on_way)

abbrev received_letter : Batch
received_letter = or_else (first received_at_branch.batches (λ b. true)) letter

-- A second batch leaves after the first has arrived.
abbrev parcels : SendDto
parcels = record { batch_id = id 8; order_ids = 13 ∷ []; vehicle = car; requester_id = 3 }

abbrev two_batches : Depot batches items orders
two_batches = record received_at_branch {
  batches = received_at_branch.batches ++ record letter { key = 8 } ∷ [];
  items = received_at_branch.items ++ record (item 3 13) { batch_id = 8 } ∷ [];
}

abbrev second_sent : Depot batches items orders
second_sent = ok_or depot (send_batch batches items orders parcels 300 two_batches)

Steps-keeps_closed_example : Occurs received_letter second_sent.batches
unfolding send_batch receive_batch trim is_space
Steps-keeps_closed_example =
    Steps-keeps_closed batches items orders {s = two_batches} {t = second_sent} received_letter
      (IsDistinct-keyed (λ b. b.key) two_batches.batches ((λ e. omega (arith, e), tt), (tt, tt)))
      (step (sends parcels 300 refl) done) (inl refl) refl

-- Where an order stands
abbrev place : Parcel → OrderStatus × Option ℕ
place o = (o.status, o.current_batch_id)

-- cancelBranchTransferBatches cancels a batch that has been received.
cancelled_after_receipt :
    map
      (λ b. b.status)
      (ok_or depot
        (cancel_batches batches items orders (7 ∷ []) true 300 received_at_branch)).batches
    ≡ cancelled ∷ []
unfolding cancel_batches send_batch receive_batch trim is_space
cancelled_after_receipt = refl

-- It leaves the orders of a batch on its way on the road, in no batch.
left_on_the_road :
    map place (ok_or depot (cancel_batches batches items orders (7 ∷ []) true 300 on_way)).orders
    ≡ (on_the_road, none) ∷ (on_the_road, none) ∷ []
unfolding cancel_batches send_batch trim is_space
left_on_the_road = refl

-- cancelBranchTransferBatch makes them new again.
requeued :
    map place
      (ok_or depot
        (cancel_batch batches items orders (id 7) (codes "broken down") 3 300 on_way)).orders
    ≡ (new, none) ∷ (new, none) ∷ []
unfolding cancel_batch send_batch trim is_space
requeued = refl

-- Orders that were cancelled, on their way back to branch 2, which is in the region of one of them
abbrev returning : Depot batches items orders
returning = record depot {
  batches = record letter { direction = return } ∷ [];
  orders =
      record (parcel 11 5) { status = order_cancelled }
      ∷ record (parcel 12 6) { status = order_cancelled }
      ∷ [];
}

-- When the batch arrives, the cancelled orders become received and new.
revived :
    map place
      (ok_or depot (
        receive_batch batches items orders
          (id 7)
          4
          200
          (ok_or depot (send_batch batches items orders both 100 returning)))).orders
    ≡ (order_received, none) ∷ (new, none) ∷ []
unfolding receive_batch send_batch trim is_space
revived = refl

-- One of the two orders is received, and the other goes back.
receive_batch_orders-parts_example :
    AreApart (11 ∷ []) (12 ∷ [])
    × ((x : ℕ)
        → (is_in (12 ∷ []) x ≡ true) ↔ IsLeft batches items orders 7 (11 ∷ []) on_way.items x)
    × ((ok_or
          (depot, [])
          (receive_batch_orders batches items orders (id 7) (11 ∷ []) 4 200 on_way)).0.orders
        ≡ map (parted sent_letter (11 ∷ []) (12 ∷ []) 4 200) on_way.orders)
unfolding send_batch receive_batch_orders take_named release_rest trim is_space
receive_batch_orders-parts_example =
    receive_batch_orders-parts batches items orders 7 4 200 (11 ∷ []) (12 ∷ []) sent_letter on_way
      (ok_or (depot, [])
        (receive_batch_orders batches items orders (id 7) (11 ∷ []) 4 200 on_way)).0
      refl refl
