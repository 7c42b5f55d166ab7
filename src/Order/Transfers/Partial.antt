-- ===== src/Order/Transfers/Partial.antt =====
-- A branch receives some orders of a batch: receiveBranchTransferBatchOrders of
-- apps/order-service/src/transfer-batch/branch-transfer-batch.service.ts, up to the commit of its
-- transaction. The new batch that it then asks for, for the orders that are left, is not modelled.
use elchi_backend.Prelude.{
  ℕ, true, not, ◌&&◌, none, some, List, [], ◌∷◌, ◌++◌, ◌==◌, if◌then◌else◌, is_some, filter, any,
  length,
}
use elchi_backend.Prelude.Results.{Result, ok, ◌>>=◌, ◌>>◌, guard, or_throw, bad_request, not_found}
use elchi_backend.Inputs.{IdArg, is_missing}
use elchi_backend.Store.{Table}
use elchi_backend.Order.Status.{new, received as order_received}
use elchi_backend.Order.Transfers.{
  received, is_forward, is_sent, Batch, BatchItem, Parcel, CustodyEvent, distinct, first_of, is_in,
  batch_key, sum_prices, status_changes, in_order, custody_changes, handed_over, Depot, is_batch,
  items_of, is_listed,
}
use elchi_backend.Order.Transfers.Sending.{ids_of}

-- The custody events of the named orders; an order that is deleted is held by nobody.
abbrev pub named_handovers : ℕ → ℕ → List ℕ → List Parcel → List CustodyEvent
named_handovers by to [] prior = []
named_handovers by to (k ∷ ks) prior = elim (first_of (filter (λ o. o.key == k) prior)) [
  | none ↦
      record {
        order_id = k;
        from_holder_type = none;
        from_branch_id = none;
        from_courier_id = none;
        to_branch_id = to;
        changed_by = by;
      }
      ∷ named_handovers by to ks prior
  | some o ↦ custody_changes by to (o ∷ []) ++ named_handovers by to ks prior
]

-- An order that is named, and one that is left
abbrev pub taken : Batch → ℕ → ℕ → Parcel → Parcel
taken b by now o = record (handed_over b.destination_branch_id by now o) { status = order_received }

abbrev pub released : Batch → Parcel → Parcel
released b o =
    if is_forward b.direction
    then record o { current_batch_id = none; status = new }
    else record o { current_batch_id = none }

module _ (T : Table Batch Batch.key) (I : Table BatchItem BatchItem.key)
    (O : Table Parcel Parcel.key) where
  abbrev pub named_items : ℕ → List ℕ → I.State → List BatchItem
  named_items k ks s =
      I.find_by s (λ i. (i.batch_id == k) && (not i.is_deleted && is_in ks i.order_id)) (λ i. 0)

  abbrev pub delete_items : ℕ → List ℕ → I.State → I.State
  delete_items k ks s =
      I.update s (λ i. (i.batch_id == k) && (not i.is_deleted && is_in ks i.order_id))
        (λ i. record i { is_deleted = true })

  unfoldable pub take_named : Batch → List ℕ → ℕ → ℕ → Depot T I O → Depot T I O
  take_named b ks by now s =
      let prior = O.find_by s.orders (is_listed ks) (λ o. 0) in
      record s {
        orders = O.update s.orders (is_listed ks) (taken b by now);
        tracked = s.tracked ++ status_changes by order_received (in_order ks prior);
        handovers = s.handovers ++ named_handovers by b.destination_branch_id ks prior;
        items = delete_items b.key ks s.items;
      }

  unfoldable pub release_rest : Batch → List ℕ → ℕ → Depot T I O → Depot T I O
  release_rest b [] by s = s
  release_rest b (k ∷ ks) by s =
      let prior = O.find_by s.orders (is_listed (k ∷ ks)) (λ o. 0) in
      record s {
        orders = O.update s.orders (is_listed (k ∷ ks)) (released b);
        tracked =
            if is_forward b.direction then s.tracked ++ status_changes by new prior else s.tracked;
        items = delete_items b.key (k ∷ ks) s.items;
      }

  abbrev pub mark_part : Batch → List BatchItem → ℕ → ℕ → Depot T I O → Depot T I O
  mark_part b selected by now s = record s {
    batches =
        T.update s.batches (λ x. x.key == b.key)
          (λ x. record x {
            order_count = length selected;
            total_price = sum_prices selected;
            status = received;
            received_at = some now;
            received_by_user_id = some by;
          });
  }

  -- The orders that are left in the batch once the named ones are out
  abbrev pub rest_of : Batch → List BatchItem → ℕ → ℕ → Depot T I O → List ℕ
  rest_of b selected by now s =
      ids_of T I O (items_of T I O b.key (delete_items b.key (ids_of T I O selected) s.items))

  abbrev pub received_part : Batch → List BatchItem → ℕ → ℕ → Depot T I O → Depot T I O
  received_part b selected by now s = mark_part b selected by now (
      release_rest b (rest_of b selected by now s) by
        (take_named b (ids_of T I O selected) by now s))

  -- The state after the commit, and the orders that are to be put in a new batch
  unfoldable pub receive_batch_orders :
      IdArg → List ℕ → ℕ → ℕ → Depot T I O → Result (Depot T I O × List ℕ)
  receive_batch_orders batch_id order_ids by now s = do
    guard (not (is_missing batch_id)) bad_request
    guard (is_some (first_of order_ids)) bad_request
    k ← batch_key batch_id
    b ← or_throw (T.find_one s.batches (is_batch k)) not_found
    guard (is_sent b.status) bad_request
    let ks = distinct order_ids
    let selected = named_items k ks s.items
    guard (is_some (first_of selected)) bad_request
    guard (not (any (λ j. not (is_in (ids_of T I O selected) j)) ks)) bad_request
    guard (not (any (λ i. not (is_some i.sent_at)) selected)) bad_request
    ok (received_part b selected by now s, rest_of b selected by now s)
