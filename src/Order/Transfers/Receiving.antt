-- ===== src/Order/Transfers/Receiving.antt =====
-- A batch of orders arrives at a branch, or is cancelled: receiveBranchTransferBatch,
-- cancelBranchTransferBatch and cancelBranchTransferBatches of
-- apps/order-service/src/transfer-batch/branch-transfer-batch.service.ts.
use elchi_backend.Prelude.{
  ℕ, Bool, not, ◌&&◌, none, some, List, [], ◌∷◌, ◌++◌, map, ◌==◌, leb, if◌then◌else◌, opt_eq, any,
  filter, length, Text, trim,
}
use elchi_backend.Prelude.Results.{
  Result, ok, err, ◌>>=◌, ◌>>◌, guard, or_throw, bad_request, not_found,
}
use elchi_backend.Inputs.{IdArg, is_missing}
use elchi_backend.Store.{Table}
use elchi_backend.Order.Status.{OrderStatus, new, received as order_received}
use elchi_backend.Order.Transfers.{
  received, cancelled, is_forward, is_sent, is_open, Batch, BatchItem, Parcel, is_in, batch_key,
  status_changes, custody_changes, handed_over, Depot, is_batch, items_of, is_listed, is_local,
}

module _ (T : Table Batch Batch.key) (I : Table BatchItem BatchItem.key)
    (O : Table Parcel Parcel.key) where
  abbrev pub set_status : List ℕ → OrderStatus → O.State → O.State
  set_status ks status s = O.update s (is_listed ks) (λ o. record o { status = status })

  abbrev pub keys : List Parcel → List ℕ
  keys [] = []
  keys (o ∷ os) = o.key ∷ keys os

  -- The part of receiveBranchTransferBatch about the orders of a batch
  unfoldable pub receive_orders : Batch → List ℕ → ℕ → ℕ → Depot T I O → Depot T I O
  receive_orders b ks by now s =
      let loaded = O.find_by s.orders (is_listed ks) (λ o. 0) in
      let locals = filter (is_local b) loaded in
      let transit = filter (λ o. not (is_local b o)) loaded in
      record s {
        orders = set_status (keys transit) new (
            set_status (keys locals) order_received
              (O.update s.orders (is_listed ks) (handed_over b.destination_branch_id by now)));
        tracked =
            s.tracked ++ status_changes by order_received locals ++ status_changes by new transit;
        handovers = s.handovers ++ custody_changes by b.destination_branch_id loaded;
      }

  abbrev pub receive_listed : Batch → List ℕ → ℕ → ℕ → Depot T I O → Depot T I O
  receive_listed b [] by now s = s
  receive_listed b (k ∷ ks) by now s = receive_orders b (k ∷ ks) by now s

  abbrev pub mark_received : Batch → ℕ → ℕ → Depot T I O → Depot T I O
  mark_received b by now s = record s {
    batches =
        T.update s.batches (λ x. x.key == b.key)
          (λ x. record x {
            status = received;
            received_at = some now;
            received_by_user_id = some by;
          });
  }

  -- `receiveBranchTransferBatch`
  unfoldable pub receive_batch : IdArg → ℕ → ℕ → Depot T I O → Result (Depot T I O)
  unfolding receive_orders
  receive_batch batch_id by now s = do
    k ← batch_key batch_id
    b ← or_throw (T.find_one s.batches (is_batch k)) not_found
    guard (is_sent b.status) bad_request
    let ks = map (λ i. i.order_id) (items_of T I O b.key s.items)
    ok (receive_listed b ks by now (mark_received b by now s))

  -- `cancelBranchTransferBatch`
  unfoldable pub cancel_batch : IdArg → Text → ℕ → ℕ → Depot T I O → Result (Depot T I O)
  cancel_batch batch_id reason by now s = do
    guard (not (is_missing batch_id)) bad_request
    guard (leb 10 (length (trim reason))) bad_request
    k ← batch_key batch_id
    b ← or_throw (T.find_one s.batches (is_batch k)) not_found
    guard (is_open b.status) bad_request
    let bound = λ (o : Parcel). opt_eq o.current_batch_id (some b.key) && not o.is_deleted
    let loaded = O.find_by s.orders bound (λ o. 0)
    ok (record s {
      batches =
          T.update s.batches (λ x. x.key == b.key)
            (λ x. record x { status = cancelled; cancelled_at = some now });
      orders = O.update s.orders bound (λ o.
          if is_forward b.direction
          then record o { current_batch_id = none; status = new }
          else record o { current_batch_id = none });
      tracked =
          if is_forward b.direction then s.tracked ++ status_changes by new loaded else s.tracked;
    })

  -- `cancelBranchTransferBatches`
  unfoldable pub cancel_batches : List ℕ → Bool → ℕ → Depot T I O → Result (Depot T I O)
  cancel_batches [] remove_order_bindings now s = err bad_request
  cancel_batches (k ∷ ks) remove_order_bindings now s =
      let bound = λ (o : Parcel).
        any (λ j. opt_eq o.current_batch_id (some j)) (k ∷ ks) && not o.is_deleted in
      ok (record s {
        batches =
            T.update s.batches (λ x. is_in (k ∷ ks) x.key && not x.is_deleted)
              (λ x. record x { status = cancelled; cancelled_at = some now });
        orders =
            if remove_order_bindings
            then O.update s.orders bound (λ o. record o { current_batch_id = none })
            else s.orders;
      })
