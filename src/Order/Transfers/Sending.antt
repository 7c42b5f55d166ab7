-- ===== src/Order/Transfers/Sending.antt =====
-- A branch sends a batch of orders, or some of them: sendBranchTransferBatch of
-- apps/order-service/src/transfer-batch/branch-transfer-batch.service.ts.
use elchi_backend.Prelude.{
  ℕ, false, not, ◌&&◌, none, some, List, [], ◌∷◌, ◌++◌, ◌==◌, if◌then◌else◌, opt_eq, is_some,
  filter, length,
}
use elchi_backend.Prelude.Results.{
  Result, ok, err, ◌>>=◌, ◌>>◌, guard, or_throw, bad_request, not_found,
}
use elchi_backend.Inputs.{is_missing}
use elchi_backend.Store.{Table}
use elchi_backend.Order.Status.{on_the_road}
use elchi_backend.Order.Transfers.{
  pending, sent, is_forward, is_open, Vehicle, Batch, BatchItem, Parcel, distinct, first_of,
  has_texts, trimmed, is_in, last_of, batch_key, sum_prices, status_changes, in_order, SendDto,
  Depot, is_batch, items_of, is_listed,
}

module _ (T : Table Batch Batch.key) (I : Table BatchItem BatchItem.key)
    (O : Table Parcel Parcel.key) where
  -- The items of a batch for the orders that are named, in their order; none if one is missing.
  abbrev pub items_named : List ℕ → List BatchItem → Result (List BatchItem)
  items_named [] items = ok []
  items_named (k ∷ ks) items = elim (last_of (filter (λ i. i.order_id == k) items)) [
    | none ↦ err bad_request
    | some i ↦ items_named ks items >>= λ rest. ok (i ∷ rest)
  ]

  abbrev pub unsent : List BatchItem → List BatchItem
  unsent = filter (λ i. not (is_some i.sent_at))

  abbrev pub ids_of : List BatchItem → List ℕ
  ids_of [] = []
  ids_of (i ∷ items) = i.order_id ∷ ids_of items

  abbrev pub item_keys : List BatchItem → List ℕ
  item_keys [] = []
  item_keys (i ∷ items) = i.key ∷ item_keys items

  -- The batch that takes the orders that leave a batch before the others
  abbrev pub split_batch : Batch → Vehicle → List BatchItem → ℕ → T.State → Batch
  split_batch b v marked now s = record b {
    key = T.next_key s;
    status = sent;
    order_count = length marked;
    total_price = sum_prices marked;
    vehicle = some v;
    sent_at = some now;
    received_at = none;
    received_by_user_id = none;
    cancelled_at = none;
    is_deleted = false;
  }

  -- The orders that are sent: those that are bound to the batch
  unfoldable pub send_orders : Batch → ℕ → List ℕ → O.State → O.State
  send_orders b sent_id ks s =
      O.update s (λ o. is_listed ks o && opt_eq o.current_batch_id (some b.key))
        (λ o.
          if is_forward b.direction
          then record o { current_batch_id = some sent_id; status = on_the_road }
          else record o { current_batch_id = some sent_id })

  -- Every item of the batch is sent, or else those that are sent move to a new batch.
  unfoldable pub split_or_send :
      Batch
      → Vehicle
      → List BatchItem
      → List BatchItem
      → ℕ
      → T.State
      → I.State
      → T.State × I.State × ℕ
  split_or_send b v marked refreshed now ts is =
      if is_some (first_of refreshed) && not (is_some (first_of (unsent refreshed)))
      then (
        T.update ts (λ x. x.key == b.key)
            (λ x. record x { status = sent; sent_at = some now; vehicle = some v }),
        is,
        b.key,
      )
      else let moved = split_batch b v marked now ts in
        (
          T.update (T.insert ts moved) (λ x. x.key == b.key)
              (λ x. record x {
                status = pending;
                sent_at = none;
                order_count = length (unsent refreshed);
                total_price = sum_prices (unsent refreshed);
                vehicle = none;
              }),
          I.update is
              (λ x. (x.batch_id == b.key) && is_in (ids_of marked) x.order_id && not x.is_deleted)
              (λ x. record x { batch_id = moved.key }),
          moved.key,
        )

  -- `save` of the marked items
  abbrev pub mark_items : List BatchItem → ℕ → I.State → I.State
  mark_items marked now is =
      I.update is (λ i. is_in (item_keys marked) i.key) (λ i. record i { sent_at = some now })

  -- What sendBranchTransferBatch writes once it has found the items to mark.
  unfoldable pub send_marked : Batch → SendDto → List BatchItem → ℕ → Depot T I O → Depot T I O
  unfolding send_orders split_or_send
  send_marked b dto marked now s =
      let is = mark_items marked now s.items in
      let (ts, is', sent_id) =
        split_or_send b (trimmed dto.vehicle) marked (items_of T I O b.key is) now s.batches is in
      let prior = O.find_by s.orders (is_listed (ids_of marked)) (λ o. 0) in
      record s {
        batches = ts;
        items = is';
        orders = send_orders b sent_id (ids_of marked) s.orders;
        tracked =
            if is_forward b.direction
            then s.tracked
              ++ status_changes dto.requester_id on_the_road (in_order (ids_of marked) prior)
            else s.tracked;
      }

  -- `sendBranchTransferBatch`
  unfoldable pub send_batch : SendDto → ℕ → Depot T I O → Result (Depot T I O)
  unfolding send_marked
  send_batch dto now s = do
    guard (not (is_missing dto.batch_id)) bad_request
    guard (is_some (first_of dto.order_ids)) bad_request
    guard (has_texts dto.vehicle) bad_request
    k ← batch_key dto.batch_id
    b ← or_throw (T.find_one s.batches (is_batch k)) not_found
    guard (is_open b.status) bad_request
    selected ← items_named (distinct dto.order_ids) (items_of T I O k s.items)
    let marked = unsent selected
    guard (is_some (first_of marked)) bad_request
    ok (send_marked b dto marked now s)
