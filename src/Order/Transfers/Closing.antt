-- ===== src/Order/Transfers/Closing.antt =====
-- The life of a batch: what sendBranchTransferBatch, receiveBranchTransferBatch,
-- receiveBranchTransferBatchOrders and cancelBranchTransferBatch make of the batches.
use elchi_backend.Prelude.{
  ap, any, ℕ, ◌≡◌, refl, inl, inr, Bool, true, false, not, ◌&&◌, List, is_some, leb, List, [], ◌∷◌,
  map, length, Text, trim, Bool-cases, Occurs, IsKeyed, Occurs-append_left,
}
use elchi_backend.Prelude.Results.{
  ok, guard, or_throw, bad_request, not_found, >>=-eq-ok, ok-injective, or_throw-eq-ok,
}
use elchi_backend.Inputs.{IdArg, is_missing}
use elchi_backend.Store.{Table}
use elchi_backend.Order.Transfers.{
  BatchStatus, pending, sent, received, cancelled, Batch, BatchItem, Parcel, Vehicle, SendDto,
  Depot, is_batch, is_in, is_sent, is_open, items_of, batch_key, first_of, has_texts, trimmed,
  distinct,
}
use elchi_backend.Order.Transfers.Receiving.{
  mark_received, receive_orders, receive_listed, receive_batch, cancel_batch,
}
use elchi_backend.Order.Transfers.Kept.{Keeps, update-Keeps, insert-Keeps, trans-Keeps}
use elchi_backend.Order.Transfers.Partial.{
  named_items, take_named, release_rest, rest_of, mark_part, receive_batch_orders,
}
use elchi_backend.Order.Transfers.Sending.{
  ids_of, items_named, unsent, split_batch, split_or_send, mark_items, send_marked, send_batch,
}

module _ (T : Table Batch Batch.key) (I : Table BatchItem BatchItem.key)
    (O : Table Parcel Parcel.key) where
  -- One call of the service that has succeeded
  pub data Step : Depot T I O → Depot T I O → Type 0 where
    sends :
        (dto : SendDto) (now : ℕ) {s t : Depot T I O} → send_batch T I O dto now s ≡ ok t → Step s t
    receives :
        (batch_id : IdArg) (by now : ℕ) {s t : Depot T I O}
        → receive_batch T I O batch_id by now s ≡ ok t
        → Step s t
    receives_some :
        (batch_id : IdArg) (ks : List ℕ) (by now : ℕ) (rest : List ℕ) {s t : Depot T I O}
        → receive_batch_orders T I O batch_id ks by now s ≡ ok (t, rest)
        → Step s t
    cancels :
        (batch_id : IdArg) (reason : Text) (by now : ℕ) {s t : Depot T I O}
        → cancel_batch T I O batch_id reason by now s ≡ ok t
        → Step s t

  -- Any number of calls
  pub data Steps : Depot T I O → Depot T I O → Type 0 where
    done : {s : Depot T I O} → Steps s s
    step : {s t u : Depot T I O} → Step s t → Steps t u → Steps s u

  split_or_send-Keeps :
      (b : Batch) (v : Vehicle) (marked refreshed : List BatchItem) (now : ℕ) (s : T.State)
      (is : I.State)
      → IsKeyed (λ x. x.key) (T.rows s)
      → Occurs b (T.rows s)
      → is_open b.status ≡ true
      → Keeps T s (split_or_send T I O b v marked refreshed now s is).0
  unfolding split_or_send
  split_or_send-Keeps b v marked refreshed now s is keyed here live =
      elim (Bool-cases
        (is_some (first_of refreshed) && not (is_some (first_of (unsent T I O refreshed))))) [
          | inl t ↦ rw t (update-Keeps T s keyed b _ here live (λ x. refl))
          | inr n ↦ rw n (
              let added = insert-Keeps T s keyed (split_batch T I O b v marked now s) refl in
              trans-Keeps T added
                (update-Keeps T _ added.keyed b _ (added_row s b _ here) live (λ x. refl)))
        ]
    where
      added_row :
          (s : T.State) (b m : Batch) → Occurs b (T.rows s) → Occurs b (T.rows (T.insert s m))
      added_row s b m o = rw (T.rows-insert s m) (Occurs-append_left (T.rows s) _ b o)

  guard-eq-ok : (test : Bool) (w : Unit {0}) → guard test bad_request ≡ ok w → test ≡ true
  guard-eq-ok false w h = cc
  guard-eq-ok true w h = refl

  is_open-is_sent : (status : BatchStatus) → is_sent status ≡ true → is_open status ≡ true
  is_open-is_sent pending h = refl
  is_open-is_sent sent h = refl
  is_open-is_sent received h = cc
  is_open-is_sent cancelled h = cc

  found-Occurs :
      (s : T.State) (k : ℕ) (b : Batch)
      → or_throw (T.find_one s (is_batch k)) not_found ≡ ok b
      → Occurs b (T.rows s)
  found-Occurs s k b h = T.find_one-Occurs s (is_batch k) b (or_throw-eq-ok _ not_found b h)

  ok-Keeps :
      (s : T.State) (t u : Depot T I O) → Keeps T s t.batches → ok t ≡ ok u → Keeps T s u.batches
  ok-Keeps s t u h e = rw (← ok-injective e) h

  module _ (s : Depot T I O) (keyed : IsKeyed (λ b. b.key) (T.rows s.batches)) where
    send_marked-Keeps :
        (b : Batch) (dto : SendDto) (marked : List BatchItem) (now : ℕ)
        → Occurs b (T.rows s.batches)
        → is_open b.status ≡ true
        → Keeps T s.batches (send_marked T I O b dto marked now s).batches
    unfolding send_marked
    send_marked-Keeps b dto marked now here live =
        split_or_send-Keeps b (trimmed dto.vehicle) marked
          (items_of T I O b.key (mark_items T I O marked now s.items)) now s.batches
          (mark_items T I O marked now s.items) keyed here live

    receive_listed-Keeps :
        (b : Batch) (ks : List ℕ) (by now : ℕ)
        → Occurs b (T.rows s.batches)
        → is_open b.status ≡ true
        → Keeps T s.batches
            (receive_listed T I O b ks by now (mark_received T I O b by now s)).batches
    unfolding receive_orders
    receive_listed-Keeps b [] by now here live =
        update-Keeps T s.batches keyed b _ here live (λ x. refl)
    receive_listed-Keeps b (k ∷ ks) by now here live =
        update-Keeps T s.batches keyed b _ here live (λ x. refl)

    receive_batch-Keeps :
        (batch_id : IdArg) (by now : ℕ) (t : Depot T I O)
        → receive_batch T I O batch_id by now s ≡ ok t
        → Keeps T s.batches t.batches
    unfolding receive_batch
    receive_batch-Keeps batch_id by now t h =
        let (k, _, h1) = >>=-eq-ok (batch_key batch_id) _ h in
        let (b, got, h2) =
          >>=-eq-ok (or_throw (T.find_one s.batches (is_batch k)) not_found) _ h1 in
        let (w, on_way, h3) = >>=-eq-ok (guard (is_sent b.status) bad_request) _ h2 in
        ok-Keeps s.batches _ t
          (receive_listed-Keeps b (map (λ i. i.order_id) (items_of T I O b.key s.items)) by now
            (found-Occurs s.batches k b got)
            (is_open-is_sent b.status (guard-eq-ok (is_sent b.status) w on_way)))
          h3

    received_part-Keeps :
        (b : Batch) (selected : List BatchItem) (rest : List ℕ) (by now : ℕ)
        → Occurs b (T.rows s.batches)
        → is_open b.status ≡ true
        → Keeps T s.batches
            (mark_part T I O b selected by now (
              release_rest T I O b rest by
                (take_named T I O b (ids_of T I O selected) by now s))).batches
    unfolding take_named release_rest
    received_part-Keeps b selected [] by now here live =
        update-Keeps T s.batches keyed b _ here live (λ x. refl)
    received_part-Keeps b selected (k ∷ rest) by now here live =
        update-Keeps T s.batches keyed b _ here live (λ x. refl)

    ok-Keeps_pair :
        (p : Depot T I O × List ℕ) (u : Depot T I O) (rest : List ℕ)
        → Keeps T s.batches p.0.batches
        → ok p ≡ ok (u, rest)
        → Keeps T s.batches u.batches
    ok-Keeps_pair p u rest h e = rw (← ap (λ q. q.0) (ok-injective e)) h

    receive_batch_orders-Keeps :
        (batch_id : IdArg) (ks : List ℕ) (by now : ℕ) (rest : List ℕ) (t : Depot T I O)
        → receive_batch_orders T I O batch_id ks by now s ≡ ok (t, rest)
        → Keeps T s.batches t.batches
    unfolding receive_batch_orders
    receive_batch_orders-Keeps batch_id ks by now rest t h =
        let (_, _, h1) = >>=-eq-ok (guard (not (is_missing batch_id)) bad_request) _ h in
        let (_, _, h2) = >>=-eq-ok (guard (is_some (first_of ks)) bad_request) _ h1 in
        let (k, _, h3) = >>=-eq-ok (batch_key batch_id) _ h2 in
        let (b, got, h4) =
          >>=-eq-ok (or_throw (T.find_one s.batches (is_batch k)) not_found) _ h3 in
        let (w, on_way, h5) = >>=-eq-ok (guard (is_sent b.status) bad_request) _ h4 in
        let selected = named_items T I O k (distinct ks) s.items in
        let (_, _, h6) = >>=-eq-ok (guard (is_some (first_of selected)) bad_request) _ h5 in
        let (_, _, h7) =
          >>=-eq-ok
            (guard (not (any (λ j. not (is_in (ids_of T I O selected) j)) (distinct ks)))
              bad_request)
            _ h6 in
        let (_, _, h8) =
          >>=-eq-ok (guard (not (any (λ i. not (is_some i.sent_at)) selected)) bad_request) _ h7 in
        ok-Keeps_pair _ t rest
          (received_part-Keeps b selected (rest_of T I O b selected by now s) by now
            (found-Occurs s.batches k b got)
            (is_open-is_sent b.status (guard-eq-ok (is_sent b.status) w on_way)))
          h8

    cancel_batch-Keeps :
        (batch_id : IdArg) (reason : Text) (by now : ℕ) (t : Depot T I O)
        → cancel_batch T I O batch_id reason by now s ≡ ok t
        → Keeps T s.batches t.batches
    unfolding cancel_batch
    cancel_batch-Keeps batch_id reason by now t h =
        let (_, _, h1) = >>=-eq-ok (guard (not (is_missing batch_id)) bad_request) _ h in
        let (_, _, h2) = >>=-eq-ok (guard (leb 10 (length (trim reason))) bad_request) _ h1 in
        let (k, _, h3) = >>=-eq-ok (batch_key batch_id) _ h2 in
        let (b, got, h4) =
          >>=-eq-ok (or_throw (T.find_one s.batches (is_batch k)) not_found) _ h3 in
        let (w, live, h5) = >>=-eq-ok (guard (is_open b.status) bad_request) _ h4 in
        ok-Keeps s.batches _ t
          (update-Keeps T s.batches keyed b _ (found-Occurs s.batches k b got)
            (guard-eq-ok (is_open b.status) w live) (λ x. refl))
          h5

    send_batch-Keeps :
        (dto : SendDto) (now : ℕ) (t : Depot T I O)
        → send_batch T I O dto now s ≡ ok t
        → Keeps T s.batches t.batches
    unfolding send_batch
    send_batch-Keeps dto now t h =
        let (_, _, h1) = >>=-eq-ok (guard (not (is_missing dto.batch_id)) bad_request) _ h in
        let (_, _, h2) = >>=-eq-ok (guard (is_some (first_of dto.order_ids)) bad_request) _ h1 in
        let (_, _, h3) = >>=-eq-ok (guard (has_texts dto.vehicle) bad_request) _ h2 in
        let (k, _, h4) = >>=-eq-ok (batch_key dto.batch_id) _ h3 in
        let (b, got, h5) =
          >>=-eq-ok (or_throw (T.find_one s.batches (is_batch k)) not_found) _ h4 in
        let (w, live, h6) = >>=-eq-ok (guard (is_open b.status) bad_request) _ h5 in
        let (selected, _, h7) =
          >>=-eq-ok (items_named T I O (distinct dto.order_ids) (items_of T I O k s.items)) _ h6 in
        let (_, _, h8) =
          >>=-eq-ok (guard (is_some (first_of (unsent T I O selected))) bad_request) _ h7 in
        ok-Keeps s.batches _ t
          (send_marked-Keeps b dto (unsent T I O selected) now (found-Occurs s.batches k b got)
            (guard-eq-ok (is_open b.status) w live))
          h8

    Step-Keeps : {t : Depot T I O} → Step s t → Keeps T s.batches t.batches
    Step-Keeps {t} (sends dto now h) = send_batch-Keeps dto now t h
    Step-Keeps {t} (receives batch_id by now h) = receive_batch-Keeps batch_id by now t h
    Step-Keeps {t} (receives_some batch_id ks by now rest h) =
        receive_batch_orders-Keeps batch_id ks by now rest t h
    Step-Keeps {t} (cancels batch_id reason by now h) =
        cancel_batch-Keeps batch_id reason by now t h

  -- A batch that is received or cancelled stays as it is, in all columns, through any number of
  -- successful calls of sendBranchTransferBatch, receiveBranchTransferBatch,
  -- receiveBranchTransferBatchOrders and cancelBranchTransferBatch on any batches, if no two batches have the same primary key.
  pub Steps-keeps_closed :
      {s t : Depot T I O} (c : Batch)
      → IsKeyed (λ b. b.key) (T.rows s.batches)
      → Steps s t
      → Occurs c (T.rows s.batches)
      → is_open c.status ≡ false
      → Occurs c (T.rows t.batches)
  Steps-keeps_closed c keyed done here closed = here
  Steps-keeps_closed c keyed (step first rest) here closed =
      let kept = Step-Keeps _ keyed first in
      Steps-keeps_closed c kept.keyed rest (kept.stays c here closed) closed
