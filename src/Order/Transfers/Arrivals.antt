-- ===== src/Order/Transfers/Arrivals.antt =====
-- What receiveBranchTransferBatch makes of the orders.
use elchi_backend.Prelude.{
  none, arith, test→eq, eq→test, ℕ, ◌≡◌, refl, sym, ap, ◌∙◌, inl, inr, Bool, true, false, not, ◌&&◌,
  some, List, [], ◌∷◌, map, ◌==◌, if◌then◌else◌, filter, Bool-cases, Occurs, map_if, map_if-map,
  map_if-map_after,
}
use elchi_backend.Prelude.Results.{ok}
use elchi_backend.Inputs.{id}
use elchi_backend.Store.{Table}
use elchi_backend.Order.Status.{new, received as order_received}
use elchi_backend.Order.Transfers.{
  received, branch, Batch, BatchItem, Parcel, handed_over, Depot, is_in, is_batch, is_sent,
  items_of, is_listed, is_local,
}
use elchi_backend.Order.Transfers.Receiving.{
  keys, set_status, mark_received, receive_orders, receive_listed, receive_batch,
}

-- What becomes of an order when the branch receives a batch that lists these orders: one that is
-- listed is handed over to the branch, as received if its region is that of the batch, and as new
-- if it travels on.
abbrev pub arrived : Batch → List ℕ → ℕ → ℕ → Parcel → Parcel
arrived b ks by now o =
    if is_in ks o.key && not o.is_deleted
    then record o {
      status = if is_local b o then order_received else new;
      branch_id = some b.destination_branch_id;
      current_batch_id = none;
      holder_type = some branch;
      holder_branch_id = some b.destination_branch_id;
      holder_courier_id = none;
      last_handover_at = some now;
      last_handover_by = some by;
    }
    else o

-- What becomes of the batch itself.
abbrev pub ended : ℕ → ℕ → ℕ → Batch → Batch
ended k by now x =
    if x.key == k
    then record x { status = received; received_at = some now; received_by_user_id = some by }
    else x

lives : (m d p : Bool) → ((m && not d) && p) && not d ≡ (m && not d) && p
lives true true p = refl
lives true false true = refl
lives true false false = refl
lives false true p = refl
lives false false p = refl

module _ (T : Table Batch Batch.key) (I : Table BatchItem BatchItem.key)
    (O : Table Parcel Parcel.key) where
  -- No two orders have the same primary key.
  abbrev pub HasOrderKeys : O.State → Type 0
  HasOrderKeys s =
      (a b : Parcel) → Occurs a (O.rows s) → Occurs b (O.rows s) → a.key ≡ b.key → a ≡ b

  keys-Occurs :
      (os : List Parcel) (p : Parcel → Bool) (k : ℕ)
      → is_in (keys T I O (filter p os)) k ≡ true
      → (o : Parcel) × Occurs o os × (p o ≡ true) × (o.key ≡ k)
  keys-Occurs [] p k h = cc
  keys-Occurs (o ∷ os) p k h = elim (Bool-cases (p o)) [
    | inl t ↦ elim (Bool-cases (k == o.key)) [
      | inl same ↦ (o, inl refl, t, sym (test→eq k o.key same))
      | inr other ↦
          let (d, od, pd, kd) = keys-Occurs os p k (rw (t, other) at h) in (d, inr od, pd, kd)
    ]
    | inr t ↦ let (d, od, pd, kd) = keys-Occurs os p k (rw t at h) in (d, inr od, pd, kd)
  ]

  Occurs-keys :
      (os : List Parcel) (p : Parcel → Bool) (o : Parcel)
      → Occurs o os
      → p o ≡ true
      → is_in (keys T I O (filter p os)) o.key ≡ true
  Occurs-keys [] p o h t = elim h [ ]
  Occurs-keys (x ∷ os) p o (inl e) t = rw (← e, t, eq→test o.key o.key refl) refl
  Occurs-keys (x ∷ os) p o (inr h) t = elim (Bool-cases (p x)) [
    | inr n ↦ rw (n, Occurs-keys os p o h t) refl
    | inl y ↦ elim (Bool-cases (o.key == x.key)) [
      | inl same ↦ rw (y, same) refl
      | inr other ↦ rw (y, other, Occurs-keys os p o h t) refl
    ]
  ]

  module _ (s : O.State) (keyed : HasOrderKeys s) (q p : Parcel → Bool) where
    abbrev picked : List ℕ
    picked = keys T I O (filter p (O.find_by s q (λ o. 0)))

    -- An order is among those of the loaded orders that a test picks.
    is_in-picked : (o : Parcel) → Occurs o (O.rows s) → is_in picked o.key ≡ q o && p o
    is_in-picked o here = elim (Bool-cases (is_in picked o.key)) [
      | inl t ↦
          let (d, od, pd, kd) = keys-Occurs (O.find_by s q (λ x. 0)) p o.key t in
          let (row, qd) = O.find_by-Occurs s q (λ x. 0) d od in
          let same : d ≡ o = keyed d o row here kd in rw (t, ← same, qd, pd) refl
      | inr f ↦ elim (Bool-cases (q o)) [
        | inr nq ↦ rw (f, nq) refl
        | inl tq ↦ elim (Bool-cases (p o)) [
          | inr np ↦ rw (f, tq, np) refl
          | inl tp ↦
              (cc (
                Occurs-keys (O.find_by s q (λ x. 0)) p o (O.find_by-all s q (λ x. 0) o here tq) tp,
                f,
              ))
        ]
      ]
    ]

  module _ (s : O.State) (keyed : HasOrderKeys s) (b : Batch) (ks : List ℕ) (by now : ℕ) where
    abbrev at_branch : Parcel → Parcel
    at_branch o = if is_listed ks o then handed_over b.destination_branch_id by now o else o

    abbrev with_locals : Parcel → Parcel
    with_locals o =
        let x = at_branch o in
        if is_listed ks o && is_local b o then record x { status = order_received } else x

    abbrev locals : List ℕ
    locals = picked s keyed (is_listed ks) (is_local b)

    abbrev transit : List ℕ
    transit = picked s keyed (is_listed ks) (λ o. not (is_local b o))

    handed :
        O.rows (O.update s (is_listed ks) (handed_over b.destination_branch_id by now))
        ≡ map at_branch (O.rows s)
    handed =
        O.rows-update s (is_listed ks) (handed_over b.destination_branch_id by now)
        ∙ map_if-map (is_listed ks) (handed_over b.destination_branch_id by now) at_branch
            (O.rows s) (λ x o. refl)

    at_branch-place :
        (x : Parcel) → ((at_branch x).key ≡ x.key) × ((at_branch x).is_deleted ≡ x.is_deleted)
    at_branch-place x = elim (Bool-cases (is_listed ks x)) [
      | inl t ↦ rw t (refl, refl)
      | inr n ↦ rw n (refl, refl)
    ]

    with_locals-place :
        (x : Parcel) → ((with_locals x).key ≡ x.key) × ((with_locals x).is_deleted ≡ x.is_deleted)
    with_locals-place x = elim (Bool-cases (is_listed ks x && is_local b x)) [
      | inl t ↦ rw t (at_branch-place x)
      | inr n ↦ rw n (at_branch-place x)
    ]

    is_listed-picked :
        (p : Parcel → Bool) (x y : Parcel)
        → Occurs x (O.rows s)
        → y.key ≡ x.key
        → y.is_deleted ≡ x.is_deleted
        → is_listed (picked s keyed (is_listed ks) p) y ≡ is_listed ks x && p x
    is_listed-picked p x y here same_key same_mark =
        rw (same_key, same_mark, is_in-picked s keyed (is_listed ks) p x here)
          (lives (is_in ks x.key) x.is_deleted (p x))

    local_step :
        (x : Parcel)
        → Occurs x (O.rows s)
        → (if is_listed locals (at_branch x)
            then record (at_branch x) { status = order_received }
            else at_branch x)
          ≡ with_locals x
    local_step x here =
        rw
          (is_listed-picked (is_local b) x (at_branch x) here (at_branch-place x).0
            (at_branch-place x).1)
          refl

    transit_step :
        (x : Parcel)
        → Occurs x (O.rows s)
        → (if is_listed transit (with_locals x)
            then record (with_locals x) { status = new }
            else with_locals x)
          ≡ arrived b ks by now x
    transit_step x here =
        rw
          (is_listed-picked (λ o. not (is_local b o)) x (with_locals x) here (with_locals-place x).0
            (with_locals-place x).1)
          (elim (Bool-cases (is_listed ks x)) [
            | inr n ↦ rw n refl
            | inl t ↦ elim (Bool-cases (is_local b x)) [
              | inl l ↦ rw (t, l) refl
              | inr f ↦ rw (t, f) refl
            ]
          ])

    received_rows :
        O.rows (
          set_status T I O transit new (
            set_status T I O locals order_received
              (O.update s (is_listed ks) (handed_over b.destination_branch_id by now))))
        ≡ map (arrived b ks by now) (O.rows s)
    received_rows =
        O.rows-update _ (is_listed transit) (λ o. record o { status = new })
        ∙ ap (map_if (is_listed transit) (λ o. record o { status = new })) (
            O.rows-update _ (is_listed locals) (λ o. record o { status = order_received })
            ∙ ap (map_if (is_listed locals) (λ o. record o { status = order_received })) handed
            ∙ map_if-map_after (is_listed locals) (λ o. record o { status = order_received })
                at_branch with_locals (O.rows s) local_step)
        ∙ map_if-map_after (is_listed transit) (λ o. record o { status = new }) with_locals
            (arrived b ks by now) (O.rows s) transit_step

  map_same : (b : Batch) (by now : ℕ) (os : List Parcel) → os ≡ map (arrived b [] by now) os
  map_same b by now [] = refl
  map_same b by now (o ∷ os) = ap (λ rest. o ∷ rest) (map_same b by now os)

  receive_listed-rows :
      (b : Batch) (ks : List ℕ) (by now : ℕ) (s : Depot T I O)
      → HasOrderKeys s.orders
      → O.rows (receive_listed T I O b ks by now s).orders
        ≡ map (arrived b ks by now) (O.rows s.orders)
  unfolding receive_orders
  receive_listed-rows b [] by now s keyed = map_same b by now (O.rows s.orders)
  receive_listed-rows b (k ∷ ks) by now s keyed = received_rows s.orders keyed b (k ∷ ks) by now

  mark_received-rows :
      (b : Batch) (k by now : ℕ) (s : Depot T I O)
      → b.key ≡ k
      → T.rows (mark_received T I O b by now s).batches ≡ map (ended k by now) (T.rows s.batches)
  mark_received-rows b k by now s at_k =
      T.rows-update s.batches (λ x. x.key == b.key) _ ∙ rw at_k (ended_rows (T.rows s.batches))
    where
      ended_rows :
          (xs : List Batch)
          → map_if
              (λ x. x.key == k)
              (λ x. record x {
                status = received;
                received_at = some now;
                received_by_user_id = some by;
              })
              xs
            ≡ map (ended k by now) xs
      ended_rows [] = refl
      ended_rows (x ∷ xs) = ap (λ rest. ended k by now x ∷ rest) (ended_rows xs)

  receive_listed-batches :
      (b : Batch) (ks : List ℕ) (by now : ℕ) (s : Depot T I O)
      → (receive_listed T I O b ks by now s).batches ≡ s.batches
  unfolding receive_orders
  receive_listed-batches b [] by now s = refl
  receive_listed-batches b (k ∷ ks) by now s = refl

  key_of : (a d : Bool) → a && d ≡ true → a ≡ true
  key_of a d h = ground arith

  -- A batch that is on its way can be received. Its row is then received, at the time of the call and
  -- by its requester, and no other batch is changed. Every order of the table is then as if it alone
  -- had arrived: an order that the batch lists and that is not deleted is with the destination
  -- branch, in no batch and with no courier, as received if its region is that of the batch and as
  -- new otherwise, and all other orders are as before. The orders have primary keys.
  pub receive_batch-arrives :
      (k by now : ℕ) (b : Batch) (s : Depot T I O)
      → HasOrderKeys s.orders
      → T.find_one s.batches (is_batch k) ≡ some b
      → is_sent b.status ≡ true
      → (t : Depot T I O) × (receive_batch T I O (id k) by now s ≡ ok t)
        × (T.rows t.batches ≡ map (ended k by now) (T.rows s.batches))
        × (O.rows t.orders
            ≡ map
                (arrived b (map (λ i. i.order_id) (items_of T I O k s.items)) by now)
                (O.rows s.orders))
  unfolding receive_batch
  receive_batch-arrives k by now b s keyed found on_way =
      let at_k : b.key ≡ k = test→eq b.key k (
        key_of (b.key == k) (not b.is_deleted) (T.find_one-meets s.batches (is_batch k) b found)) in
      let ks = map (λ i. i.order_id) (items_of T I O b.key s.items) in
      (
        receive_listed T I O b ks by now (mark_received T I O b by now s),
        rw (found, on_way) refl,
        ap T.rows (receive_listed-batches b ks by now (mark_received T I O b by now s))
            ∙ mark_received-rows b k by now s at_k,
        receive_listed-rows b ks by now (mark_received T I O b by now s) keyed
            ∙ ap
                (λ j.
                  map (arrived b (map (λ i. i.order_id) (items_of T I O j s.items)) by now)
                    (O.rows s.orders))
                at_k,
      )
