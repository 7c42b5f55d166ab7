-- ===== src/Order/Transfers/Parted.antt =====
-- What receiveBranchTransferBatchOrders makes of the orders.
use elchi_backend.Prelude.{
  ◌↔◌, none, ℕ, ◌≡◌, refl, ap, ◌∙◌, inl, inr, Bool, true, false, not, ◌&&◌, some, List, [], ◌∷◌,
  map, if◌then◌else◌, any, is_some, Bool-cases, map_if, map_if-map, map_if-map_after,
}
use elchi_backend.Prelude.Results.{ok, guard, bad_request, >>=-eq-ok, ok-injective}
use elchi_backend.Inputs.{id}
use elchi_backend.Store.{Table}
use elchi_backend.Order.Status.{new, received as order_received}
use elchi_backend.Order.Transfers.{
  branch, is_forward, Batch, BatchItem, Parcel, Depot, is_in, is_batch, is_sent, is_listed,
  distinct, first_of,
}
use elchi_backend.Order.Transfers.Sending.{ids_of}
use elchi_backend.Order.Transfers.Partial.{
  taken, released, named_items, take_named, release_rest, rest_of, received_part,
  receive_batch_orders,
}
use elchi_backend.Order.Transfers.Rests.{
  IsLeft, rest_iff, Agree, AreApart, named-Agree, rest-AreApart,
}

-- What becomes of an order when some orders of a batch are received and the rest is left.
abbrev pub parted : Batch → List ℕ → List ℕ → ℕ → ℕ → Parcel → Parcel
parted b ks rest by now o =
    if is_listed ks o
    then record o {
      status = order_received;
      branch_id = some b.destination_branch_id;
      current_batch_id = none;
      holder_type = some branch;
      holder_branch_id = some b.destination_branch_id;
      holder_courier_id = none;
      last_handover_at = some now;
      last_handover_by = some by;
    }
    else if is_listed rest o
    then record o {
      current_batch_id = none;
      status = if is_forward b.direction then new else o.status;
    }
    else o

released-parted :
    (b : Batch) (o : Parcel)
    → released b o ≡ record o {
      current_batch_id = none;
      status = if is_forward b.direction then new else o.status;
    }
released-parted b o = elim (Bool-cases (is_forward b.direction)) [
  | inl t ↦ rw t refl
  | inr n ↦ rw n refl
]

apart_test : (a d c : Bool) → a && not d ≡ true → (a ≡ true → c ≡ false) → c && not d ≡ false
apart_test true d c h n = rw (n refl) refl
apart_test false d c h n = cc

map-agree :
    (f g : Parcel → Parcel) (os : List Parcel) → ((o : Parcel) → f o ≡ g o) → map f os ≡ map g os
map-agree f g [] h = refl
map-agree f g (o ∷ os) h = rw (h o, map-agree f g os h) refl

guard-holds : (test : Bool) (w : Unit {0}) → guard (not test) bad_request ≡ ok w → test ≡ false
guard-holds false w h = refl
guard-holds true w h = cc

module _ (T : Table Batch Batch.key) (I : Table BatchItem BatchItem.key)
    (O : Table Parcel Parcel.key) where
  module _ (s : Depot T I O) (b : Batch) (ids : List ℕ) (by now : ℕ) where
    abbrev taken_if : Parcel → Parcel
    taken_if o = if is_listed ids o then taken b by now o else o

    parted_step :
        (rest : List ℕ)
        → AreApart ids rest
        → (x : Parcel)
        → (if is_listed rest (taken_if x) then released b (taken_if x) else taken_if x)
          ≡ parted b ids rest by now x
    parted_step rest apart x = elim (Bool-cases (is_listed ids x)) [
      | inr n ↦ elim (Bool-cases (is_listed rest x)) [
        | inl l ↦ rw (n, l) (released-parted b x)
        | inr f ↦ rw (n, f) refl
      ]
      | inl t ↦
          let off : is_listed rest x ≡ false =
            apart_test (is_in ids x.key) x.is_deleted (is_in rest x.key) t (apart x.key) in
          rw (t, off) refl
    ]

    release_rest-rows :
        (rest : List ℕ)
        → AreApart ids rest
        → O.rows (release_rest T I O b rest by (take_named T I O b ids by now s)).orders
          ≡ map (parted b ids rest by now) (O.rows s.orders)
    unfolding take_named release_rest
    release_rest-rows [] apart =
        O.rows-update s.orders (is_listed ids) (taken b by now)
        ∙ map_if-map (is_listed ids) (taken b by now) (parted b ids [] by now) (O.rows s.orders)
            (λ x o. refl)
    release_rest-rows (k ∷ ks) apart =
        O.rows-update _ (is_listed (k ∷ ks)) (released b)
        ∙ ap (map_if (is_listed (k ∷ ks)) (released b)) (
            O.rows-update s.orders (is_listed ids) (taken b by now)
            ∙ map_if-map (is_listed ids) (taken b by now) taken_if (O.rows s.orders) (λ x o. refl))
        ∙ map_if-map_after (is_listed (k ∷ ks)) (released b) taken_if (parted b ids (k ∷ ks) by now)
            (O.rows s.orders) (λ x o. parted_step (k ∷ ks) apart x)

  module _ (s : Depot T I O) (b : Batch) (ks : List ℕ) (by now : ℕ) where
    -- What the theorem below says of the state and the orders that are returned
    abbrev IsParted : (Depot T I O × List ℕ) → Type 0
    IsParted p =
        AreApart ks p.1
        × ((x : ℕ) → (is_in p.1 x ≡ true) ↔ IsLeft T I O b.key ks s.items x)
        × (O.rows p.0.orders ≡ map (parted b ks p.1 by now) (O.rows s.orders))

    received_part-IsParted :
        (selected : List BatchItem)
        → Agree (ids_of T I O selected) ks
        → IsParted (received_part T I O b selected by now s, rest_of T I O b selected by now s)
    received_part-IsParted selected agree =
        let apart = rest-AreApart T I O b selected by now s in
        (
          (λ x h. apart x (agree x ∙ h)),
          (λ x. rest_iff T I O b selected by now s ks x agree),
          release_rest-rows s b (ids_of T I O selected) by now (rest_of T I O b selected by now s)
                apart
              ∙ map-agree _ _ (O.rows s.orders) (λ o. rw (agree o.key) refl),
        )

    ok-IsParted : (p q : Depot T I O × List ℕ) → IsParted p → ok p ≡ ok q → IsParted q
    ok-IsParted p q h e = rw (← ok-injective e) h

  -- When some orders of a batch are received, an order that is named and not deleted is with the
  -- destination branch as received, in no batch and with no courier. An order is left if and only if
  -- an item of the batch that is not deleted is for it and it is not named; those are the orders that
  -- are returned, and each that is not deleted is taken out of the batch, as new if the batch goes
  -- forward and with its status if it is a return. All other orders are as before.
  pub receive_batch_orders-parts :
      (k by now : ℕ) (ks rest : List ℕ) (b : Batch) (s t : Depot T I O)
      → T.find_one s.batches (is_batch k) ≡ some b
      → receive_batch_orders T I O (id k) ks by now s ≡ ok (t, rest)
      → AreApart (distinct ks) rest
        × ((x : ℕ) → (is_in rest x ≡ true) ↔ IsLeft T I O b.key (distinct ks) s.items x)
        × (O.rows t.orders ≡ map (parted b (distinct ks) rest by now) (O.rows s.orders))
  unfolding receive_batch_orders
  receive_batch_orders-parts k by now ks rest b s t found h =
      let (_, _, h1) = >>=-eq-ok (guard (is_some (first_of ks)) bad_request) _ h in
      let h2 = rw found at h1 in
      let selected = named_items T I O k (distinct ks) s.items in
      let (_, _, h3) = >>=-eq-ok (guard (is_sent b.status) bad_request) _ h2 in
      let (_, _, h4) = >>=-eq-ok (guard (is_some (first_of selected)) bad_request) _ h3 in
      let (w, all_there, h5) =
        >>=-eq-ok
          (guard (not (any (λ j. not (is_in (ids_of T I O selected) j)) (distinct ks))) bad_request)
          _ h4 in
      let (_, _, h6) =
        >>=-eq-ok (guard (not (any (λ i. not (is_some i.sent_at)) selected)) bad_request) _ h5 in
      ok-IsParted s b (distinct ks) by now _ (t, rest)
        (received_part-IsParted s b (distinct ks) by now selected
          (named-Agree T I O k (distinct ks) s.items (guard-holds _ w all_there)))
        h6
