-- ===== src/Order/Rollback/Again.antt =====
-- A rollback that leaves the status of its order as it is can be committed again.
use elchi_backend.Prelude.{
  ℕ, ◌≡◌, refl, ap, ◌∙◌, inl, inr, Bool, true, false, not, ◌&&◌, List, [], ◌++◌, ◌==◌, Bool-cases,
  Occurs, map_if-Occurs, map_if-Occurs_image, Text,
}
use elchi_backend.Prelude.Results.{ok}
use elchi_backend.Store.{Table, find_one-some}
use elchi_backend.Common.Outbox.{OutboxEvent}
use elchi_backend.Order.Status.{
  OrderStatus, cancelled, waiting, same_status, is_valid_status_transition,
}
use elchi_backend.Order.Settlement.{OrderSettlement}
use elchi_backend.Order.Settlement.Openings.{same_test}
use elchi_backend.Order.Sale.{Order, FinanceEvent}
use elchi_backend.Order.Sale.Commit.{Desk, enqueue_all, status_events, find_by_id}
use elchi_backend.Order.Rollback.{Reversal}
use elchi_backend.Order.Rollback.Commit.{
  rollback_events, rolled_back, final_status, is_merged_child, is_nil, merge_partial_children_back,
  commit_rollback,
}
use elchi_backend.Order.Status.{is_sold_state}
use elchi_backend.Order.Rollback.Once.{
  written, written-row, commit_rollback-eq-ok, lock_order_in-some, find_by_id-found,
  rolled_back-status, rolled_back-keeps,
}

module _ (R : Table Order Order.key) (T : Table OrderSettlement OrderSettlement.key)
    (O : Table (OutboxEvent FinanceEvent) OutboxEvent.key) where
  -- Some row of a table has a key.
  abbrev HasKey : ℕ → R.State → Type 0
  HasKey k s = (o : Order) × Occurs o (R.rows s) × ((o.key == k) ≡ true)

  update-HasKey :
      (k : ℕ) (s : R.State) (q : Order → Bool) (f : Order → Order)
      → ((o : Order) → (o.key == k) ≡ true → ((f o).key == k) ≡ true)
      → HasKey k s
      → HasKey k (R.update s q f)
  update-HasKey k s q f kept (o, oo, same) = elim (Bool-cases (q o)) [
    | inl t ↦
        (f o, rw (R.rows-update s q f) (map_if-Occurs_image q f (R.rows s) o t oo), kept o same)
    | inr n ↦ (o, rw (R.rows-update s q f) (map_if-Occurs q f (R.rows s) o n oo), same)
  ]

  merge-HasKey :
      (o : Order) (s : R.State)
      → HasKey o.key s
      → HasKey o.key (merge_partial_children_back R T O o s)
  unfolding merge_partial_children_back
  merge-HasKey o s h =
      elim (Bool-cases (is_nil (R.find_by s (is_merged_child o.key) (λ c. c.key)))) [
        | inl t ↦ rw (merge_partial_children_back, t) h
        | inr n ↦
            rw (merge_partial_children_back, n)
              (update-HasKey o.key
                (R.update s (is_merged_child o.key) (λ c. record c { is_deleted = true }))
                (λ c. c.key == o.key) _ (λ c same. same_test o.key o.key refl)
                (update-HasKey o.key s (is_merged_child o.key) _ (λ c same. same) h))
      ]

  written-HasKey :
      (r : Reversal) (epoch : Text) (uuids : List Text) (now : ℕ) (o : Order) (s : Desk R T O)
      → find_by_id R r.order.key s.orders ≡ ok o
      → HasKey r.order.key (written R T O r epoch uuids now o s).orders
  written-HasKey r epoch uuids now o s found =
      let (oo, same, _) = find_by_id-found R T O r.order.key s.orders o found in
      update-HasKey r.order.key (merge_partial_children_back R T O r.order s.orders)
        (λ c. c.key == r.order.key) _ (λ c _. rw ((rolled_back-keeps r o).2) same)
        (merge-HasKey r.order s.orders (o, oo, same))

  find_by_id-some :
      (k : ℕ) (s : R.State) (o : Order)
      → Occurs o (R.rows s)
      → (o.key == k) ≡ true
      → o.is_deleted ≡ false
      → (c : Order) × (find_by_id R k s ≡ ok c)
  unfolding find_by_id
  find_by_id-some k s o oo same alive =
      let (c, e) =
        find_one-some R s (λ r. (r.key == k) && not r.is_deleted) o oo (rw (same, alive) refl) in
      (c, rw (find_by_id, e) refl)

  nothing_more : (o : Order) (old : OrderStatus) → o.status ≡ cancelled → status_events o old ≡ []
  unfolding status_events is_sold_state
  nothing_more o old is =
      let unsold : is_sold_state o.status ≡ false = ap is_sold_state is in
      let not_waiting : same_status o.status waiting ≡ false = ap (λ z. same_status z waiting) is in
      rw (status_events, unsold, not_waiting) refl

  -- A rollback to cancelled is committed in every state whose rows of the order have the status
  -- that it was planned in.
  commit_rollback-eq-cancelled :
      (r : Reversal) (epoch : Text) (uuids : List Text) (now : ℕ) (s : Desk R T O) (o x : Order)
      → final_status r.target ≡ cancelled
      → r.order.status ≡ cancelled
      → ((c : Order) → Occurs c (R.rows s.orders) → (c.key == r.order.key) ≡ true → c ≡ o)
      → o.status ≡ cancelled
      → o.is_deleted ≡ false
      → Occurs x (R.rows s.orders)
      → (x.key == r.order.key) ≡ true
      → (s' : Desk R T O) × (commit_rollback R T O r epoch uuids now s ≡ ok s')
        × (s'.outbox ≡ enqueue_all R T O (rollback_events r epoch ++ []) uuids now s.outbox)
  unfolding commit_rollback is_valid_status_transition
  commit_rollback-eq-cancelled r epoch uuids now s o x is was row is_o alive ox kx =
      let (locked, el) =
        lock_order_in-some R T O r.order.key r.order.status s.orders x
          (λ c oc kc. rw (ap (λ z. z.status) (row c oc kc), is_o, was) refl) ox kx in
      let (o2, eo2) =
        find_by_id-some r.order.key s.orders x ox kx
          (ap (λ z. z.is_deleted) (row x ox kx) ∙ alive) in
      let (oc2, kc2, _) = find_by_id-found R T O r.order.key s.orders o2 eo2 in
      let was2 : o2.status ≡ cancelled = ap (λ z. z.status) (row o2 oc2 kc2) ∙ is_o in
      let is2 : (rolled_back r o2).status ≡ cancelled = rolled_back-status r o2 ∙ is in
      let valid : is_valid_status_transition o2.status (rolled_back r o2).status ≡ true =
        ap (λ z. is_valid_status_transition z (rolled_back r o2).status) was2
        ∙ ap (is_valid_status_transition cancelled) is2 in
      (
        written R T O r epoch uuids now o2 s,
        rw (commit_rollback, el, eo2, valid) refl,
        ap (λ es. enqueue_all R T O (rollback_events r epoch ++ es) uuids now s.outbox)
            (nothing_more (rolled_back r o2) o2.status is2),
      )

  -- A rollback of a cancelled order to cancelled leaves the status as it is, so that nothing stops
  -- another call with the same plan: it is committed again, and all corrections are enqueued again.
  pub commit_rollback-again :
      (r : Reversal) (epoch : Text) (uuids : List Text) (now : ℕ) (s s' : Desk R T O)
      → commit_rollback R T O r epoch uuids now s ≡ ok s'
      → r.order.status ≡ cancelled
      → final_status r.target ≡ cancelled
      → (epoch' : Text) (uuids' : List Text) (now' : ℕ)
      → (s'' : Desk R T O) × (commit_rollback R T O r epoch' uuids' now' s' ≡ ok s'')
        × (s''.outbox ≡ enqueue_all R T O (rollback_events r epoch' ++ []) uuids' now' s'.outbox)
  commit_rollback-again r epoch uuids now s s' done was is epoch' uuids' now' =
      let (_, o, _, eo, _, e) = commit_rollback-eq-ok R T O r epoch uuids now s s' done in
      let (x, ox, kx) = written-HasKey r epoch uuids now o s eo in
      rw e (
        commit_rollback-eq-cancelled r epoch' uuids' now' (written R T O r epoch uuids now o s)
          (rolled_back r o) x is was (written-row R T O r epoch uuids now o s)
          (rolled_back-status r o ∙ is)
          ((rolled_back-keeps r o).1 ∙ (find_by_id-found R T O r.order.key s.orders o eo).2) ox kx)
