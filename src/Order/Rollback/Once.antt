-- ===== src/Order/Rollback/Once.antt =====
-- What the transaction of a rollback leaves behind, and whether it can run again.
use elchi_backend.Prelude.{
  ℕ, ◌≡◌, refl, sym, inl, inr, Bool, true, false, not, ◌&&◌, List, [], ◌∷◌, ◌++◌, ◌==◌,
  Option-cases, Occurs, Occurs-map_if, Text, arith,
}
use elchi_backend.Prelude.Results.{
  ok, err, guard, bad_request, not_found, >>=-eq-ok, ok-injective, or_throw-eq-ok,
}
use elchi_backend.Store.{Table, find_one-some}
use elchi_backend.Common.Outbox.{OutboxEvent}
use elchi_backend.Order.Status.{
  OrderStatus, paid, partly_paid, same_status, is_valid_status_transition,
}
use elchi_backend.Order.Settlement.{OrderSettlement, reset_settlement_on_rollback}
use elchi_backend.Order.Sale.{Order, FinanceEvent}
use elchi_backend.Order.Sale.Commit.{Desk, enqueue_all, status_events, find_by_id}
use elchi_backend.Order.Rollback.{
  RollbackTarget, to_waiting, to_cancelled, to_cancelled_sent, Reversal,
}
use elchi_backend.Order.Rollback.Plans.{among}
use elchi_backend.Order.Rollback.Commit.{
  rollback_events, rolled_back, write_back, final_status, merge_partial_children_back,
  lock_order_in, commit_rollback,
}

pub rolled_back-status :
    (r : Reversal) (o : Order) → (rolled_back r o).status ≡ final_status r.target
unfolding rolled_back
rolled_back-status r o =
    status r.target (r.is_super_admin && among (paid ∷ partly_paid ∷ []) r.order.status)
  where
    status : (t : RollbackTarget) (b : Bool) → (write_back t b o).status ≡ final_status t
    status to_waiting true = refl
    status to_waiting false = refl
    status to_cancelled b = refl
    status to_cancelled_sent b = refl

-- The rollback keeps the price of the order that it writes back, and does not delete it.
pub rolled_back-keeps :
    (r : Reversal) (o : Order)
    → ((rolled_back r o).total_price ≡ o.total_price)
      × ((rolled_back r o).is_deleted ≡ o.is_deleted)
      × ((rolled_back r o).key ≡ o.key)
unfolding rolled_back
rolled_back-keeps r o =
    kept r.target (r.is_super_admin && among (paid ∷ partly_paid ∷ []) r.order.status)
  where
    kept :
        (t : RollbackTarget) (b : Bool)
        → ((write_back t b o).total_price ≡ o.total_price)
          × ((write_back t b o).is_deleted ≡ o.is_deleted)
          × ((write_back t b o).key ≡ o.key)
    kept to_waiting true = (refl, refl, refl)
    kept to_waiting false = (refl, refl, refl)
    kept to_cancelled b = (refl, refl, refl)
    kept to_cancelled_sent b = (refl, refl, refl)

module _ (R : Table Order Order.key) (T : Table OrderSettlement OrderSettlement.key)
    (O : Table (OutboxEvent FinanceEvent) OutboxEvent.key) where
  -- What a committed rollback has written.
  abbrev pub written : Reversal → Text → List Text → ℕ → Order → Desk R T O → Desk R T O
  written r epoch uuids now o s = record {
    orders =
        R.update (merge_partial_children_back R T O r.order s.orders) (λ c. c.key == r.order.key)
          (λ c. rolled_back r o);
    settlements = reset_settlement_on_rollback T r.order.key s.settlements;
    outbox =
        enqueue_all R T O (rollback_events r epoch ++ status_events (rolled_back r o) o.status)
          uuids now s.outbox;
  }

  pub commit_rollback-eq-ok :
      (r : Reversal) (epoch : Text) (uuids : List Text) (now : ℕ) (s s' : Desk R T O)
      → commit_rollback R T O r epoch uuids now s ≡ ok s'
      → (locked o : Order) × (lock_order_in R T O r.order.key r.order.status s.orders ≡ ok locked)
        × (find_by_id R r.order.key s.orders ≡ ok o)
        × (is_valid_status_transition o.status (rolled_back r o).status ≡ true)
        × (s' ≡ written r epoch uuids now o s)
  unfolding commit_rollback
  commit_rollback-eq-ok r epoch uuids now s s' h =
      let (locked, el, h1) =
        >>=-eq-ok (lock_order_in R T O r.order.key r.order.status s.orders) _ h in
      let (o, eo, h2) = >>=-eq-ok (find_by_id R r.order.key s.orders) _ h1 in
      let (_, ev, h3) =
        >>=-eq-ok (guard (is_valid_status_transition o.status (rolled_back r o).status) bad_request)
          _ h2 in
      (locked, o, el, eo, guard-true _ ev, sym (ok-injective h3))
    where
      guard-true : (b : Bool) {u : Unit {0}} → guard b bad_request ≡ ok u → b ≡ true
      guard-true true h = refl
      guard-true false h = cc

  -- Every row with the key of the order is what the rollback has written.
  pub written-row :
      (r : Reversal) (epoch : Text) (uuids : List Text) (now : ℕ) (o : Order) (s : Desk R T O)
      (c : Order)
      → Occurs c (R.rows (written r epoch uuids now o s).orders)
      → (c.key == r.order.key) ≡ true
      → c ≡ rolled_back r o
  written-row r epoch uuids now o s c oc same =
      let before = merge_partial_children_back R T O r.order s.orders in
      elim (Occurs-map_if (λ x. x.key == r.order.key) (λ x. rolled_back r o) (R.rows before) c
        (rw (R.rows-update before (λ x. x.key == r.order.key) (λ x. rolled_back r o)) at oc)) [
          | inl (x, _, _, e) ↦ e
          | inr (_, other) ↦ (cc (other, same))
        ]

  lock_order_in-refused :
      (k : ℕ) (status : OrderStatus) (s : R.State)
      → ((c : Order)
          → Occurs c (R.rows s)
          → (c.key == k) ≡ true
          → same_status c.status status ≡ false)
      → lock_order_in R T O k status s ≡ err bad_request
  unfolding lock_order_in
  lock_order_in-refused k status s h = elim (Option-cases (R.find_one s (λ o. o.key == k))) [
    | inl gone ↦ rw (lock_order_in, gone) refl
    | inr (o, e) ↦
        rw
          (
            lock_order_in,
            e,
            h o (R.find_one-Occurs s (λ c. c.key == k) o e)
                (R.find_one-meets s (λ c. c.key == k) o e),
          )
          refl
  ]

  pub lock_order_in-some :
      (k : ℕ) (status : OrderStatus) (s : R.State) (o : Order)
      → ((c : Order)
          → Occurs c (R.rows s)
          → (c.key == k) ≡ true
          → same_status c.status status ≡ true)
      → Occurs o (R.rows s)
      → (o.key == k) ≡ true
      → (locked : Order) × (lock_order_in R T O k status s ≡ ok locked)
  unfolding lock_order_in
  lock_order_in-some k status s o h oo same =
      let (c, e) = find_one-some R s (λ x. x.key == k) o oo same in
      (
        c,
        rw
            (
              lock_order_in,
              e,
              h c (R.find_one-Occurs s (λ x. x.key == k) c e)
                  (R.find_one-meets s (λ x. x.key == k) c e),
            )
            refl,
      )

  -- Once a rollback that changes the status of its order is committed, every rollback that was
  -- planned for the order in the same status is refused as a bad request.
  pub commit_rollback-once :
      (r : Reversal) (epoch : Text) (uuids : List Text) (now : ℕ) (s s' : Desk R T O)
      → commit_rollback R T O r epoch uuids now s ≡ ok s'
      → same_status (final_status r.target) r.order.status ≡ false
      → (r' : Reversal) (epoch' : Text) (uuids' : List Text) (now' : ℕ) → r'.order.key ≡ r.order.key
      → r'.order.status ≡ r.order.status
      → commit_rollback R T O r' epoch' uuids' now' s' ≡ err bad_request
  unfolding commit_rollback
  commit_rollback-once r epoch uuids now s s' done changed r' epoch' uuids' now' same_key same =
      let (locked, o, _, _, _, e) = commit_rollback-eq-ok r epoch uuids now s s' done in
      rw
        (
          commit_rollback,
          same_key,
          same,
          lock_order_in-refused r.order.key r.order.status s'.orders (
              rw e (λ c oc kc.
                rw (written-row r epoch uuids now o s c oc kc)
                  (rw (rolled_back-status r o) changed))),
        )
        refl

  -- What `findById` finds.
  pub find_by_id-found :
      (k : ℕ) (s : R.State) (o : Order)
      → find_by_id R k s ≡ ok o
      → Occurs o (R.rows s) × ((o.key == k) ≡ true) × (o.is_deleted ≡ false)
  unfolding find_by_id
  find_by_id-found k s o h =
      let q : Order → Bool = λ r. (r.key == k) && not r.is_deleted in
      let e = or_throw-eq-ok (R.find_one s q) not_found o h in
      let (same, alive) = both (o.key == k) o.is_deleted (R.find_one-meets s q o e) in
      (R.find_one-Occurs s q o e, same, alive)
    where
      both : (a b : Bool) → a && not b ≡ true → (a ≡ true) × (b ≡ false)
      both a b h = ground arith
