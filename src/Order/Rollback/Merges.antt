-- ===== src/Order/Rollback/Merges.antt =====
-- What becomes of the price of an order when the children of a partial sale go back into it.
use elchi_backend.Prelude.{
  ℕ, List-cases, ◌≡◌, refl, ap, ◌∙◌, inl, inr, true, false, some, List, [], ◌∷◌, ◌==◌, Bool-cases,
  Occurs, Occurs-map_if, opt_eq, Text,
}
use elchi_backend.Prelude.Int.{◌+ℤ◌}
use elchi_backend.Prelude.Results.{ok}
use elchi_backend.Store.{Table}
use elchi_backend.Common.Outbox.{OutboxEvent}
use elchi_backend.Order.Status.{cancelled, waiting}
use elchi_backend.Order.Settlement.{OrderSettlement}
use elchi_backend.Order.Settlement.Openings.{and_false, same_test}
use elchi_backend.Order.Sale.{Order, FinanceEvent}
use elchi_backend.Order.Sale.Commit.{Desk, find_by_id}
use elchi_backend.Order.Rollback.{Reversal}
use elchi_backend.Order.Rollback.Plans.{among}
use elchi_backend.Order.Rollback.Commit.{
  rolled_back, is_merged_child, prices, merge_partial_children_back, commit_rollback,
}
use elchi_backend.Order.Rollback.Once.{
  written, written-row, commit_rollback-eq-ok, find_by_id-found, rolled_back-keeps,
}

module _ (R : Table Order Order.key) (T : Table OrderSettlement OrderSettlement.key)
    (O : Table (OutboxEvent FinanceEvent) OutboxEvent.key) where
  -- The rows after the merge: what is written to the row of the order aside, only children are
  -- changed, and every child of the order that may be merged is deleted.
  merge-deletes :
      (o c : Order) (s : R.State)
      → Occurs c (R.rows (merge_partial_children_back R T O o s))
      → (c.key == o.key) ≡ false
      → is_merged_child o.key c ≡ false
  unfolding merge_partial_children_back
  merge-deletes o c s oc other =
      elim (List-cases (R.find_by s (is_merged_child o.key) (λ x. x.key))) [
        | inl none_found ↦ elim (Bool-cases (is_merged_child o.key c)) [
          | inr n ↦ n
          | inl t ↦
              elim (rw none_found at (
                R.find_by-all s (is_merged_child o.key) (λ x. x.key) c
                  (rw (merge_partial_children_back, none_found) at oc) t)) [ ]
        ]
        | inr (x, xs, found) ↦ merged x xs found (rw (merge_partial_children_back, found) at oc)
      ]
    where
      merged :
          (x : Order) (xs : List Order)
          → R.find_by s (is_merged_child o.key) (λ y. y.key) ≡ x ∷ xs
          → Occurs c (
              R.rows (
                R.update
                  (R.update s (is_merged_child o.key) (λ y. record y { is_deleted = true }))
                  (λ y. y.key == o.key)
                  (λ y. record o { total_price = o.total_price +ℤ prices (x ∷ xs) })))
          → is_merged_child o.key c ≡ false
      merged x xs found w =
          let deleted = R.update s (is_merged_child o.key) (λ y. record y { is_deleted = true }) in
          elim (Occurs-map_if (λ y. y.key == o.key) _ (R.rows deleted) c
            (rw (R.rows-update deleted (λ y. y.key == o.key) _) at w)) [
              | inl (y, _, t, e) ↦
                  (cc (ap (λ z. z.key == o.key) e, same_test o.key o.key refl, other))
              | inr (w2, _) ↦
                  elim (Occurs-map_if (is_merged_child o.key) _ (R.rows s) c
                    (rw (R.rows-update s (is_merged_child o.key) _) at w2)) [
                      | inl (y, _, _, e) ↦
                          and_false (opt_eq c.parent_order_id (some o.key))
                            (among (cancelled ∷ waiting ∷ []) c.status) c.is_deleted
                            (ap (λ z. z.is_deleted) e)
                      | inr (_, n) ↦ n
                    ]
            ]

  -- A committed rollback leaves the order with the price that it had before, although every child
  -- of a partial sale that goes back into it is deleted: what the merge adds to the price is lost.
  pub commit_rollback-keeps-price :
      (r : Reversal) (epoch : Text) (uuids : List Text) (now : ℕ) (s s' : Desk R T O)
      → commit_rollback R T O r epoch uuids now s ≡ ok s'
      → (o : Order) × (find_by_id R r.order.key s.orders ≡ ok o)
        × ((c : Order)
            → Occurs c (R.rows s'.orders)
            → ((c.key == r.order.key) ≡ true → c.total_price ≡ o.total_price)
              × ((c.key == r.order.key) ≡ false → is_merged_child r.order.key c ≡ false))
  commit_rollback-keeps-price r epoch uuids now s s' done =
      let (locked, o, _, eo, _, e) = commit_rollback-eq-ok R T O r epoch uuids now s s' done in
      (
        o,
        eo,
        λ c oc.
            let here : Occurs c (R.rows (written R T O r epoch uuids now o s).orders) =
              rw e at oc in
            (
              λ same.
                  ap (λ z. z.total_price) (written-row R T O r epoch uuids now o s c here same)
                  ∙ (rolled_back-keeps r o).0,
              λ other.
                  elim (Occurs-map_if (λ x. x.key == r.order.key) (λ x. rolled_back r o)
                    (R.rows (merge_partial_children_back R T O r.order s.orders)) c
                    (rw
                      (R.rows-update (merge_partial_children_back R T O r.order s.orders)
                        (λ x. x.key == r.order.key) (λ x. rolled_back r o))
                      at here)) [
                        | inl (x, _, _, e2) ↦
                            (cc (
                              ap (λ z. z.key == r.order.key) e2,
                              ap (λ k. k == r.order.key) ((rolled_back-keeps r o).2),
                              (find_by_id-found R T O r.order.key s.orders o eo).1,
                              other,
                            ))
                        | inr (oc2, _) ↦ merge-deletes r.order c s.orders oc2 other
                      ],
            ),
      )
