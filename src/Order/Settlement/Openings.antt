-- ===== src/Order/Settlement/Openings.antt =====
-- How a sale opens the row of its order, and what a rollback makes of it.
use elchi_backend.Prelude.Int.{max_zero}
use elchi_backend.Prelude.{
  not-any-Occurs, sym, ◌∙◌, none, Option, is_some, if◌then◌else◌, map_if-IsKeyed_picked,
  append-IsKeyed, IsKeyed as HasOneEach, ℕ, ◌≡◌, ◌≢◌, refl, ap, inl, inr, Bool, true, false, not,
  ◌&&◌, some, ◌==◌, Bool-cases, Option-cases, Occurs, Occurs-map_if, map_if-Occurs,
  map_if-Occurs_image, Occurs-append_left, Occurs-append_last, opt_eq, arith,
}
use elchi_backend.Store.{Table}
use elchi_backend.Finance.Payments.{Level}
use elchi_backend.Order.Settlement.{
  SettlementStatus, pending, courier_settled, branch_settled, no_stamp, OrderSettlement,
  SaleSettlement, settlement_fields, same_settlement, match_column, from_status, is_candidate,
  record_sale_settlement, reset_settlement_on_rollback,
}
use elchi_backend.Order.Settlement.Progress.{IsKeyed}

pub and_false : (a b c : Bool) → c ≡ true → a && b && not c ≡ false
and_false a b c h = ground arith

deleted_is_no_candidate :
    (level : Level) (match_value : ℕ) (r : OrderSettlement)
    → r.is_deleted ≡ true
    → is_candidate level match_value r ≡ false
deleted_is_no_candidate level match_value r h =
    and_false (opt_eq (match_column level r) (some match_value))
      (same_settlement r.status (from_status level)) r.is_deleted h

pub same_test : (a b : ℕ) → a ≡ b → (a == b) ≡ true
same_test a b h = ground arith

test_same : (a b : ℕ) → (a == b) ≡ true → a ≡ b
test_same a b h = ground arith

-- The status of a sale at first: the courier has the money, else the branch, else the head office.
abbrev pub first_status : Bool → Option ℕ → SettlementStatus
first_status true branch = pending
first_status false (some b) = courier_settled
first_status false none = branch_settled

-- What the row of a sale says.
pub record Opens (d : SaleSettlement) (r : OrderSettlement) : Type 0 where
  pub of_order : r.order_id ≡ d.order_id
  pub of_courier : r.courier_id ≡ d.courier_id
  pub of_branch : r.branch_id ≡ d.branch_id
  pub of_market : r.market_id ≡ d.market_id
  pub courier_amount : r.courier_amount ≡ max_zero d.courier_amount
  pub branch_amount : r.branch_amount ≡ max_zero d.branch_amount
  pub market_amount : r.market_amount ≡ max_zero d.market_amount
  pub status : r.status ≡ first_status d.has_courier d.branch_id
  pub to_market : r.hq_to_market_stamp ≡ no_stamp
  pub not_deleted : r.is_deleted ≡ false

settlement_fields-Opens :
    (d : SaleSettlement) (key created_at now : ℕ) → Opens d (settlement_fields d key created_at now)
settlement_fields-Opens d key created_at now = record {
  of_order = refl;
  of_courier = refl;
  of_branch = refl;
  of_market = refl;
  courier_amount = refl;
  branch_amount = refl;
  market_amount = refl;
  status = starts d.has_courier d.branch_id;
  to_market = refl;
  not_deleted = refl;
}
  where
    starts :
        (c : Bool) (b : Option ℕ)
        → (if c then pending else if is_some b then courier_settled else branch_settled)
          ≡ first_status c b
    starts true b = refl
    starts false none = refl
    starts false (some b) = refl

module _ (T : Table OrderSettlement OrderSettlement.key) where
  -- After the rollback of an order no advance, of any level and for any participant, settles its
  -- row.
  reset_settlement_on_rollback-is_candidate :
      (order_id match_value : ℕ) (level : Level) (s : T.State) (r : OrderSettlement)
      → Occurs r (T.rows (reset_settlement_on_rollback T order_id s))
      → r.order_id ≡ order_id
      → is_candidate level match_value r ≡ false
  unfolding reset_settlement_on_rollback
  reset_settlement_on_rollback-is_candidate order_id match_value level s r o same =
      elim (Occurs-map_if (λ x. x.order_id == order_id) _ (T.rows s) r
        (rw (T.rows-update s (λ x. x.order_id == order_id) _) at o)) [
          | inl (x, _, _, e) ↦
              deleted_is_no_candidate level match_value r (ap (λ y. y.is_deleted) e)
          | inr (_, other) ↦ (cc (other, same_test r.order_id order_id same))
        ]

  -- The row of another order has another key.
  other_key :
      (d : SaleSettlement) (s : T.State) (old x : OrderSettlement)
      → IsKeyed T s
      → Occurs old (T.rows s)
      → (old.order_id == d.order_id) ≡ true
      → Occurs x (T.rows s)
      → x.order_id ≢ d.order_id
      → (x.key == old.key) ≡ false
  other_key d s old x keyed oo so ox n = elim (Bool-cases (x.key == old.key)) [
    | inr f ↦ f
    | inl t ↦
        let e : x ≡ old = keyed x old ox oo (test_same x.key old.key t) in
        elim (n (rw e (test_same old.order_id d.order_id so))) [ ]
  ]

  -- In a table with a primary key and one row at most for each order, a sale leaves one row at most
  -- for each order, one for its own order, new or in place of the row of an earlier sale, with the
  -- participants and the amounts of the sale (none below zero), not deleted and at the status at
  -- which the first participant has the money, and the rows of all other orders as they are.
  pub record_sale_settlement-Opens :
      (d : SaleSettlement) (now : ℕ) (s : T.State)
      → IsKeyed T s
      → HasOneEach (λ r. r.order_id) (T.rows s)
      → HasOneEach (λ r. r.order_id) (T.rows (record_sale_settlement T d now s))
        × ((r : OrderSettlement) × Occurs r (T.rows (record_sale_settlement T d now s)) × Opens d r)
        × ((x : OrderSettlement)
            → Occurs x (T.rows s)
            → x.order_id ≢ d.order_id
            → Occurs x (T.rows (record_sale_settlement T d now s)))
  unfolding record_sale_settlement
  record_sale_settlement-Opens d now s keyed one =
      elim (Option-cases (T.find_one s (λ r. r.order_id == d.order_id))) [
        | inl gone ↦
            rw
              (
                record_sale_settlement,
                gone,
                T.rows-insert s (settlement_fields d (T.next_key s) now now),
              )
              (
                append-IsKeyed (λ r. r.order_id) (T.rows s) _ (unheard d s gone) one,
                (
                  settlement_fields d (T.next_key s) now now,
                  Occurs-append_last (T.rows s) _,
                  settlement_fields-Opens d (T.next_key s) now now,
                ),
                λ x o n. Occurs-append_left (T.rows s) _ x o,
              )
        | inr (old, e) ↦
            let here = T.find_one-Occurs s _ old e in
            let same = T.find_one-meets s _ old e in
            rw
              (
                record_sale_settlement,
                e,
                T.rows-update s (λ r. r.key == old.key)
                    (λ r. settlement_fields d r.key r.created_at now),
              )
              (
                map_if-IsKeyed_picked (λ r. r.order_id) (λ r. r.key == old.key)
                    (λ r. settlement_fields d r.key r.created_at now) (T.rows s)
                    (λ x o t. sym (
                      ap (λ r. r.order_id) (keyed x old o here (test_same x.key old.key t))
                      ∙ test_same old.order_id d.order_id same))
                    one,
                (
                  settlement_fields d old.key old.created_at now,
                  map_if-Occurs_image (λ r. r.key == old.key)
                      (λ r. settlement_fields d r.key r.created_at now) (T.rows s) old
                      (same_test old.key old.key refl) here,
                  settlement_fields-Opens d old.key old.created_at now,
                ),
                λ x o n.
                    map_if-Occurs (λ r. r.key == old.key)
                      (λ r. settlement_fields d r.key r.created_at now) (T.rows s) x
                      (other_key d s old x keyed here same o n) o,
              )
      ]
    where
      unheard :
          (d : SaleSettlement) (s : T.State)
          → T.find_one s (λ r. r.order_id == d.order_id) ≡ none
          → (y : OrderSettlement) → Occurs y (T.rows s)
          → y.order_id ≡ d.order_id
          → ⊥
      unheard d s gone y o e =
          (cc (
            not-any-Occurs (λ r. r.order_id == d.order_id) (T.rows s) y (T.find_one-none s _ gone)
                o,
            same_test y.order_id d.order_id e,
          ))
