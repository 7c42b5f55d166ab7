-- ===== src/Order/Tests.antt =====
-- The theorems about orders at concrete sales, settlements and histories, in tables held in memory.
use elchi_backend.Prelude.{
  map, take, IsKeyed as HasOneEach, ℕ, ◌≡◌, ◌≢◌, refl, inl, inr, Bool, true, false, Option, none,
  some, List, [], ◌∷◌, arith, ◌+◌, ◌-◌, min, Occurs, Text, codes, IsDistinct, IsDistinct-keyed,
}
use elchi_backend.Prelude.Int.{ℤ, pos, negsuc, ◌+ℤ◌, ◌-ℤ◌, ◌≤ℤ◌}
use elchi_backend.Prelude.Results.{err, bad_request, ok_or}
use elchi_backend.Enums.{for_courier, for_market, branch}
use elchi_backend.Store.{IsAscending}
use elchi_backend.Finance.Payments.{courier_to_branch}
use elchi_backend.Order.Status.{is_valid_status_transition, is_sold_state}
use elchi_backend.Order.Money.{SaleShareInputs, compute_sale_legs, sale_amounts}
use elchi_backend.Order.Money.Legs.{compute_sale_legs-error}
use elchi_backend.Order.Proof.{sell, sell_any}
use elchi_backend.Order.Settlement.Hops.{hop_of}
use elchi_backend.Order.Settlement.{
  OrderSettlement, pending, no_stamp, Outcome, is_candidate, advance_settlement, SaleSettlement,
  record_sale_settlement,
}
use elchi_backend.Order.Settlement.Fifo.{PaysPrefix, advance_settlement-PaysPrefix}
use elchi_backend.Order.Settlement.Progress.{OneHop, advance_settlement-OneHop}
use elchi_backend.Order.Settlement.Openings.{record_sale_settlement-Opens, Opens}
use elchi_backend.Order.Sale.Plans.{plan_sale}
use elchi_backend.Order.Sale.Commit.{commit_sale}
use elchi_backend.Order.Sale.Borne.{borne}
use elchi_backend.Order.Sale.Measures.{cash_of, profit_of, total_of}
use elchi_backend.Order.Sale.Once.{commit_sale-once}
use elchi_backend.Order.Sale.Conserves.{all_events, commit_sale-conserves}
use elchi_backend.Order.Examples.{
  order_table, event_table, settlement_table, order, courier, lookups, request, plan, desk,
  sold_desk,
}

-- Shares of half a hundredth, which are rounded upwards.
abbrev halves : SaleShareInputs
halves = record {
  total = pos 100;
  market_tariff = pos 50;
  courier_share = pos 50;
  branch_share = pos 50;
}

compute_sale_legs-error_example :
    let legs = compute_sale_legs halves in
    let sum = legs.market_receivable +ℤ legs.courier_kept +ℤ legs.branch_kept +ℤ legs.hq_profit in
    (sum ≤ℤ pos 100 +ℤ pos 200) × (pos 100 ≤ℤ sum +ℤ pos 200)
compute_sale_legs-error_example = compute_sale_legs-error halves

abbrev row : ℕ → ℤ → ℕ → OrderSettlement
row k amount created_at = record {
  key = k;
  order_id = k + 100;
  courier_id = some 7;
  branch_id = some 5;
  market_id = some 9;
  courier_amount = amount;
  branch_amount = amount;
  market_amount = amount;
  status = pending;
  courier_to_branch_stamp = no_stamp;
  branch_to_hq_stamp = no_stamp;
  hq_to_market_stamp = no_stamp;
  created_at = created_at;
  is_deleted = false;
}

-- The older of two sales stands second.
abbrev ledger : List OrderSettlement
ledger = row 1 (pos 150) 20 ∷ row 2 (pos 100) 10 ∷ []

abbrev no_outcome : Outcome (List OrderSettlement)
no_outcome = record { settled_order_ids = []; allocated = pos 0; leftover = pos 0; state = ledger }

abbrev advanced_ledger : Outcome (List OrderSettlement)
advanced_ledger =
    ok_or no_outcome
      (advance_settlement settlement_table courier_to_branch (some 7) (pos 180) 50 (some 1) ledger)

advance_settlement-PaysPrefix_example :
    let cs =
      settlement_table.find_by ledger (is_candidate courier_to_branch 7) (λ r. r.created_at) in
    (n : ℕ) × IsAscending (λ (r : OrderSettlement). r.created_at) cs
    × PaysPrefix courier_to_branch cs
        (pos 180)
        advanced_ledger.settled_order_ids
        advanced_ledger.allocated
        n
    × (advanced_ledger.allocated +ℤ advanced_ledger.leftover ≡ pos 180)
    × (advanced_ledger.state ≡ map (hop_of courier_to_branch 50 (some 1) (take n cs)) ledger)
unfolding advance_settlement
advance_settlement-PaysPrefix_example =
    advance_settlement-PaysPrefix settlement_table courier_to_branch 7 (pos 180) 50 1 ledger
      advanced_ledger (omega arith) refl

ledger-IsDistinct : IsDistinct OrderSettlement.key ledger
ledger-IsDistinct = (((λ e. cc), tt), (tt, tt))

advance_settlement-OneHop_example :
    OneHop settlement_table courier_to_branch 7 50 (some 1) ledger advanced_ledger.state
unfolding advance_settlement
advance_settlement-OneHop_example =
    advance_settlement-OneHop settlement_table courier_to_branch 7 (pos 180) 50 (some 1) ledger
      advanced_ledger (IsDistinct-keyed OrderSettlement.key ledger ledger-IsDistinct) refl

-- A sum that pays for no order is the only one that is not refused.
abbrev unsigned_ledger : Outcome (List OrderSettlement)
unsigned_ledger =
    ok_or no_outcome
      (advance_settlement settlement_table courier_to_branch (some 7) (pos 60) 50 none ledger)

-- The row of order 101 after a rollback.
abbrev reset_row : OrderSettlement
reset_row = record (row 1 (pos 0) 20) { is_deleted = true }

-- Order 101 is sold again, by a manager of a branch.
abbrev second_sale : SaleSettlement
second_sale = record {
  order_id = 101;
  courier_id = none;
  branch_id = some 5;
  market_id = some 9;
  courier_amount = pos 90;
  branch_amount = pos 80;
  market_amount = pos 70;
  has_courier = false;
}

orders-IsDistinct : IsDistinct OrderSettlement.order_id ledger
orders-IsDistinct = (((λ e. omega (arith, e)), tt), (tt, tt))

record_sale_settlement-Opens_example :
    HasOneEach (λ r. r.order_id) (record_sale_settlement settlement_table second_sale 60 ledger)
    × ((r : OrderSettlement) × Occurs r
          (record_sale_settlement settlement_table second_sale 60 ledger)
        × Opens second_sale r)
    × ((x : OrderSettlement)
        → Occurs x ledger
        → x.order_id ≢ 101
        → Occurs x (record_sale_settlement settlement_table second_sale 60 ledger))
record_sale_settlement-Opens_example =
    record_sale_settlement-Opens settlement_table second_sale 60 ledger
      (IsDistinct-keyed OrderSettlement.key ledger ledger-IsDistinct)
      (IsDistinct-keyed OrderSettlement.order_id ledger orders-IsDistinct)

commit_sale-once_example :
    commit_sale order_table settlement_table event_table plan (codes "req:2") [] 51 sold_desk
    ≡ err bad_request
unfolding commit_sale plan_sale elchi_backend.Order.Proof.enforce_operation_proof sale_amounts
    elchi_backend.Prelude.Int.max_zero ◌-ℤ◌ elchi_backend.Prelude.Int.min_ℤ ◌+ℤ◌
    elchi_backend.Prelude.Int.neg is_valid_status_transition
commit_sale-once_example =
    commit_sale-once order_table settlement_table event_table lookups courier order request plan
      (codes "req:1") (codes "a" ∷ codes "b" ∷ []) 50 desk sold_desk refl refl plan (codes "req:2")
      [] 51 refl

commit_sale-conserves_example :
    let events = all_events plan (codes "req:1") 50 order in
    (total_of (cash_of branch) events +ℤ borne plan.quote branch
      ≡ total_of (cash_of for_market) events
        +ℤ borne plan.quote for_market
        +ℤ total_of profit_of events)
    × (total_of (cash_of for_courier) events +ℤ borne plan.quote for_courier
        ≡ total_of (cash_of branch) events +ℤ borne plan.quote branch +ℤ pos 50)
unfolding is_sold_state
commit_sale-conserves_example =
    commit_sale-conserves plan (codes "req:1") 50 order 7 5 refl refl refl refl
