-- ===== src/Order/Rollback/Tests.antt =====
-- The theorems about rollbacks at concrete orders.
use elchi_backend.Prelude.{
  ℕ, ◌≡◌, refl, Bool, true, false, Option, none, some, List, [], ◌∷◌, ◌++◌, ◌==◌, Occurs, Text,
  codes,
}
use elchi_backend.Prelude.Int.{ℤ, pos, negsuc, ◌+ℤ◌}
use elchi_backend.Prelude.Results.{ok, err, bad_request, ok_or}
use elchi_backend.Enums.{for_courier}
use elchi_backend.Order.Status.{cancelled, sold, waiting}
use elchi_backend.Order.Settlement.{pending}
use elchi_backend.Order.Sale.{Order, Requester}
use elchi_backend.Order.Sale.Commit.{Desk, sale_events, sold_order, enqueue_all, find_by_id}
use elchi_backend.Order.Sale.Plans.{plan_sale}
use elchi_backend.Order.Sale.Measures.{total_of}
use elchi_backend.Order.Rollback.{to_waiting, to_cancelled, RollbackLookups, Reversal}
use elchi_backend.Order.Rollback.Plans.{plan_rollback}
use elchi_backend.Order.Rollback.Commit.{commit_rollback, rollback_events, is_merged_child}
use elchi_backend.Order.Rollback.Moves.{move_of}
use elchi_backend.Order.Rollback.Cancels.{rollback-cancels-sale}
use elchi_backend.Order.Rollback.Misses.{plan_rollback-misses-courier}
use elchi_backend.Order.Rollback.Once.{commit_rollback-once}
use elchi_backend.Order.Rollback.Merges.{commit_rollback-keeps-price}
use elchi_backend.Order.Rollback.Again.{commit_rollback-again}
use elchi_backend.Store.{Table}
use elchi_backend.Store.Memory.{memory}
use elchi_backend.Finance.Ledger.{LedgerEntry}
use elchi_backend.Finance.Ledger as Ledger
use elchi_backend.Order.Examples.{
  order_table, event_table, settlement_table, order, courier, actor, lookups, request, plan,
}

abbrev admin : Requester
admin = record {
  key = 1;
  is_super_admin = true;
  is_courier = false;
  is_manager = false;
  branch_id = none;
}

abbrev manager : Requester
manager = record {
  key = 3;
  is_super_admin = false;
  is_courier = false;
  is_manager = true;
  branch_id = some 5;
}

-- The extra cost of 10 was entered with the sale, at 50.
abbrev found : RollbackLookups
found = record {
  sale = record lookups { user_of = λ u. some (actor (pos 0)) };
  market_extra = some (record { amount = pos 10; created_at = some 52 });
  actor_extra = λ u. some (record { amount = pos 10; created_at = some 52 });
  updated_at = some 53;
}

abbrev sold_one : Order
sold_one = sold_order plan 50 order

abbrev no_reversal : Reversal
no_reversal = record {
  order = sold_one;
  requester = 1;
  is_super_admin = true;
  target = to_waiting;
  market_tariff = pos 300;
  courier_tariff = pos 120;
  courier = some 7;
  branch_cashbox = some 5;
  expense_cashbox = some (7, for_courier);
  market_extra = pos 10;
  actor_extra = pos 10;
}

rollback-cancels-sale_example :
    total_of (move_of 7 for_courier) (sale_events plan.quote (codes "req:1"))
      +ℤ total_of (move_of 7 for_courier) (rollback_events no_reversal (codes "req:2"))
    ≡ pos 0
unfolding plan_sale elchi_backend.Order.Proof.enforce_operation_proof
    elchi_backend.Order.Money.sale_amounts elchi_backend.Prelude.Int.max_zero
    elchi_backend.Prelude.Int.◌-ℤ◌ elchi_backend.Prelude.Int.min_ℤ ◌+ℤ◌
    elchi_backend.Prelude.Int.neg plan_rollback sold_order
rollback-cancels-sale_example =
    rollback-cancels-sale lookups courier request plan 50 found admin (some pending) to_waiting
      no_reversal (codes "req:1") (codes "req:2") 7 for_courier refl refl refl refl refl refl refl
      refl

-- The order as a sale in full leaves it, rolled back by the manager of its branch.
abbrev sold_in_full : Order
sold_in_full = record sold_one { status = sold }

abbrev by_manager : Reversal
by_manager = ok_or no_reversal (plan_rollback found manager sold_in_full (some pending) to_waiting)

plan_rollback-misses-courier_example :
    total_of (move_of 7 for_courier) (rollback_events by_manager (codes "req:3")) ≡ pos 0
unfolding plan_rollback sold_order
plan_rollback-misses-courier_example =
    plan_rollback-misses-courier found manager sold_in_full (some pending) to_waiting by_manager
      (codes "req:3") 7 refl refl refl

-- A part of the order that was cancelled, at 400.
abbrev child : Order
child = record order {
  key = 32;
  status = cancelled;
  total_price = pos 400;
  parent_order_id = some 31;
}

abbrev parted : Desk order_table settlement_table event_table
parted = record { orders = sold_one ∷ child ∷ []; settlements = []; outbox = [] }

abbrev merged : Desk order_table settlement_table event_table
merged = ok_or parted (
    commit_rollback order_table settlement_table event_table no_reversal (codes "req:2") [] 60
      parted)

commit_rollback-once_example :
    commit_rollback order_table settlement_table event_table no_reversal
      (codes "req:3")
      []
      61
      merged
    ≡ err bad_request
unfolding commit_rollback sold_order elchi_backend.Order.Status.is_valid_status_transition
commit_rollback-once_example =
    commit_rollback-once order_table settlement_table event_table no_reversal (codes "req:2") [] 60
      parted merged refl refl no_reversal (codes "req:3") [] 61 refl refl

commit_rollback-keeps-price_example :
    (o : Order) × (find_by_id order_table 31 parted.orders ≡ ok o)
    × ((c : Order)
        → Occurs c merged.orders
        → ((c.key == 31) ≡ true → c.total_price ≡ o.total_price)
          × ((c.key == 31) ≡ false → is_merged_child 31 c ≡ false))
unfolding commit_rollback sold_order elchi_backend.Order.Status.is_valid_status_transition
commit_rollback-keeps-price_example =
    commit_rollback-keeps-price order_table settlement_table event_table no_reversal (codes "req:2")
      [] 60 parted merged refl

abbrev called_off : Order
called_off = record order { status = cancelled }

abbrev again : Reversal
again = record no_reversal { order = called_off; target = to_cancelled }

abbrev idle : Desk order_table settlement_table event_table
idle = record { orders = called_off ∷ []; settlements = []; outbox = [] }

abbrev paid_back : Desk order_table settlement_table event_table
paid_back =
    ok_or idle
      (commit_rollback order_table settlement_table event_table again (codes "req:4") [] 60 idle)

commit_rollback-again_example :
    (s : Desk order_table settlement_table event_table) × (commit_rollback order_table
        settlement_table event_table again
        (codes "req:5")
        []
        61
        paid_back
      ≡ ok s)
    × (s.outbox
        ≡ enqueue_all order_table settlement_table event_table
            (rollback_events again (codes "req:5") ++ [])
            []
            61
            paid_back.outbox)
unfolding commit_rollback elchi_backend.Order.Status.is_valid_status_transition
commit_rollback-again_example =
    commit_rollback-again order_table settlement_table event_table again (codes "req:4") [] 60 idle
      paid_back refl refl refl (codes "req:5") [] 61

abbrev profit : LedgerEntry
profit = record {
  key = 1;
  amount = pos 130;
  balance_before = pos 0;
  balance_after = pos 130;
  source_type = Ledger.sell_profit;
  order_id = some 31;
  related_user_id = some 9;
  created_by = none;
  is_deleted = false;
}

abbrev ledger_table : Table LedgerEntry LedgerEntry.key
ledger_table = memory LedgerEntry LedgerEntry.key
