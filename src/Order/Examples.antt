-- ===== src/Order/Examples.antt =====
-- Orders, requests and tables for the tests of the order service.
use elchi_backend.Prelude.{true, false, none, some, [], ◌∷◌, codes}
use elchi_backend.Prelude.Int.{ℤ, pos, negsuc}
use elchi_backend.Prelude.Results.{ok_or}
use elchi_backend.Enums.{for_courier}
use elchi_backend.Store.{Table}
use elchi_backend.Store.Memory.{memory}
use elchi_backend.Common.Outbox.{OutboxEvent}
use elchi_backend.Order.Status.{waiting, partly_paid}
use elchi_backend.Order.Money.{per_order}
use elchi_backend.Order.Settlement.{OrderSettlement}
use elchi_backend.Order.Sale.{Order, Requester, Actor, Lookups, SellDto, FinanceEvent, Plan}
use elchi_backend.Order.Sale.Commit.{Desk, commit_sale}

abbrev pub settlement_table : Table OrderSettlement OrderSettlement.key
settlement_table = memory OrderSettlement OrderSettlement.key

abbrev pub order_table : Table Order Order.key
order_table = memory Order Order.key

abbrev pub event_table : Table (OutboxEvent FinanceEvent) OutboxEvent.key
event_table = memory (OutboxEvent FinanceEvent) OutboxEvent.key

-- An order of market 9 with courier 7 and branch 5, at 1000.
abbrev pub order : Order
order = record {
  key = 31;
  status = waiting;
  market_id = 9;
  branch_id = some 5;
  holder_branch_id = none;
  courier_id = some 7;
  holder_courier_id = none;
  operator_id = some 4;
  post_id = some 2;
  is_center = false;
  total_price = pos 1000;
  to_be_paid = pos 0;
  paid_amount = pos 0;
  market_tariff = none;
  courier_tariff = none;
  courier_share = none;
  branch_share = none;
  branch_cashbox_amount = none;
  sold_at = none;
  proof_files = [];
  parent_order_id = none;
  return_requested = false;
  canceled_post_id = none;
  is_deleted = false;
}

abbrev pub courier : Requester
courier = record {
  key = 7;
  is_super_admin = false;
  is_courier = true;
  is_manager = false;
  branch_id = none;
}

abbrev pub actor : ℤ → Actor
actor tariff = record {
  tariff_center = pos 0;
  tariff_home = tariff;
  compensation_mode = some per_order;
  expense_proof_conditions = [];
}

abbrev pub lookups : Lookups
lookups = record {
  post_courier = λ post. some 7;
  market_of = λ market. some (actor (pos 300));
  courier_of = λ user. some (actor (pos 120));
  user_of = λ user. none;
  market_balance = λ market. some (negsuc 99);
  has_courier_cashbox = λ user. true;
  settlement_branch = some 5;
  has_branch_cashbox = λ b. true;
  branch_share = λ b. pos 50;
  file_exists = λ key. false;
}

abbrev pub request : SellDto
request = record {
  extra_cost = pos 10;
  paid_amount = none;
  proof_file_keys = [];
  proof_file_keys_verified = false;
}

abbrev pub plan : Plan
plan = record {
  quote = record {
    order = order;
    requester = 7;
    requested = some (pos 0);
    market_balance = negsuc 99;
    extra_cost = pos 10;
    market_tariff = pos 300;
    courier_tariff = pos 120;
    courier_share = pos 120;
    branch_share = pos 50;
    courier = some 7;
    settlement_branch = some 5;
    branch_cashbox = some 5;
    expense_cashbox = some (7, for_courier);
    proof_files = [];
  };
  payment = record { paid_after = pos 100; remaining = pos 600; next_status = partly_paid };
}

abbrev pub desk : Desk order_table settlement_table event_table
desk = record { orders = order ∷ []; settlements = []; outbox = [] }

abbrev pub sold_desk : Desk order_table settlement_table event_table
sold_desk = ok_or desk (
    commit_sale order_table settlement_table event_table plan (codes "req:1")
      (codes "a" ∷ codes "b" ∷ []) 50 desk)
