-- ===== src/Order/Cancel/Tests.antt =====
-- The theorems about cancellations at a concrete order.
use elchi_backend.Prelude.{
  ℕ, ◌≡◌, refl, Bool, true, false, Option, none, some, List, [], ◌∷◌, Text, codes,
}
use elchi_backend.Prelude.Int.{ℤ, pos, ◌+ℤ◌}
use elchi_backend.Prelude.Results.{ok, err, bad_request, ok_or}
use elchi_backend.Enums.{for_courier}
use elchi_backend.Order.Sale.Commit.{Desk, commit_sale}
use elchi_backend.Order.Sale.Measures.{total_of}
use elchi_backend.Order.Rollback.{to_waiting, Reversal}
use elchi_backend.Order.Rollback.Commit.{rollback_events}
use elchi_backend.Order.Rollback.Moves.{move_of}
use elchi_backend.Order.Cancel.{
  CancelDto, CancelPlan, plan_cancel, cancel_events, cancelled_order, commit_cancel,
}
use elchi_backend.Order.Cancel.Undo.{rollback-cancels-cancel}
use elchi_backend.Order.Cancel.Exclusive.{commit_cancel-final, commit_sale-excludes-commit_cancel}
use elchi_backend.Order.Examples.{
  order_table, event_table, settlement_table, order, courier, lookups, request, plan, desk,
  sold_desk,
}

abbrev refusal : CancelDto
refusal = record { extra_cost = pos 10; proof_file_keys = []; proof_file_keys_verified = false }

abbrev cancellation : CancelPlan
cancellation = record {
  order = order;
  requester = 7;
  extra_cost = pos 10;
  bearer = (7, for_courier);
  proof_files = [];
}

-- The courier cancels the order.
planned : plan_cancel lookups courier order refusal ≡ ok cancellation
unfolding plan_cancel elchi_backend.Prelude.Int.max_zero
planned = refl

abbrev reversal : Reversal
reversal = record {
  order = cancelled_order cancellation order;
  requester = 1;
  is_super_admin = true;
  target = to_waiting;
  market_tariff = pos 300;
  courier_tariff = pos 120;
  courier = some 7;
  branch_cashbox = some 5;
  expense_cashbox = some (7, for_courier);
  market_extra = pos 10;
  actor_extra = pos 10;
}

rollback-cancels-cancel_example :
    total_of (move_of 7 for_courier) (cancel_events cancellation (codes "req:1"))
      +ℤ total_of (move_of 7 for_courier) (rollback_events reversal (codes "req:2"))
    ≡ pos 0
rollback-cancels-cancel_example =
    rollback-cancels-cancel cancellation order reversal (codes "req:1") (codes "req:2") 7
      for_courier refl refl refl refl refl

abbrev cancelled_desk : Desk order_table settlement_table event_table
cancelled_desk =
    ok_or desk (
      commit_cancel order_table settlement_table event_table cancellation (codes "req:1") [] 50
        desk)

commit_cancel-final_example :
    (commit_sale order_table settlement_table event_table plan (codes "req:2") [] 51 cancelled_desk
      ≡ err bad_request)
    × (commit_cancel order_table settlement_table event_table cancellation
          (codes "req:2")
          []
          51
          cancelled_desk
        ≡ err bad_request)
unfolding commit_cancel elchi_backend.Order.Status.is_valid_status_transition
commit_cancel-final_example =
    commit_cancel-final order_table settlement_table event_table cancellation (codes "req:1") [] 50
      desk cancelled_desk refl plan cancellation (codes "req:2") [] 51 refl refl

commit_sale-excludes-commit_cancel_example :
    commit_cancel order_table settlement_table event_table cancellation
      (codes "req:2")
      []
      51
      sold_desk
    ≡ err bad_request
unfolding elchi_backend.Order.Sale.Plans.plan_sale elchi_backend.Order.Proof.enforce_operation_proof
    elchi_backend.Order.Money.sale_amounts elchi_backend.Prelude.Int.max_zero
    elchi_backend.Prelude.Int.◌-ℤ◌ elchi_backend.Prelude.Int.min_ℤ ◌+ℤ◌
    elchi_backend.Prelude.Int.neg commit_sale elchi_backend.Order.Status.is_valid_status_transition
commit_sale-excludes-commit_cancel_example =
    commit_sale-excludes-commit_cancel order_table settlement_table event_table lookups courier
      order request plan (codes "req:1") (codes "a" ∷ codes "b" ∷ []) 50 desk sold_desk refl refl
      cancellation (codes "req:2") [] 51 refl
