-- ===== src/Order/Settlement.antt =====
-- The settlement ledger of the order service: one row for each sold order, which advances along the
-- chain courier → branch → main → market as lump sums are paid. OrderSettlementService
-- (apps/order-service/src/settlement) advances it; recordSaleSettlement, isSettledToHq and
-- resetSettlementOnRollback (apps/order-service/src/lifecycle) open, read and reset it.
pub mod Hops
pub mod Fifo
pub mod Progress
pub mod Openings
use elchi_backend.Prelude.{
  ℕ, Bool, true, false, not, ◌&&◌, Option, none, some, List, [], ◌∷◌, ◌==◌, if◌then◌else◌, opt_eq,
  is_some, or_else,
}
use elchi_backend.Prelude.Int.{ℤ, pos, ◌+ℤ◌, ◌-ℤ◌, ltb_ℤ, max_zero}
use elchi_backend.Prelude.Results.{Result, ok, err, bad_request}
use elchi_backend.Store.{Table}
use elchi_backend.Finance.Payments.{Level, courier_to_branch, branch_to_hq, hq_to_market}

-- `SettlementStatus`
pub data SettlementStatus : Type 0 where
  pending courier_settled branch_settled market_settled : SettlementStatus

-- How far along the chain the money is.
abbrev pub SettlementStatus_code : SettlementStatus → ℕ
SettlementStatus_code pending = 0
SettlementStatus_code courier_settled = 1
SettlementStatus_code branch_settled = 2
SettlementStatus_code market_settled = 3

abbrev pub same_settlement : SettlementStatus → SettlementStatus → Bool
same_settlement a b = SettlementStatus_code a == SettlementStatus_code b

-- When a leg was settled, and by whom.
pub record Stamp : Type 0 where
  pub at : Option ℕ
  pub by : Option ℕ

abbrev pub no_stamp : Stamp
no_stamp = record { at = none; by = none }

pub record OrderSettlement : Type 0 where
  pub key : ℕ  -- id
  pub order_id : ℕ
  pub courier_id : Option ℕ
  pub branch_id : Option ℕ
  pub market_id : Option ℕ
  pub courier_amount : ℤ
  pub branch_amount : ℤ
  pub market_amount : ℤ
  pub status : SettlementStatus
  pub courier_to_branch_stamp : Stamp
  pub branch_to_hq_stamp : Stamp
  pub hq_to_market_stamp : Stamp
  pub created_at : ℕ
  pub is_deleted : Bool

-- `configs` of `advanceSettlement`: the column that is matched, the statuses, the amount that the
-- leg is worth, and the stamp.
abbrev pub match_column : Level → OrderSettlement → Option ℕ
match_column courier_to_branch r = r.courier_id
match_column branch_to_hq r = r.branch_id
match_column hq_to_market r = r.market_id

abbrev pub from_status : Level → SettlementStatus
from_status courier_to_branch = pending
from_status branch_to_hq = courier_settled
from_status hq_to_market = branch_settled

abbrev pub to_status : Level → SettlementStatus
to_status courier_to_branch = courier_settled
to_status branch_to_hq = branch_settled
to_status hq_to_market = market_settled

abbrev pub amount_field : Level → OrderSettlement → ℤ
amount_field courier_to_branch r = r.courier_amount
amount_field branch_to_hq r = r.branch_amount
amount_field hq_to_market r = r.market_amount

abbrev pub stamped : Level → ℕ → Option ℕ → OrderSettlement → OrderSettlement
stamped courier_to_branch now by r = record r {
  courier_to_branch_stamp = record { at = some now; by = by };
}
stamped branch_to_hq now by r = record r { branch_to_hq_stamp = record { at = some now; by = by } }
stamped hq_to_market now by r = record r { hq_to_market_stamp = record { at = some now; by = by } }

-- What the update of one settled row writes.
abbrev pub advanced : Level → ℕ → Option ℕ → OrderSettlement → OrderSettlement
advanced level now by r = record (stamped level now by r) { status = to_status level }

-- The value of a leg, `Math.max(Number(settlement[amountField] ?? 0), 0)`
abbrev pub leg_amount : Level → OrderSettlement → ℤ
leg_amount level r = max_zero (amount_field level r)

-- The condition under which a row is a candidate.
abbrev pub is_candidate : Level → ℕ → OrderSettlement → Bool
is_candidate level match_value r =
    opt_eq (match_column level r) (some match_value)
    && same_settlement r.status (from_status level)
    && not r.is_deleted

-- `isSettledToHq`
unfoldable pub is_settled_to_hq : Option SettlementStatus → Bool
is_settled_to_hq none = false
is_settled_to_hq (some s) = elim s [ branch_settled ↦ true | market_settled ↦ true | _ ↦ false ]

-- What the sale hands to `recordSaleSettlement`.
pub record SaleSettlement : Type 0 where
  pub order_id : ℕ
  pub courier_id : Option ℕ
  pub branch_id : Option ℕ
  pub market_id : Option ℕ
  pub courier_amount : ℤ
  pub branch_amount : ℤ
  pub market_amount : ℤ
  pub has_courier : Bool

-- The status and the stamps that a new row starts with: a leg with no participant is settled.
abbrev pub initial_status : SaleSettlement → SettlementStatus
initial_status d =
    if d.has_courier
    then pending
    else if is_some d.branch_id
    then courier_settled
    else branch_settled

abbrev pub settlement_fields : SaleSettlement → ℕ → ℕ → ℕ → OrderSettlement
settlement_fields d key created_at now = record {
  key = key;
  order_id = d.order_id;
  courier_id = d.courier_id;
  branch_id = d.branch_id;
  market_id = d.market_id;
  courier_amount = max_zero d.courier_amount;
  branch_amount = max_zero d.branch_amount;
  market_amount = max_zero d.market_amount;
  status = initial_status d;
  courier_to_branch_stamp = if d.has_courier then no_stamp else record { at = some now; by = none };
  branch_to_hq_stamp =
      if d.has_courier
      then no_stamp
      else if is_some d.branch_id
      then no_stamp
      else record { at = some now; by = none };
  hq_to_market_stamp = no_stamp;
  created_at = created_at;
  is_deleted = false;
}

-- What a call of `runFifoSettlement` returns, and the table after it.
pub record Outcome (S : Type 0) : Type 0 where
  pub settled_order_ids : List ℕ
  pub allocated : ℤ
  pub leftover : ℤ
  pub state : S

module _ (T : Table OrderSettlement OrderSettlement.key) where
  -- The loop of `runFifoSettlement` over the candidates. `break` is the branch that drops the rest.
  -- What is left of the sum is returned in `leftover`.
  unfoldable pub fifo : Level → ℕ → Option ℕ → List OrderSettlement → ℤ → T.State → Outcome T.State
  fifo level now by [] remaining s = record {
    settled_order_ids = [];
    allocated = pos 0;
    leftover = remaining;
    state = s;
  }
  fifo level now by (x ∷ xs) remaining s =
      let leg = leg_amount level x in
      let rest =
        fifo level now by xs (if ltb_ℤ (pos 0) leg then remaining -ℤ leg else remaining)
          (T.update s (λ r. r.key == x.key) (advanced level now by)) in
      if ltb_ℤ remaining leg && ltb_ℤ (pos 0) leg
      then record { settled_order_ids = []; allocated = pos 0; leftover = remaining; state = s }
      else record rest {
        settled_order_ids = x.order_id ∷ rest.settled_order_ids;
        allocated = if ltb_ℤ (pos 0) leg then leg +ℤ rest.allocated else rest.allocated;
      }

  -- `runFifoSettlement`, with no cashbox leg to post
  unfoldable pub run_fifo_settlement : Level → ℕ → ℕ → Option ℕ → ℤ → T.State → Outcome T.State
  unfolding fifo
  run_fifo_settlement level match_value now by lump_sum s =
      let sum = max_zero lump_sum in
      let done =
        fifo level now by (T.find_by s (is_candidate level match_value) (λ r. r.created_at)) sum
          s in
      if ltb_ℤ (pos 0) sum
      then record done { leftover = max_zero (sum -ℤ done.allocated) }
      else record { settled_order_ids = []; allocated = pos 0; leftover = sum; state = s }

  -- A call with no requester writes the text 'system' into the bigint column of the stamp: the
  -- update of the first row is refused (22P02), which `handleDbError` makes a bad request, and the
  -- transaction is rolled back.
  unfoldable pub check_requester : Option ℕ → Outcome T.State → Result (Outcome T.State)
  check_requester (some by) done = ok done
  check_requester none done = elim done.settled_order_ids [
    | [] ↦ ok done
    | x ∷ xs ↦ err bad_request
  ]

  -- `advanceSettlement`; `none` is an empty `match_value`
  unfoldable pub advance_settlement :
      Level → Option ℕ → ℤ → ℕ → Option ℕ → T.State → Result (Outcome T.State)
  unfolding run_fifo_settlement check_requester
  advance_settlement level none amount now by s =
      ok (record { settled_order_ids = []; allocated = pos 0; leftover = amount; state = s })
  advance_settlement level (some match_value) amount now by s =
      if ltb_ℤ (pos 0) amount
      then check_requester by (run_fifo_settlement level match_value now by amount s)
      else ok (record { settled_order_ids = []; allocated = pos 0; leftover = amount; state = s })

  -- `recordSaleSettlement`: the row of an order is refreshed, or opened.
  unfoldable pub record_sale_settlement : SaleSettlement → ℕ → T.State → T.State
  record_sale_settlement d now s = elim (T.find_one s (λ r. r.order_id == d.order_id)) [
    | some existing ↦
        T.update s (λ r. r.key == existing.key) (λ r. settlement_fields d r.key r.created_at now)
    | none ↦ T.insert s (settlement_fields d (T.next_key s) now now)
  ]

  -- `resetSettlementOnRollback`
  unfoldable pub reset_settlement_on_rollback : ℕ → T.State → T.State
  reset_settlement_on_rollback order_id s =
      T.update s (λ r. r.order_id == order_id)
        (λ r. record r {
          status = pending;
          courier_to_branch_stamp = no_stamp;
          branch_to_hq_stamp = no_stamp;
          hq_to_market_stamp = no_stamp;
          courier_amount = pos 0;
          branch_amount = pos 0;
          market_amount = pos 0;
          is_deleted = true;
        })
