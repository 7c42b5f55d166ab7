-- ===== src/Finance/Shifts.antt =====
-- The shifts of cashiers: openShift and closeShift of FinanceServiceService
-- (apps/finance-service/src/finance-service.service.ts) and the entity Shift. The time at which a
-- history row was written is given by its id. Comments and activity logs are not modelled, nor the
-- unique index on open shifts, which repeats the check of openShift.
pub mod Sums
pub mod Totals
use elchi_backend.Prelude.{
  ℕ, Bool, true, false, not, ◌&&◌, Option, none, some, List, [], ◌∷◌, ◌==◌, leb, if◌then◌else◌,
  or_else,
}
use elchi_backend.Prelude.Int.{ℤ, pos, ◌+ℤ◌}
use elchi_backend.Prelude.Results.{
  Result, ok, err, ◌>>=◌, ◌>>◌, guard, or_throw, bad_request, not_found,
}
use elchi_backend.Enums.{OperationType, income, expense, PaymentMethod, cash}
use elchi_backend.Inputs.{IdArg, missing, malformed, id, assert_big_int_id}
use elchi_backend.Store.{Table}
use elchi_backend.Finance.Cashbox.{CashboxHistory}
use elchi_backend.Finance.Ledger.{last_of}

-- `ShiftStatus`
pub data ShiftStatus : Type 0 where
  opened closed : ShiftStatus

abbrev pub is_opened : ShiftStatus → Bool
is_opened opened = true
is_opened closed = false

-- `Shift`
pub record Shift : Type 0 where
  pub key : ℕ  -- id
  pub opened_by : ℕ
  pub closed_by : Option ℕ
  pub opened_at : ℕ
  pub closed_at : Option ℕ
  pub status : ShiftStatus
  pub opening_balance_cash : ℤ
  pub opening_balance_card : ℤ
  pub closing_balance_cash : ℤ
  pub closing_balance_card : ℤ
  pub total_income_cash : ℤ
  pub total_income_card : ℤ
  pub total_expense_cash : ℤ
  pub total_expense_card : ℤ

pub record OpenShiftDto : Type 0 where
  pub opened_by : IdArg
  pub opening_balance_cash : Option ℤ
  pub opening_balance_card : Option ℤ

pub record CloseShiftDto : Type 0 where
  pub closed_by : IdArg
  pub shift_id : IdArg
  pub opened_by : IdArg
  pub closing_balance_cash : Option ℤ
  pub closing_balance_card : Option ℤ

abbrev pub is_cash : PaymentMethod → Bool
is_cash cash = true
is_cash _ = false

abbrev pub is_income : OperationType → Bool
is_income income = true
is_income expense = false

-- What a row of the history counts for one of the four totals: the incomes or the expenses, in cash
-- or in another way.
abbrev pub counted : Bool → Bool → CashboxHistory → ℤ
counted true true h =
    if is_income h.operation_type && is_cash h.payment_method then h.amount else pos 0
counted true false h =
    if is_income h.operation_type && not (is_cash h.payment_method) then h.amount else pos 0
counted false true h =
    if not (is_income h.operation_type) && is_cash h.payment_method then h.amount else pos 0
counted false false h =
    if not (is_income h.operation_type) && not (is_cash h.payment_method) then h.amount else pos 0

unfoldable pub total_by : Bool → Bool → List CashboxHistory → ℤ
total_by incomes in_cash [] = pos 0
total_by incomes in_cash (h ∷ hs) = counted incomes in_cash h +ℤ total_by incomes in_cash hs

-- The shift as closeShift writes it
unfoldable pub closed_shift : CloseShiftDto → ℕ → ℕ → List CashboxHistory → Shift → Shift
unfolding total_by
closed_shift dto closer now hs x = record x {
  closed_by = some closer;
  closed_at = some now;
  status = closed;
  total_income_cash = total_by true true hs;
  total_income_card = total_by true false hs;
  total_expense_cash = total_by false true hs;
  total_expense_card = total_by false false hs;
  closing_balance_cash = or_else dto.closing_balance_cash (pos 0);
  closing_balance_card = or_else dto.closing_balance_card (pos 0);
}

module _ (S : Table Shift Shift.key) where
  abbrev pub is_open_of : ℕ → Shift → Bool
  is_open_of user x = (x.opened_by == user) && is_opened x.status

  abbrev pub new_shift : OpenShiftDto → ℕ → ℕ → S.State → Shift
  new_shift dto user now s = record {
    key = S.next_key s;
    opened_by = user;
    closed_by = none;
    opened_at = now;
    closed_at = none;
    status = opened;
    opening_balance_cash = or_else dto.opening_balance_cash (pos 0);
    opening_balance_card = or_else dto.opening_balance_card (pos 0);
    closing_balance_cash = pos 0;
    closing_balance_card = pos 0;
    total_income_cash = pos 0;
    total_income_card = pos 0;
    total_expense_cash = pos 0;
    total_expense_card = pos 0;
  }

  abbrev pub insert_unless : Option Shift → Shift → S.State → Result S.State
  insert_unless none x s = ok (S.insert s x)
  insert_unless (some y) x s = err bad_request

  -- `openShift`
  unfoldable pub open_shift : OpenShiftDto → ℕ → S.State → Result S.State
  open_shift dto now s = do
    user ← assert_big_int_id dto.opened_by
    insert_unless (S.find_one s (is_open_of user)) (new_shift dto user now s) s

  -- The shift that is to be closed: the one that is named, or the latest open one of a user.
  abbrev pub shift_of : IdArg → IdArg → S.State → Result ℕ
  shift_of missing missing s = err not_found
  shift_of missing malformed s = err bad_request
  shift_of missing (id user) s = elim (last_of (S.find_by s (is_open_of user) (λ x. x.opened_at))) [
    | none ↦ err not_found
    | some x ↦ ok x.key
  ]
  shift_of malformed opener s = err bad_request
  shift_of (id k) opener s = ok k

  module _ (H : Table CashboxHistory CashboxHistory.key) (written_at : ℕ → ℕ) where
    -- The rows of the history between two points in time.
    abbrev pub written_between : ℕ → ℕ → H.State → List CashboxHistory
    written_between from to t =
        H.find_by t (λ h. leb from (written_at h.key) && leb (written_at h.key) to)
          CashboxHistory.key

    -- `closeShift`
    unfoldable pub close_shift : CloseShiftDto → ℕ → H.State → S.State → Result S.State
    unfolding closed_shift
    close_shift dto now t s = do
      closer ← assert_big_int_id dto.closed_by
      k ← shift_of dto.shift_id dto.opened_by s
      x ← or_throw (S.find_one s (λ y. y.key == k)) not_found
      guard (is_opened x.status) bad_request
      ok (
          S.update s (λ y. y.key == k)
            (λ y. closed_shift dto closer now (written_between x.opened_at now t) x))
