-- ===== src/Finance/ShiftTests.antt =====
-- The theorems about shifts at the day of one cashier.
use elchi_backend.Prelude.{ℕ, false, none, some, List, [], ◌∷◌}
use elchi_backend.Prelude.Int.{ℤ, pos}
use elchi_backend.Prelude.Results.{ok_or}
use elchi_backend.Enums.{OperationType, income, expense, PaymentMethod, cash, click, sell}
use elchi_backend.Inputs.{id, missing}
use elchi_backend.Store.{Table}
use elchi_backend.Store.Memory.{memory}
use elchi_backend.Finance.Cashbox.{CashboxHistory}
use elchi_backend.Finance.Shifts.{Shift, OpenShiftDto, CloseShiftDto, open_shift, close_shift}
use elchi_backend.Finance.Shifts.Totals.{HasOneOpen}

abbrev shift_table : Table Shift Shift.key
shift_table = memory Shift Shift.key

abbrev history_table : Table CashboxHistory CashboxHistory.key
history_table = memory CashboxHistory CashboxHistory.key

abbrev row : ℕ → OperationType → PaymentMethod → ℤ → CashboxHistory
row k operation method amount = record {
  key = k;
  operation_type = operation;
  cashbox_id = 1;
  source_type = sell;
  source_id = some k;
  dedup_epoch = [];
  source_user_id = none;
  amount = amount;
  balance_after = pos 0;
  balance_cash_after = pos 0;
  balance_card_after = pos 0;
  payment_method = method;
  comment = none;
  created_by = none;
  payment_date = none;
  is_deleted = false;
}

abbrev history : List CashboxHistory
history = row 1 income cash (pos 70) ∷ row 2 expense cash (pos 20) ∷ row 3 income click (pos 5) ∷ []

abbrev opening : OpenShiftDto
opening = record {
  opened_by = id 6;
  opening_balance_cash = some (pos 100);
  opening_balance_card = none;
}

abbrev morning : List Shift
morning = ok_or [] (open_shift shift_table opening 0 [])

nothing-HasOneOpen : HasOneOpen shift_table []
nothing-HasOneOpen user x y h k p q = elim h [ ]

abbrev closing : CloseShiftDto
closing = record {
  closed_by = id 6;
  shift_id = missing;
  opened_by = id 6;
  closing_balance_cash = some (pos 150);
  closing_balance_card = none;
}

-- Rows are written at the times that their ids say.
abbrev written_at : ℕ → ℕ
written_at k = k

abbrev evening : List Shift
evening = ok_or [] (close_shift shift_table history_table written_at closing 9 history morning)
