-- ===== src/Finance/LedgerTests.antt =====
-- The theorems about the ledger and the earnings of operators at concrete entries.
use elchi_backend.Prelude.{
  ℕ, ◌≡◌, ◌≤◌, refl, inl, inr, true, false, Option, none, some, List, [], ◌∷◌, Occurs, arith, ◌⊎◌,
}
use elchi_backend.Prelude.Int.{ℤ, pos, negsuc, pos_part, ◌-ℤ◌}
use elchi_backend.Prelude.Results.{Result, ok, ok_or}
use elchi_backend.Inputs.{id, missing}
use elchi_backend.Store.{Table}
use elchi_backend.Store.Memory.{memory}
use elchi_backend.Finance.Ledger.{
  LedgerEntry, LedgerInput, sell_profit, sell_extra_cost, current_balance, record_financial_balance,
}
use elchi_backend.Finance.Ledger.Running.{
  IsRunning, sum_of, record_financial_balance-IsRunning, current_balance-sum,
}
use elchi_backend.Finance.Ledger.Counted.{entries_of, record_all-refines}
use elchi_backend.Finance.Ledger.Recorded.{has_entry, record_all}
use elchi_backend.Finance.Operators.{
  percent, Commission, OperatorEarning, OperatorPayment, EarningInput, record_operator_earning,
  remove_operator_earning, earned,
}
use elchi_backend.Finance.Operators.Earned.{IsUnique, remove_operator_earning-final}

abbrev ledger_table : Table LedgerEntry LedgerEntry.key
ledger_table = memory LedgerEntry LedgerEntry.key

abbrev profit : LedgerInput
profit = record {
  amount = some (pos 130);
  source_type = sell_profit;
  order_id = some 31;
  related_user_id = some 9;
  created_by = none;
}

abbrev cost : LedgerInput
cost = record profit { amount = some (negsuc 9); source_type = sell_extra_cost }

-- A ledger with one entry.
abbrev opened : List LedgerEntry
opened =
    record {
      key = 1;
      amount = pos 130;
      balance_before = pos 0;
      balance_after = pos 130;
      source_type = sell_profit;
      order_id = some 31;
      related_user_id = some 9;
      created_by = none;
      is_deleted = false;
    }
    ∷ []

opened-IsRunning : IsRunning ledger_table opened
unfolding elchi_backend.Prelude.Int.◌+ℤ◌
opened-IsRunning e (inl h) = rw h (refl, refl, refl)
opened-IsRunning e (inr h) = elim h [ ]

record_financial_balance-IsRunning_example :
    IsRunning ledger_table (record_financial_balance ledger_table cost opened)
record_financial_balance-IsRunning_example =
    record_financial_balance-IsRunning ledger_table cost opened opened-IsRunning

current_balance-sum_example : current_balance ledger_table opened ≡ sum_of opened
current_balance-sum_example = current_balance-sum ledger_table opened opened-IsRunning

record_all-refines_example :
    let after = record_all ledger_table (cost ∷ profit ∷ cost ∷ profit ∷ []) [] in
    (has_entry ledger_table 31 sell_profit after ≡ true)
    × (entries_of ledger_table 31 sell_profit after ≡ 1)
record_all-refines_example =
    record_all-refines ledger_table (cost ∷ profit ∷ cost ∷ profit ∷ []) [] 31 sell_profit

abbrev earning_table : Table OperatorEarning OperatorEarning.key
earning_table = memory OperatorEarning OperatorEarning.key

abbrev payment_table : Table OperatorPayment OperatorPayment.key
payment_table = memory OperatorPayment OperatorPayment.key

-- Operator 4 has earned 5 percent of an order at 1000.
abbrev earning : OperatorEarning
earning = record {
  key = 1;
  operator_id = 4;
  order_id = 31;
  market_id = some 9;
  amount = 50;
  commission_type = some percent;
  commission_value = some (pos 500);
  order_total_price = pos 1000;
  is_deleted = false;
}

abbrev sale : EarningInput
sale = record {
  order_id = id 31;
  operator_id = id 4;
  market_id = some 9;
  total_price = some (pos 1000);
}

abbrev five_percent : ℕ → Result (Option Commission)
five_percent u =
    ok (some (record { commission_type = some percent; commission_value = some (pos 500) }))

abbrev removed_earnings : List OperatorEarning
removed_earnings = ok_or [] (remove_operator_earning earning_table (id 31) (earning ∷ []))

abbrev earnings_again : List OperatorEarning
earnings_again = ok_or [] (record_operator_earning earning_table five_percent sale removed_earnings)

earning-IsUnique : IsUnique earning_table (earning ∷ [])
earning-IsUnique x y (inl h) (inl k) same = rw (h, k) refl
earning-IsUnique x y (inl h) (inr k) same = elim k [ ]
earning-IsUnique x y (inr h) o same = elim h [ ]

remove_operator_earning-final_example : earned 4 earnings_again ≡ earned 4 removed_earnings
unfolding remove_operator_earning elchi_backend.Inputs.assert_big_int_id record_operator_earning
remove_operator_earning-final_example =
    remove_operator_earning-final earning_table five_percent sale (earning ∷ []) removed_earnings
      earnings_again 4 earning earning-IsUnique (inl refl) refl refl refl
