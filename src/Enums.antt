-- ===== src/Enums.antt =====
-- The enums of libs/common/enums/index.ts that the modelled services branch on. Each has a code,
-- by which `===` on its members is a test on numbers.
use elchi_backend.Prelude.{ℕ, Bool, ◌==◌}

-- `Operation_type`
pub data OperationType : Type 0 where
  income expense : OperationType

-- `PaymentMethod`
pub data PaymentMethod : Type 0 where
  cash click click_to_market : PaymentMethod

-- `Cashbox_type`
pub data CashboxType : Type 0 where
  main for_courier for_market branch : CashboxType

-- `Source_type`
pub data SourceType : Type 0 where
  courier_payment branch_to_main market_payment manual_expense manual_income correction salary sell
        cancel extra_cost bills :
      SourceType

abbrev pub OperationType_code : OperationType → ℕ
OperationType_code income = 0
OperationType_code expense = 1

abbrev pub CashboxType_code : CashboxType → ℕ
CashboxType_code main = 0
CashboxType_code for_courier = 1
CashboxType_code for_market = 2
CashboxType_code branch = 3

abbrev pub SourceType_code : SourceType → ℕ
SourceType_code courier_payment = 0
SourceType_code branch_to_main = 1
SourceType_code market_payment = 2
SourceType_code manual_expense = 3
SourceType_code manual_income = 4
SourceType_code correction = 5
SourceType_code salary = 6
SourceType_code sell = 7
SourceType_code cancel = 8
SourceType_code extra_cost = 9
SourceType_code bills = 10

abbrev pub is_income : OperationType → Bool
is_income o = OperationType_code o == 0

abbrev pub same_operation : OperationType → OperationType → Bool
same_operation a b = OperationType_code a == OperationType_code b

abbrev pub same_type : CashboxType → CashboxType → Bool
same_type a b = CashboxType_code a == CashboxType_code b

abbrev pub same_source : SourceType → SourceType → Bool
same_source a b = SourceType_code a == SourceType_code b
