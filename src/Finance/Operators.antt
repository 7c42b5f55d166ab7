-- ===== src/Finance/Operators.antt =====
-- The earnings of operators: recordOperatorEarning, removeOperatorEarning, createOperatorPayment,
-- findOperatorBalance and computeCommission of FinanceServiceService
-- (apps/finance-service/src/finance-service.service.ts). Prices and amounts are whole tiyin and
-- percentages are in hundredths; a commission that is not whole is rounded by its numeric(14,2)
-- column. Activity logs are not modelled, nor the arithmetic of floating-point numbers.
pub mod Earned
use elchi_backend.Prelude.{
  ℕ, ◌+◌, ◌*◌, ◌/◌, Bool, true, false, not, ◌&&◌, Option, none, some, List, [], ◌∷◌, ◌==◌,
  if◌then◌else◌, Text, is_some, or_else,
}
use elchi_backend.Prelude.Int.{ℤ, pos, pos_part, ◌+ℤ◌, ◌-ℤ◌, ltb_ℤ, leb_ℤ}
use elchi_backend.Prelude.Results.{Result, ok, err, ◌>>=◌, ◌>>◌}
use elchi_backend.Inputs.{IdArg, id, missing, malformed, assert_big_int_id, assert_positive_amount}
use elchi_backend.Store.{Table}

-- `Commission_type`; any other text is `unknown`.
pub data CommissionType : Type 0 where
  percent fixed unknown : CommissionType

-- What the identity service knows of an operator. A value that is not finite is `none`.
pub record Commission : Type 0 where
  pub commission_type : Option CommissionType
  pub commission_value : Option ℤ

-- `computeCommission`, in ten-thousandths of a tiyin.
unfoldable pub compute_commission : Option CommissionType → Option ℤ → ℤ → ℕ
compute_commission none value total_price = 0
compute_commission (some t) none total_price = 0
compute_commission (some percent) (some v) total_price = pos_part total_price * pos_part v
compute_commission (some fixed) (some v) total_price = pos_part v * 10000
compute_commission (some unknown) (some v) total_price = 0

-- What the column keeps of it.
unfoldable pub stored_amount : ℕ → ℕ
stored_amount exact = (exact + 5000) / 10000

-- `OperatorEarning`
pub record OperatorEarning : Type 0 where
  pub key : ℕ  -- id
  pub operator_id : ℕ
  pub order_id : ℕ
  pub market_id : Option ℕ
  pub amount : ℕ
  pub commission_type : Option CommissionType
  pub commission_value : Option ℤ
  pub order_total_price : ℤ
  pub is_deleted : Bool

-- `OperatorPayment`
pub record OperatorPayment : Type 0 where
  pub key : ℕ  -- id
  pub operator_id : ℕ
  pub market_id : Option ℕ
  pub paid_by_id : Option ℕ
  pub amount : ℤ
  pub note : Option Text
  pub is_deleted : Bool

pub record EarningInput : Type 0 where
  pub order_id : IdArg
  pub operator_id : IdArg
  pub market_id : Option ℕ
  pub total_price : Option ℤ

pub record PaymentInput : Type 0 where
  pub operator_id : IdArg
  pub market_id : Option ℕ
  pub paid_by_id : Option ℕ
  pub amount : Option ℤ
  pub note : Option Text

abbrev first_id : Option ℕ → Option ℕ → Option ℕ
first_id none old = old
first_id (some m) old = some m

-- `operator?.commission_type ?? null` and `Number(operator?.commission_value ?? 0)`
abbrev pub type_of : Option Commission → Option CommissionType
type_of none = none
type_of (some c) = c.commission_type

abbrev pub value_of : Option Commission → Option ℤ
value_of none = some (pos 0)
value_of (some c) = c.commission_value

-- What a commission comes to for an order.
abbrev pub commission_of : Option Commission → Option ℤ → ℕ
commission_of c total_price =
    compute_commission (type_of c) (value_of c) (or_else total_price (pos 0))

-- The row that is there already, as a new sale of its order rewrites it.
unfoldable pub updated_earning :
    EarningInput → ℕ → Option Commission → ℕ → OperatorEarning → OperatorEarning
updated_earning i operator c exact e = record e {
  amount = stored_amount exact;
  operator_id = operator;
  market_id = first_id i.market_id e.market_id;
  commission_type = type_of c;
  commission_value = value_of c;
  order_total_price = or_else i.total_price (pos 0);
}

module _ (E : Table OperatorEarning OperatorEarning.key) where
  abbrev new_earning : EarningInput → ℕ → ℕ → Option Commission → ℕ → E.State → OperatorEarning
  new_earning i order operator c exact s = record {
    key = E.next_key s;
    operator_id = operator;
    order_id = order;
    market_id = i.market_id;
    amount = stored_amount exact;
    commission_type = type_of c;
    commission_value = value_of c;
    order_total_price = or_else i.total_price (pos 0);
    is_deleted = false;
  }

  -- The part of `recordOperatorEarning` that writes.
  unfoldable pub save_earning : EarningInput → ℕ → ℕ → Option Commission → ℕ → E.State → E.State
  unfolding updated_earning
  save_earning i order operator c exact s = elim (E.find_one s (λ e. e.order_id == order)) [
    | none ↦ E.insert s (new_earning i order operator c exact s)
    | some e ↦ E.update s (λ r. r.key == e.key) (λ r. updated_earning i operator c exact e)
  ]

  abbrev pub earn :
      (ℕ → Result (Option Commission)) → EarningInput → ℕ → IdArg → E.State → Result E.State
  earn fetch i order (id operator) s = do
    c ← fetch operator
    ok (
        if commission_of c i.total_price == 0
        then s
        else save_earning i order operator c (commission_of c i.total_price) s)
  earn fetch i order _ s = ok s

  -- `recordOperatorEarning`; `fetch` is `fetchOperatorCommission`, which asks the identity service.
  unfoldable pub record_operator_earning :
      (ℕ → Result (Option Commission)) → EarningInput → E.State → Result E.State
  unfolding compute_commission save_earning
  record_operator_earning fetch i s = do
    order ← assert_big_int_id i.order_id
    earn fetch i order i.operator_id s

  -- `removeOperatorEarning`
  unfoldable pub remove_operator_earning : IdArg → E.State → Result E.State
  remove_operator_earning order_id s = do
    order ← assert_big_int_id order_id
    ok (elim (E.find_one s (λ e. e.order_id == order)) [
      | none ↦ s
      | some e ↦ E.update s (λ r. r.key == e.key) (λ r. record e { is_deleted = true })
    ])

-- What an operator has earned, of the rows that are not deleted.
abbrev pub earned : ℕ → List OperatorEarning → ℕ
earned operator [] = 0
earned operator (e ∷ es) =
    (if (e.operator_id == operator) && not e.is_deleted then e.amount else 0) + earned operator es

abbrev pub paid : ℕ → List OperatorPayment → ℤ
paid operator [] = pos 0
paid operator (p ∷ ps) =
    (if (p.operator_id == operator) && not p.is_deleted then p.amount else pos 0)
    +ℤ paid operator ps

module _ (E : Table OperatorEarning OperatorEarning.key)
    (P : Table OperatorPayment OperatorPayment.key) where
  -- `createOperatorPayment`
  unfoldable pub create_operator_payment : PaymentInput → P.State → Result P.State
  create_operator_payment i s = do
    operator ← assert_big_int_id i.operator_id
    amount ← assert_positive_amount i.amount
    ok (
        P.insert s (record {
          key = P.next_key s;
          operator_id = operator;
          market_id = i.market_id;
          paid_by_id = i.paid_by_id;
          amount = amount;
          note = i.note;
          is_deleted = false;
        }))

  -- The balance that `findOperatorBalance` returns.
  unfoldable pub find_operator_balance : IdArg → E.State → P.State → Result ℤ
  find_operator_balance operator_id s t = do
    operator ← assert_big_int_id operator_id
    ok (pos (earned operator (E.rows s)) -ℤ paid operator (P.rows t))
