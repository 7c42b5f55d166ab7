-- ===== src/Finance/Ledger.antt =====
-- The company-wide ledger: recordFinancialBalance and getCurrentFinancialBalance of
-- FinanceServiceService (apps/finance-service/src/finance-service.service.ts) and the entity
-- FinancialBalanceHistory. The advisory lock makes each call one step.
pub mod Running
pub mod Once
pub mod Recorded
pub mod Counted
use elchi_backend.Prelude.{
  ℕ, Bool, true, false, not, ◌&&◌, Option, none, some, List, [], ◌∷◌, ◌==◌, if◌then◌else◌, opt_eq,
  is_some,
}
use elchi_backend.Prelude.Int.{ℤ, pos, ◌+ℤ◌, eqb_ℤ}
use elchi_backend.Store.{Table}

-- `FinancialSource_type`
pub data FinancialSource : Type 0 where
  sell_profit sell_extra_cost cancel_extra_cost manual_income manual_expense salary correction
        bills :
      FinancialSource

abbrev pub FinancialSource_code : FinancialSource → ℕ
FinancialSource_code sell_profit = 0
FinancialSource_code sell_extra_cost = 1
FinancialSource_code cancel_extra_cost = 2
FinancialSource_code manual_income = 3
FinancialSource_code manual_expense = 4
FinancialSource_code salary = 5
FinancialSource_code correction = 6
FinancialSource_code bills = 7

-- `===` of two sources
abbrev pub same_financial_source : FinancialSource → FinancialSource → Bool
same_financial_source a b = FinancialSource_code a == FinancialSource_code b

-- `FinancialBalanceHistory`, without the comment.
pub record LedgerEntry : Type 0 where
  pub key : ℕ  -- id
  pub amount : ℤ
  pub balance_before : ℤ
  pub balance_after : ℤ
  pub source_type : FinancialSource
  pub order_id : Option ℕ
  pub related_user_id : Option ℕ
  pub created_by : Option ℕ
  pub is_deleted : Bool

-- What is asked for. `amount` is `none` when it is not finite.
pub record LedgerInput : Type 0 where
  pub amount : Option ℤ
  pub source_type : FinancialSource
  pub order_id : Option ℕ
  pub related_user_id : Option ℕ
  pub created_by : Option ℕ

-- `findOne({ order: { id: 'DESC' } })`, of the rows in ascending order
abbrev pub last_of : {A : Type 0} → List A → Option A
last_of [] = none
last_of (x ∷ xs) = elim (last_of xs) [ none ↦ some x | some y ↦ some y ]

abbrev pub balance_of : Option LedgerEntry → ℤ
balance_of none = pos 0
balance_of (some e) = e.balance_after

-- The entry of a source that an order has already.
abbrev pub is_recorded : ℕ → FinancialSource → LedgerEntry → Bool
is_recorded order_id source e =
    opt_eq e.order_id (some order_id) && same_financial_source e.source_type source

module _ (L : Table LedgerEntry LedgerEntry.key) where
  -- `getCurrentFinancialBalance`
  unfoldable pub current_balance : L.State → ℤ
  current_balance s = balance_of (last_of (L.find_by s (λ e. not e.is_deleted) LedgerEntry.key))

  -- The entry that is there already, for an input that an order is linked with.
  unfoldable pub recorded_entry : LedgerInput → L.State → Option LedgerEntry
  recorded_entry i s = elim i.order_id [
    | none ↦ none
    | some o ↦ L.find_one s (is_recorded o i.source_type)
  ]

  -- The row that is appended.
  unfoldable pub next_entry : LedgerInput → ℤ → L.State → LedgerEntry
  next_entry i amount s =
      let before = balance_of (last_of (L.find_by s (λ e. true) LedgerEntry.key)) in
      record {
        key = L.next_key s;
        amount = amount;
        balance_before = before;
        balance_after = before +ℤ amount;
        source_type = i.source_type;
        order_id = i.order_id;
        related_user_id = i.related_user_id;
        created_by = i.created_by;
        is_deleted = false;
      }

  abbrev pub append_unless : Option LedgerEntry → LedgerEntry → L.State → L.State
  append_unless none e s = L.insert s e
  append_unless (some old) e s = s

  -- `recordFinancialBalance`
  unfoldable pub record_financial_balance : LedgerInput → L.State → L.State
  unfolding recorded_entry next_entry
  record_financial_balance i s = elim i.amount [
    | none ↦ s
    | some a ↦
        if eqb_ℤ a (pos 0) then s else append_unless (recorded_entry i s) (next_entry i a s) s
  ]
