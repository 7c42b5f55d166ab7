-- ===== src/Finance/Cashbox.antt =====
-- Cashboxes and their history: the entities of apps/finance-service/src/entities, and the helpers
-- of FinanceServiceService that move the balances of one cashbox. Amounts are whole tiyin, the
-- unit of the numeric(20,2) columns.
use elchi_backend.Prelude.{
  ℕ, Bool, false, or_else, not, ◌&&◌, ◌||◌, Option, none, some, ◌==◌, if◌then◌else◌, Text,
}
use elchi_backend.Prelude.Int.{ℤ, pos, ◌+ℤ◌, neg, ltb_ℤ}
use elchi_backend.Prelude.Results.{
  bad_request, not_found, Result, ok, err, ◌>>=◌, ◌>>◌, guard, or_throw,
}
use elchi_backend.Enums.{
  OperationType, income, expense, PaymentMethod, cash, CashboxType, for_courier, for_market,
  SourceType, same_type,
}
use elchi_backend.Inputs.{IdArg, is_missing, assert_big_int_id}
use elchi_backend.Store.{Table}

pub record Cashbox : Type 0 where
  pub key : ℕ  -- id
  pub user_id : ℕ
  pub cashbox_type : CashboxType
  pub balance : ℤ
  pub balance_cash : ℤ
  pub balance_card : ℤ
  pub is_deleted : Bool

pub record CashboxHistory : Type 0 where
  pub key : ℕ  -- id
  pub operation_type : OperationType
  pub cashbox_id : ℕ
  pub source_type : SourceType
  pub source_id : Option ℕ
  pub dedup_epoch : Text
  pub source_user_id : Option ℕ
  pub amount : ℤ
  pub balance_after : ℤ
  pub balance_cash_after : ℤ
  pub balance_card_after : ℤ
  pub payment_method : PaymentMethod
  pub comment : Option Text
  pub created_by : Option ℕ
  pub payment_date : Option ℕ
  pub is_deleted : Bool

-- `sign * amount`
unfoldable pub signed : OperationType → ℤ → ℤ
signed income a = a
signed expense a = neg a

-- `normalizeBalance`
unfoldable pub normalize_balance : Cashbox → Cashbox
normalize_balance c = record c { balance = c.balance_cash +ℤ c.balance_card }

-- Which cashboxes may go below zero.
abbrev pub allows_negative : CashboxType → Bool → Bool
allows_negative t override = same_type t for_market || same_type t for_courier || override

-- `updateBalancesByMethod`: only cash moves the cash balance, every other method the card balance.
unfoldable pub update_balances_by_method :
    Cashbox → ℤ → OperationType → PaymentMethod → Bool → Result Cashbox
unfolding normalize_balance
update_balances_by_method c amount operation cash override =
    let next_cash = c.balance_cash +ℤ signed operation amount in
    if not (allows_negative c.cashbox_type override) && ltb_ℤ next_cash (pos 0)
    then err bad_request
    else ok (normalize_balance (record c { balance_cash = next_cash }))
update_balances_by_method c amount operation _ override =
    let next_card = c.balance_card +ℤ signed operation amount in
    if not (allows_negative c.cashbox_type override) && ltb_ℤ next_card (pos 0)
    then err bad_request
    else ok (normalize_balance (record c { balance_card = next_card }))

-- How a request names a cashbox.
pub record Selector : Type 0 where
  pub cashbox_id : IdArg
  pub user_id : IdArg
  pub cashbox_type : Option CashboxType

-- `where: { id, isDeleted: false }`
abbrev pub has_key : ℕ → Cashbox → Bool
has_key k c = (c.key == k) && not c.is_deleted

-- `where: { user_id, cashbox_type, isDeleted: false }`
abbrev pub belongs_to : ℕ → CashboxType → Cashbox → Bool
belongs_to u t c = (c.user_id == u) && same_type c.cashbox_type t && not c.is_deleted

module _ (C : Table Cashbox Cashbox.key) where
  unfoldable pub by_user_and_type : IdArg → Option CashboxType → C.State → Result Cashbox
  by_user_and_type user none s = err bad_request
  by_user_and_type user (some t) s = do
    guard (not (is_missing user)) bad_request
    u ← assert_big_int_id user
    or_throw (C.find_one s (belongs_to u t)) not_found

  -- `getCashboxBySelectorWithManager`
  unfoldable pub get_cashbox_by_selector : Selector → C.State → Result Cashbox
  unfolding by_user_and_type
  get_cashbox_by_selector q s =
      if not (is_missing q.cashbox_id)
      then assert_big_int_id q.cashbox_id >>= (λ k. or_throw (C.find_one s (has_key k)) not_found)
      else by_user_and_type q.user_id q.cashbox_type s

  -- `manager.save(cashbox)` of a row that was loaded
  unfoldable pub save_cashbox : Cashbox → C.State → C.State
  save_cashbox c s = C.update s (λ r. r.key == c.key) (λ r. c)

-- `CreateCashboxDto`
pub record CreateCashboxDto : Type 0 where
  pub user_id : IdArg
  pub cashbox_type : CashboxType
  pub balance : Option ℤ
  pub balance_cash : Option ℤ
  pub balance_card : Option ℤ

module _ (C : Table Cashbox Cashbox.key) where
  unfoldable pub new_cashbox : CreateCashboxDto → ℕ → C.State → Cashbox
  new_cashbox dto user s =
      let in_cash = or_else dto.balance_cash (pos 0) in
      let by_card = or_else dto.balance_card (pos 0) in
      record {
        key = C.next_key s;
        user_id = user;
        cashbox_type = dto.cashbox_type;
        balance = or_else dto.balance (in_cash +ℤ by_card);
        balance_cash = in_cash;
        balance_card = by_card;
        is_deleted = false;
      }

  -- `createCashbox`
  unfoldable pub create_cashbox : CreateCashboxDto → C.State → Result C.State
  unfolding new_cashbox
  create_cashbox dto s = do
    user ← assert_big_int_id dto.user_id
    ok (elim (C.find_one s (belongs_to user dto.cashbox_type)) [
      | none ↦ C.insert s (new_cashbox dto user s)
      | some c ↦ s
    ])
