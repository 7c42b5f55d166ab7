-- ===== src/Finance/Balance.antt =====
-- `updateBalance` of the finance service, with its idempotency check, and the manual expenses and
-- incomes that go through it. A call maps the database to the database after its transaction; a
-- call that throws has rolled its transaction back, so that the database is the one it began with.
use elchi_backend.Prelude.{
  ℕ, Bool, false, not, ◌&&◌, ◌||◌, Option, none, some, ◌==◌, if◌then◌else◌, or_else, is_some,
  opt_eq, Text, text_eq, is_empty, [],
}
use elchi_backend.Prelude.Int.{ℤ}
use elchi_backend.Prelude.Results.{Result, ok, ◌>>=◌}
use elchi_backend.Enums.{
  OperationType, income, expense, PaymentMethod, cash, CashboxType, main, branch, SourceType,
  manual_expense, manual_income, same_type, same_source, same_operation,
}
use elchi_backend.Inputs.{missing, id, absent, DateArg, parse_date, assert_positive_amount}
use elchi_backend.Store.{Table}
use elchi_backend.Finance.Cashbox.{
  Cashbox, CashboxHistory, Selector, update_balances_by_method, get_cashbox_by_selector,
  save_cashbox,
}

-- `UpdateCashboxBalanceDto`, for amounts of whole tiyin; `none` is an amount that is not finite. The
-- dto admits fractions of a tiyin too, which the columns of balances and history round one by one.
pub record UpdateBalanceDto : Type 0 where
  pub selector : Selector
  pub amount : Option ℤ
  pub operation_type : OperationType
  pub source_type : SourceType
  pub source_id : Option ℕ
  pub source_user_id : Option ℕ
  pub payment_method : Option PaymentMethod
  pub comment : Option Text
  pub created_by : Option ℕ
  pub payment_date : DateArg
  pub dedup_epoch : Option Text

-- What a manual expense or income carries; the id of its caller is a number already.
pub record ManualDto : Type 0 where
  pub user_id : ℕ
  pub amount : Option ℤ
  pub method : Option PaymentMethod
  pub comment : Option Text
  pub cashbox_type : Option CashboxType
  pub created_by : Option ℕ
  pub dedup_epoch : Option Text

-- What identifies a business event on a cashbox: the condition of the idempotency check.
abbrev pub same_event : ℕ → SourceType → OperationType → Option ℕ → Text → CashboxHistory → Bool
same_event c source operation source_id token h =
    (h.cashbox_id == c)
    && same_source h.source_type source
    && same_operation h.operation_type operation
    && opt_eq h.source_id source_id
    && text_eq h.dedup_epoch token

-- The fields of a history row that differ from leg to leg.
pub record Leg : Type 0 where
  pub operation_type : OperationType
  pub source_type : SourceType
  pub source_id : Option ℕ
  pub dedup_epoch : Text
  pub source_user_id : Option ℕ
  pub amount : ℤ
  pub payment_method : PaymentMethod
  pub comment : Option Text
  pub created_by : Option ℕ
  pub payment_date : Option ℕ

-- `manager.create(CashboxHistory, ...)` for a cashbox whose balances have been moved.
unfoldable pub history_row : ℕ → Cashbox → Leg → CashboxHistory
history_row k c leg = record {
  key = k;
  operation_type = leg.operation_type;
  cashbox_id = c.key;
  source_type = leg.source_type;
  source_id = leg.source_id;
  dedup_epoch = leg.dedup_epoch;
  source_user_id = leg.source_user_id;
  amount = leg.amount;
  balance_after = c.balance;
  balance_cash_after = c.balance_cash;
  balance_card_after = c.balance_card;
  payment_method = leg.payment_method;
  comment = leg.comment;
  created_by = leg.created_by;
  payment_date = leg.payment_date;
  is_deleted = false;
}

-- The leg that an `updateBalance` request asks for.
abbrev pub dto_leg : UpdateBalanceDto → ℤ → Option ℕ → Leg
dto_leg dto amount date = record {
  operation_type = dto.operation_type;
  source_type = dto.source_type;
  source_id = dto.source_id;
  dedup_epoch = or_else dto.dedup_epoch [];
  source_user_id = dto.source_user_id;
  amount = amount;
  payment_method = or_else dto.payment_method cash;
  comment = dto.comment;
  created_by = dto.created_by;
  payment_date = date;
}

-- The outcome of a call: a duplicate delivery, or the cashbox as it was saved.
pub data Applied : Type 0 where
  replayed : Applied
  applied : Cashbox → Applied

module _ (C : Table Cashbox Cashbox.key) (H : Table CashboxHistory CashboxHistory.key) where
  -- The tables of the finance schema that these calls touch.
  pub record Books : Type 0 where
    pub cashboxes : C.State
    pub histories : H.State

  -- The cashbox that was moved is saved, and the leg is entered into its history.
  unfoldable pub save_leg : Cashbox → Leg → Books → Books
  unfolding save_cashbox history_row
  save_leg c leg s = record {
    cashboxes = save_cashbox C c s.cashboxes;
    histories = H.insert s.histories (history_row (H.next_key s.histories) c leg);
  }

  -- `updateBalancesByMethod` on a loaded cashbox, both saves, and the cashbox for later use.
  unfoldable pub post_leg : Cashbox → Leg → Bool → Books → Result (Cashbox × Books)
  unfolding save_leg
  post_leg c leg override s = do
    c' ← update_balances_by_method c leg.amount leg.operation_type leg.payment_method override
    ok (c', save_leg c' leg s)

  -- A duplicate of an event that carries a source id or a token.
  unfoldable pub is_replay : Cashbox → UpdateBalanceDto → Books → Bool
  is_replay c dto s =
      let token = or_else dto.dedup_epoch [] in
      (is_some dto.source_id || not (is_empty token))
      && is_some (
          H.find_one s.histories
            (same_event c.key dto.source_type dto.operation_type dto.source_id token))

  -- The part of the transaction that follows the lock on the cashbox.
  unfoldable pub apply_balance : Cashbox → ℤ → UpdateBalanceDto → Books → Result (Applied × Books)
  unfolding is_replay post_leg
  apply_balance c amount dto s = if is_replay c dto s then ok (replayed, s) else do
    date ← parse_date dto.payment_date
    r ← post_leg c (dto_leg dto amount date) (same_type c.cashbox_type branch) s
    ok (applied r.0, r.1)

  -- `updateBalance`
  unfoldable pub update_balance : UpdateBalanceDto → Books → Result (Applied × Books)
  unfolding apply_balance
  update_balance dto s = do
    amount ← assert_positive_amount dto.amount
    c ← get_cashbox_by_selector C dto.selector s.cashboxes
    apply_balance c amount dto s

  -- The request that `spendMoney` and `fillTheCashbox` hand on.
  abbrev pub manual_dto : OperationType → SourceType → ManualDto → UpdateBalanceDto
  manual_dto operation source call =
      let kind = or_else call.cashbox_type main in
      let user = if same_type kind main then 0 else call.user_id in
      record {
        selector = record { cashbox_id = missing; user_id = id user; cashbox_type = some kind };
        amount = call.amount;
        operation_type = operation;
        source_type = source;
        source_id = none;
        source_user_id = none;
        payment_method = some (or_else call.method cash);
        comment = call.comment;
        created_by = some (or_else call.created_by call.user_id);
        payment_date = absent;
        dedup_epoch = call.dedup_epoch;
      }

  -- `spendMoney`
  unfoldable pub spend_money : ManualDto → Books → Result (Applied × Books)
  unfolding update_balance
  spend_money call s = update_balance (manual_dto expense manual_expense call) s

  -- `fillTheCashbox`
  unfoldable pub fill_the_cashbox : ManualDto → Books → Result (Applied × Books)
  unfolding update_balance
  fill_the_cashbox call s = update_balance (manual_dto income manual_income call) s
