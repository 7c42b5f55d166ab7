-- ===== src/Finance/Tests.antt =====
-- The theorems about the cashboxes on one courier's books, in tables held in memory.
use elchi_backend.Prelude.{
  ℕ, ◌≡◌, refl, sym, ◌∙◌, inl, inr, Bool, true, false, Option, none, some, List, [], ◌∷◌, Occurs,
  codes, All-Occurs, IsDistinct, IsDistinct-keyed,
}
use elchi_backend.Prelude.Texts.{trim, is_space}
use elchi_backend.Prelude.Int.{ℤ, pos, negsuc, ◌+ℤ◌}
use elchi_backend.Prelude.Results.{ok, ok_or}
use elchi_backend.Enums.{CashboxType, income, cash, main, for_courier, for_market, branch, sell}
use elchi_backend.Inputs.{missing, id, absent}
use elchi_backend.Store.{Table}
use elchi_backend.Store.Memory.{memory}
use elchi_backend.Common.Outbox.{OutboxEvent}
use elchi_backend.Finance.Cashbox.{
  Cashbox, CashboxHistory, CreateCashboxDto, create_cashbox, Selector, signed, by_user_and_type,
  get_cashbox_by_selector,
}
use elchi_backend.Finance.Balance.{
  UpdateBalanceDto, Applied, replayed, applied, Books, update_balance,
}
use elchi_backend.Finance.Payments.{
  Advance, PaymentDto, Paid, duplicate, paid, Vault, payments_from_courier,
  payment_from_branch_to_main, payments_to_market,
}
use elchi_backend.Finance.Audit.Invariant.{IsSound, history_sum}
use elchi_backend.Finance.Audit.Updates.{update_balance-IsSound}
use elchi_backend.Finance.Audit.Creations.{create_cashbox-IsSound}
use elchi_backend.Finance.Audit.Replays.{update_balance-replay, selects}
use elchi_backend.Finance.Audit.Payments.{
  payments_from_courier-IsSound, payment_from_branch_to_main-IsSound, payments_to_market-IsSound,
}

abbrev cashbox_table : Table Cashbox Cashbox.key
cashbox_table = memory Cashbox Cashbox.key

abbrev history_table : Table CashboxHistory CashboxHistory.key
history_table = memory CashboxHistory CashboxHistory.key

abbrev outbox_table : Table (OutboxEvent Advance) OutboxEvent.key
outbox_table = memory (OutboxEvent Advance) OutboxEvent.key

-- Four cashboxes: the main one, and those of a branch, a courier and a market.
abbrev box : ℕ → ℕ → CashboxType → ℤ → Cashbox
box k u t balance = record {
  key = k;
  user_id = u;
  cashbox_type = t;
  balance = balance;
  balance_cash = balance;
  balance_card = pos 0;
  is_deleted = false;
}

abbrev entry : ℕ → ℕ → ℤ → CashboxHistory
entry k c amount = record {
  key = k;
  operation_type = income;
  cashbox_id = c;
  source_type = sell;
  source_id = some k;
  dedup_epoch = [];
  source_user_id = none;
  amount = amount;
  balance_after = amount;
  balance_cash_after = amount;
  balance_card_after = pos 0;
  payment_method = cash;
  comment = none;
  created_by = none;
  payment_date = none;
  is_deleted = false;
}

abbrev books : Books cashbox_table history_table
books = record {
  cashboxes =
      box 1 0 main (pos 500)
      ∷ box 2 5 branch (pos 300)
      ∷ box 3 7 for_courier (pos 200)
      ∷ box 4 9 for_market (pos 100)
      ∷ [];
  histories =
      entry 1 1 (pos 500) ∷ entry 2 2 (pos 300) ∷ entry 3 3 (pos 200) ∷ entry 4 4 (pos 100) ∷ [];
}

distinct : IsDistinct Cashbox.key books.cashboxes
distinct = (
  ((λ e. cc), ((λ e. cc), ((λ e. cc), tt))),
  (((λ e. cc), ((λ e. cc), tt)), (((λ e. cc), tt), (tt, tt))),
)

books-IsSound : IsSound cashbox_table history_table books
unfolding history_sum ◌+ℤ◌ signed
books-IsSound = record {
  split = λ c o.
      All-Occurs (λ (x : Cashbox). x.balance ≡ x.balance_cash +ℤ x.balance_card) books.cashboxes c
        (refl, (refl, (refl, (refl, tt)))) o;
  booked = λ c o.
      All-Occurs (λ (x : Cashbox). x.balance ≡ history_sum x.key books.histories) books.cashboxes c
        (refl, (refl, (refl, (refl, tt)))) o;
  keyed = IsDistinct-keyed Cashbox.key books.cashboxes distinct;
  entered = λ h o.
      All-Occurs
        (λ (x : CashboxHistory). (c : Cashbox) × Occurs c books.cashboxes × (c.key ≡ x.cashbox_id))
        books.histories h
        (
          (box 1 0 main (pos 500), inl refl, refl),
          (
            (box 2 5 branch (pos 300), inr (inl refl), refl),
            (
              (box 3 7 for_courier (pos 200), inr (inr (inl refl)), refl),
              ((box 4 9 for_market (pos 100), inr (inr (inr (inl refl))), refl), tt),
            ),
          ),
        )
        o;
}

-- A sale posts 50 to the courier's cashbox.
abbrev sale : UpdateBalanceDto
sale = record {
  selector = record { cashbox_id = missing; user_id = id 7; cashbox_type = some for_courier };
  amount = some (pos 50);
  operation_type = income;
  source_type = sell;
  source_id = some 77;
  source_user_id = none;
  payment_method = some cash;
  comment = none;
  created_by = some 7;
  payment_date = absent;
  dedup_epoch = some (codes "req:1");
}

abbrev posted : Applied × Books cashbox_table history_table
posted = ok_or (replayed, books) (update_balance cashbox_table history_table sale books)

update_balance-IsSound_example : IsSound cashbox_table history_table posted.1
unfolding update_balance get_cashbox_by_selector by_user_and_type
    elchi_backend.Inputs.assert_positive_amount elchi_backend.Inputs.assert_big_int_id
    elchi_backend.Inputs.parse_date elchi_backend.Finance.Cashbox.update_balances_by_method
update_balance-IsSound_example =
    update_balance-IsSound cashbox_table history_table sale books posted.0 posted.1 books-IsSound
      refl

-- The sale names one cashbox.
abbrev moved : List Cashbox
moved =
    box 1 0 main (pos 500)
    ∷ box 2 5 branch (pos 300)
    ∷ box 3 7 for_courier (pos 250)
    ∷ box 4 9 for_market (pos 100)
    ∷ []

only_courier : (x : Cashbox) → Occurs x moved → selects sale.selector x ≡ true → x.key ≡ 3
only_courier x o =
    All-Occurs (λ y. selects sale.selector y ≡ true → y.key ≡ 3) moved x
      ((λ e. cc), ((λ e. cc), ((λ e. refl), ((λ e. cc), tt)))) o

update_balance-replay_example :
    update_balance cashbox_table history_table sale posted.1 ≡ ok (replayed, posted.1)
unfolding update_balance get_cashbox_by_selector by_user_and_type
    elchi_backend.Inputs.assert_positive_amount elchi_backend.Inputs.assert_big_int_id
    elchi_backend.Inputs.parse_date elchi_backend.Finance.Cashbox.update_balances_by_method ◌+ℤ◌
    signed
update_balance-replay_example =
    update_balance-replay cashbox_table history_table sale books (box 3 7 for_courier (pos 250))
      posted.1 refl (λ x y ox oy sx sy. only_courier x ox sx ∙ sym (only_courier y oy sy)) refl

abbrev vault : Vault cashbox_table history_table outbox_table
vault = record { books = books; outbox = [] }

-- A payment of `amount` in cash.
abbrev payment : ℕ → ℕ → PaymentDto
payment participant amount = record {
  participant = id participant;
  amount = some (pos amount);
  payment_method = cash;
  payment_date = absent;
  comment = none;
  market_id = missing;
  created_by = some 1;
  receiver_user_id = none;
  receiver_cashbox_type = none;
  dedup_epoch = some (codes "req:2");
}

abbrev from_courier : Paid × Vault cashbox_table history_table outbox_table
from_courier =
    ok_or (duplicate, vault)
      (payments_from_courier cashbox_table history_table outbox_table (payment 7 150) (codes "id")
        10 vault)

payments_from_courier-IsSound_example : IsSound cashbox_table history_table from_courier.1.books
unfolding payments_from_courier elchi_backend.Inputs.assert_big_int_id
    elchi_backend.Inputs.assert_positive_amount elchi_backend.Finance.Payments.is_duplicate_transfer
    elchi_backend.Finance.Payments.dedup_key trim is_space elchi_backend.Inputs.parse_date
    elchi_backend.Finance.Balance.post_leg elchi_backend.Finance.Cashbox.update_balances_by_method
    elchi_backend.Finance.Payments.payment_leg elchi_backend.Finance.Payments.find_or_create ◌+ℤ◌
    signed
payments_from_courier-IsSound_example =
    payments_from_courier-IsSound cashbox_table history_table outbox_table (payment 7 150)
      (codes "id") 10 vault from_courier.0 from_courier.1 books-IsSound tt refl

abbrev from_branch : Paid × Vault cashbox_table history_table outbox_table
from_branch =
    ok_or (duplicate, vault)
      (payment_from_branch_to_main cashbox_table history_table outbox_table (payment 5 100)
        (codes "id") 10 vault)

payment_from_branch_to_main-IsSound_example :
    IsSound cashbox_table history_table from_branch.1.books
unfolding payment_from_branch_to_main elchi_backend.Inputs.assert_big_int_id
    elchi_backend.Inputs.assert_positive_amount elchi_backend.Finance.Payments.is_duplicate_transfer
    elchi_backend.Finance.Payments.dedup_key trim is_space elchi_backend.Inputs.parse_date
    elchi_backend.Finance.Balance.post_leg elchi_backend.Finance.Cashbox.update_balances_by_method
    elchi_backend.Finance.Payments.payment_leg ◌+ℤ◌ signed elchi_backend.Prelude.Int.neg
    elchi_backend.Finance.Payments.find_or_create
payment_from_branch_to_main-IsSound_example =
    payment_from_branch_to_main-IsSound cashbox_table history_table outbox_table (payment 5 100)
      (codes "id") 10 vault from_branch.0 from_branch.1 books-IsSound refl

abbrev to_market : Paid × Vault cashbox_table history_table outbox_table
to_market =
    ok_or (duplicate, vault)
      (payments_to_market cashbox_table history_table outbox_table (payment 9 80) (codes "id") 10
        vault)

payments_to_market-IsSound_example : IsSound cashbox_table history_table to_market.1.books
unfolding payments_to_market elchi_backend.Inputs.assert_big_int_id
    elchi_backend.Inputs.assert_positive_amount elchi_backend.Finance.Payments.is_duplicate_transfer
    elchi_backend.Finance.Payments.dedup_key trim is_space elchi_backend.Inputs.parse_date
    elchi_backend.Finance.Balance.post_leg elchi_backend.Finance.Cashbox.update_balances_by_method
    elchi_backend.Finance.Payments.payment_leg ◌+ℤ◌ signed elchi_backend.Prelude.Int.neg
payments_to_market-IsSound_example =
    payments_to_market-IsSound cashbox_table history_table outbox_table (payment 9 80) (codes "id")
      10 vault to_market.0 to_market.1 books-IsSound refl

-- A second courier, 8, is given a cashbox.
abbrev new_courier : CreateCashboxDto
new_courier = record {
  user_id = id 8;
  cashbox_type = for_courier;
  balance = none;
  balance_cash = none;
  balance_card = none;
}

abbrev with_courier : List Cashbox
with_courier = ok_or [] (create_cashbox cashbox_table new_courier books.cashboxes)

create_cashbox-IsSound_example :
    IsSound cashbox_table history_table (record books { cashboxes = with_courier })
    × (create_cashbox cashbox_table new_courier with_courier ≡ ok with_courier)
unfolding create_cashbox elchi_backend.Inputs.assert_big_int_id
create_cashbox-IsSound_example =
    create_cashbox-IsSound cashbox_table history_table new_courier books with_courier refl refl refl
      books-IsSound refl
