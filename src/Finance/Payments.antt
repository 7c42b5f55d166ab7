-- ===== src/Finance/Payments.antt =====
-- The three lump-sum payments of the finance service along the chain courier → branch → main →
-- market. Each moves two cashboxes (four, for a click that goes through to the market) and
-- enqueues the advance of the settlement ledger, in one transaction.
use elchi_backend.Prelude.{
  ℕ, Bool, true, false, not, ◌&&◌, Option, none, some, ◌==◌, if◌then◌else◌, or_else, is_some, Text,
  is_empty, trim, [], codes,
}
use elchi_backend.Prelude.Int.{ℤ, pos, ltb_ℤ}
use elchi_backend.Prelude.Results.{
  bad_request, not_found, internal, Result, ok, err, ◌>>=◌, ◌>>◌, guard, or_throw,
}
use elchi_backend.Enums.{
  OperationType, income, expense, PaymentMethod, click_to_market, CashboxType, main, for_courier,
  for_market, branch, SourceType, courier_payment, branch_to_main, market_payment, same_type,
}
use elchi_backend.Inputs.{
  IdArg, missing, malformed, id, is_missing, DateArg, parse_date, assert_big_int_id,
  assert_positive_amount,
}
use elchi_backend.Store.{Table}
use elchi_backend.Common.Outbox.{OutboxEvent, enqueue}
use elchi_backend.Finance.Cashbox.{Cashbox, CashboxHistory, belongs_to}
use elchi_backend.Finance.Balance.{Books, Leg, same_event, post_leg}

-- The level of the settlement ledger that a payment advances.
pub data Level : Type 0 where
  courier_to_branch branch_to_hq hq_to_market : Level

-- The payload of `order.settlement.advance`.
pub record Advance : Type 0 where
  pub level : Level
  pub match_value : ℕ
  pub amount : ℤ
  pub requester_id : Option ℕ

-- What a payment request carries. `participant` is the courier, the branch or the market.
pub record PaymentDto : Type 0 where
  pub participant : IdArg
  pub amount : Option ℤ
  pub payment_method : PaymentMethod
  pub payment_date : DateArg
  pub comment : Option Text
  pub market_id : IdArg
  pub created_by : Option ℕ
  pub receiver_user_id : Option ℕ
  pub receiver_cashbox_type : Option CashboxType
  pub dedup_epoch : Option Text

-- The user id of the main cashbox, '0'.
abbrev pub main_user_id : ℕ
main_user_id = 0

-- The queue of the order service and the message that advances its settlement ledger.
abbrev pub order_target : Text
order_target = codes "ORDER"

abbrev pub advance_pattern : Text
advance_pattern = codes "order.settlement.advance"

abbrev pub is_click_to_market : PaymentMethod → Bool
is_click_to_market click_to_market = true
is_click_to_market _ = false

-- `where: { user_id, cashbox_type }`, deleted rows included
abbrev pub ever_belonged_to : ℕ → CashboxType → Cashbox → Bool
ever_belonged_to u t c = (c.user_id == u) && same_type c.cashbox_type t

-- The trimmed token of a request.
unfoldable pub dedup_key : PaymentDto → Text
dedup_key dto = trim (or_else dto.dedup_epoch [])

-- The leg of a payment on one cashbox.
unfoldable pub payment_leg :
    OperationType → SourceType → Option ℕ → Text → ℕ → ℤ → PaymentDto → Option ℕ → Leg
payment_leg operation source source_id token source_user amount dto date = record {
  operation_type = operation;
  source_type = source;
  source_id = source_id;
  dedup_epoch = token;
  source_user_id = some source_user;
  amount = amount;
  payment_method = dto.payment_method;
  comment = dto.comment;
  created_by = dto.created_by;
  payment_date = date;
}

-- The source id of the first leg: only a request with a token is found again by it.
abbrev pub payment_source_id : Text → ℕ → Option ℕ
payment_source_id token participant = if is_empty token then none else some participant

-- The outcome of a payment: a duplicate, or the cashboxes that paid and received.
pub data Paid : Type 0 where
  duplicate : Paid
  paid : Cashbox → Cashbox → Paid

module _ (C : Table Cashbox Cashbox.key) (H : Table CashboxHistory CashboxHistory.key)
    (O : Table (OutboxEvent Advance) OutboxEvent.key) where
  -- The tables of the finance schema that a payment touches.
  pub record Vault : Type 0 where
    pub books : Books C H
    pub outbox : O.State

  -- `isDuplicateTransfer`
  unfoldable pub is_duplicate_transfer :
      ℕ → SourceType → ℕ → OperationType → Text → Books C H → Bool
  is_duplicate_transfer cashbox_id source source_id operation token s =
      not (is_empty token)
      && is_some
          (H.find_one s.histories (same_event cashbox_id source operation (some source_id) token))

  -- A new cashbox with nothing in it.
  abbrev pub empty_cashbox : ℕ → ℕ → CashboxType → Cashbox
  empty_cashbox k u t = record {
    key = k;
    user_id = u;
    cashbox_type = t;
    balance = pos 0;
    balance_cash = pos 0;
    balance_card = pos 0;
    is_deleted = false;
  }

  -- The cashbox that a condition finds, or a new one.
  unfoldable pub find_or_create :
      (Cashbox → Bool) → ℕ → CashboxType → Books C H → Cashbox × Books C H
  find_or_create q u t s = elim (C.find_one s.cashboxes q) [
    | some c ↦ (c, s)
    | none ↦
        let c = empty_cashbox (C.next_key s.cashboxes) u t in
        (c, record s { cashboxes = C.insert s.cashboxes c })
  ]

  -- `enqueueSettlementAdvance`
  unfoldable pub enqueue_settlement_advance :
      Level → ℕ → ℤ → Option ℕ → Text → Text → ℕ → O.State → O.State
  enqueue_settlement_advance level match_value amount requester token uuid now =
      let own = if is_empty token then none else some token in
      enqueue O order_target advance_pattern
        (record {
          level = level;
          match_value = match_value;
          amount = amount;
          requester_id = requester;
        })
        own own none uuid now

  -- The part of a click payment that goes through to the market: the receiver and the market are
  -- both debited.
  unfoldable pub pass_to_market :
      Cashbox → ℤ → PaymentDto → Option ℕ → IdArg → Books C H → Result (Cashbox × Books C H)
  pass_to_market receiver amount dto date missing s = ok (receiver, s)
  pass_to_market receiver amount dto date malformed s = err internal
  pass_to_market receiver amount dto date (id market) s = do
    m ← or_throw (C.find_one s.cashboxes (ever_belonged_to market for_market)) not_found
    let leg = payment_leg expense market_payment none [] market amount dto date
    r ← post_leg C H receiver leg false s
    q ← post_leg C H m leg false r.1
    ok (r.0, q.1)

  -- How each payment ends: a duplicate commits nothing, else the transfer and the enqueued advance
  -- are committed together.
  unfoldable pub commit_payment :
      Bool
      → Result (Cashbox × Cashbox × Books C H)
      → (O.State → O.State)
      → Vault
      → Result (Paid × Vault)
  commit_payment true transfer advance v = ok (duplicate, v)
  commit_payment false transfer advance v = do
    t ← transfer
    ok (paid t.0 t.1, record { books = t.2; outbox = advance v.outbox })

  -- `paymentsFromCourier`, after its idempotency check
  unfoldable pub transfer_from_courier :
      Cashbox → ℕ → ℤ → Text → PaymentDto → Books C H → Result (Cashbox × Cashbox × Books C H)
  transfer_from_courier c courier amount token dto s = do
    guard (not (ltb_ℤ c.balance amount)) bad_request
    let user = or_else dto.receiver_user_id main_user_id
    let kind = or_else dto.receiver_cashbox_type main
    let (receiver, s0) = find_or_create (belongs_to user kind) user kind s
    date ← parse_date dto.payment_date
    p ←
        post_leg C H c
          (payment_leg expense courier_payment (payment_source_id token courier) token courier
            amount dto date)
          false s0
    r ←
        post_leg C H receiver (payment_leg income courier_payment none [] courier amount dto date)
          false p.1
    q ←
        if is_click_to_market dto.payment_method
        then pass_to_market r.0 amount dto date dto.market_id r.1
        else ok r
    ok (p.0, q.0, q.1)

  -- `paymentsFromCourier`
  unfoldable pub payments_from_courier : PaymentDto → Text → ℕ → Vault → Result (Paid × Vault)
  unfolding transfer_from_courier commit_payment
  payments_from_courier dto uuid now v = do
    courier ← assert_big_int_id dto.participant
    amount ← assert_positive_amount dto.amount
    guard (not (is_click_to_market dto.payment_method && is_missing dto.market_id)) bad_request
    c ← or_throw (C.find_one v.books.cashboxes (belongs_to courier for_courier)) not_found
    let token = dedup_key dto
    commit_payment (is_duplicate_transfer c.key courier_payment courier expense token v.books)
        (transfer_from_courier c courier amount token dto v.books)
        (enqueue_settlement_advance courier_to_branch courier amount dto.created_by token uuid now)
        v

  -- `paymentFromBranchToMain`, after its idempotency check
  unfoldable pub transfer_from_branch :
      Cashbox → ℕ → ℤ → Text → PaymentDto → Books C H → Result (Cashbox × Cashbox × Books C H)
  transfer_from_branch c branch_id amount token dto s = do
    let (receiver, s0) = find_or_create (ever_belonged_to main_user_id main) main_user_id main s
    date ← parse_date dto.payment_date
    p ←
        post_leg C H c
          (payment_leg expense branch_to_main (payment_source_id token branch_id) token branch_id
            amount dto date)
          false s0
    r ←
        post_leg C H receiver (payment_leg income branch_to_main none [] branch_id amount dto date)
          false p.1
    ok (p.0, r.0, r.1)

  -- `paymentFromBranchToMain`
  unfoldable pub payment_from_branch_to_main : PaymentDto → Text → ℕ → Vault → Result (Paid × Vault)
  unfolding transfer_from_branch commit_payment
  payment_from_branch_to_main dto uuid now v = do
    branch_id ← assert_big_int_id dto.participant
    amount ← assert_positive_amount dto.amount
    c ← or_throw (C.find_one v.books.cashboxes (ever_belonged_to branch_id branch)) not_found
    let token = dedup_key dto
    commit_payment (is_duplicate_transfer c.key branch_to_main branch_id expense token v.books)
        (transfer_from_branch c branch_id amount token dto v.books)
        (enqueue_settlement_advance branch_to_hq branch_id amount dto.created_by token uuid now) v

  -- `paymentsToMarket`, after its idempotency check: the main cashbox pays, and what is owed to the
  -- market falls.
  unfoldable pub transfer_to_market :
      Cashbox
      → Cashbox
      → ℕ
      → ℤ
      → Text
      → PaymentDto
      → Books C H
      → Result (Cashbox × Cashbox × Books C H)
  transfer_to_market c m market amount token dto s = do
    date ← parse_date dto.payment_date
    p ←
        post_leg C H c
          (payment_leg expense market_payment (payment_source_id token market) token market amount
            dto date)
          false s
    r ← post_leg C H m (payment_leg expense market_payment none [] market amount dto date) false p.1
    ok (p.0, r.0, r.1)

  -- `paymentsToMarket`
  unfoldable pub payments_to_market : PaymentDto → Text → ℕ → Vault → Result (Paid × Vault)
  unfolding transfer_to_market commit_payment
  payments_to_market dto uuid now v = do
    market ← assert_big_int_id dto.participant
    amount ← assert_positive_amount dto.amount
    c ← or_throw (C.find_one v.books.cashboxes (ever_belonged_to main_user_id main)) not_found
    m ← or_throw (C.find_one v.books.cashboxes (ever_belonged_to market for_market)) not_found
    let token = dedup_key dto
    commit_payment (is_duplicate_transfer c.key market_payment market expense token v.books)
        (transfer_to_market c m market amount token dto v.books)
        (enqueue_settlement_advance hq_to_market market amount dto.created_by token uuid now) v
